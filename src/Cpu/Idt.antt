-- ===== src/Cpu/Idt.antt =====
-- kernel/src/cpu/idt.c, and the calls of `idt_set_gate` in isr.c and irq.c of the same folder.
use night.Base.{ℕ, zero, suc, ◌+◌, ◌-◌, ◌*◌, ◌/◌, ◌%◌, ◌^◌, bit_and, ltb, if◌then◌else◌, update}

-- `struct idt_entry`
pub record IdtEntry : Type 0 where
  pub base_lo : ℕ
  pub sel : ℕ
  pub always0 : ℕ
  pub flags : ℕ
  pub base_hi : ℕ

-- `idt` and `idtp`
pub record Idt : Type 0 where
  pub idt : ℕ → IdtEntry
  pub limit : ℕ
  pub base : ℕ

-- `num` is a byte, so every index is in range.
unfoldable pub encode_idt : (base sel flags : ℕ) → IdtEntry
encode_idt base sel flags = record {
  base_lo = bit_and base 0xFFFF;
  sel = sel;
  always0 = 0;
  flags = flags;
  base_hi = bit_and (base / 2 ^ 16) 0xFFFF;
}

unfoldable pub idt_set_gate : (num base sel flags : ℕ) → Idt → Idt
idt_set_gate num base sel flags t = record t {
  idt = update t.idt (num % 2 ^ 8) (encode_idt base sel flags);
}

abbrev pub empty_entry : IdtEntry
empty_entry = record { base_lo = 0; sel = 0; always0 = 0; flags = 0; base_hi = 0 }

-- `address` is that of `idt`; all 256 entries of 8 bytes are cleared.
unfoldable pub idt_install : (address : ℕ) → Idt → Idt
idt_install address t = record {
  idt = λ i. if ltb i 256 then empty_entry else t.idt i;
  limit = 8 * 256 - 1;
  base = address;
}

-- The calls `idt_set_gate(first, stub 0, 0x08, 0x8E)` and so on: `n` of them, from call `k` on.
-- `stub` gives the addresses of the entry points in start.s.
unfoldable pub set_gates : (stub : ℕ → ℕ) (first n k : ℕ) → Idt → Idt
set_gates stub first zero k t = t
set_gates stub first (suc n) k t =
    set_gates stub first n (k + 1) (idt_set_gate (first + k) (stub k) 0x08 0x8E t)

-- `isr_install`, its 32 calls in order.
unfoldable pub isr_install : (isr : ℕ → ℕ) → Idt → Idt
isr_install isr t = set_gates isr 0 32 0 t

-- The 16 calls of `irq_install` behind `irq_remap`.
unfoldable pub irq_gates : (irq : ℕ → ℕ) → Idt → Idt
irq_gates irq t = set_gates irq 32 16 0 t
