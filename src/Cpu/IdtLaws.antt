-- ===== src/Cpu/IdtLaws.antt =====
-- The interrupt table that the kernel sets up at boot.
use night.Base.{
  ℕ, zero, suc, ◌+◌, ◌-◌, ◌*◌, ◌/◌, ◌^◌, ◌<◌, ◌≤◌, ◌≡◌, ltb, leb, if◌then◌else◌, arith, ◌&&◌, ◌==◌,
  refl, Bool-cases, inl, inr, ap,
}
use night.Base.Masks.{bit_and-low}
use night.Cpu.Idt.{
  IdtEntry, Idt, encode_idt, idt_set_gate, empty_entry, idt_install, set_gates, isr_install,
  irq_gates,
}

set_gates_lem :
    (stub : ℕ → ℕ) (first n k : ℕ) (t : Idt) (i : ℕ)
    → first + k + n ≤ 256
    → (set_gates stub first n k t).idt i ≡ (
        if leb (first + k) i && ltb i (first + k + n)
        then encode_idt (stub (i - first)) 0x08 0x8E
        else t.idt i)
unfolding set_gates idt_set_gate
set_gates_lem stub first zero k t i h = ground arith
set_gates_lem stub first (suc n) k t i h =
    let ih =
      set_gates_lem stub first n (k + 1) (idt_set_gate (first + k) (stub k) 0x08 0x8E t) i
        (omega arith) in
    elim (Bool-cases (i == first + k)) [
      | inl y ↦ let same : i ≡ first + k = ground arith in ground (arith, ih, ap stub (offset same))
      | inr y ↦ ground (arith, ih)
    ]
  where
    offset : i ≡ first + k → i - first ≡ k
    offset e = omega arith

-- Where an entry sends the processor.
abbrev pub entry_point : IdtEntry → ℕ
entry_point e = e.base_lo + e.base_hi * 2 ^ 16

encode_idt_lem : (base : ℕ) → base < 2 ^ 32 → entry_point (encode_idt base 0x08 0x8E) ≡ base
unfolding encode_idt
encode_idt_lem base h = omega (arith, bit_and-low 16 base, bit_and-low 16 (base / 2 ^ 16))

encode_idt_fields :
    (base : ℕ) → let e = encode_idt base 0x08 0x8E in (e.sel ≡ 0x08) × (e.flags ≡ 0x8E)
unfolding encode_idt
encode_idt_fields base = (refl, refl)

cleared_entry :
    (address : ℕ) (t : Idt) (i : ℕ) → i < 256 → (idt_install address t).idt i ≡ empty_entry
unfolding idt_install
cleared_entry address t i h = ground arith

-- After `idt_install`, `isr_install` and `irq_install`, every exception and interrupt 0 to 47 enters
-- the stub of its number, through the kernel's code segment and with a present gate of ring 0, and
-- the entries from 48 to 255 are empty.
pub interrupts_installed :
    (address : ℕ) (isr irq : ℕ → ℕ) (t : Idt)
    → ((k : ℕ) → isr k < 2 ^ 32)
    → ((k : ℕ) → irq k < 2 ^ 32)
    → (i : ℕ) → i < 256
    → let e = (irq_gates irq (isr_install isr (idt_install address t))).idt i in
      (entry_point e ≡ (if ltb i 32 then isr i else if ltb i 48 then irq (i - 32) else 0))
      × (e.sel ≡ (if ltb i 48 then 0x08 else 0))
      × (e.flags ≡ (if ltb i 48 then 0x8E else 0))
unfolding irq_gates isr_install
interrupts_installed address isr irq t hi hq i h =
    let cleared = idt_install address t in
    let first = set_gates isr 0 32 0 cleared in
    let a = set_gates_lem isr 0 32 0 cleared i (omega arith) in
    let b = set_gates_lem irq 32 16 0 first i (omega arith) in
    ground (
      arith,
      a,
      b,
      cleared_entry address t i h,
      encode_idt_lem (isr i) (hi i),
      encode_idt_fields (isr i),
      encode_idt_lem (irq (i - 32)) (hq (i - 32)),
      encode_idt_fields (irq (i - 32)),
      ap isr start,
    )
  where
    start : i - 0 ≡ i
    start = omega arith
