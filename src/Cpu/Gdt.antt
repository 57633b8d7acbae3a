-- ===== src/Cpu/Gdt.antt =====
-- kernel/src/cpu/gdt.c: the global descriptor table.
use night.Base.{
  ℕ, ◌+◌, ◌-◌, ◌*◌, ◌/◌, ◌%◌, ◌^◌, ◌<◌, ◌≡◌, bit_and, bit_or, Option, none, some, ltb,
  if◌then◌else◌, update, ◌>>=◌, arith, refl,
}
use night.Base.Masks.{bit_and-low, bit_and-high, bit_or-add_low}

-- `struct gdt_entry`
pub record GdtEntry : Type 0 where
  pub limit_low : ℕ
  pub base_low : ℕ
  pub base_middle : ℕ
  pub access : ℕ
  pub granularity : ℕ
  pub base_high : ℕ

-- `gdt` and `gp`
pub record Gdt : Type 0 where
  pub gdt : ℕ → GdtEntry
  pub limit : ℕ
  pub base : ℕ

abbrev pub gdt_entries : ℕ
gdt_entries = 5

-- `sizeof(struct gdt_entry)`; the structure is packed.
abbrev pub gdt_entry_size : ℕ
gdt_entry_size = 8

unfoldable pub encode_gate : (base limit access gran : ℕ) → GdtEntry
encode_gate base limit access gran = record {
  limit_low = bit_and limit 0xFFFF;
  base_low = bit_and base 0xFFFF;
  base_middle = bit_and (base / 2 ^ 16) 0xFF;
  access = access;
  granularity = bit_or (bit_and (limit / 2 ^ 16) 0x0F) (bit_and gran 0xF0);
  base_high = bit_and (base / 2 ^ 24) 0xFF;
}

-- An entry past the end of `gdt` is a fault.
unfoldable pub gdt_set_gate : (num base limit access gran : ℕ) → Gdt → Option Gdt
unfolding encode_gate
gdt_set_gate num base limit access gran t =
    if ltb num gdt_entries
    then some (record t { gdt = update t.gdt num (encode_gate base limit access gran) })
    else none

-- `address` is that of `gdt`. The flush that follows only reloads the registers.
unfoldable pub gdt_install : (address : ℕ) → Gdt → Option Gdt
gdt_install address t = do
  t ← gdt_set_gate 0 0 0 0 0 (record t { limit = gdt_entry_size * 3 - 1; base = address })
  t ← gdt_set_gate 1 0 0xFFFFFFFF 0x9A 0xCF t
  t ← gdt_set_gate 2 0 0xFFFFFFFF 0x92 0xCF t
  t ← gdt_set_gate 3 0 0xFFFFFFFF 0xFA 0xCF t
  gdt_set_gate 4 0 0xFFFFFFFF 0xF2 0xCF t

-- What the processor reads in an entry.
abbrev pub gate_base : GdtEntry → ℕ
gate_base e = e.base_low + e.base_middle * 2 ^ 16 + e.base_high * 2 ^ 24

abbrev pub gate_limit : GdtEntry → ℕ
gate_limit e = e.limit_low + e.granularity % 16 * 2 ^ 16

high_nibble : (gran : ℕ) → gran < 2 ^ 8 → bit_and gran 0xF0 ≡ gran / 16 * 2 ^ 4
high_nibble gran h = omega (arith, bit_and-high 4 gran 15, bit_and-low 4 (gran / 2 ^ 4))

-- The processor reads back from an encoded gate the 32-bit base, the low 20 bits of the limit, the
-- access byte and the high half of the granularity byte.
pub encode_gate_lem :
    (base limit access gran : ℕ)
    → base < 2 ^ 32
    → limit < 2 ^ 32
    → gran < 2 ^ 8
    → let e = encode_gate base limit access gran in
      (gate_base e ≡ base)
      × (gate_limit e ≡ limit % 2 ^ 20)
      × (e.access ≡ access)
      × (e.granularity / 16 ≡ gran / 16)
unfolding encode_gate
encode_gate_lem base limit access gran hb hl hg =
    let low : bit_and (limit / 2 ^ 16) 0x0F ≡ limit / 2 ^ 16 % 2 ^ 4 =
      bit_and-low 4 (limit / 2 ^ 16) in
    let flags : bit_or (limit / 2 ^ 16 % 2 ^ 4) (gran / 16 * 2 ^ 4)
        ≡ gran / 16 * 2 ^ 4 + limit / 2 ^ 16 % 2 ^ 4 =
      bit_or-add_low 4 (gran / 16) (limit / 2 ^ 16 % 2 ^ 4) (omega arith) in
    rw (low, high_nibble gran hg, flags)
      (
        omega (
          arith,
          bit_and-low 16 base,
          bit_and-low 8 (base / 2 ^ 16),
          bit_and-low 8 (base / 2 ^ 24),
        ),
        omega (arith, bit_and-low 16 limit),
        refl,
        omega arith,
      )
