-- ===== src/Cpu/GdtLaws.antt =====
-- What `gdt_install` of kernel/src/cpu/gdt.c leaves in the table.
use night.Base.{ℕ, zero, suc, ◌+◌, ◌*◌, ◌<◌, ◌≡◌, refl, some, ◌==◌, if◌then◌else◌, update, arith}
use night.Cpu.Gdt.{
  GdtEntry, Gdt, encode_gate, gdt_set_gate, gdt_install, gdt_entry_size, gate_base, gate_limit,
}

-- The access bytes of the five segments.
abbrev pub segment_access : ℕ → ℕ
segment_access zero = 0
segment_access (suc zero) = 0x9A
segment_access (suc (suc zero)) = 0x92
segment_access (suc (suc (suc zero))) = 0xFA
segment_access (suc (suc (suc (suc i)))) = 0xF2

-- Entry `i` of the five: the null segment is empty, and each other one is a 32-bit segment from 0,
-- as wide as the address space, in pages.
abbrev pub IsSegment : Gdt → ℕ → Type 0
IsSegment t i =
    (gate_base (t.gdt i) ≡ 0)
    × (gate_limit (t.gdt i) ≡ (if i == 0 then 0 else 0xFFFFF))
    × ((t.gdt i).access ≡ segment_access i)
    × ((t.gdt i).granularity ≡ (if i == 0 then 0 else 0xCF))

below_five :
    (t : Gdt)
    → IsSegment t 0
    → IsSegment t 1
    → IsSegment t 2
    → IsSegment t 3
    → IsSegment t 4
    → (i : ℕ) → i < 5
    → IsSegment t i
below_five t a b c d e zero h = a
below_five t a b c d e (suc zero) h = b
below_five t a b c d e (suc (suc zero)) h = c
below_five t a b c d e (suc (suc (suc zero))) h = d
below_five t a b c d e (suc (suc (suc (suc zero)))) h = e
below_five t a b c d e (suc (suc (suc (suc (suc i))))) h = absurd (omega (arith, h))

abbrev filled : (ℕ → GdtEntry) → ℕ → GdtEntry
filled g0 =
    let g1 = update g0 0 (encode_gate 0 0 0 0) in
    let g2 = update g1 1 (encode_gate 0 0xFFFFFFFF 0x9A 0xCF) in
    let g3 = update g2 2 (encode_gate 0 0xFFFFFFFF 0x92 0xCF) in
    let g4 = update g3 3 (encode_gate 0 0xFFFFFFFF 0xFA 0xCF) in
    update g4 4 (encode_gate 0 0xFFFFFFFF 0xF2 0xCF)

abbrev installed : ℕ → Gdt → Gdt
installed address g = record { gdt = filled g.gdt; limit = 23; base = address }

-- `gdt_install` returns; the null segment is empty, each of the other four spans the address space
-- from 0 in pages with its own access byte, and the limit of the table takes in the entries 0, 1 and
-- 2 and no part of the others.
pub gdt_install_lem :
    (address : ℕ) (g : Gdt)
    → (t : Gdt) × (gdt_install address g ≡ some t)
      × ((i : ℕ) → i < 5 → IsSegment t i)
      × (t.base ≡ address)
      × (t.limit + 1 ≡ 3 * gdt_entry_size)
unfolding gdt_install gdt_set_gate encode_gate
gdt_install_lem address g = (
  installed address g,
  refl,
  below_five (installed address g) (refl, refl, refl, refl) (refl, refl, refl, refl)
      (refl, refl, refl, refl) (refl, refl, refl, refl) (refl, refl, refl, refl),
  refl,
  refl,
)
