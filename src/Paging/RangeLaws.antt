-- ===== src/Paging/RangeLaws.antt =====
-- `paging_map_pages` of kernel/src/mm/paging.c on a range of pages whose tables are there.
use night.Base.{
  ℕ, zero, suc, ◌+◌, ◌-◌, ◌*◌, ◌/◌, ◌%◌, ◌^◌, ◌≤◌, ◌<◌, ◌≡◌, refl, ap, sym, ◌∙◌, Bool, false,
  Option, none, some, ltb, leb, ◌&&◌, ◌==◌, if◌then◌else◌, arith, Bool-cases, inl, inr,
}
use mathlib.Core.Option.{some-ne-none}
use night.Libk.Arith.{u32}
use night.Paging.Access.{Mmu, walk}
use night.Paging.Pages.{paging_map_page, paging_map_pages}
use night.Paging.Reach.{IsSpace, walk-table}
use night.Paging.MapLaws.{map_page-walk}

walk-no_table :
    {m : Mmu} (i : ℕ)
    → IsSpace m
    → i < 1024
    → (m.mem m.cr3 i % 2 == 1) ≡ false
    → walk (0xFFC00 + i) m ≡ none
unfolding walk
walk-no_table {m} i s h y =
    let hi : (0xFFC00 + i) / 1024 ≡ 1023 = omega arith in
    let lo : (0xFFC00 + i) % 1024 ≡ i = omega arith in
    rw (hi, lo, s.on, s.recursive, s.recursive_frame, y) refl

-- A table that the recursive entry leads to is present.
table_there :
    {m : Mmu} (i f : ℕ)
    → IsSpace m
    → i < 1024
    → walk (0xFFC00 + i) m ≡ some f
    → m.mem m.cr3 i % 2 ≡ 1
table_there {m} i f s h e = elim (Bool-cases (m.mem m.cr3 i % 2 == 1)) [
  | inl y ↦ ground arith
  | inr y ↦ absurd (some-ne-none f (sym e ∙ walk-no_table i s h y))
]

-- Mapping a page outside the window keeps the tables that are present.
pub table_stays :
    {m t : Mmu} (page f i : ℕ)
    → IsSpace m
    → IsSpace t
    → page < 0xFFC00
    → ((v : ℕ) → v < 2 ^ 20 → walk v t ≡ (if v == page then some f else walk v m))
    → i < 1024
    → m.mem m.cr3 i % 2 ≡ 1
    → t.mem t.cr3 i % 2 ≡ 1
table_stays {m} {t} page f i s s' outside walks h there =
    table_there i (m.mem m.cr3 i / 4096) s' h
      (walks (0xFFC00 + i) (omega (arith, h)) ∙ ground (arith, walk-table i s h there, outside))

-- Whether a page is one of `num` from `first` on.
abbrev pub in_range : (first num v : ℕ) → Bool
in_range first num v = leb first v && ltb v (first + num)

map_pages-step :
    (virt phys num flags : ℕ) (m a : Mmu)
    → paging_map_page virt phys flags m ≡ some a
    → virt + 4096 < 2 ^ 32
    → phys + 4096 < 2 ^ 32
    → paging_map_pages virt phys (suc num) flags m
      ≡ paging_map_pages (virt + 4096) (phys + 4096) num flags a
unfolding paging_map_pages
map_pages-step virt phys num flags m a e h h' =
    let next : u32 (virt + 0x1000) ≡ virt + 4096 = omega (arith, h) in
    let next' : u32 (phys + 0x1000) ≡ phys + 4096 = omega (arith, h') in rw (e, next, next') refl

-- One page more at the start of the range.
range_step :
    (first frame num v : ℕ) (x : Option ℕ)
    → (if in_range (first + 1) num v
        then some (frame + 1 + (v - (first + 1)))
        else if v == first
        then some frame
        else x)
      ≡ (if in_range first (suc num) v then some (frame + (v - first)) else x)
range_step first frame num v x = ground arith

-- On a well-formed address space, for a range of pages below the window of the tables, whose tables
-- are all present, and frames below 4 GiB, `paging_map_pages`, printing aside, returns; it
-- translates each page of the range to its frame, in order, and every other page as before, keeps
-- the address space well-formed and leaves the page allocator alone.
pub map_pages-walk :
    (virt phys num flags : ℕ) {m : Mmu}
    → IsSpace m
    → virt % 4096 ≡ 0
    → virt + num * 4096 ≤ 0xFFC00000
    → phys + num * 4096 < 2 ^ 32
    → ((i : ℕ) → virt / 2 ^ 22 ≤ i → i * 2 ^ 22 < virt + num * 4096 → m.mem m.cr3 i % 2 ≡ 1)
    → (t : Mmu) × (paging_map_pages virt phys num flags m ≡ some t)
      × IsSpace t
      × ((v : ℕ)
          → v < 2 ^ 20
          → walk v t ≡ (
              if in_range (virt / 4096) num v
              then some (phys / 4096 + (v - virt / 4096))
              else walk v m))
      × (t.pmm ≡ m.pmm)
unfolding paging_map_pages
map_pages-walk virt phys zero flags {m} s aligned high frames tables =
    (m, refl, s, λ v h. ground arith, refl)
map_pages-walk virt phys (suc num) flags {m} s aligned high frames tables =
    let (a, e, s', walks, noted, kept) =
      map_page-walk virt phys flags s (omega (arith, high))
        (tables (virt / 2 ^ 22) (omega arith) (omega arith)) in
    let first' : (virt + 4096) / 4096 ≡ virt / 4096 + 1 = omega arith in
    let frame' : (phys + 4096) / 4096 ≡ phys / 4096 + 1 = omega arith in
    let (t, e', s'', walks', kept') =
      map_pages-walk (virt + 4096) (phys + 4096) num flags s' (omega (arith, aligned))
        (omega (arith, high)) (omega (arith, frames))
        (λ i lo hi.
          table_stays (virt / 4096) (phys / 4096) i s s' (omega (arith, high)) walks
            (omega (arith, hi, high)) (tables i (omega (arith, lo)) (omega (arith, hi)))) in
    (
      t,
      map_pages-step virt phys num flags m a e (omega (arith, high)) (omega (arith, frames)) ∙ e',
      s'',
      λ v h.
          walks' v h
          ∙ ap
              (λ o.
                if in_range ((virt + 4096) / 4096) num v
                then some ((phys + 4096) / 4096 + (v - (virt + 4096) / 4096))
                else o)
              (walks v h)
          ∙ ap
              (λ b.
                if in_range b num v
                then some ((phys + 4096) / 4096 + (v - b))
                else if v == virt / 4096
                then some (phys / 4096)
                else walk v m)
              first'
          ∙ ap
              (λ b.
                if in_range (virt / 4096 + 1) num v
                then some (b + (v - (virt / 4096 + 1)))
                else if v == virt / 4096
                then some (phys / 4096)
                else walk v m)
              frame'
          ∙ range_step (virt / 4096) (phys / 4096) num v (walk v m),
      kept' ∙ kept,
    )
