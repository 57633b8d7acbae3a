-- ===== src/Paging/CreateLaws.antt =====
-- Mapping a page whose table is missing: `paging_get_page` makes one.
use night.Base.{
  ℕ, ◌/◌, ◌%◌, ◌^◌, ◌<◌, ◌≡◌, refl, ap, ◌∙◌, true, false, some, ◌∷◌, ◌==◌, if◌then◌else◌, arith,
}
use night.Pmm.State.{Pmm}
use night.Pmm.Alloc.{pmm_alloc_page}
use night.Paging.Access.{Mmu, walk}
use night.Paging.Entries.{bit_and-present}
use night.Paging.Pages.{is_present, create_table, paging_get_page, paging_map_page}
use night.Paging.Reach.{
  IsSpace, with_pmm-IsSpace, page_slot, read_dir, write_dir, slot_of, note_unaligned-IsSpace,
  walk-note_unaligned,
}
use night.Paging.MapLaws.{map_page-found}
use night.Paging.NewTable.{
  IsFresh, table_entry, table_entry-frame, table_entry-present, created, created-IsSpace,
  created_entry, clear_new, created-walk,
}

get_page-created :
    {m : Mmu} (virt flags table : ℕ) (q : Pmm)
    → IsSpace m
    → virt < 0xFFC00000
    → m.mem m.cr3 (virt / 2 ^ 22) % 2 ≡ 0
    → IsFresh (table / 4096) m
    → pmm_alloc_page m.pmm ≡ some (table, q)
    → (t : Mmu) × (paging_get_page virt true flags m
        ≡ some (page_slot (virt / 2 ^ 22) (virt / 4096 % 1024), t))
      × IsSpace t
      × (t.mem t.cr3 (virt / 2 ^ 22) % 2 ≡ 1)
      × ((v : ℕ) → v < 0xFFC00 → walk v t ≡ walk v m)
      × (t.invalidated ≡ m.invalidated)
      × (t.pmm ≡ q)
unfolding paging_get_page create_table
get_page-created {m} virt flags table q s h absent fresh taken =
    let i = virt / 2 ^ 22 in
    let s' = note_unaligned-IsSpace virt s in
    let e = table_entry table flags in
    let frame = table_entry-frame table flags in
    let there = table_entry-present table flags in
    let hi : i < 1023 = omega arith in
    let missing : is_present (m.mem m.cr3 i) ≡ false =
      ground (arith, bit_and-present (m.mem m.cr3 i)) in
    let present' : is_present e ≡ true = ground (arith, bit_and-present e) in
    let space = created-IsSpace i table e q s' hi absent fresh frame there in
    let entry' = created_entry i table e q s' hi absent fresh frame there in
    (
      created i table e q s' hi absent fresh frame there,
      rw
          (
            read_dir i s' (omega arith),
            missing,
            taken,
            write_dir i e (with_pmm-IsSpace q s') (omega arith),
            clear_new i table e q s' hi absent fresh frame there,
            read_dir i space (omega arith),
            entry',
            present',
            slot_of virt (omega arith),
          )
          refl,
      space,
      ap (λ x. x % 2) entry' ∙ there,
      λ v hv.
          created-walk i table e q s' hi absent fresh frame there v hv
          ∙ walk-note_unaligned v virt m,
      refl,
      refl,
    )

-- On a well-formed address space whose directory has no table for `virt`, with a frame from the
-- allocator that no entry of the directory leads to, `paging_map_page`, printing aside, returns and
-- keeps the address space well-formed; outside the window of the tables it translates the page of
-- `virt` to the frame of `phys` and every other page as before. It invalidates `virt`, and the
-- allocator's state is the one after that allocation.
pub map_page-created :
    {m : Mmu} (virt phys flags table : ℕ) (q : Pmm)
    → IsSpace m
    → virt < 0xFFC00000
    → m.mem m.cr3 (virt / 2 ^ 22) % 2 ≡ 0
    → IsFresh (table / 4096) m
    → pmm_alloc_page m.pmm ≡ some (table, q)
    → (t : Mmu) × (paging_map_page virt phys flags m ≡ some t)
      × IsSpace t
      × ((v : ℕ)
          → v < 0xFFC00
          → walk v t ≡ (if v == virt / 4096 then some (phys / 4096) else walk v m))
      × (t.invalidated ≡ virt ∷ m.invalidated)
      × (t.pmm ≡ q)
map_page-created {m} virt phys flags table q s h absent fresh taken =
    let (c, found, space, there, walks, noted, pmm') =
      get_page-created virt flags table q s h absent fresh taken in
    let (t, e, (space', walks'), noted', kept, _) =
      map_page-found m virt phys flags found space h there in
    (
      t,
      e,
      space',
      λ v hv.
          walks' v (omega arith)
          ∙ ap (λ o. if v == virt / 4096 then some (phys / 4096) else o) (walks v hv),
      noted' ∙ ap (λ l. virt ∷ l) noted,
      kept ∙ pmm',
    )
