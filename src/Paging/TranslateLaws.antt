-- ===== src/Paging/TranslateLaws.antt =====
-- What `paging_virt_to_phys` answers, and what `paging_unmap_page` does.
use night.Base.{
  ℕ, ◌+◌, ◌*◌, ◌/◌, ◌%◌, ◌^◌, ◌<◌, ◌≡◌, ◌≢◌, refl, ap, ◌∙◌, bit_and, Bool, true, false, Option,
  none, some, ◌==◌, if◌then◌else◌, arith,
}
use night.Base.Masks.{bit_and-low}
use night.Libk.Arith.{u32}
use night.Pmm.State.{Pmm, mmap_unset}
use night.Pmm.Alloc.{pmm_free_page}
use night.Paging.Access.{Mmu, walk, put_word}
use night.Paging.Entries.{bit_and-frame, page_mask}
use night.Paging.Pages.{
  null, note_unaligned, paging_map_page, paging_unmap_page, paging_virt_to_phys,
}
use night.Paging.Reach.{
  IsSpace, with_pmm, with_pmm-IsSpace, page_slot, read_table, write_table, get_page-present,
  note_unaligned-IsSpace,
}
use night.Paging.MapLaws.{
  page_word, Remapped, put_word-Remapped, Remapped-note_unaligned, map_page-walk,
}

-- A page that is translated has a table and a present word.
pub walk-some :
    (virt f : ℕ) (m : Mmu)
    → IsSpace m
    → walk (virt / 4096) m ≡ some f
    → (m.mem m.cr3 (virt / 2 ^ 22) % 2 ≡ 1) × (page_word virt m / 4096 ≡ f)
unfolding walk
walk-some virt f m s e =
    let hi : virt / 4096 / 1024 ≡ virt / 2 ^ 22 = omega arith in ground (arith, s.on, e, hi)

note_unaligned-aligned : (virt : ℕ) (m : Mmu) → virt % 4096 ≡ 0 → note_unaligned virt m ≡ m
note_unaligned-aligned virt m h =
    let test : (virt % 4096 == 0) ≡ true = ground (arith, h) in rw test refl

slot_ne_null : (virt : ℕ) → virt < 2 ^ 32 → page_slot (virt / 2 ^ 22) (virt / 4096 % 1024) ≢ null
slot_ne_null virt h e = omega (arith, e)

-- On a well-formed address space (paging on, the directory in its own last entry, distinct tables),
-- for a 32-bit address that the processor's tables translate to a 20-bit frame,
-- `paging_virt_to_phys` returns that translation and changes nothing.
pub virt_to_phys-walk :
    {m : Mmu} (virt f : ℕ)
    → IsSpace m
    → virt < 2 ^ 32
    → f < 2 ^ 20
    → walk (virt / 4096) m ≡ some f
    → paging_virt_to_phys virt m ≡ some (f * 4096 + virt % 4096, m)
unfolding paging_virt_to_phys
virt_to_phys-walk {m} virt f s h small e =
    let (table, frame) = walk-some virt f m s e in
    let page : bit_and virt page_mask ≡ virt / 4096 * 4096 = bit_and-frame virt h in
    let dir : virt / 4096 * 4096 / 2 ^ 22 ≡ virt / 2 ^ 22 = omega arith in
    let idx : virt / 4096 * 4096 / 4096 % 1024 ≡ virt / 4096 % 1024 = omega arith in
    let more : (page_slot (virt / 2 ^ 22) (virt / 4096 % 1024) == null) ≡ false =
      ground (arith, slot_ne_null virt h) in
    let there : m.mem m.cr3 (virt / 4096 * 4096 / 2 ^ 22) % 2 ≡ 1 =
      ap (λ k. m.mem m.cr3 k % 2) dir ∙ table in
    let value : u32 (bit_and (page_word virt m) page_mask + bit_and virt 0xFFF)
        ≡ f * 4096 + virt % 4096 =
      omega (
        arith,
        bit_and-frame (page_word virt m) (omega (arith, frame)),
        bit_and-low 12 virt,
        frame,
      ) in
    rw
      (
        page,
        get_page-present (virt / 4096 * 4096) false 0 s (omega arith) there,
        note_unaligned-aligned (virt / 4096 * 4096) m (omega arith),
        dir,
        idx,
        more,
        read_table (virt / 2 ^ 22) (virt / 4096 % 1024) s (omega arith) (omega arith) table,
        value,
      )
      refl

-- On a well-formed address space (paging on, the directory in its own last entry, distinct tables),
-- after mapping an aligned page, printing aside, outside the window of the tables, whose table is
-- present, every address of that page is translated to the same offset in the frame of `phys`.
pub virt_to_phys-map_page :
    {m : Mmu} (virt phys flags off : ℕ)
    → IsSpace m
    → virt < 0xFFC00000
    → phys < 2 ^ 32
    → off < 4096
    → virt % 4096 ≡ 0
    → m.mem m.cr3 (virt / 2 ^ 22) % 2 ≡ 1
    → (t : Mmu) × (paging_map_page virt phys flags m ≡ some t)
      × (paging_virt_to_phys (virt + off) t ≡ some (phys / 4096 * 4096 + off, t))
virt_to_phys-map_page {m} virt phys flags off s h hp ho aligned p =
    let (t, e, space, walks, noted, kept) = map_page-walk virt phys flags s h p in
    let page : (virt + off) / 4096 ≡ virt / 4096 = omega arith in
    let low : (virt + off) % 4096 ≡ off = omega arith in
    let here : walk ((virt + off) / 4096) t ≡ some (phys / 4096) =
      walks ((virt + off) / 4096) (omega arith) ∙ ground (arith, page) in
    (
      t,
      e,
      virt_to_phys-walk (virt + off) (phys / 4096) space (omega arith) (omega arith) here
          ∙ ap (λ k. some (phys / 4096 * 4096 + k, t)) low,
    )

when_true :
    {A : Type 0} {b : Bool} (x : A) → b ≡ true → (q : A) × ((if b then some x else none) ≡ some q)
when_true x e = (x, rw e refl)

-- An address of 32 bits is inside the bitmap.
pub free_page-returns :
    (addr : ℕ) (p : Pmm) → addr < 2 ^ 32 → (q : Pmm) × (pmm_free_page addr p ≡ some q)
unfolding pmm_free_page mmap_unset
free_page-returns addr p h = when_true _ (ground arith)

Remapped-with_pmm :
    (m t : Mmu) (virt : ℕ) (to : Option ℕ) (q : Pmm)
    → Remapped virt to m t
    → Remapped virt to m (with_pmm q t)
unfolding walk
Remapped-with_pmm m t virt to q (s, moved) = (with_pmm-IsSpace q s, moved)

abbrev cleared : ℕ → Mmu → Mmu
cleared virt m = put_word (m.mem m.cr3 (virt / 2 ^ 22) / 4096) (virt / 4096 % 1024) 0 m

unmap_freed :
    {m : Mmu} (virt : ℕ) (q : Pmm)
    → IsSpace m
    → virt < 0xFFC00000
    → page_word virt m < 2 ^ 32
    → m.mem m.cr3 (virt / 2 ^ 22) % 2 ≡ 1
    → pmm_free_page (page_word virt m / 4096 * 4096) m.pmm ≡ some q
    → paging_unmap_page virt m ≡ some (with_pmm q (cleared virt (note_unaligned virt m)))
unfolding paging_unmap_page
unmap_freed {m} virt q s h w p e =
    let freed : pmm_free_page (bit_and (page_word virt m) page_mask) m.pmm ≡ some q =
      ap (λ a. pmm_free_page a m.pmm) (bit_and-frame (page_word virt m) w) ∙ e in
    let more : (page_slot (virt / 2 ^ 22) (virt / 4096 % 1024) == null) ≡ false =
      ground (arith, slot_ne_null virt (omega arith)) in
    let s' = note_unaligned-IsSpace virt s in
    rw
      (
        get_page-present virt false 0 s (omega arith) p,
        more,
        read_table (virt / 2 ^ 22) (virt / 4096 % 1024) s' (omega arith) (omega arith) p,
        freed,
      )
      (write_table (virt / 2 ^ 22) (virt / 4096 % 1024) 0 (with_pmm-IsSpace q s') (omega arith)
        (omega arith) p)

-- On a well-formed address space (paging on, the directory in its own last entry, distinct tables),
-- when the table of a page outside the window of the tables is present and the page's word is below
-- 2^32, `paging_unmap_page`, printing aside, returns: the tables translate the page no more and
-- every other page as before, the block of the frame that its word held is freed, and no page is
-- invalidated in the processor's cache of translations, not even this one.
pub unmap_page-walk :
    {m : Mmu} (virt : ℕ)
    → IsSpace m
    → virt < 0xFFC00000
    → page_word virt m < 2 ^ 32
    → m.mem m.cr3 (virt / 2 ^ 22) % 2 ≡ 1
    → (t : Mmu) × (paging_unmap_page virt m ≡ some t)
      × Remapped virt none m t
      × (pmm_free_page (page_word virt m / 4096 * 4096) m.pmm ≡ some t.pmm)
      × (t.invalidated ≡ m.invalidated)
unmap_page-walk {m} virt s h w p =
    let (q, e) = free_page-returns (page_word virt m / 4096 * 4096) m.pmm (omega arith) in
    let a = note_unaligned virt m in
    (
      with_pmm q (cleared virt a),
      unmap_freed virt q s h w p e,
      Remapped-with_pmm m (cleared virt a) virt none q (
          Remapped-note_unaligned virt none m (cleared virt a)
            (put_word-Remapped virt 0 (note_unaligned-IsSpace virt s) h p)),
      e,
      refl,
    )
