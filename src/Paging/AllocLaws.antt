-- ===== src/Paging/AllocLaws.antt =====
-- The whole range of `paging_alloc_pages` of kernel/src/mm/paging.c.
use night.Base.{
  ℕ, zero, suc, ◌+◌, ◌*◌, ◌/◌, ◌%◌, ◌^◌, ◌≤◌, ◌<◌, ◌≡◌, ◌⊎◌, refl, ap, ◌∙◌, some, List, [], ◌∷◌,
  length, ◌==◌, if◌then◌else◌, arith, inl, inr,
}
use mathlib.Core.Path.{subst}
use night.Pmm.FirstFree.{AllUsed, scanned}
use night.Pmm.PageLaws.{IsValid}
use night.Paging.Access.{Mmu, walk}
use night.Paging.Pages.{alloc_pages_from, paging_alloc_pages}
use night.Paging.Reach.{IsSpace, with_pmm}
use night.Paging.RangeLaws.{table_stays}
use night.Paging.BackLaws.{IsBacked, IsBacked-cons}
use night.Paging.TakeLaws.{IsBacked-none, IsTaken, one_round}

-- All pages were backed, or the allocator ran out of free blocks.
abbrev pub Ended : (virt num r : ℕ) → List ℕ → Mmu → Type 0
Ended virt num r fs t =
    (r ≡ virt) × (length fs ≡ num)
    ⊎ (r ≡ 0) × (length fs < num) × AllUsed t.pmm.bitmap 0 (scanned t.pmm)

-- The range of `num` pages from `addr` on has all its tables.
abbrev pub HasTables : (addr num : ℕ) → Mmu → Type 0
HasTables addr num m =
    (j : ℕ) → addr / 2 ^ 22 ≤ j → j * 2 ^ 22 < addr + num * 4096 → m.mem m.cr3 j % 2 ≡ 1

HasTables-next :
    (addr num b : ℕ) (m a : Mmu)
    → IsSpace m
    → addr + suc num * 4096 ≤ 0xFFC00000
    → IsTaken addr b m a
    → HasTables addr (suc num) m
    → HasTables (addr + 4096) num a
HasTables-next addr num b m a s high k tables j lo hi =
    table_stays (addr / 4096) b j s k.space (omega (arith, high)) k.walks (omega (arith, hi, high))
      (tables j (omega (arith, lo)) (omega (arith, hi)))

alloc_pages_from-IsBacked :
    (virt num i : ℕ) {m : Mmu}
    → IsSpace m
    → IsValid m.pmm
    → virt % 4096 ≡ 0
    → virt + i * 4096 + num * 4096 ≤ 0xFFC00000
    → HasTables (virt + i * 4096) num m
    → (r : ℕ) × (t : Mmu) × (fs : List ℕ) × (alloc_pages_from virt num i m ≡ some (r, t))
      × IsBacked (virt / 4096 + i) fs m t
      × Ended virt num r fs t
unfolding alloc_pages_from
alloc_pages_from-IsBacked virt zero i {m} s valid aligned high tables =
    (virt, m, [], refl, IsBacked-none (virt / 4096 + i) m.pmm s valid refl refl, inl (refl, refl))
alloc_pages_from-IsBacked virt (suc num) i {m} s valid aligned high tables =
    elim (one_round virt num i s valid (omega (arith, high))
      (tables ((virt + i * 4096) / 2 ^ 22) (omega arith) (omega arith))) [
        | inl (q, e, backed, all) ↦ (0, with_pmm q m, [], e, backed, inr (refl, omega arith, all))
        | inr (b, a, e, k) ↦
            let next : virt + i * 4096 + 4096 ≡ virt + (i + 1) * 4096 = omega arith in
            let first : virt / 4096 + (i + 1) ≡ virt / 4096 + i + 1 = omega arith in
            let page : (virt + i * 4096) / 4096 ≡ virt / 4096 + i = omega (arith, aligned) in
            let (r, t, fs, e', backed, ended) =
              alloc_pages_from-IsBacked virt num (i + 1) k.space k.valid aligned
                (omega (arith, high))
                (subst (λ x. HasTables x num a) next
                  (HasTables-next (virt + i * 4096) num b m a s high k tables)) in
            (
              r,
              t,
              b ∷ fs,
              e ∙ e',
              IsBacked-cons (virt / 4096 + i) b fs m a t k.was_free
                  (λ v h. k.walks v h ∙ ap (λ x. if v == x then some b else walk v m) page) k.blocks
                  k.size (subst (λ x. IsBacked x fs a t) first backed),
              elim ended [
                | inl (at, full) ↦ inl (at, omega (arith, full))
                | inr (at, few, all) ↦ inr (at, omega (arith, few), all)
              ],
            )
      ]

-- On a well-formed address space with a valid page allocator, for a range of pages below the window
-- of the tables, whose tables are all present, `paging_alloc_pages` returns. It puts frames behind
-- the pages in their order, one each: different frames that were free and are used now; every other
-- page is translated as before and every other block is as before, and the address space and
-- the allocator are well-formed again. Either all pages have a frame and the result is `virt`, or
-- the result is 0, fewer have one, and no scanned block is free any more.
pub paging_alloc_pages_lem :
    (virt size : ℕ) {m : Mmu}
    → IsSpace m
    → IsValid m.pmm
    → virt % 4096 ≡ 0
    → virt + size * 4096 ≤ 0xFFC00000
    → HasTables virt size m
    → (r : ℕ) × (t : Mmu) × (fs : List ℕ) × (paging_alloc_pages virt size m ≡ some (r, t))
      × IsBacked (virt / 4096) fs m t
      × Ended virt size r fs t
unfolding paging_alloc_pages
paging_alloc_pages_lem virt size {m} s valid aligned high tables =
    let here : virt ≡ virt + 0 * 4096 = omega arith in
    let first : virt / 4096 + 0 ≡ virt / 4096 = omega arith in
    let (r, t, fs, e, backed, ended) =
      alloc_pages_from-IsBacked virt size 0 s valid aligned (omega (arith, high))
        (subst (λ x. HasTables x size m) here tables) in
    (r, t, fs, e, subst (λ x. IsBacked x fs m t) first backed, ended)
