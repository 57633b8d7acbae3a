-- ===== src/Pmm/RunCounts.antt =====
-- The count of used blocks through every operation of kernel/src/mm/pmm.c that allocates or frees.
use night.Base.{
  ℕ, zero, suc, ◌+◌, ◌-◌, ◌/◌, ◌≤◌, ◌<◌, ◌≡◌, ◌⊎◌, refl, ap, ◌∙◌, sym, inl, inr, some, arith,
  if◌then◌else◌, Bool-cases, ◌&&◌, ltb, leb, true, false,
}
use night.Libk.Arith.{u32, sub32}
use night.Pmm.State.{Pmm, pmm_block_size}
use night.Pmm.Blocks.{used, Filled, bitmap_blocks, mmap_unset_lem}
use night.Pmm.Runs.{unset_run_lem}
use night.Pmm.RunState.{FreeRun}
use night.Pmm.Alloc.{
  pmm_alloc_page, pmm_free_page, pmm_alloc_pages, pmm_free_pages, pmm_alloc_aligned_large_page,
  large_page_blocks,
}
use night.Pmm.PageLaws.{IsValid, IsValid-Filled, pmm_alloc_page-AllocPage, AllocPage-IsValid}
use night.Pmm.RunLaws.{
  AllocPages, AllocLargePage, pmm_alloc_pages-AllocPages, pmm_alloc_aligned_large_page_lem,
}
use night.Pmm.Counts.{count_used, count_used-le, IsExact, alloc_page-IsExact}

-- How many of the `num` blocks from `b` on are below `n`.
abbrev part : (b num n : ℕ) → ℕ
part b num n = n - b - (n - (b + num))

-- A run of free blocks that is filled.
count_used-run :
    (f g : ℕ → ℕ) (b num n : ℕ)
    → ((c : ℕ) → used g c ≡ (if leb b c && ltb c (b + num) then 1 else used f c))
    → FreeRun f b num
    → count_used g n ≡ count_used f n + part b num n
unfolding count_used
count_used-run f g b num zero h free = omega arith
count_used-run f g b num (suc n) h free = elim (Bool-cases (leb b n && ltb n (b + num))) [
  | inl y ↦
      let lo : b ≤ n = ground (arith, y) in
      let hi : n < b + num = ground (arith, y) in
      omega (arith, count_used-run f g b num n h free, free n lo hi, here n y, lo, hi)
  | inr y ↦
      let out : (n < b) ⊎ (b + num ≤ n) = outside n y in
      let same : used g n ≡ used f n = ground (arith, h n, y) in
      elim out [
        | inl l ↦ omega (arith, count_used-run f g b num n h free, same, l)
        | inr l ↦ omega (arith, count_used-run f g b num n h free, same, l)
      ]
]
  where
    here : (c : ℕ) → (leb b c && ltb c (b + num)) ≡ true → used g c ≡ 1
    here c y = ground (arith, h c, y)

    outside : (c : ℕ) → (leb b c && ltb c (b + num)) ≡ false → (c < b) ⊎ (b + num ≤ c)
    outside c y = ground (arith, y)

IsExact-set_run :
    {p q : Pmm} (b num : ℕ)
    → IsExact p
    → p.max_blocks ≤ bitmap_blocks
    → b + num ≤ p.max_blocks
    → FreeRun p.bitmap b num
    → Filled 1 b num (u32 (p.used_blocks + num)) p q
    → IsExact q
IsExact-set_run {p} {q} b num x room low free g = omega (
  arith,
  x,
  g.counted,
  count_used-run p.bitmap q.bitmap b num p.max_blocks g.blocks free,
  count_used-le q.bitmap p.max_blocks,
  ap (count_used q.bitmap) g.rest.max_blocks,
)

abbrev pub UsedRun : (ℕ → ℕ) → (first num : ℕ) → Type 0
UsedRun bitmap first num = (b : ℕ) → first ≤ b → b < first + num → used bitmap b ≡ 1

IsExact-unset_run :
    {p q : Pmm} (b num : ℕ)
    → IsExact p
    → p.max_blocks ≤ bitmap_blocks
    → b + num ≤ p.max_blocks
    → UsedRun p.bitmap b num
    → Filled 0 b num (sub32 p.used_blocks num) p q
    → IsExact q
IsExact-unset_run {p} {q} b num x room low full g =
    let back =
      count_used-run q.bitmap p.bitmap b num p.max_blocks (λ c. ground (arith, g.blocks c, full c))
        (λ c lo hi. ground (arith, g.blocks c, lo, hi)) in
    omega (
      arith,
      x,
      g.counted,
      back,
      count_used-le p.bitmap p.max_blocks,
      ap (count_used q.bitmap) g.rest.max_blocks,
    )

-- A call that allocates, or that frees blocks which are used, which the count takes in, and of which
-- none is block 0.
pub data Change (p : Pmm) : Pmm → Type 0 where
  page : {r : ℕ} {q : Pmm} → pmm_alloc_page p ≡ some (r, q) → Change p q
  pages : {r : ℕ} {q : Pmm} (num : ℕ) → 0 < num → pmm_alloc_pages num p ≡ some (r, q) → Change p q
  large_page : {r : ℕ} {q : Pmm} → pmm_alloc_aligned_large_page p ≡ some (r, q) → Change p q
  freed_page :
      {q : Pmm} (addr : ℕ)
      → 0 < addr / pmm_block_size
      → addr / pmm_block_size < p.max_blocks
      → used p.bitmap (addr / pmm_block_size) ≡ 1
      → pmm_free_page addr p ≡ some q
      → Change p q
  freed_pages :
      {q : Pmm} (addr num : ℕ)
      → 0 < addr / pmm_block_size
      → addr / pmm_block_size + num ≤ p.max_blocks
      → UsedRun p.bitmap (addr / pmm_block_size) num
      → pmm_free_pages addr num p ≡ some q
      → Change p q

pub data Changes (p : Pmm) : Pmm → Type 0 where
  start : Changes p p
  next : {q r : Pmm} → Changes p q → Change q r → Changes p r

abbrev pub IsSound : Pmm → Type 0
IsSound p = IsValid p × IsExact p

AllocPages-IsSound : {p : Pmm} (num r : ℕ) {q : Pmm} → IsSound p → AllocPages num p r q → IsSound q
AllocPages-IsSound num r s (AllocPages.short _ e _) = rw e s
AllocPages-IsSound num r s (AllocPages.no_run _ e _) = rw e s
AllocPages-IsSound {p} num r (valid, x) (AllocPages.taken b _ enough f g) = (
  IsValid-Filled valid g (omega arith) (inr refl),
  IsExact-set_run b num x valid.room (omega (arith, f.below)) f.free g,
)

AllocLargePage-IsSound : {p : Pmm} (r : ℕ) {q : Pmm} → IsSound p → AllocLargePage p r q → IsSound q
AllocLargePage-IsSound r s (AllocLargePage.short _ e _) = rw e s
AllocLargePage-IsSound r s (AllocLargePage.no_run _ e _) = rw e s
AllocLargePage-IsSound {p} r (valid, x) (AllocLargePage.taken b k _ _ below free g) = (
  IsValid-Filled valid g (omega arith) (inr refl),
  IsExact-set_run b large_page_blocks x valid.room (omega (arith, below)) free g,
)

freed_run-IsSound :
    {p q : Pmm} (b num : ℕ)
    → IsSound p
    → 0 < b
    → b + num ≤ p.max_blocks
    → UsedRun p.bitmap b num
    → Filled 0 b num (sub32 p.used_blocks num) p q
    → IsSound q
freed_run-IsSound b num (valid, x) pos low full g = (
  IsValid-Filled valid g (omega arith) (inl pos),
  IsExact-unset_run b num x valid.room low full g,
)

Change-IsSound : {p q : Pmm} → IsSound p → Change p q → IsSound q
unfolding pmm_free_page pmm_free_pages
Change-IsSound {p} {q} (valid, x) (page {r = r} e) =
    (AllocPage-IsValid valid (pmm_alloc_page-AllocPage valid e), alloc_page-IsExact r q valid x e)
Change-IsSound s (pages {r = r} num pos e) =
    AllocPages-IsSound num r s (pmm_alloc_pages-AllocPages s.0 pos e)
Change-IsSound {p} {q} s (large_page {r = r} e) =
    let (r', q', e', a) = pmm_alloc_aligned_large_page_lem p s.0 in
    let state : q' ≡ q = cc in rw (sym state) (AllocLargePage-IsSound r' s a)
Change-IsSound {p} {q} s (freed_page addr pos low full e) =
    let b = addr / pmm_block_size in
    let (q', e', g) = mmap_unset_lem b p (omega (arith, low, s.0)) in
    let state : q' ≡ q = cc in
    rw (sym state) (
      freed_run-IsSound b 1 s pos (omega (arith, low))
        (λ c lo hi. let same : c ≡ b = omega (arith, lo, hi) in ap (used p.bitmap) same ∙ full) g)
Change-IsSound {p} {q} s (freed_pages addr num pos low full e) =
    let b = addr / pmm_block_size in
    let (q', e', g) = unset_run_lem num b p (omega (arith, low, s.0)) s.0.word in
    let state : q' ≡ q = cc in rw (sym state) (freed_run-IsSound b num s pos low full g)

-- On a valid state whose count is the number of used blocks, any sequence of calls that allocate a
-- page, a run of at least one page or a large page, with or without success, and of calls that free
-- blocks which are used, which the count takes in and of which none is block 0, leaves the
-- state valid and the count the number of used blocks.
pub Changes-IsSound : {p q : Pmm} → IsSound p → Changes p q → IsSound q
Changes-IsSound s start = s
Changes-IsSound s (next calls c) = Change-IsSound (Changes-IsSound s calls) c
