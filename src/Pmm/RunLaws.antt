-- ===== src/Pmm/RunLaws.antt =====
-- Allocations and frees of several pages in kernel/src/mm/pmm.c.
use night.Base.{
  ℕ, ◌+◌, ◌*◌, ◌/◌, ◌^◌, ◌≤◌, ◌<◌, ◌≡◌, ◌≢◌, refl, ap, ◌∙◌, false, ◌⊎◌, inl, inr, Option, some,
  arith, ◌==◌, if◌then◌else◌, Bool-cases, ◌>>=◌, ltb,
}
use night.Libk.Arith.{u32, sub32}
use night.Pmm.State.{Pmm, pmm_block_size}
use night.Pmm.Blocks.{used, Filled, bitmap_blocks}
use night.Pmm.Find.{mmap_find_free_frame}
use night.Pmm.FirstFree.{scanned}
use night.Pmm.RunState.{FreeRun, NoRun, IsFirstRun}
use night.Pmm.FirstRun.{mmap_find_free_frame_lem}
use night.Pmm.PageLaws.{IsValid, block_addr}
use night.Pmm.Regions.{set_run, unset_run}
use night.Pmm.Runs.{set_run_lem, unset_run_lem}
use night.Pmm.Alloc.{
  pmm_alloc_pages, pmm_alloc_aligned_large_page, pmm_free_pages, large_page_blocks,
}

-- What `pmm_alloc_pages num` did: it failed and changed nothing, for want of `num` blocks by the
-- count or of a run of them; or it took the lowest run.
pub data AllocPages (num : ℕ) (p : Pmm) (r : ℕ) (q : Pmm) : Type 0 where
  short : r ≡ 0 → q ≡ p → sub32 p.max_blocks p.used_blocks < num → AllocPages num p r q
  no_run : r ≡ 0 → q ≡ p → NoRun p.bitmap num (scanned p) → AllocPages num p r q
  taken :
      (b : ℕ)
      → r ≡ b * pmm_block_size
      → num ≤ sub32 p.max_blocks p.used_blocks
      → IsFirstRun p.bitmap num (scanned p) b
      → Filled 1 b num (u32 (p.used_blocks + num)) p q
      → AllocPages num p r q

-- For a valid state and `0 < num`, `pmm_alloc_pages num` returns: 0 with the state as it was, if
-- the count leaves fewer than `num` blocks or no `num` scanned blocks in a row are free; or the
-- address of the lowest such run, whose blocks and no others are then marked used.
pub pmm_alloc_pages_lem :
    (num : ℕ) (p : Pmm)
    → IsValid p
    → 0 < num
    → (r : ℕ) × (q : Pmm) × (pmm_alloc_pages num p ≡ some (r, q)) × AllocPages num p r q
unfolding pmm_alloc_pages
pmm_alloc_pages_lem num p s w = elim (Bool-cases (ltb (sub32 p.max_blocks p.used_blocks) num)) [
  | inl y ↦ (0, p, rw y, short refl refl (ground arith))
  | inr y ↦ rw y (split (ground arith) (mmap_find_free_frame_lem num p s.zero_used w))
]
  where
    first : ℕ
    first = mmap_find_free_frame num p

    split :
        num ≤ sub32 p.max_blocks p.used_blocks
        → (first ≡ 0) × NoRun p.bitmap num (scanned p) ⊎ IsFirstRun p.bitmap num (scanned p) first
        → (r : ℕ) × (q : Pmm) × (if◌then◌else◌ {A = Option (ℕ × Pmm)}
              (first == 0)
              (some (0, p))
              (set_run num first p >>= λ q. some (u32 (first * pmm_block_size), q))
            ≡ some (r, q))
          × AllocPages num p r q
    split enough (inl (z, none_free)) = (0, p, rw z, no_run refl refl none_free)
    split enough (inr f) =
        let test : (first == 0) ≡ false = ground (arith, f.pos) in
        let (q, e, g) = set_run_lem num first p (omega (arith, f.below, s.room)) s.word in
        (
          first * pmm_block_size,
          q,
          rw (test, e) (ap (λ k. some (k, q)) (block_addr first (omega (arith, f.below, s.room)))),
          taken first refl enough f g,
        )

pub pmm_alloc_pages-AllocPages :
    {num : ℕ} {p : Pmm} {r : ℕ} {q : Pmm}
    → IsValid p
    → 0 < num
    → pmm_alloc_pages num p ≡ some (r, q)
    → AllocPages num p r q
pmm_alloc_pages-AllocPages {num} {p} {r} {q} s w e =
    let (r', q', e', a) = pmm_alloc_pages_lem num p s w in
    let same : r' ≡ r = cc in let state : q' ≡ q = cc in rw (same, state) at a

-- Freeing a run that was just filled puts the blocks and the count back.
unset_after_set :
    (num b : ℕ) {p q r : Pmm}
    → ((n : ℕ) → b ≤ n → n < b + num → used p.bitmap n ≡ 0)
    → p.used_blocks < 2 ^ 32
    → num ≤ bitmap_blocks
    → Filled 1 b num (u32 (p.used_blocks + num)) p q
    → Filled 0 b num (sub32 q.used_blocks num) q r
    → ((n : ℕ) → used r.bitmap n ≡ used p.bitmap n) × (r.used_blocks ≡ p.used_blocks)
unset_after_set num b {p} {q} {r} free w small f g =
    (λ n. ground (arith, f.blocks n, g.blocks n, free n), omega (arith, f.counted, g.counted))

-- After a successful `pmm_alloc_pages num` on a valid state, `pmm_free_pages` of the address
-- returned and the same `num` puts every block and the count back as they were.
pub free_pages-alloc_pages :
    (num : ℕ) (p : Pmm) {r : ℕ} {q : Pmm}
    → IsValid p
    → 0 < num
    → pmm_alloc_pages num p ≡ some (r, q)
    → r ≢ 0
    → (t : Pmm) × (pmm_free_pages r num q ≡ some t)
      × ((n : ℕ) → used t.bitmap n ≡ used p.bitmap n)
      × (t.used_blocks ≡ p.used_blocks)
unfolding pmm_free_pages
free_pages-alloc_pages num p {r} {q} s w e nz = split (pmm_alloc_pages-AllocPages s w e)
  where
    split :
        AllocPages num p r q
        → (t : Pmm) × (unset_run num (r / pmm_block_size) q ≡ some t)
          × ((n : ℕ) → used t.bitmap n ≡ used p.bitmap n)
          × (t.used_blocks ≡ p.used_blocks)
    split (short z _ _) = absurd (nz z)
    split (no_run z _ _) = absurd (nz z)
    split (taken b at enough f g) =
        let block : r / pmm_block_size ≡ b = omega arith in
        let room : b + num ≤ bitmap_blocks = omega (arith, f.below, s.room) in
        let (t, e', h) = unset_run_lem num b q room (omega (arith, g.counted)) in
        let (back, counted) = unset_after_set num b f.free s.word (omega arith) g h in
        (t, ap (λ k. unset_run num k q) block ∙ e', back, counted)

-- What `pmm_alloc_aligned_large_page` did: it failed and changed nothing, or it took 1024 free
-- blocks from a multiple of 1024 on.
pub data AllocLargePage (p : Pmm) (r : ℕ) (q : Pmm) : Type 0 where
  short : r ≡ 0 → q ≡ p → sub32 p.max_blocks p.used_blocks < 2048 → AllocLargePage p r q
  no_run : r ≡ 0 → q ≡ p → NoRun p.bitmap 2048 (scanned p) → AllocLargePage p r q
  taken :
      (b k : ℕ)
      → b ≡ (k + 1) * large_page_blocks
      → r ≡ b * pmm_block_size
      → b + large_page_blocks ≤ scanned p
      → FreeRun p.bitmap b large_page_blocks
      → Filled 1 b large_page_blocks (u32 (p.used_blocks + large_page_blocks)) p q
      → AllocLargePage p r q

-- On a valid state `pmm_alloc_aligned_large_page` returns 0 and changes nothing, when the count
-- leaves fewer than 2048 blocks or no 2048 scanned blocks in a row are free; or the address, a
-- multiple of 4 MiB, of 1024 scanned blocks that were all free, which alone are then marked used.
pub pmm_alloc_aligned_large_page_lem :
    (p : Pmm)
    → IsValid p
    → (r : ℕ) × (q : Pmm) × (pmm_alloc_aligned_large_page p ≡ some (r, q)) × AllocLargePage p r q
unfolding pmm_alloc_aligned_large_page
pmm_alloc_aligned_large_page_lem p s =
    elim (Bool-cases (ltb (sub32 p.max_blocks p.used_blocks) (2 * large_page_blocks))) [
      | inl y ↦ (0, p, rw y, short refl refl (ground arith))
      | inr y ↦
          rw y
            (split (mmap_find_free_frame_lem (2 * large_page_blocks) p s.zero_used (omega arith)))
    ]
  where
    free_block : ℕ
    free_block = mmap_find_free_frame (2 * large_page_blocks) p

    aligned_block : ℕ
    aligned_block = u32 ((free_block / large_page_blocks + 1) * large_page_blocks)

    split :
        (free_block ≡ 0) × NoRun p.bitmap 2048 (scanned p)
          ⊎ IsFirstRun p.bitmap 2048 (scanned p) free_block
        → (r : ℕ) × (q : Pmm) × (if◌then◌else◌ {A = Option (ℕ × Pmm)}
              (free_block == 0)
              (some (0, p))
              (set_run large_page_blocks aligned_block p >>= λ q.
                some (u32 (aligned_block * pmm_block_size), q))
            ≡ some (r, q))
          × AllocLargePage p r q
    split (inl (z, none_free)) = (0, p, rw z, no_run refl refl none_free)
    split (inr f) =
        let test : (free_block == 0) ≡ false = ground (arith, f.pos) in
        let low : aligned_block + 1024 ≤ scanned p = omega (arith, f.below, s.room) in
        let (q, e, g) =
          set_run_lem large_page_blocks aligned_block p (omega (arith, f.below, s.room)) s.word in
        (
          aligned_block * pmm_block_size,
          q,
          rw (test, e)
              (ap (λ k. some (k, q)) (block_addr aligned_block (omega (arith, f.below, s.room)))),
          taken aligned_block (free_block / large_page_blocks) (omega (arith, f.below, s.room)) refl
              low
              (λ b h h'. f.free b (omega (arith, f.below, s.room)) (omega (arith, f.below, s.room)))
              g,
        )
