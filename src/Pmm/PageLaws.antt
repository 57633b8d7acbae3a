-- ===== src/Pmm/PageLaws.antt =====
-- `pmm_alloc_page` and `pmm_free_page` of kernel/src/mm/pmm.c.
use night.Base.{
  ℕ, ◌+◌, ◌*◌, ◌/◌, ◌^◌, ◌≤◌, ◌<◌, ◌≡◌, ◌≢◌, refl, ap, ◌∙◌, sym, false, ◌⊎◌, inl, inr, some, arith,
  ◌==◌, Bool-cases,
}
use night.Libk.Arith.{u32, sub32}
use night.Pmm.State.{Pmm, kpanic, out_of_memory, mmap_unset, pmm_block_size}
use night.Pmm.Blocks.{used, Filled, mmap_set_lem, mmap_unset_lem, bitmap_blocks}
use night.Pmm.Find.{mmap_find_free}
use night.Pmm.FirstFree.{AllUsed, IsFirstFree, Returned, scanned, mmap_find_free_lem}
use night.Pmm.Alloc.{check_memory, pmm_alloc_page, pmm_free_page}

-- The bitmap has room for every block, block 0 is taken, and the count is a 32-bit word.
pub record IsValid (p : Pmm) : Type 0 where
  pub room : p.max_blocks ≤ bitmap_blocks
  pub zero_used : used p.bitmap 0 ≡ 1
  pub word : p.used_blocks < 2 ^ 32

pub IsValid-Filled :
    {v first num c : ℕ} {p q : Pmm}
    → IsValid p
    → Filled v first num c p q
    → c < 2 ^ 32
    → (0 < first) ⊎ (v ≡ 1)
    → IsValid q
IsValid-Filled s f h w = record {
  room = omega (arith, s.room, f.rest.max_blocks);
  zero_used = ground (arith, f.blocks 0, s.zero_used);
  word = omega (arith, f.counted);
}

-- `check_memory` does nothing but report.
pub check_memory-bitmap :
    (p : Pmm)
    → ((check_memory p).bitmap ≡ p.bitmap)
      × ((check_memory p).max_blocks ≡ p.max_blocks)
      × ((check_memory p).used_blocks ≡ p.used_blocks)
unfolding check_memory
check_memory-bitmap p = ground arith

pub check_memory-IsValid : {p : Pmm} → IsValid p → IsValid (check_memory p)
unfolding check_memory
check_memory-IsValid s = ground arith

-- What `pmm_alloc_page` did: it failed for want of a free block, or it took the lowest one.
pub data AllocPage (p : Pmm) (r : ℕ) (q : Pmm) : Type 0 where
  failed : r ≡ 0 → q ≡ check_memory p → AllUsed p.bitmap 0 (scanned p) → AllocPage p r q
  taken :
      (b : ℕ)
      → r ≡ b * pmm_block_size
      → IsFirstFree p.bitmap 0 (scanned p) b
      → Filled 1 b 1 (u32 (p.used_blocks + 1)) (check_memory p) q
      → AllocPage p r q

-- The block of an address.
pub block_addr : (b : ℕ) → b < bitmap_blocks → u32 (b * pmm_block_size) ≡ b * pmm_block_size
block_addr b h = omega arith

-- The search after `check_memory` is a search of the state before it.
find_after_check : (p : Pmm) → Returned p.bitmap 0 (scanned p) (mmap_find_free (check_memory p))
unfolding check_memory
find_after_check p = elim (Bool-cases (sub32 p.max_blocks p.used_blocks == 0)) [
  | inl y ↦ rw y (mmap_find_free_lem (kpanic out_of_memory p))
  | inr y ↦ rw y (mmap_find_free_lem p)
]

-- A run filled from one count, read from an equal one.
Filled-count :
    {v first num c d : ℕ} {p q : Pmm} → c ≡ d → Filled v first num c p q → Filled v first num d p q
Filled-count e f = record { blocks = f.blocks; counted = f.counted ∙ e; rest = f.rest }

-- On a valid state `pmm_alloc_page` returns: 0, with every scanned block used and nothing changed
-- but the report; or the address of the lowest free block, which is then used, and no other block
-- is touched.
pub pmm_alloc_page_lem :
    (p : Pmm) → IsValid p → (r : ℕ) × (q : Pmm) × (pmm_alloc_page p ≡ some (r, q)) × AllocPage p r q
unfolding pmm_alloc_page
pmm_alloc_page_lem p s = split (find_after_check p)
  where
    block : ℕ
    block = mmap_find_free (check_memory p)

    split :
        Returned p.bitmap 0 (scanned p) block
        → (r : ℕ) × (q : Pmm) × (pmm_alloc_page p ≡ some (r, q)) × AllocPage p r q
    split (inl (z, all)) = (0, check_memory p, rw z, failed refl refl all)
    split (inr f) =
        let pos : 0 < block = ground (arith, f.free, s.zero_used) in
        let test : (block == 0) ≡ false = ground arith in
        let low : block < bitmap_blocks = omega (arith, f.below, s.room) in
        let (q, e, g) = mmap_set_lem block (check_memory p) low in
        (
          block * pmm_block_size,
          q,
          rw (test, e) (ap (λ k. some (k, q)) (block_addr block low)),
          taken block refl f (Filled-count (ap (λ k. u32 (k + 1)) (check_memory-bitmap p).2) g),
        )

-- What an allocation keeps: a valid state.
pub AllocPage-IsValid : {p : Pmm} {r : ℕ} {q : Pmm} → IsValid p → AllocPage p r q → IsValid q
AllocPage-IsValid s (failed e same all) = rw same (check_memory-IsValid s)
AllocPage-IsValid s (taken b e f g) =
    IsValid-Filled (check_memory-IsValid s) g (omega arith) (inr refl)

-- The two halves of a round trip.
unset_after_set :
    {b : ℕ} {p q r : Pmm}
    → used p.bitmap b ≡ 0
    → p.used_blocks < 2 ^ 32
    → Filled 1 b 1 (u32 (p.used_blocks + 1)) p q
    → Filled 0 b 1 (sub32 q.used_blocks 1) q r
    → ((n : ℕ) → used r.bitmap n ≡ used p.bitmap n) × (r.used_blocks ≡ p.used_blocks)
unset_after_set {b} {p = p} {q} {r} free w f g =
    (λ n. ground (arith, f.blocks n, g.blocks n, free), omega (arith, f.counted, g.counted))

pub pmm_alloc_page-AllocPage :
    {p : Pmm} {r : ℕ} {q : Pmm} → IsValid p → pmm_alloc_page p ≡ some (r, q) → AllocPage p r q
pmm_alloc_page-AllocPage {p} {r} {q} s e =
    let (r', q', e', a) = pmm_alloc_page_lem p s in
    let same : r' ≡ r = cc in let state : q' ≡ q = cc in rw (same, state) at a

-- After a successful `pmm_alloc_page` on a valid state, `pmm_free_page` of the address returned
-- puts every block and the count back as they were.
pub free-alloc_page :
    (p : Pmm) {r : ℕ} {q : Pmm}
    → IsValid p
    → pmm_alloc_page p ≡ some (r, q)
    → r ≢ 0
    → (t : Pmm) × (pmm_free_page r q ≡ some t)
      × ((n : ℕ) → used t.bitmap n ≡ used p.bitmap n)
      × (t.used_blocks ≡ p.used_blocks)
unfolding pmm_free_page
free-alloc_page p {r} {q} s e nz = split (pmm_alloc_page-AllocPage s e)
  where
    split :
        AllocPage p r q
        → (t : Pmm) × (mmap_unset (r / pmm_block_size) q ≡ some t)
          × ((n : ℕ) → used t.bitmap n ≡ used p.bitmap n)
          × (t.used_blocks ≡ p.used_blocks)
    split (failed z _ _) = absurd (nz z)
    split (taken b at f g) =
        let (same, _, count) = check_memory-bitmap p in
        let block : r / pmm_block_size ≡ b = omega arith in
        let (t, e', h) = mmap_unset_lem b q (omega (arith, f.below, s.room)) in
        let (back, counted) =
          unset_after_set {p = check_memory p} (ap (λ m. used m b) same ∙ f.free)
            (omega (arith, count, s.word)) (Filled-count (ap (λ k. u32 (k + 1)) (sym count)) g) h in
        (
          t,
          ap (λ k. mmap_unset k q) block ∙ e',
          λ n. back n ∙ ap (λ m. used m n) same,
          counted ∙ count,
        )
