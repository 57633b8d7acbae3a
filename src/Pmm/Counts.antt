-- ===== src/Pmm/Counts.antt =====
-- The count of used blocks in kernel/src/mm/pmm.c, against the bitmap.
use night.Base.{
  ℕ, zero, suc, ◌+◌, ◌/◌, ◌≤◌, ◌<◌, ◌≡◌, ◌↔◌, refl, ap, ◌∙◌, sym, true, inl, inr, some, arith, ◌==◌,
  if◌then◌else◌, Bool-cases, ◌&&◌, ltb, leb, List, ◌∷◌, length,
}
use night.Libk.Arith.{u32, sub32}
use night.Pmm.State.{Pmm, out_of_memory, Panic, pmm_block_size}
use night.Pmm.Blocks.{used, used-le_one, Filled, mmap_unset_lem, bitmap_blocks}
use night.Pmm.FirstFree.{AllUsed}
use night.Pmm.Alloc.{check_memory, pmm_alloc_page, pmm_free_page}
use night.Pmm.PageLaws.{
  IsValid, check_memory-bitmap, AllocPage, failed, taken, pmm_alloc_page-AllocPage,
}

-- The used blocks below `n`.
unfoldable pub count_used : (ℕ → ℕ) → ℕ → ℕ
count_used bitmap zero = 0
count_used bitmap (suc n) = used bitmap n + count_used bitmap n

-- `used_blocks` is the number of used blocks.
abbrev pub IsExact : Pmm → Type 0
IsExact p = p.used_blocks ≡ count_used p.bitmap p.max_blocks

pub count_used-le : (bitmap : ℕ → ℕ) (n : ℕ) → count_used bitmap n ≤ n
unfolding count_used
count_used-le bitmap zero = omega arith
count_used-le bitmap (suc n) = omega (arith, count_used-le bitmap n, used-le_one bitmap n)

-- One block at `v`, the others as they were.
count_used_same :
    (f g : ℕ → ℕ) (n : ℕ)
    → ((b : ℕ) → b < n → used g b ≡ used f b)
    → count_used g n ≡ count_used f n
unfolding count_used
count_used_same f g zero h = refl
count_used_same f g (suc n) h =
    omega (arith, h n (omega arith), count_used_same f g n (λ b l. h b (omega arith)))

count_used_change :
    (f g : ℕ → ℕ) (b v n : ℕ)
    → ((c : ℕ) → used g c ≡ (if leb b c && ltb c (b + 1) then v else used f c))
    → b < n
    → count_used g n + used f b ≡ count_used f n + v
unfolding count_used
count_used_change f g b v zero h l = absurd (omega arith)
count_used_change f g b v (suc n) h l = elim (Bool-cases (b == n)) [
  | inl y ↦
      let same : b ≡ n = ground arith in
      let rest : count_used g n ≡ count_used f n =
        count_used_same f g n (λ c lt. ground (arith, h c)) in
      let here : used g n ≡ v = ground (arith, h n) in omega (arith, rest, here, ap (used f) same)
  | inr y ↦
      let apart : used g n ≡ used f n = ground (arith, h n) in
      omega (arith, apart, count_used_change f g b v n h (ground arith))
]

-- All `n` blocks are used exactly when the count says `n`.
count_used-AllUsed : (bitmap : ℕ → ℕ) (n : ℕ) → (count_used bitmap n ≡ n) ↔ AllUsed bitmap 0 n
unfolding count_used
count_used-AllUsed bitmap zero = (λ e b h h'. elim h' [ ], λ all. refl)
count_used-AllUsed bitmap (suc n) = (
  λ e b h h'. elim (Bool-cases (b == n)) [
    | inl y ↦
        let same : b ≡ n = ground arith in
        rw same (omega (arith, count_used-le bitmap n, used-le_one bitmap n))
    | inr y ↦
        (count_used-AllUsed bitmap n).0
          (omega (arith, count_used-le bitmap n, used-le_one bitmap n)) b h (ground arith)
  ],
  λ all. omega (
    arith,
    all n (omega arith) (omega arith),
    (count_used-AllUsed bitmap n).1 (λ b h h'. all b h (omega arith)),
  ),
)

check_memory-IsExact : (p : Pmm) → IsExact p → IsExact (check_memory p)
check_memory-IsExact p x =
    let (same, bound, count) = check_memory-bitmap p in
    count
    ∙ x
    ∙ sym (ap (count_used p.bitmap) bound)
    ∙ sym (ap (λ m. count_used m (check_memory p).max_blocks) same)

-- A free block marked and counted.
IsExact-set :
    {p q : Pmm} (b : ℕ)
    → IsExact p
    → p.max_blocks ≤ bitmap_blocks
    → b < p.max_blocks
    → used p.bitmap b ≡ 0
    → Filled 1 b 1 (u32 (p.used_blocks + 1)) p q
    → IsExact q
IsExact-set {p} {q} b x room low free g = omega (
  arith,
  x,
  g.counted,
  count_used_change p.bitmap q.bitmap b 1 p.max_blocks g.blocks low,
  count_used-le p.bitmap p.max_blocks,
  free,
  ap (count_used q.bitmap) g.rest.max_blocks,
)

-- A used block freed and counted.
IsExact-unset :
    {p q : Pmm} (b : ℕ)
    → IsExact p
    → p.max_blocks ≤ bitmap_blocks
    → b < p.max_blocks
    → used p.bitmap b ≡ 1
    → Filled 0 b 1 (sub32 p.used_blocks 1) p q
    → IsExact q
IsExact-unset {p} {q} b x room low full g = omega (
  arith,
  x,
  g.counted,
  count_used_change p.bitmap q.bitmap b 0 p.max_blocks g.blocks low,
  count_used-le p.bitmap p.max_blocks,
  full,
  ap (count_used q.bitmap) g.rest.max_blocks,
)

-- `pmm_alloc_page` on a valid state keeps the count of used blocks exact.
pub alloc_page-IsExact :
    {p : Pmm} (r : ℕ) (q : Pmm) → IsValid p → IsExact p → pmm_alloc_page p ≡ some (r, q) → IsExact q
alloc_page-IsExact {p} r q s x e = split (pmm_alloc_page-AllocPage s e)
  where
    split : AllocPage p r q → IsExact q
    split (failed z state _) = rw state (check_memory-IsExact p x)
    split (taken b at f g) =
        let (same, bound, count) = check_memory-bitmap p in
        IsExact-set {p = check_memory p} b (check_memory-IsExact p x) (omega (arith, bound, s.room))
          (omega (arith, bound, f.below)) (ap (λ m. used m b) same ∙ f.free)
          (record {
            blocks = g.blocks;
            counted = g.counted ∙ ap (λ k. u32 (k + 1)) (sym count);
            rest = g.rest;
          })

-- `pmm_free_page` of a used block among those that `max_blocks` counts returns, and keeps the count
-- of used blocks exact.
free_page-IsExact :
    (addr : ℕ) (p : Pmm)
    → IsValid p
    → IsExact p
    → addr / pmm_block_size < p.max_blocks
    → used p.bitmap (addr / pmm_block_size) ≡ 1
    → (q : Pmm) × (pmm_free_page addr p ≡ some q) × IsExact q
unfolding pmm_free_page
free_page-IsExact addr p s x low full =
    let (q, e, g) = mmap_unset_lem (addr / pmm_block_size) p (omega (arith, s.room, low)) in
    (q, e, IsExact-unset (addr / pmm_block_size) x s.room low full g)

-- With an exact count, `check_memory` reports that memory ran out exactly when every block below
-- `max_blocks` is used.
pub report-AllUsed :
    (p : Pmm)
    → IsValid p
    → IsExact p
    → ((check_memory p).panics ≡ out_of_memory ∷ p.panics) ↔ AllUsed p.bitmap 0 p.max_blocks
unfolding check_memory
report-AllUsed p s x = (
  λ e.
      (count_used-AllUsed p.bitmap p.max_blocks).0
        (elim (Bool-cases (sub32 p.max_blocks p.used_blocks == 0)) [
          | inl y ↦ omega (
            arith,
            x,
            s.room,
            count_used-le p.bitmap p.max_blocks,
            let z : sub32 p.max_blocks p.used_blocks ≡ 0 = ground arith in z,
          )
          | inr y ↦ absurd (longer p.panics (rw y at e))
        ]),
  λ all.
      let full : (sub32 p.max_blocks p.used_blocks == 0) ≡ true =
        ground (arith, x, s.room, (count_used-AllUsed p.bitmap p.max_blocks).1 all) in
      rw full refl,
)
  where
    longer : (l : List Panic) → l ≡ out_of_memory ∷ l → ⊥
    longer l e = omega (arith, ap length e)
