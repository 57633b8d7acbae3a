-- ===== src/Pmm/RunState.antt =====
-- The variables of the loops of `mmap_find_free_frame` in kernel/src/mm/pmm.c: the run of free
-- blocks that ends at the block they have come to.
use night.Base.{
  ltb, ℕ, ◌+◌, ◌≤◌, ◌<◌, ◌≡◌, refl, ap, ◌⊎◌, inl, inr, arith, ◌==◌, if◌then◌else◌, Bool-cases,
}
use night.Pmm.Blocks.{used}
use night.Pmm.Find.{Scan, found, searching}

-- The `num` blocks from `first` on are free.
abbrev pub FreeRun : (ℕ → ℕ) → (first num : ℕ) → Type 0
FreeRun bitmap first num = (b : ℕ) → first ≤ b → b < first + num → used bitmap b ≡ 0

-- No run of `num` free blocks ends at or below `m`.
abbrev pub NoRun : (ℕ → ℕ) → (num m : ℕ) → Type 0
NoRun bitmap num m = (s : ℕ) → s + num ≤ m → ¬ FreeRun bitmap s num

-- The lowest run of `num` free blocks below `m` starts at `first`.
pub record IsFirstRun (bitmap : ℕ → ℕ) (num m first : ℕ) : Type 0 where
  pub pos : 0 < first
  pub below : first + num ≤ m
  pub free : FreeRun bitmap first num
  pub least : (s : ℕ) → s < first → ¬ FreeRun bitmap s num

module _ (bitmap : ℕ → ℕ) (num : ℕ) (zero_used : used bitmap 0 ≡ 1) (wanted : 0 < num) where
  -- The variables of the loops before block `k`: `count` free blocks end there, behind the used
  -- block `e`.
  pub record IsRun (k first count : ℕ) : Type 0 where
    pub start : (count ≡ 0) × (first ≡ 0) ⊎ (0 < first) × (first + count ≡ k)
    pub free : (b : ℕ) → k ≤ b + count → b < k → used bitmap b ≡ 0
    pub edge : (k ≡ 0) ⊎ ((e : ℕ) × (e + count + 1 ≡ k) × (used bitmap e ≡ 1))
    pub short : count < num
    pub none_before : NoRun bitmap num k

  abbrev pub Reached : ℕ → Scan → Type 0
  Reached m (found f) = IsFirstRun bitmap num m f
  Reached m (searching first count) = IsRun m first count

  -- A used block ends every run.
  NoRun-used : (k : ℕ) → used bitmap k ≡ 1 → NoRun bitmap num k → NoRun bitmap num (k + 1)
  NoRun-used k u before s h run = elim (Bool-cases (ltb k (s + num))) [
    | inl y ↦ absurd (omega (arith, run k (omega arith) (ground arith)))
    | inr y ↦ before s (ground arith) run
  ]

  NoRun-short :
      (k count e : ℕ)
      → e + count + 1 ≡ k
      → used bitmap e ≡ 1
      → count + 1 < num
      → NoRun bitmap num k
      → NoRun bitmap num (k + 1)
  NoRun-short k count e at u short before s h run = elim (Bool-cases (ltb k (s + num))) [
    | inl y ↦
        let last : k < s + num = ground arith in
        absurd (omega (arith, u, run e (omega arith) (omega arith)))
    | inr y ↦ before s (ground arith) run
  ]

  pub IsRun-used : (k first count : ℕ) → used bitmap k ≡ 1 → IsRun k first count → IsRun (k + 1) 0 0
  IsRun-used k first count u r = record {
    start = inl (refl, refl);
    free = λ b h h'. absurd (omega arith);
    edge = inr (k, omega arith, u);
    short = wanted;
    none_before = NoRun-used k u r.none_before;
  }

  -- The start of the run that a free block `k` extends.
  abbrev from : ℕ → ℕ → ℕ
  from k first = if first == 0 then k else first

  -- A free block is not block 0, so the run behind it has an edge.
  edge_of_free :
      (k first count : ℕ)
      → used bitmap k ≡ 0
      → IsRun k first count
      → (e : ℕ) × (e + count + 1 ≡ k) × (used bitmap e ≡ 1)
  edge_of_free k first count f r = elim r.edge [
    | inl z ↦ absurd (omega (arith, zero_used, f, ap (used bitmap) z))
    | inr e ↦ e
  ]

  free_next :
      (k count : ℕ)
      → used bitmap k ≡ 0
      → ((b : ℕ) → k ≤ b + count → b < k → used bitmap b ≡ 0)
      → (b : ℕ) → k + 1 ≤ b + (count + 1)
      → b < k + 1
      → used bitmap b ≡ 0
  free_next k count f free b h h' = elim (Bool-cases (b == k)) [
    | inl y ↦ let same : b ≡ k = ground arith in rw same f
    | inr y ↦ free b (omega arith) (ground arith)
  ]

  start_next :
      (k first count : ℕ)
      → used bitmap k ≡ 0
      → IsRun k first count
      → (0 < from k first) × (from k first + (count + 1) ≡ k + 1)
  start_next k first count f r =
      let (e, at, _) = edge_of_free k first count f r in ground (arith, r.start)

  -- The run is as long as wanted: it is the lowest one.
  pub IsFirstRun-free :
      (k first count : ℕ)
      → used bitmap k ≡ 0
      → count + 1 ≡ num
      → IsRun k first count
      → IsFirstRun bitmap num (k + 1) (from k first)
  IsFirstRun-free k first count f full r =
      let (pos, sum) = start_next k first count f r in
      record {
        pos = pos;
        below = omega arith;
        free = λ b h h'. free_next k count f r.free b (omega arith) (omega arith);
        least = λ s h. r.none_before s (omega arith);
      }

  pub IsRun-free :
      (k first count : ℕ)
      → used bitmap k ≡ 0
      → count + 1 < num
      → IsRun k first count
      → IsRun (k + 1) (from k first) (count + 1)
  IsRun-free k first count f short r =
      let (e, at, u) = edge_of_free k first count f r in
      record {
        start = inr (start_next k first count f r);
        free = free_next k count f r.free;
        edge = inr (e, omega arith, u);
        short = short;
        none_before = NoRun-short k count e at u short r.none_before;
      }
