-- ===== src/Pmm/FirstRun.antt =====
-- `mmap_find_free_frame` finds the lowest run of free blocks, where block 0 is used.
use night.Base.{
  ltb, ℕ, zero, suc, ◌+◌, ◌-◌, ◌*◌, ◌/◌, ◌≤◌, ◌<◌, ◌≡◌, refl, false, ◌⊎◌, inl, inr, arith, ◌==◌,
  Bool-cases, bit_and,
}
use night.Pmm.State.{Pmm, full_word, nthbit}
use night.Pmm.Blocks.{used, used-le_one}
use night.Pmm.FirstFree.{AllUsed, full-AllUsed, test_used, scanned}
use night.Pmm.Find.{
  Scan, found, searching, frame_bit, frame_bits, frame_word, frame_words, mmap_find_free_frame,
}
use night.Pmm.RunState.{NoRun, IsFirstRun, IsRun, Reached, IsRun-used, IsFirstRun-free, IsRun-free}

module _ (bitmap : ℕ → ℕ) (num : ℕ) (zero_used : used bitmap 0 ≡ 1) (wanted : 0 < num) where
  frame_bit-Reached :
      (i j first count : ℕ)
      → j < 32
      → IsRun bitmap num zero_used wanted (i * 32 + j) first count
      → Reached bitmap num zero_used wanted
          (i * 32 + j + 1)
          (frame_bit num i (bitmap i) j first count)
  unfolding frame_bit
  frame_bit-Reached i j first count h r =
      let k = i * 32 + j in
      let t = test_used bitmap i j h in
      elim (Bool-cases (bit_and (bitmap i) (nthbit j) == 0)) [
        | inl y ↦ rw y (
            let f : used bitmap k ≡ 0 = ground arith in
            elim (Bool-cases (count + 1 == num)) [
              | inl q ↦
                  rw q
                    (IsFirstRun-free bitmap num zero_used wanted k first count f (ground arith) r)
              | inr q ↦ rw q (
                  IsRun-free bitmap num zero_used wanted k first count f (ground (arith, r.short))
                    r)
            ])
        | inr y ↦ rw y (
            let u : used bitmap k ≡ 1 = ground (arith, used-le_one bitmap k) in
            let q : (0 == num) ≡ false = ground arith in
            rw q (IsRun-used bitmap num zero_used wanted k first count u r))
      ]

  Reached-mono : (k m : ℕ) (f : ℕ) → k ≤ m → IsFirstRun bitmap num k f → IsFirstRun bitmap num m f
  Reached-mono k m f h r = record {
    pos = r.pos;
    below = omega (arith, r.below);
    free = r.free;
    least = r.least;
  }

  frame_bits-Reached :
      (i n j first count m : ℕ)
      → j + n ≡ 32
      → i * 32 + 32 ≡ m
      → IsRun bitmap num zero_used wanted (i * 32 + j) first count
      → Reached bitmap num zero_used wanted m (frame_bits num i (bitmap i) n j first count)
  unfolding frame_bits
  frame_bits-Reached i zero j first count m e e' r =
      let same : i * 32 + j ≡ m = omega arith in rw same at r
  frame_bits-Reached i (suc n) j first count m e e' r =
      split (frame_bit num i (bitmap i) j first count)
        (frame_bit-Reached i j first count (omega arith) r)
        λ f c r'.
          frame_bits-Reached i n (j + 1) f c m (omega arith) e'
            (let same : i * 32 + j + 1 ≡ i * 32 + (j + 1) = omega arith in rw same at r')
    where
      split :
          (o : Scan)
          → Reached bitmap num zero_used wanted (i * 32 + j + 1) o
          → ((f c : ℕ)
              → IsRun bitmap num zero_used wanted (i * 32 + j + 1) f c
              → Reached bitmap num zero_used wanted m (frame_bits num i (bitmap i) n (j + 1) f c))
          → Reached bitmap num zero_used wanted m (elim o [
            | found f ↦ found f
            | searching f c ↦ frame_bits num i (bitmap i) n (j + 1) f c
          ])
      split (found f) done next = Reached-mono (i * 32 + j + 1) m f (omega arith) done
      split (searching f c) r' next = next f c r'

  -- Over a used word every run ends.
  NoRun-AllUsed : (k m : ℕ) → k ≤ m → AllUsed bitmap k m → NoRun bitmap num k → NoRun bitmap num m
  NoRun-AllUsed k m h all before s h' run = elim (Bool-cases (ltb k (s + num))) [
    | inl y ↦
        let last : k < s + num = ground arith in
        absurd (
          omega (
            arith,
            all (s + num - 1) (omega arith) (omega arith),
            run (s + num - 1) (omega arith) (omega arith),
          ))
    | inr y ↦ before s (ground arith) run
  ]

  frame_word-Reached :
      (i first count m : ℕ)
      → i * 32 + 32 ≡ m
      → IsRun bitmap num zero_used wanted (i * 32 + 0) first count
      → Reached bitmap num zero_used wanted m (frame_word num i (bitmap i) first count)
  unfolding frame_word
  frame_word-Reached i first count m e r = elim (Bool-cases (bitmap i == full_word)) [
    | inl y ↦ rw y (
        let all : AllUsed bitmap (i * 32) (i * 32 + 32) = full-AllUsed bitmap i (ground arith) in
        record {
          start = inl (refl, refl);
          free = λ b h h'. absurd (omega arith);
          edge = inr (i * 32 + 31, omega arith, all (i * 32 + 31) (omega arith) (omega arith));
          short = wanted;
          none_before =
              NoRun-AllUsed (i * 32 + 0) m (omega arith)
                (λ b h h'. all b (omega arith) (omega arith)) r.none_before;
        })
    | inr y ↦ rw y (frame_bits-Reached i 32 0 first count m refl e r)
  ]

  -- What the search returns: the lowest run, or 0 where there is none.
  abbrev Answer : (m first : ℕ) → Type 0
  Answer m first = (first ≡ 0) × NoRun bitmap num m ⊎ IsFirstRun bitmap num m first

  frame_words-Answer :
      (n i first count m : ℕ)
      → i * 32 + n * 32 ≡ m
      → IsRun bitmap num zero_used wanted (i * 32 + 0) first count
      → Answer m (frame_words num bitmap n i first count)
  unfolding frame_words
  frame_words-Answer zero i first count m e r =
      let same : i * 32 + 0 ≡ m = omega arith in inl (refl, rw same at r.none_before)
  frame_words-Answer (suc n) i first count m e r =
      split (frame_word num i (bitmap i) first count)
        (frame_word-Reached i first count ((i + 1) * 32 + 0) (omega arith) r)
        λ f c r'. frame_words-Answer n (i + 1) f c m (omega arith) r'
    where
      split :
          (o : Scan)
          → Reached bitmap num zero_used wanted ((i + 1) * 32 + 0) o
          → ((f c : ℕ)
              → IsRun bitmap num zero_used wanted ((i + 1) * 32 + 0) f c
              → Answer m (frame_words num bitmap n (i + 1) f c))
          → Answer m (elim o [ found f ↦ f | searching f c ↦ frame_words num bitmap n (i + 1) f c ])
      split (found f) done next = inr (Reached-mono ((i + 1) * 32 + 0) m f (omega arith) done)
      split (searching f c) r' next = next f c r'

-- With block 0 used, `mmap_find_free_frame` returns the lowest run of `num` free blocks of those
-- that it scans, or 0 when no such run exists.
pub mmap_find_free_frame_lem :
    (num : ℕ) (p : Pmm)
    → used p.bitmap 0 ≡ 1
    → 0 < num
    → let first = mmap_find_free_frame num p in
      (first ≡ 0) × NoRun p.bitmap num (scanned p) ⊎ IsFirstRun p.bitmap num (scanned p) first
unfolding mmap_find_free_frame
mmap_find_free_frame_lem num p z w =
    frame_words-Answer p.bitmap num z w (p.max_blocks / 32) 0 0 0 (scanned p) (omega arith)
      (record {
        start = inl (refl, refl);
        free = λ b h h'. absurd (omega arith);
        edge = inl refl;
        short = w;
        none_before = λ s h run. absurd (omega arith);
      })
