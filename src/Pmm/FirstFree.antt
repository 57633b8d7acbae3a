-- ===== src/Pmm/FirstFree.antt =====
-- `mmap_find_free` finds the lowest free block.
use night.Base.{
  ltb, ℕ, zero, suc, ◌+◌, ◌*◌, ◌/◌, ◌%◌, ◌≤◌, ◌<◌, ◌≡◌, ◌≢◌, refl, ◌⊎◌, inl, inr, Option, none,
  some, arith, ◌==◌, Bool-cases, bit_and,
}
use night.Base.Words.{bit, bit_and-pow_zero, bit-zero, bit_complement}
use night.Pmm.State.{Pmm, full_word, nthbit}
use night.Pmm.Blocks.{used, used-le_one}
use night.Pmm.Find.{find_bit, word_free, find_word, mmap_find_free}

-- Every digit of a full word is set.
pub full_word-bit : (i : ℕ) → i < 32 → bit full_word i ≡ 1
full_word-bit i h = omega (arith, bit_complement 32 0 i (omega arith) h, bit-zero i)

-- The test of digit `j` of word `i` is a test of block `i * 32 + j`.
pub test_used :
    (bitmap : ℕ → ℕ) (i j : ℕ)
    → j < 32
    → (bit_and (bitmap i) (nthbit j) == 0) ≡ (used bitmap (i * 32 + j) == 0)
unfolding used
test_used bitmap i j h =
    let word : (i * 32 + j) / 32 ≡ i = omega arith in
    let digit : (i * 32 + j) % 32 ≡ j = omega arith in
    rw (word, digit) (ground (arith, bit_and-pow_zero (bitmap i) j))

-- Every block from `k` up to `n` is used.
abbrev pub AllUsed : (ℕ → ℕ) → ℕ → ℕ → Type 0
AllUsed bitmap k n = (b : ℕ) → k ≤ b → b < n → used bitmap b ≡ 1

-- The lowest free block from `k` up to `n` is `b`.
pub record IsFirstFree (bitmap : ℕ → ℕ) (k n b : ℕ) : Type 0 where
  pub from : k ≤ b
  pub below : b < n
  pub free : used bitmap b ≡ 0
  pub least : AllUsed bitmap k b

-- What the inner loop finds in word `i` between the digits `j` and `m`.
abbrev InWord : (ℕ → ℕ) → (i j m : ℕ) → Option ℕ → Type 0
InWord bitmap i j m none = AllUsed bitmap (i * 32 + j) (i * 32 + m)
InWord bitmap i j m (some d) = IsFirstFree bitmap (i * 32 + j) (i * 32 + m) (i * 32 + d)

used_of_ne_zero : (bitmap : ℕ → ℕ) (b : ℕ) → used bitmap b ≢ 0 → used bitmap b ≡ 1
used_of_ne_zero bitmap b h = omega (arith, used-le_one bitmap b)

AllUsed-cons :
    (bitmap : ℕ → ℕ) (k k' n : ℕ)
    → used bitmap k ≡ 1
    → k' ≡ k + 1
    → AllUsed bitmap k' n
    → AllUsed bitmap k n
AllUsed-cons bitmap k k' n u e all b h h' = elim (Bool-cases (b == k)) [
  | inl q ↦ let same : b ≡ k = ground arith in rw same u
  | inr q ↦ all b (ground arith) (omega arith)
]

InWord-cons :
    (bitmap : ℕ → ℕ) (i j m : ℕ) (o : Option ℕ)
    → used bitmap (i * 32 + j) ≡ 1
    → InWord bitmap i (j + 1) m o
    → InWord bitmap i j m o
InWord-cons bitmap i j m none u all =
    AllUsed-cons bitmap (i * 32 + j) (i * 32 + (j + 1)) (i * 32 + m) u (omega arith) all
InWord-cons bitmap i j m (some d) u f = record {
  from = omega (arith, f.from);
  below = f.below;
  free = f.free;
  least = AllUsed-cons bitmap (i * 32 + j) (i * 32 + (j + 1)) (i * 32 + d) u (omega arith) f.least;
}

find_bit-InWord :
    (bitmap : ℕ → ℕ) (i n j m : ℕ)
    → j + n ≡ m
    → m ≤ 32
    → InWord bitmap i j m (find_bit n j (bitmap i))
unfolding find_bit
find_bit-InWord bitmap i zero j m e h = λ b p q. absurd (omega arith)
find_bit-InWord bitmap i (suc n) j m e h =
    let t = test_used bitmap i j (omega arith) in
    elim (Bool-cases (bit_and (bitmap i) (nthbit j) == 0)) [
      | inl y ↦ rw y (record {
        from = omega arith;
        below = omega arith;
        free = ground arith;
        least = λ b p q. absurd (omega arith);
      })
      | inr y ↦ rw y (
          InWord-cons bitmap i j m (find_bit n (j + 1) (bitmap i))
            (used_of_ne_zero bitmap (i * 32 + j) (ground arith))
            (find_bit-InWord bitmap i n (j + 1) m (omega arith) h))
    ]

-- What a search from block `k` up to block `n` returns: the lowest free block, or 0 for none.
abbrev pub Returned : (ℕ → ℕ) → (k n b : ℕ) → Type 0
Returned bitmap k n b = (b ≡ 0) × AllUsed bitmap k n ⊎ IsFirstFree bitmap k n b

pub full-AllUsed :
    (bitmap : ℕ → ℕ) (i : ℕ) → bitmap i ≡ full_word → AllUsed bitmap (i * 32) (i * 32 + 32)
unfolding used
full-AllUsed bitmap i e b h h' =
    let word : b / 32 ≡ i = omega arith in rw (word, e) (full_word-bit (b % 32) (omega arith))

AllUsed-append :
    (bitmap : ℕ → ℕ) (k m n : ℕ) → AllUsed bitmap k m → AllUsed bitmap m n → AllUsed bitmap k n
AllUsed-append bitmap k m n low high b h h' = elim (Bool-cases (ltb b m)) [
  | inl y ↦ low b h (ground arith)
  | inr y ↦ high b (ground arith) h'
]

Returned-append :
    (bitmap : ℕ → ℕ) (k m n b : ℕ)
    → AllUsed bitmap k m
    → k ≤ m
    → Returned bitmap m n b
    → Returned bitmap k n b
Returned-append bitmap k m n b low h (inl (z, high)) = inl (z, AllUsed-append bitmap k m n low high)
Returned-append bitmap k m n b low h (inr f) = inr (record {
  from = omega (arith, f.from);
  below = f.below;
  free = f.free;
  least = AllUsed-append bitmap k m b low f.least;
})

word_free-InWord : (bitmap : ℕ → ℕ) (i : ℕ) → InWord bitmap i 0 32 (word_free (bitmap i))
unfolding word_free
word_free-InWord bitmap i = elim (Bool-cases (bitmap i == full_word)) [
  | inl y ↦ rw y (λ b h h'. full-AllUsed bitmap i (ground arith) b (omega arith) (omega arith))
  | inr y ↦ rw y (find_bit-InWord bitmap i 32 0 32 refl (omega arith))
]

find_word-Returned :
    (bitmap : ℕ → ℕ) (n i m : ℕ)
    → i * 32 + n * 32 ≡ m
    → Returned bitmap (i * 32 + 0) m (find_word bitmap n i)
unfolding find_word
find_word-Returned bitmap zero i m e = inl (refl, λ b h h'. absurd (omega arith))
find_word-Returned bitmap (suc n) i m e =
    split (word_free (bitmap i)) (word_free-InWord bitmap i)
      (find_word-Returned bitmap n (i + 1) m (omega arith))
  where
    split :
        (o : Option ℕ)
        → InWord bitmap i 0 32 o
        → Returned bitmap ((i + 1) * 32 + 0) m (find_word bitmap n (i + 1))
        → Returned bitmap
            (i * 32 + 0)
            m
            (elim o [ some j ↦ i * 32 + j | none ↦ find_word bitmap n (i + 1) ])
    split none low rest =
        Returned-append bitmap (i * 32 + 0) ((i + 1) * 32 + 0) m (find_word bitmap n (i + 1))
          (λ b h h'. low b h (omega arith)) (omega arith) rest
    split (some d) f rest =
        inr
          (record { from = f.from; below = omega (arith, f.below); free = f.free; least = f.least })

-- The blocks that the searches look at.
abbrev pub scanned : Pmm → ℕ
scanned p = p.max_blocks / 32 * 32

-- `mmap_find_free` returns the lowest free block of those that it scans, or 0 when all are used.
pub mmap_find_free_lem : (p : Pmm) → Returned p.bitmap 0 (scanned p) (mmap_find_free p)
unfolding mmap_find_free
mmap_find_free_lem p = find_word-Returned p.bitmap (p.max_blocks / 32) 0 (scanned p) (omega arith)
