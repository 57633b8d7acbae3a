-- ===== src/Pmm/Find.antt =====
-- The two searches of kernel/src/mm/pmm.c over the bitmap. Their loops read the words below
-- `max_blocks / 32`, which lie inside the array for any `max_blocks` up to `2 ^ 20`.
use night.Base.{ℕ, zero, suc, ◌+◌, ◌*◌, ◌/◌, Option, none, some, ◌==◌, if◌then◌else◌, bit_and}
use night.Pmm.State.{Pmm, full_word, nthbit}

-- The inner loop of `mmap_find_free`: `n` rounds from digit `j` on.
unfoldable pub find_bit : ℕ → ℕ → ℕ → Option ℕ
find_bit zero j w = none
find_bit (suc n) j w =
    let rest = find_bit n (j + 1) w in if bit_and w (nthbit j) == 0 then some j else rest

-- The body of the outer loop: a full word is passed over.
unfoldable pub word_free : ℕ → Option ℕ
unfolding find_bit
word_free w = if w == full_word then none else find_bit 32 0 w

-- The outer loop: `n` words from word `i` on.
unfoldable pub find_word : (ℕ → ℕ) → ℕ → ℕ → ℕ
unfolding word_free
find_word bitmap zero i = 0
find_word bitmap (suc n) i = elim (word_free (bitmap i)) [
  | some j ↦ i * 32 + j
  | none ↦ find_word bitmap n (i + 1)
]

unfoldable pub mmap_find_free : Pmm → ℕ
unfolding find_word
mmap_find_free p = find_word p.bitmap (p.max_blocks / 32) 0

-- What the loops of `mmap_find_free_frame` have seen: a long enough run, or the run so far.
pub data Scan : Type 0 where
  found : ℕ → Scan
  searching : (first count : ℕ) → Scan

-- The body of the inner loop, at digit `j` of word `i`.
unfoldable pub frame_bit : (frame_size i w j first count : ℕ) → Scan
frame_bit frame_size i w j first count =
    let first' =
      if bit_and w (nthbit j) == 0 then (if first == 0 then i * 32 + j else first) else 0 in
    let count' = if bit_and w (nthbit j) == 0 then count + 1 else 0 in
    if count' == frame_size then found first' else searching first' count'

-- The inner loop: `n` rounds from digit `j` on.
unfoldable pub frame_bits : (frame_size i w n j first count : ℕ) → Scan
frame_bits frame_size i w zero j first count = searching first count
frame_bits frame_size i w (suc n) j first count = elim (frame_bit frame_size i w j first count) [
  | found f ↦ found f
  | searching f c ↦ frame_bits frame_size i w n (j + 1) f c
]

-- The body of the outer loop: a full word ends the run.
unfoldable pub frame_word : (frame_size i w first count : ℕ) → Scan
unfolding frame_bits frame_bit
frame_word frame_size i w first count =
    if w == full_word then searching 0 0 else frame_bits frame_size i w 32 0 first count

-- The outer loop: `n` words from word `i` on.
unfoldable pub frame_words : (frame_size : ℕ) (bitmap : ℕ → ℕ) (n i first count : ℕ) → ℕ
unfolding frame_word
frame_words frame_size bitmap zero i first count = 0
frame_words frame_size bitmap (suc n) i first count =
    elim (frame_word frame_size i (bitmap i) first count) [
      | found f ↦ f
      | searching f c ↦ frame_words frame_size bitmap n (i + 1) f c
    ]

unfoldable pub mmap_find_free_frame : ℕ → Pmm → ℕ
unfolding frame_words
mmap_find_free_frame frame_size p = frame_words frame_size p.bitmap (p.max_blocks / 32) 0 0 0
