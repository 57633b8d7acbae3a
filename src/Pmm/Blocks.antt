-- ===== src/Pmm/Blocks.antt =====
-- The bitmap of kernel/src/mm/pmm.c as a set of blocks: what `mmap_set`, `mmap_unset` and runs of
-- them do to the block at each number.
use night.Base.{
  ℕ, ◌+◌, ◌-◌, ◌/◌, ◌%◌, ◌^◌, ◌≤◌, ◌<◌, ◌≡◌, ◌≢◌, refl, ap, ◌&&◌, inl, inr, some, arith, ltb, leb,
  ◌==◌, if◌then◌else◌, Bool-cases, bit_and, bit_or, update,
}
use night.Base.Words.{
  bit, bit-le_one, bit-bit_and, bit-bit_or, bit-pow_self, bit-pow_ne, bit_complement, pow_lt,
}
use night.Libk.Arith.{u32, sub32}
use night.Pmm.State.{Pmm, full_word, nthbit, mmap_set, mmap_unset}

-- 1 where block `b` is used, 0 where it is free.
unfoldable pub used : (ℕ → ℕ) → ℕ → ℕ
used bitmap b = bit (bitmap (b / 32)) (b % 32)

abbrev pub IsFree : Pmm → ℕ → Type 0
IsFree p b = used p.bitmap b ≡ 0

abbrev pub IsUsed : Pmm → ℕ → Type 0
IsUsed p b = used p.bitmap b ≡ 1

pub used-le_one : (bitmap : ℕ → ℕ) (b : ℕ) → used bitmap b ≤ 1
unfolding used
used-le_one bitmap b = bit-le_one (bitmap (b / 32)) (b % 32)

-- `q` is `p` but for the bitmap and the count of used blocks.
pub record SameFrame (p q : Pmm) : Type 0 where
  pub mem_size : q.mem_size ≡ p.mem_size
  pub max_blocks : q.max_blocks ≡ p.max_blocks
  pub kernel_end : q.kernel_end ≡ p.kernel_end
  pub panics : q.panics ≡ p.panics

set_bit : (w n i : ℕ) → bit (bit_or w (nthbit n)) i ≡ (if n == i then 1 else bit w i)
set_bit w n i = elim (Bool-cases (n == i)) [
  | inl e ↦ rw e (
      let same : n ≡ i = ground arith in
      omega (arith, bit-bit_or w (2 ^ n) i, ap (bit (2 ^ n)) same, bit-pow_self n, bit-le_one w i))
  | inr e ↦ rw e (
      let apart : n ≢ i = ground arith in
      omega (arith, bit-bit_or w (2 ^ n) i, bit-pow_ne n i apart))
]

unset_bit :
    (w n i : ℕ)
    → n < 32
    → i < 32
    → bit (bit_and w (full_word - nthbit n)) i ≡ (if n == i then 0 else bit w i)
unset_bit w n i hn hi =
    let mask : bit (full_word - 2 ^ n) i ≡ 1 - bit (2 ^ n) i =
      bit_complement 32 (2 ^ n) i (pow_lt n 32 hn) hi in
    elim (Bool-cases (n == i)) [
      | inl e ↦ rw e (
          let same : n ≡ i = ground arith in
          omega (
            arith,
            bit-bit_and w (full_word - 2 ^ n) i,
            mask,
            ap (bit (2 ^ n)) same,
            bit-pow_self n,
          ))
      | inr e ↦ rw e (
          let apart : n ≢ i = ground arith in
          omega (
            arith,
            bit-bit_and w (full_word - 2 ^ n) i,
            mask,
            bit-pow_ne n i apart,
            bit-le_one w i,
          ))
    ]

set_used :
    (bitmap : ℕ → ℕ) (n b : ℕ)
    → used (update bitmap (n / 32) (bit_or (bitmap (n / 32)) (nthbit (n % 32)))) b
      ≡ (if n == b then 1 else used bitmap b)
unfolding used
set_used bitmap n b = ground (arith, set_bit (bitmap (n / 32)) (n % 32) (b % 32))

unset_used :
    (bitmap : ℕ → ℕ) (n b : ℕ)
    → used (update bitmap (n / 32) (bit_and (bitmap (n / 32)) (full_word - nthbit (n % 32)))) b
      ≡ (if n == b then 0 else used bitmap b)
unfolding used
unset_used bitmap n b = ground (arith, unset_bit (bitmap (n / 32)) (n % 32) (b % 32))

-- `q` is `p` with the blocks `first` up to `first + num` at `v`, and the count at `count`.
pub record Filled (v first num count : ℕ) (p q : Pmm) : Type 0 where
  pub blocks :
      (b : ℕ)
      → used q.bitmap b ≡ (if leb first b && ltb b (first + num) then v else used p.bitmap b)
  pub counted : q.used_blocks ≡ count
  pub rest : SameFrame p q

-- The blocks that the bitmap has room for.
abbrev pub bitmap_blocks : ℕ
bitmap_blocks = 2 ^ 20

pub mmap_set_lem :
    (n : ℕ) (p : Pmm)
    → n < bitmap_blocks
    → (q : Pmm) × (mmap_set n p ≡ some q) × Filled 1 n 1 (u32 (p.used_blocks + 1)) p q
unfolding mmap_set
mmap_set_lem n p h = (
  record p {
    bitmap = update p.bitmap (n / 32) (bit_or (p.bitmap (n / 32)) (nthbit (n % 32)));
    used_blocks = u32 (p.used_blocks + 1);
  },
  ground arith,
  record {
    blocks = λ b. ground (arith, set_used p.bitmap n b);
    counted = refl;
    rest = record { mem_size = refl; max_blocks = refl; kernel_end = refl; panics = refl };
  },
)

pub mmap_unset_lem :
    (n : ℕ) (p : Pmm)
    → n < bitmap_blocks
    → (q : Pmm) × (mmap_unset n p ≡ some q) × Filled 0 n 1 (sub32 p.used_blocks 1) p q
unfolding mmap_unset
mmap_unset_lem n p h = (
  record p {
    bitmap = update p.bitmap (n / 32) (bit_and (p.bitmap (n / 32)) (full_word - nthbit (n % 32)));
    used_blocks = sub32 p.used_blocks 1;
  },
  ground arith,
  record {
    blocks = λ b. ground (arith, unset_used p.bitmap n b);
    counted = refl;
    rest = record { mem_size = refl; max_blocks = refl; kernel_end = refl; panics = refl };
  },
)
