-- ===== src/Pmm/State.antt =====
-- The static variables of kernel/src/mm/pmm.c, and the functions that touch one block's bit.
use night.Base.{
  ℕ, ◌+◌, ◌-◌, ◌*◌, ◌/◌, ◌%◌, ◌^◌, bit_and, bit_or, Option, none, some, List, ◌∷◌, ltb,
  if◌then◌else◌, update,
}
use night.Libk.Arith.{u32, sub32}

-- The messages that pmm.c hands to `kpanic`, which prints them and returns.
pub data Panic : Type 0 where
  kernel_too_large : Panic
  out_of_memory : Panic

-- `bitmap[i]` is word `i` of the bitmap; a set digit is a used block. `panics` holds the calls of
-- `kpanic` so far, the last one first.
pub record Pmm : Type 0 where
  pub bitmap : ℕ → ℕ
  pub mem_size : ℕ
  pub used_blocks : ℕ
  pub max_blocks : ℕ
  pub kernel_end : ℕ
  pub panics : List Panic

-- The length of `bitmap`, `1024 * 1024 / 32` words.
abbrev pub bitmap_words : ℕ
bitmap_words = 1024 * 1024 / 32

abbrev pub pmm_block_size : ℕ
pmm_block_size = 4096

abbrev pub full_word : ℕ
full_word = 0xFFFFFFFF

abbrev pub kpanic : Panic → Pmm → Pmm
kpanic m p = record p { panics = m ∷ p.panics }

-- `NTHBIT(n)`
abbrev pub nthbit : ℕ → ℕ
nthbit n = 2 ^ n

-- An index past the end of `bitmap` is a fault.
unfoldable pub mmap_set : ℕ → Pmm → Option Pmm
mmap_set n p =
    if ltb (n / 32) bitmap_words
    then some (record p {
      bitmap = update p.bitmap (n / 32) (bit_or (p.bitmap (n / 32)) (nthbit (n % 32)));
      used_blocks = u32 (p.used_blocks + 1);
    })
    else none

-- `~NTHBIT(..)` is `0xFFFFFFFF` less the bit.
unfoldable pub mmap_unset : ℕ → Pmm → Option Pmm
mmap_unset n p =
    if ltb (n / 32) bitmap_words
    then some (record p {
      bitmap = update p.bitmap (n / 32) (bit_and (p.bitmap (n / 32)) (full_word - nthbit (n % 32)));
      used_blocks = sub32 p.used_blocks 1;
    })
    else none

-- Any nonzero result means "used".
unfoldable pub mmap_test : ℕ → Pmm → Option ℕ
mmap_test n p =
    if ltb (n / 32) bitmap_words then some (bit_and (p.bitmap (n / 32)) (nthbit (n % 32))) else none
