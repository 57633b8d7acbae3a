-- ===== src/Libk/Memory.antt =====
-- lib/libk/src/memory.c over a memory that maps an address to what it holds: `memcpy`, `memset`,
-- `memsetw` and `memcmp`. The addresses count cells of the size that is copied.
use night.Base.{
  ℕ, zero, suc, ◌+◌, ◌-◌, ◌≤◌, ◌≡◌, arith, Bool, ◌&&◌, ltb, leb, ◌==◌, if◌then◌else◌, update, ◌⊎◌,
  inl, inr,
}

-- `count` rounds of `*dp++ = *sp++`.
unfoldable pub memcpy : (dest src count : ℕ) → (ℕ → ℕ) → ℕ → ℕ
memcpy dest src zero mem = mem
memcpy dest src (suc count) mem = memcpy (dest + 1) (src + 1) count (update mem dest (mem src))

-- `count` rounds of `*temp++ = val`; `memsetw` is the same loop over 16-bit cells.
unfoldable pub memset : (dest val count : ℕ) → (ℕ → ℕ) → ℕ → ℕ
memset dest val zero mem = mem
memset dest val (suc count) mem = memset (dest + 1) val count (update mem dest val)

-- 1 at the first difference, else 0: the rounds from `k` on.
unfoldable pub memcmp : (uno dos num : ℕ) → (ℕ → ℕ) → ℕ
memcmp uno dos zero mem = 0
memcmp uno dos (suc num) mem =
    let rest = memcmp (uno + 1) (dos + 1) num mem in if mem uno == mem dos then rest else 1

abbrev pub within : (first count i : ℕ) → Bool
within first count i = leb first i && ltb i (first + count)

-- Copying downwards or to another place, `memcpy` moves the block as it was, even where the two
-- ranges overlap, and changes nothing else.
pub memcpy_down :
    (dest src count : ℕ) (mem : ℕ → ℕ) (i : ℕ)
    → dest ≤ src
    → memcpy dest src count mem i ≡ (if within dest count i then mem (src + (i - dest)) else mem i)
unfolding memcpy
memcpy_down dest src zero mem i h = ground arith
memcpy_down dest src (suc count) mem i h =
    ground (arith, memcpy_down (dest + 1) (src + 1) count (update mem dest (mem src)) i)

-- The same where the destination lies behind the whole block.
memcpy_up :
    (dest src count : ℕ) (mem : ℕ → ℕ) (i : ℕ)
    → src + count ≤ dest
    → memcpy dest src count mem i ≡ (if within dest count i then mem (src + (i - dest)) else mem i)
unfolding memcpy
memcpy_up dest src zero mem i h = ground arith
memcpy_up dest src (suc count) mem i h =
    ground (arith, memcpy_up (dest + 1) (src + 1) count (update mem dest (mem src)) i)

-- A copy moves the block as it was and changes nothing else, unless the destination begins inside
-- the block, behind its start.
pub memcpy_lem :
    (dest src count : ℕ) (mem : ℕ → ℕ) (i : ℕ)
    → (dest ≤ src) ⊎ (src + count ≤ dest)
    → memcpy dest src count mem i ≡ (if within dest count i then mem (src + (i - dest)) else mem i)
memcpy_lem dest src count mem i (inl h) = memcpy_down dest src count mem i h
memcpy_lem dest src count mem i (inr h) = memcpy_up dest src count mem i h

-- `memset` fills the block and changes nothing else.
pub memset_lem :
    (dest val count : ℕ) (mem : ℕ → ℕ) (i : ℕ)
    → memset dest val count mem i ≡ (if within dest count i then val else mem i)
unfolding memset
memset_lem dest val zero mem i = ground arith
memset_lem dest val (suc count) mem i =
    ground (arith, memset_lem (dest + 1) val count (update mem dest val) i)
