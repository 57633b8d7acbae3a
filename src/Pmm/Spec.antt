-- ===== src/Pmm/Spec.antt =====
-- What kernel/src/mm/pmm.c promises, with no bitmap and no report: a set of used blocks and their
-- count. The lowest free block, or the lowest run of free blocks, of those that are scanned is given
-- out.
use night.Base.{
  ℕ, zero, suc, ◌+◌, ◌-◌, ◌*◌, ◌/◌, Bool, true, Option, none, some, List, [], ◌∷◌, ltb, leb, ◌&&◌,
  ◌==◌, if◌then◌else◌,
}
use night.Libk.Arith.{u32, sub32}

-- A block maps to 1 when it is used, and to 0 when it is free.
abbrev pub Blocks : Type 0
Blocks = ℕ → ℕ

pub record Allocator : Type 0 where
  pub blocks : Blocks
  pub count : ℕ

pub data Op : Type 0 where
  alloc : Op
  alloc_run : (num : ℕ) → Op
  free : (addr : ℕ) → Op
  free_run : (addr num : ℕ) → Op

-- The lowest free block of the `n` blocks from `k` on.
unfoldable pub lowest_free : (u : Blocks) (k n : ℕ) → Option ℕ
lowest_free u k zero = none
lowest_free u k (suc n) = let rest = lowest_free u (k + 1) n in if u k == 0 then some k else rest

-- Whether the `num` blocks from `s` on are free.
unfoldable pub is_free_run : (u : Blocks) (s num : ℕ) → Bool
is_free_run u s zero = true
is_free_run u s (suc num) = (u s == 0) && is_free_run u (s + 1) num

-- The lowest start of `num` free blocks among the `n` blocks from `k` on.
unfoldable pub lowest_run : (u : Blocks) (num k n : ℕ) → Option ℕ
unfolding is_free_run
lowest_run u num k zero = none
lowest_run u num k (suc n) =
    let rest = lowest_run u num (k + 1) n in if is_free_run u k num then some k else rest

-- The `num` blocks from `first` on become used (1) or free (0).
abbrev pub fill : (v first num : ℕ) → Blocks → Blocks
fill v first num u b = if leb first b && ltb b (first + num) then v else u b

abbrev pub take : (first num : ℕ) → Allocator → ℕ × Allocator
take first num s =
    (first * 4096, record { blocks = fill 1 first num s.blocks; count = u32 (s.count + num) })

abbrev pub give_back : (first num : ℕ) → Allocator → ℕ × Allocator
give_back first num s =
    (0, record { blocks = fill 0 first num s.blocks; count = sub32 s.count num })

abbrev pub take_found : Option ℕ → (num : ℕ) → Allocator → ℕ × Allocator
take_found none num s = (0, s)
take_found (some first) num s = take first num s

-- The result of a call, an address or 0, and the state after it, on a machine of `max` blocks. The
-- blocks of a last word that is not full are not scanned. A run is refused when the count leaves too
-- few blocks.
unfoldable pub step : (max : ℕ) → Op → Allocator → ℕ × Allocator
unfolding lowest_free lowest_run
step max alloc s = take_found (lowest_free s.blocks 0 (max / 32 * 32)) 1 s
step max (alloc_run num) s =
    if ltb (sub32 max s.count) num
    then (0, s)
    else take_found (lowest_run s.blocks num 0 (max / 32 * 32 + 1 - num)) num s
step max (free addr) s = give_back (addr / 4096) 1 s
step max (free_run addr num) s = give_back (addr / 4096) num s

unfoldable pub run : (max : ℕ) → List Op → Allocator → List ℕ
unfolding step
run max [] s = []
run max (op ∷ ops) s = let t = step max op s in t.0 ∷ run max ops t.1
