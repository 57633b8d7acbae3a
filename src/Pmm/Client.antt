-- ===== src/Pmm/Client.antt =====
-- A client of kernel/src/mm/pmm.c: sequences of calls, by the operations of the specification.
use night.Base.{ℕ, ◌+◌, ◌/◌, ◌^◌, ◌≤◌, ◌<◌, ◌≡◌, Option, some, List, [], ◌∷◌, ◌>>=◌}
use night.Pmm.State.{Pmm}
use night.Pmm.Blocks.{used, bitmap_blocks}
use night.Pmm.Hooks.{liballoc_alloc, liballoc_free}
use night.Pmm.Alloc.{pmm_alloc_page, pmm_free_page}
use night.Pmm.PageLaws.{IsValid}
use night.Pmm.Spec.{Allocator, Op, alloc, alloc_run, free, free_run}

-- The calls of a client, runs by the hooks of the heap, with the results in order; freeing has the
-- result 0. `none` is a fault.
unfoldable pub call : Op → Pmm → Option (ℕ × Pmm)
call alloc p = pmm_alloc_page p
call (alloc_run num) p = liballoc_alloc num p
call (free addr) p = pmm_free_page addr p >>= λ q. some (0, q)
call (free_run addr num) p = liballoc_free addr num p

unfoldable pub run : List Op → Pmm → Option (List ℕ)
unfolding call
run [] p = some []
run (op ∷ ops) p = do r ← call op p; rest ← run ops r.1; some (r.0 ∷ rest)

-- The state stands for the used blocks and the count of the specification.
pub record Shows (p : Pmm) (max : ℕ) (s : Allocator) : Type 0 where
  pub valid : IsValid p
  pub view : (b : ℕ) → used p.bitmap b ≡ s.blocks b
  pub count : p.used_blocks ≡ s.count
  pub size : p.max_blocks ≡ max

-- What a client may ask for: a run of at least one block, and to free blocks that the bitmap has,
-- but for block 0.
abbrev pub IsAllowed : Op → Type 0
IsAllowed alloc = Unit {0}
IsAllowed (alloc_run num) = 0 < num
IsAllowed (free addr) = (4096 ≤ addr) × (addr < 2 ^ 32)
IsAllowed (free_run addr num) = (4096 ≤ addr) × (addr / 4096 + num ≤ bitmap_blocks)

abbrev pub AllAllowed : List Op → Type 0
AllAllowed [] = Unit {0}
AllAllowed (op ∷ ops) = IsAllowed op × AllAllowed ops
