-- ===== src/Pmm/Regions.antt =====
-- Runs of blocks in kernel/src/mm/pmm.c: `pmm_init_region`, `pmm_deinit_region`, and the loops that
-- they share with the allocations and frees of several pages.
use night.Base.{ℕ, zero, suc, ◌+◌, ◌/◌, Option, some, ◌>>=◌}
use night.Libk.Arith.{u32, divide_up}
use night.Pmm.State.{Pmm, pmm_block_size, mmap_set, mmap_unset}

-- `num` calls of `mmap_set`, on `block`, `block + 1` and so on.
unfoldable pub set_run : (num block : ℕ) → Pmm → Option Pmm
set_run zero block p = some p
set_run (suc num) block p = mmap_set block p >>= λ q. set_run num (u32 (block + 1)) q

unfoldable pub unset_run : (num block : ℕ) → Pmm → Option Pmm
unset_run zero block p = some p
unset_run (suc num) block p = mmap_unset block p >>= λ q. unset_run num (u32 (block + 1)) q

-- Block 0 stays used, whatever the region.
unfoldable pub pmm_init_region : (addr size : ℕ) → Pmm → Option Pmm
pmm_init_region addr size p = do
  q ← unset_run (divide_up size pmm_block_size) (addr / pmm_block_size) p
  mmap_set 0 q

unfoldable pub pmm_deinit_region : (addr size : ℕ) → Pmm → Option Pmm
pmm_deinit_region addr size p = set_run (divide_up size pmm_block_size) (addr / pmm_block_size) p
