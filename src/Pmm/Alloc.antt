-- ===== src/Pmm/Alloc.antt =====
-- The allocations and frees of kernel/src/mm/pmm.c. An allocation returns the physical address,
-- 0 for failure, beside the new state. `kpanic` prints and returns, so the code behind it runs.
use night.Base.{ℕ, ◌+◌, ◌*◌, ◌/◌, Option, some, ltb, ◌==◌, if◌then◌else◌, ◌>>=◌}
use night.Libk.Arith.{u32, sub32}
use night.Pmm.State.{Pmm, out_of_memory, kpanic, pmm_block_size, mmap_set, mmap_unset}
use night.Pmm.Find.{mmap_find_free, mmap_find_free_frame}
use night.Pmm.Regions.{set_run, unset_run}

-- An unsigned difference is `<= 0` exactly when it is 0.
unfoldable pub check_memory : Pmm → Pmm
check_memory p = if sub32 p.max_blocks p.used_blocks == 0 then kpanic out_of_memory p else p

unfoldable pub pmm_alloc_page : Pmm → Option (ℕ × Pmm)
pmm_alloc_page p =
    let p' = check_memory p in
    let block = mmap_find_free p' in
    if block == 0
    then some (0, p')
    else do q ← mmap_set block p'; some (u32 (block * pmm_block_size), q)

abbrev pub large_page_blocks : ℕ
large_page_blocks = 1024

unfoldable pub pmm_alloc_aligned_large_page : Pmm → Option (ℕ × Pmm)
pmm_alloc_aligned_large_page p =
    let free_block = mmap_find_free_frame (2 * large_page_blocks) p in
    let aligned_block = u32 ((free_block / large_page_blocks + 1) * large_page_blocks) in
    if ltb (sub32 p.max_blocks p.used_blocks) (2 * large_page_blocks)
    then some (0, p)
    else if free_block == 0
    then some (0, p)
    else do
      q ← set_run large_page_blocks aligned_block p
      some (u32 (aligned_block * pmm_block_size), q)

unfoldable pub pmm_alloc_pages : ℕ → Pmm → Option (ℕ × Pmm)
pmm_alloc_pages num p =
    let first_block = mmap_find_free_frame num p in
    if ltb (sub32 p.max_blocks p.used_blocks) num
    then some (0, p)
    else if first_block == 0
    then some (0, p)
    else do q ← set_run num first_block p; some (u32 (first_block * pmm_block_size), q)

unfoldable pub pmm_free_page : ℕ → Pmm → Option Pmm
pmm_free_page addr p = mmap_unset (addr / pmm_block_size) p

unfoldable pub pmm_free_pages : (addr num : ℕ) → Pmm → Option Pmm
pmm_free_pages addr num p = unset_run num (addr / pmm_block_size) p
