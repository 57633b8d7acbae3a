-- ===== src/Pmm/BootLaws.antt =====
-- What `init_pmm` of kernel/src/mm/pmm.c leaves behind.
use night.Base.{ℕ, ◌+◌, ◌/◌, ◌≤◌, ◌<◌, ◌≡◌, ◌≢◌, false, some, arith, ◌==◌}
use night.Libk.Arith.{u32, sub32, divide_up}
use night.Pmm.State.{Pmm, pmm_block_size, full_word}
use night.Pmm.Blocks.{Filled, bitmap_blocks}
use night.Pmm.FirstFree.{AllUsed, scanned, full-AllUsed}
use night.Pmm.Runs.{set_run_lem}
use night.Pmm.Regions.{pmm_deinit_region}
use night.Pmm.Alloc.{check_memory, pmm_alloc_page}
use night.Pmm.PageLaws.{IsValid, AllocPage, failed, taken, pmm_alloc_page_lem}
use night.Pmm.Boot.{Symbols, Multiboot, memset_bitmap, init_totals, init_pmm, pmm_get_kernel_end}

-- The words that the searches scan are all ones.
memset_full : (n i : ℕ) (bitmap : ℕ → ℕ) → i < n / 32 → memset_bitmap (n / 8) bitmap i ≡ full_word
unfolding memset_bitmap
memset_full n i bitmap h = ground arith

init_totals-AllUsed :
    (syms : Symbols) (boot : Multiboot) (p : Pmm)
    → let q = init_totals syms boot p in AllUsed q.bitmap 0 (scanned q)
unfolding init_totals
init_totals-AllUsed syms boot p b h h' =
    let q = init_totals syms boot p in
    full-AllUsed q.bitmap (b / 32) (memset_full q.max_blocks (b / 32) p.bitmap (omega arith)) b
      (omega arith) (omega arith)

init_totals_bounds :
    (syms : Symbols) (boot : Multiboot) (p : Pmm)
    → let q = init_totals syms boot p in
      (q.max_blocks < bitmap_blocks)
      × (q.used_blocks ≡ q.max_blocks)
      × (syms.kernel_end_phys ≤ q.kernel_end)
unfolding init_totals
init_totals_bounds syms boot p = ground arith

-- The blocks that the last call of `init_pmm` marks, from block 0 on.
abbrev kernel_blocks : Pmm → ℕ
kernel_blocks q = divide_up (pmm_get_kernel_end q) pmm_block_size

kernel_blocks_bounds :
    (q : Pmm) → 0 < pmm_get_kernel_end q → (0 < kernel_blocks q) × (kernel_blocks q ≤ bitmap_blocks)
unfolding divide_up pmm_get_kernel_end
kernel_blocks_bounds q h = ground arith

-- `init_pmm` returns, with its statistics as computed and the marked blocks counted once more.
init_pmm-Filled :
    (syms : Symbols) (boot : Multiboot) (p : Pmm)
    → let t = init_totals syms boot p in
      0 < pmm_get_kernel_end t
      → (q : Pmm) × (init_pmm syms boot p ≡ some q)
        × Filled 1 0 (kernel_blocks t) (u32 (t.used_blocks + kernel_blocks t)) t q
unfolding init_pmm pmm_deinit_region pmm_get_kernel_end
init_pmm-Filled syms boot p h =
    let t = init_totals syms boot p in
    let (max, count, _) = init_totals_bounds syms boot p in
    set_run_lem (kernel_blocks t) 0 t (omega (arith, (kernel_blocks_bounds t h).1))
      (omega (arith, max, count))

AllUsed-Filled :
    {t q : Pmm} {num c : ℕ}
    → Filled 1 0 num c t q
    → AllUsed t.bitmap 0 (scanned t)
    → AllUsed q.bitmap 0 (scanned q)
AllUsed-Filled {t} {q} f all b h h' =
    let low : b < scanned t = omega (arith, f.rest.max_blocks) in
    ground (arith, f.blocks b, all b h low)

-- When no word has a free digit, an allocation fails; the report depends on the count.
alloc_page_of_AllUsed :
    (q : Pmm)
    → IsValid q
    → AllUsed q.bitmap 0 (scanned q)
    → sub32 q.max_blocks q.used_blocks ≢ 0
    → pmm_alloc_page q ≡ some (0, q)
unfolding check_memory
alloc_page_of_AllUsed q s all ne =
    let (r, q', e, a) = pmm_alloc_page_lem q s in
    let quiet : (sub32 q.max_blocks q.used_blocks == 0) ≡ false = ground arith in
    split r q' e a quiet
  where
    split :
        (r : ℕ) (q' : Pmm)
        → pmm_alloc_page q ≡ some (r, q')
        → AllocPage q r q'
        → (sub32 q.max_blocks q.used_blocks == 0) ≡ false
        → pmm_alloc_page q ≡ some (0, q)
    split r q' e (failed z same _) quiet = let state : q' ≡ q = rw quiet at same in cc
    split r q' e (taken b _ f _) quiet = absurd (omega (arith, f.free, all b (omega arith) f.below))

-- `init_pmm` always returns when the kernel's end is not address 0, and then every scanned block is
-- used: `pmm_alloc_page` returns 0 and changes nothing, without a report.
pub alloc_page-init_pmm :
    (syms : Symbols) (boot : Multiboot) (p : Pmm)
    → 0 < pmm_get_kernel_end (init_totals syms boot p)
    → (q : Pmm) × (init_pmm syms boot p ≡ some q)
      × IsValid q
      × AllUsed q.bitmap 0 (scanned q)
      × (pmm_alloc_page q ≡ some (0, q))
alloc_page-init_pmm syms boot p h =
    let t = init_totals syms boot p in
    let (max, count, _) = init_totals_bounds syms boot p in
    let (q, e, f) = init_pmm-Filled syms boot p h in
    let (pos, room) = kernel_blocks_bounds t h in
    let all : AllUsed q.bitmap 0 (scanned q) = AllUsed-Filled f (init_totals-AllUsed syms boot p) in
    let valid : IsValid q = record {
      room = omega (arith, max, f.rest.max_blocks);
      zero_used = ground (arith, f.blocks 0, pos);
      word = omega (arith, f.counted);
    } in
    (
      q,
      e,
      valid,
      all,
      alloc_page_of_AllUsed q valid all
          (omega (arith, f.counted, f.rest.max_blocks, count, max, pos, room)),
    )
