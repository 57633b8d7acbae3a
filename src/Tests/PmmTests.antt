-- ===== src/Tests/PmmTests.antt =====
-- kernel/src/mm/pmm.c on a machine of 64 blocks, of which block 0 is used.
use night.Base.{ℕ, ◌<◌, ◌≡◌, refl, some, arith, ◌==◌, if◌then◌else◌, update, [], ◌∷◌, ◌⊎◌, bit_or}
use night.Base.Words.{bit}
use night.Pmm.State.{Pmm, mmap_set}
use night.Pmm.Blocks.{used}
use night.Pmm.Find.{mmap_find_free, mmap_find_free_frame}
use night.Pmm.FirstFree.{AllUsed, scanned}
use night.Pmm.RunState.{NoRun, IsFirstRun}
use night.Pmm.FirstRun.{mmap_find_free_frame_lem}
use night.Pmm.Regions.{set_run}
use night.Pmm.Alloc.{
  check_memory, pmm_alloc_page, pmm_alloc_pages, pmm_free_page, pmm_free_pages,
  pmm_alloc_aligned_large_page,
}
use night.Pmm.PageLaws.{IsValid, AllocPage, pmm_alloc_page_lem, free-alloc_page}
use night.Pmm.RunLaws.{
  AllocPages, AllocLargePage, pmm_alloc_pages_lem, free_pages-alloc_pages,
  pmm_alloc_aligned_large_page_lem,
}
use night.Pmm.Boot.{Symbols, Multiboot, init_pmm, init_totals, pmm_get_kernel_end}
use night.Pmm.BootLaws.{alloc_page-init_pmm}
use night.Pmm.Holders.{start, next, alloc, IsSound, Calls-IsSound}

abbrev small : Pmm
small = record {
  bitmap = λ i. if i == 0 then 1 else 0;
  mem_size = 256;
  used_blocks = 1;
  max_blocks = 64;
  kernel_end = 4096;
  panics = [];
}

small-IsValid : IsValid small
unfolding used bit
small-IsValid = record { room = omega arith; zero_used = refl; word = omega arith }

-- Block 1 taken from `small`.
abbrev one_taken : Pmm
one_taken = record small { bitmap = update small.bitmap 0 (bit_or 1 2); used_blocks = 2 }

alloc_one : pmm_alloc_page small ≡ some (4096, one_taken)
unfolding pmm_alloc_page check_memory mmap_find_free mmap_set
alloc_one = refl

-- Blocks 1, 2 and 3 taken from `small`.
abbrev three_taken : Pmm
three_taken = record small {
  bitmap = update (update (update small.bitmap 0 (bit_or 1 2)) 0 (bit_or 3 4)) 0 (bit_or 7 8);
  used_blocks = 4;
}

alloc_three : pmm_alloc_pages 3 small ≡ some (4096, three_taken)
unfolding pmm_alloc_pages mmap_find_free_frame set_run mmap_set
alloc_three = refl

pmm_alloc_page_lem_example :
    (r : ℕ) × (q : Pmm) × (pmm_alloc_page small ≡ some (r, q)) × AllocPage small r q
pmm_alloc_page_lem_example = pmm_alloc_page_lem small small-IsValid

free-alloc_page_example :
    (t : Pmm) × (pmm_free_page 4096 one_taken ≡ some t)
    × ((n : ℕ) → used t.bitmap n ≡ used small.bitmap n)
    × (t.used_blocks ≡ 1)
free-alloc_page_example = free-alloc_page small small-IsValid alloc_one (omega arith)

mmap_find_free_frame_lem_example :
    let first = mmap_find_free_frame 3 small in
    (first ≡ 0) × NoRun small.bitmap 3 64 ⊎ IsFirstRun small.bitmap 3 64 first
mmap_find_free_frame_lem_example =
    mmap_find_free_frame_lem 3 small small-IsValid.zero_used (omega arith)

pmm_alloc_pages_lem_example :
    (r : ℕ) × (q : Pmm) × (pmm_alloc_pages 3 small ≡ some (r, q)) × AllocPages 3 small r q
pmm_alloc_pages_lem_example = pmm_alloc_pages_lem 3 small small-IsValid (omega arith)

free_pages-alloc_pages_example :
    (t : Pmm) × (pmm_free_pages 4096 3 three_taken ≡ some t)
    × ((n : ℕ) → used t.bitmap n ≡ used small.bitmap n)
    × (t.used_blocks ≡ 1)
free_pages-alloc_pages_example =
    free_pages-alloc_pages 3 small small-IsValid (omega arith) alloc_three (omega arith)

-- 16 MiB, all free but for block 0.
abbrev large : Pmm
large = record small { max_blocks = 4096 }

large-IsValid : IsValid large
large-IsValid = record {
  room = omega arith;
  zero_used = small-IsValid.zero_used;
  word = omega arith;
}

pmm_alloc_aligned_large_page_lem_example :
    (r : ℕ) × (q : Pmm) × (pmm_alloc_aligned_large_page large ≡ some (r, q))
    × AllocLargePage large r q
pmm_alloc_aligned_large_page_lem_example = pmm_alloc_aligned_large_page_lem large large-IsValid

-- 1 MiB of memory with one module, and the kernel at 1 MiB.
abbrev syms : Symbols
syms = record { end = 0x20_0000; kernel_end_phys = 0x10_0000 }

abbrev boot : Multiboot
boot = record {
  mem_lower = 640;
  mem_upper = 384;
  mods = record { mod_start = 0x18_0000; mod_end = 0x19_0000 } ∷ [];
}

boot_end : 0 < pmm_get_kernel_end (init_totals syms boot small)
unfolding pmm_get_kernel_end init_totals
boot_end = omega arith

alloc_page-init_pmm_example :
    (q : Pmm) × (init_pmm syms boot small ≡ some q)
    × IsValid q
    × AllUsed q.bitmap 0 (scanned q)
    × (pmm_alloc_page q ≡ some (0, q))
alloc_page-init_pmm_example = alloc_page-init_pmm syms boot small boot_end

Calls-IsSound_example : IsSound one_taken (4096 ∷ [])
Calls-IsSound_example = Calls-IsSound small-IsValid (next start (alloc alloc_one (omega arith)))
