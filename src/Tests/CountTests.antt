-- ===== src/Tests/CountTests.antt =====
-- The counts and the regions of kernel/src/mm/pmm.c on a machine of 64 blocks.
use night.Base.{
  ℕ, ◌+◌, ◌<◌, ◌≡◌, refl, some, arith, ◌==◌, if◌then◌else◌, update, [], ◌∷◌, ◌↔◌, bit_or, bit_and,
  ◌-◌, Bool-cases, inl, inr, ltb, leb, ◌&&◌,
}
use night.Base.Words.{bit}
use night.Libk.Arith.{u32, sub32, divide_up}
use night.Pmm.State.{Pmm, mmap_set, mmap_unset, full_word, out_of_memory}
use night.Pmm.Blocks.{used}
use night.Pmm.Find.{mmap_find_free, mmap_find_free_frame}
use night.Pmm.FirstFree.{AllUsed}
use night.Pmm.Regions.{pmm_init_region, set_run, unset_run}
use night.Pmm.RegionLaws.{region_first, region_blocks, pmm_init_region_lem}
use night.Pmm.Alloc.{check_memory, pmm_alloc_page, pmm_alloc_pages, pmm_free_pages}
use night.Pmm.PageLaws.{IsValid}
use night.Pmm.Counts.{IsExact, count_used, report-AllUsed}
use night.Pmm.RunCounts.{UsedRun, Change, Changes, IsSound, Changes-IsSound}

abbrev small : Pmm
small = record {
  bitmap = λ i. if i == 0 then 1 else 0;
  mem_size = 256;
  used_blocks = 1;
  max_blocks = 64;
  kernel_end = 4096;
  panics = [];
}

small-IsValid : IsValid small
unfolding used bit
small-IsValid = record { room = omega arith; zero_used = refl; word = omega arith }

small-IsExact : IsExact small
unfolding count_used used bit
small-IsExact = refl

-- Block 1 taken from `small`.
abbrev one_taken : Pmm
one_taken = record small { bitmap = update small.bitmap 0 (bit_or 1 2); used_blocks = 2 }

one_taken-IsValid : IsValid one_taken
unfolding used bit
one_taken-IsValid = record { room = omega arith; zero_used = refl; word = omega arith }

one_taken-IsExact : IsExact one_taken
unfolding count_used used bit
one_taken-IsExact = refl

one_used : used one_taken.bitmap 1 ≡ 1
unfolding used bit
one_used = refl

alloc_one : pmm_alloc_page small ≡ some (4096, one_taken)
unfolding pmm_alloc_page check_memory mmap_find_free mmap_set
alloc_one = refl

-- Three blocks in a row, and the state after they are freed.
abbrev three_taken : Pmm
three_taken = record one_taken {
  bitmap = update (update (update one_taken.bitmap 0 (bit_or 3 4)) 0 (bit_or 7 8)) 0 (bit_or 15 16);
  used_blocks = 5;
}

abbrev three_freed : Pmm
three_freed = record three_taken {
  bitmap =
      update
        (update (update three_taken.bitmap 0 (bit_and 31 (full_word - 4))) 0
          (bit_and 27 (full_word - 8)))
        0 (bit_and 19 (full_word - 16));
  used_blocks = 2;
}

alloc_three : pmm_alloc_pages 3 one_taken ≡ some (8192, three_taken)
unfolding pmm_alloc_pages mmap_find_free_frame set_run mmap_set
alloc_three = refl

free_three : pmm_free_pages 8192 3 three_taken ≡ some three_freed
unfolding pmm_free_pages unset_run mmap_unset
free_three = refl

three_used : UsedRun three_taken.bitmap 2 3
unfolding used bit
three_used b lo hi = elim (Bool-cases (b == 2)) [
  | inl y ↦ let at : b ≡ 2 = ground (arith, y) in rw at refl
  | inr y ↦ elim (Bool-cases (b == 3)) [
    | inl z ↦ let at : b ≡ 3 = ground (arith, z) in rw at refl
    | inr z ↦ let at : b ≡ 4 = ground (arith, y, z, lo, hi) in rw at refl
  ]
]

Changes-IsSound_example : IsSound three_freed
Changes-IsSound_example =
    Changes-IsSound (small-IsValid, small-IsExact)
      (Changes.next
        (Changes.next (Changes.next Changes.start (Change.page alloc_one))
          (Change.pages 3 (omega arith) alloc_three))
        (Change.freed_pages 8192 3 (omega arith) (omega arith) three_used free_three))

report-AllUsed_example :
    ((check_memory small).panics ≡ out_of_memory ∷ []) ↔ AllUsed small.bitmap 0 64
report-AllUsed_example = report-AllUsed small small-IsValid small-IsExact

region_room : region_first 4096 + region_blocks 5000 < 64
unfolding divide_up
region_room = omega arith

pmm_init_region_lem_example :
    (q : Pmm) × (pmm_init_region 4096 5000 one_taken ≡ some q)
    × ((b : ℕ)
        → used q.bitmap b ≡ (
            if b == 0
            then 1
            else if leb (region_first 4096) b && ltb b (region_first 4096 + region_blocks 5000)
            then 0
            else used one_taken.bitmap b))
    × (q.used_blocks ≡ u32 (sub32 2 (region_blocks 5000) + 1))
pmm_init_region_lem_example =
    pmm_init_region_lem 4096 5000 one_taken (omega (arith, region_room)) (omega arith)
