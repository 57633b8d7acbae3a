-- ===== src/Tests/RefineTests.antt =====
-- A client's calls of kernel/src/mm/pmm.c against the set of used blocks, on 64 blocks.
use night.Base.{◌≡◌, refl, ◌==◌, if◌then◌else◌, some, [], ◌∷◌, arith}
use night.Base.Words.{bit}
use night.Pmm.State.{Pmm}
use night.Pmm.Blocks.{used}
use night.Pmm.PageLaws.{IsValid}
use night.Pmm.Spec
use night.Pmm.Spec.{alloc, alloc_run, free, free_run, lowest_free, lowest_run, is_free_run}
use night.Pmm.Client.{Shows, run}
use night.Pmm.Refine.{run_refines}

-- Block 0 is used.
abbrev small : Pmm
small = record {
  bitmap = λ i. if i == 0 then 1 else 0;
  mem_size = 256;
  used_blocks = 1;
  max_blocks = 64;
  kernel_end = 4096;
  panics = [];
}

small-IsValid : IsValid small
unfolding used bit
small-IsValid = record { room = omega arith; zero_used = refl; word = omega arith }

small-Shows : Shows small 64 (record { blocks = used small.bitmap; count = 1 })
small-Shows = record { valid = small-IsValid; view = λ b. refl; count = refl; size = refl }

-- Block 1 is taken, then a run of three; both are freed, and a run of two is taken.
run_refines_example :
    run (alloc ∷ alloc_run 3 ∷ free 4096 ∷ free_run 8192 3 ∷ alloc_run 2 ∷ []) small
    ≡ some (4096 ∷ 8192 ∷ 0 ∷ 0 ∷ 4096 ∷ [])
unfolding Spec.run used bit
run_refines_example =
    run_refines (alloc ∷ alloc_run 3 ∷ free 4096 ∷ free_run 8192 3 ∷ alloc_run 2 ∷ []) small-Shows (
      tt,
      (omega arith, ((omega arith, omega arith), ((omega arith, omega arith), (omega arith, tt)))),
    )
