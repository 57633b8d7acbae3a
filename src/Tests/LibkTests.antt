-- ===== src/Tests/LibkTests.antt =====
-- lib/libk at concrete sizes and blocks of memory.
use night.Base.{◌≡◌, if◌then◌else◌}
use night.Libk.Memory.{memset, within, memset_lem}

memset_lem_example : memset 10 7 4 (λ i. i) 13 ≡ (if within 10 4 13 then 7 else 13)
memset_lem_example = memset_lem 10 7 4 (λ i. i) 13
