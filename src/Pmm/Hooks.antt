-- ===== src/Pmm/Hooks.antt =====
-- lib/liballoc/src/hooks.c: where the heap gets its pages from.
use night.Base.{ℕ, Option, some, ◌>>=◌}
use night.Pmm.State.{Pmm}
use night.Pmm.Alloc.{pmm_alloc_pages, pmm_free_pages}

-- The heap runs on one processor and takes no lock.
abbrev pub liballoc_lock : ℕ
liballoc_lock = 0

abbrev pub liballoc_unlock : ℕ
liballoc_unlock = 0

unfoldable pub liballoc_alloc : (num : ℕ) → Pmm → Option (ℕ × Pmm)
liballoc_alloc num p = pmm_alloc_pages num p

unfoldable pub liballoc_free : (addr num : ℕ) → Pmm → Option (ℕ × Pmm)
liballoc_free addr num p = pmm_free_pages addr num p >>= λ q. some (0, q)
