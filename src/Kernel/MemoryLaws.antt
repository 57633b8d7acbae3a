-- ===== src/Kernel/MemoryLaws.antt =====
-- `init_paging` and `init_pmm` in the order in which kernel/src/kernel/kernel.c calls them.
use night.Base.{ℕ, ◌+◌, ◌*◌, ◌/◌, ◌%◌, ◌<◌, ◌≡◌, refl, true, false, some, [], ◌∷◌, bit_or}
use night.Libk.Arith.{divide_up}
use night.Pmm.FirstFree.{AllUsed, scanned}
use night.Pmm.PageLaws.{IsValid}
use night.Pmm.Boot.{Multiboot, init_totals, pmm_get_kernel_end}
use night.Pmm.BootLaws.{alloc_page-init_pmm}
use night.Paging.Access.{Mmu, put_word, walk, write_word}
use night.Paging.Entries.{page_present, page_rw}
use night.Paging.Pages.{init_paging, paging_invalidate_page}
use night.Kernel.Main.{Kernel, Platform, on_screen, check_size, carry_out, init_memory}

-- Pages 0 and up to the end of the kernel, which is not known yet: none.
abbrev paged : (directory : ℕ) → Mmu → Mmu
paged directory m =
    let a =
      put_word ((directory + 4 * 1023) / 4096) ((directory + 4 * 1023) % 4096 / 4)
        (bit_or (bit_or directory page_present) page_rw) m in
    let b = record a { invalidated = 0xFFC00000 ∷ a.invalidated } in
    let c = put_word (directory / 4096) (directory % 4096 / 4) 0 b in
    record c { invalidated = 0 ∷ c.invalidated; p_online = true }

init_paging_lem :
    (directory : ℕ) (m : Mmu)
    → m.p_online ≡ false
    → m.enabled ≡ false
    → m.pmm.kernel_end ≡ 0
    → m.pmm.max_blocks ≡ 0
    → init_paging directory m ≡ some (paged directory m)
unfolding init_paging write_word walk pmm_get_kernel_end divide_up paging_invalidate_page
init_paging_lem directory m offline off unknown none_counted =
    rw (offline, off, unknown, none_counted) refl

pub record IsReady (q : Kernel) : Type 0 where
  pub valid : IsValid q.mmu.pmm
  pub full : AllUsed q.mmu.pmm.bitmap 0 (scanned q.mmu.pmm)
  pub online : q.mmu.p_online ≡ true

-- The variables of the memory's files before they are initialised, and the end of the kernel that
-- the boot information gives.
pub record IsFirst (pf : Platform) (mb : Multiboot) (m : Mmu) : Type 0 where
  pub offline : m.p_online ≡ false
  pub off : m.enabled ≡ false
  pub quiet : m.calls ≡ []
  pub no_end : m.pmm.kernel_end ≡ 0
  pub no_blocks : m.pmm.max_blocks ≡ 0
  pub kernel_end : 0 < pmm_get_kernel_end (init_totals pf.symbols mb m.pmm)

pub init_memory_lem :
    (pf : Platform) (mb : Multiboot) (k : Kernel)
    → IsFirst pf mb k.mmu
    → (m : Mmu) × (init_memory pf mb k ≡ some (on_screen (check_size pf) (record k { mmu = m })))
      × IsReady (record k { mmu = m })
unfolding init_memory carry_out
init_memory_lem pf mb k first =
    let (p, e, valid, full, _) = alloc_page-init_pmm pf.symbols mb k.mmu.pmm first.kernel_end in
    let r =
      init_paging_lem pf.kernel_directory k.mmu first.offline first.off first.no_end
        first.no_blocks in
    (
      record (paged pf.kernel_directory k.mmu) { pmm = p; calls = [] },
      rw (r, first.quiet, e) refl,
      record { valid = valid; full = full; online = refl },
    )
