-- ===== src/Kernel/SetupLaws.antt =====
-- `kmain` of kernel/src/kernel/kernel.c up to its `init_fs`, and what the hook of the heap can give
-- then.
use night.Base.{ℕ, ◌^◌, ◌<◌, ◌≡◌, refl, ap, sym, ◌∙◌, none, some, arith}
use night.Drivers.Screen.{set_color, init_video}
use night.Console.Panic.{vga_color_black, vga_color_white}
use night.Cpu.GdtLaws.{IsSegment}
use night.Interrupts.SleepLaws.{IsTimed}
use night.Pmm.State.{Pmm}
use night.Pmm.FirstFree.{AllUsed, scanned}
use night.Pmm.Alloc.{pmm_alloc_pages}
use night.Pmm.PageLaws.{IsValid}
use night.Pmm.RunLaws
use night.Pmm.RunLaws.{AllocPages, pmm_alloc_pages_lem}
use night.Pmm.Hooks.{liballoc_alloc}
use night.Pmm.Boot.{Multiboot}
use night.Kernel.Main.{Kernel, Platform, on_screen, say, check_size, setup}
use night.Kernel.InstallLaws.{IsGated, install_lem}
use night.Kernel.MemoryLaws.{IsReady, IsFirst, init_memory_lem}
use night.Kernel.TextLaws.{IsShort, version_line}
use mathlib.Core.Path.{subst}

-- The hook of the heap gives no pages.
abbrev pub NoMemory : Pmm → Type 0
NoMemory p = (num : ℕ) → 0 < num → liballoc_alloc num p ≡ some (0, p)

AllUsed-NoMemory : (p : Pmm) → IsValid p → AllUsed p.bitmap 0 (scanned p) → NoMemory p
unfolding liballoc_alloc
AllUsed-NoMemory p valid all num pos =
    let (r, q, e, a) = pmm_alloc_pages_lem num p valid pos in result r q e a
  where
    result :
        (r : ℕ) (q : Pmm)
        → pmm_alloc_pages num p ≡ some (r, q)
        → AllocPages num p r q
        → pmm_alloc_pages num p ≡ some (0, p)
    result r q e (RunLaws.short z same _) = e ∙ ap (λ k. some (k, q)) z ∙ ap (λ t. some (0, t)) same
    result r q e (RunLaws.no_run z same _) =
        e ∙ ap (λ k. some (k, q)) z ∙ ap (λ t. some (0, t)) same
    result r q e (RunLaws.taken b _ _ f _) = absurd (
        omega (
          arith,
          f.free b (omega arith) (omega (arith, pos)),
          all b (omega arith) (omega (arith, f.below, pos)),
        ))

-- The variables at the start: no handlers, no ticks to speak of, memory not initialised.
pub record IsFresh (pf : Platform) (mb : Multiboot) (k : Kernel) : Type 0 where
  pub routines : (i : ℕ) → k.machine.irq_routines i ≡ none
  pub early : k.machine.timer_ticks < 18
  pub memory : IsFirst pf mb k.mmu

-- The descriptor tables, the drivers and the memory of `q` are set up, and its heap can get no page.
pub record IsSetUp (pf : Platform) (k q : Kernel) : Type 0 where
  pub segments : (i : ℕ) → i < 5 → IsSegment q.gdt i
  pub gated : IsGated pf q.idt
  pub timed : IsTimed q.machine
  pub ready : IsReady q
  pub starved : NoMemory q.mmu.pmm
  pub fs : q.fs ≡ k.fs
  pub liballoc : q.liballoc ≡ k.liballoc
  pub ticks : q.machine.timer_ticks ≡ k.machine.timer_ticks

pub setup_lem :
    (pf : Platform) (mb : Multiboot) (k : Kernel)
    → ((i : ℕ) → pf.isr i < 2 ^ 32)
    → ((i : ℕ) → pf.irq i < 2 ^ 32)
    → IsShort pf.kernel_ver
    → IsFresh pf mb k
    → (q : Kernel) × (setup pf mb k ≡ some q) × IsSetUp pf k q
unfolding setup
setup_lem pf mb k isr irq ver fresh =
    let a = on_screen init_video (on_screen (set_color vga_color_white vga_color_black) k) in
    let (s, e1) = version_line pf a fresh.memory.offline ver in
    let b = say "Setting up Global Descriptor Tables...\n" (on_screen (λ _. s.machine.screen) a) in
    let (c, e2, inst) = install_lem pf b isr irq fresh.routines fresh.early in
    let c' = say "Initializing Memory\n" c in
    let (u, e3, ready) =
      init_memory_lem pf mb c' (subst (IsFirst pf mb) (sym inst.mmu) fresh.memory) in
    (
      on_screen (check_size pf) (record c' { mmu = u }),
      rw (e1, e2, e3) refl,
      record {
        segments = inst.segments;
        gated = inst.gated;
        timed = record {
          timer = inst.timed.timer;
          only = inst.timed.only;
          counted = inst.timed.counted;
        };
        ready = record { valid = ready.valid; full = ready.full; online = ready.online };
        starved = AllUsed-NoMemory u.pmm ready.valid ready.full;
        fs = inst.fs;
        liballoc = inst.liballoc;
        ticks = inst.ticks;
      },
    )
