-- ===== src/Tests/StartTests.antt =====
-- kernel/src/kernel/kernel.c with an archive of two files and 9 interrupts of the timer.
use night.Base.{ℕ, Option, ap, ◌+◌, ◌≡◌, refl, arith, false, none, some, List, [], ◌∷◌}
use night.Base.Text.{codes}
use night.Cpu.Gdt.{encode_gate}
use night.Cpu.Idt.{encode_idt}
use night.Interrupts.Sleep.{Event}
use night.Pmm.Boot.{Module, Multiboot, init_totals, pmm_get_kernel_end}
use night.Kernel.Main.{Kernel, Platform, kmain}
use night.Kernel.TextLaws.{IsShort}
use night.Kernel.MemoryLaws.{IsFirst}
use night.Kernel.SetupLaws.{NoMemory, IsFresh}
use night.Pmm.State.{Pmm}
use night.Pmm.Hooks.{liballoc_alloc}
use night.Kernel.StarvedLaws.{kmain_faults}
use night.Tests.ArchiveTests.{empty_node, disk}
use night.Tests.SleepTests.{three}

abbrev pub platform : Platform
platform = record {
  kernel_ver = codes "0.1";
  build_id = codes "a1b2";
  gdt_address = 0x8000;
  idt_address = 0x9000;
  kernel_directory = 0xA000;
  isr = λ i. 0x1000;
  irq = λ i. 0x2000;
  symbols = record { end = 0x20_0000; kernel_end_phys = 0x10_0000 };
  root_name = 16;
  tar_root_name = 32;
  heap = λ h p n. n + 4096;
  node = λ h p k. k + 64;
  served = λ part h p. (h + 1, p);
  junk = λ k. empty_node;
}

-- 1 MiB of memory, and the archive at 4096.
abbrev pub ramdisk : Module
ramdisk = record { mod_start = 4096; mod_end = 0x18_0000 }

abbrev pub boot : Multiboot
boot = record { mem_lower = 640; mem_upper = 384; mods = ramdisk ∷ [] }

abbrev pub off : Kernel
off = record {
  machine = record {
    screen = record {
      textmemptr = 0;
      text = λ i. 0;
      attrib = 0x0F;
      csr_x = 0;
      csr_y = 0;
      vga_locked = false;
      tstop = 0;
      outs = [];
    };
    timer_ticks = 0;
    secs = 0;
    cur_char = 0;
    irq_routines = λ i. none;
  };
  gdt = record { gdt = λ i. encode_gate 0 0 0 0; limit = 0; base = 0 };
  idt = record { idt = λ i. encode_idt 0 0 0; limit = 0; base = 0 };
  mmu = record {
    mem = λ f i. 0;
    enabled = false;
    cr3 = 0;
    pmm = record {
      bitmap = λ i. 0;
      mem_size = 0;
      used_blocks = 0;
      max_blocks = 0;
      kernel_end = 0;
      panics = [];
    };
    invalidated = [];
    calls = [];
    p_online = false;
  };
  fs = disk;
  liballoc = 0;
}

pub boot-IsFirst : IsFirst platform boot off.mmu
unfolding pmm_get_kernel_end init_totals
boot-IsFirst = record {
  offline = refl;
  off = refl;
  quiet = refl;
  no_end = refl;
  no_blocks = refl;
  kernel_end = omega arith;
}

abbrev nine : List Event → List Event
nine es = three (three (three es))

version-IsShort : IsShort platform.kernel_ver
version-IsShort = record { no_nul = omega arith; short = omega arith }

-- A heap that asks the hook for a page at each call.
abbrev page_of : Option (ℕ × Pmm) → ℕ
page_of none = 0
page_of (some r) = r.0

abbrev asked : Pmm → ℕ
asked p = page_of (liballoc_alloc 1 p)

abbrev hooked : Platform
hooked = record platform { heap = λ h p n. asked p; node = λ h p k. asked p }

hooked-IsFresh : IsFresh hooked boot off
hooked-IsFresh = record {
  routines = λ i. refl;
  early = omega arith;
  memory = record {
    offline = refl;
    off = refl;
    quiet = refl;
    no_end = refl;
    no_blocks = refl;
    kernel_end = boot-IsFirst.kernel_end;
  };
}

asked-null : (p : Pmm) → NoMemory p → asked p ≡ 0
asked-null p h = ap page_of (h 1 (omega arith))

kmain_faults_example : kmain hooked 3 2 (codes "initrd") boot (nine []) off ≡ none
kmain_faults_example =
    kmain_faults hooked 3 2 (codes "initrd") boot (nine []) off (λ i. omega arith)
      (λ i. omega arith) version-IsShort hooked-IsFresh asked-null
