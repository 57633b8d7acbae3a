-- ===== src/Kernel/Main.antt =====
-- `kmain` of kernel/src/kernel/kernel.c, with `load_mods` and `terminal`. `none` is a fault of a
-- part.
use Prim.Native.String.{String}
use night.Base.{
  ℕ, zero, suc, ◌+◌, ◌-◌, ◌*◌, ◌/◌, ◌^◌, Option, none, some, List, [], ◌∷◌, leb, ltb, ◌==◌,
  if◌then◌else◌, ◌>>=◌,
}
use night.Base.Text.{codes}
use night.Libk.Arith.{u32}
use night.Drivers.Screen.{Screen, puts, set_color, init_video, cls, tab_stop}
use night.Console.Printf.{printf}
use night.Console.Panic.{vga_color_black, vga_color_white, kpanic}
use night.Cpu.Gdt.{Gdt, gdt_install}
use night.Cpu.Idt.{Idt, idt_install, isr_install, irq_gates}
use night.Interrupts.Machine.{Machine, timer_install, keyboard_install}
use night.Interrupts.Irq.{irq_remap}
use night.Interrupts.Sleep.{Event, Outcome, awake, asleep, sleep}
use night.Pmm.State.{Pmm}
use night.Pmm.Boot.{Module, Multiboot, Symbols, kernel_end_map, init_pmm}
use night.Paging.Access
use night.Paging.Access.{Mmu, Call}
use night.Paging.Pages.{init_paging}
use night.Fs.Nodes.{Ptr, Node, Fs, init_fs, fs_mount}
use night.Fs.Tar.{init_tarfs}

-- The static variables of all files. The memory that paging reaches, the screen's and the heap's are
-- kept apart. `liballoc` stands for all variables of the heap, as one number.
pub record Kernel : Type 0 where
  pub machine : Machine
  pub gdt : Gdt
  pub idt : Idt
  pub mmu : Mmu
  pub fs : Fs
  pub liballoc : ℕ

-- What a part asks the heap for: `printf` its buffer for a format, or a file system its nodes, up to
-- the call of that number.
pub data Part : Type 0 where
  formatting : (fmt : List ℕ) → Part
  filing : (calls : ℕ) → Part

-- What the build decides: texts, addresses of tables, stubs, symbols and names, and the heap of
-- liballoc. The heap gets its pages from the page allocator, so its answers depend on its own state
-- and on that of the allocator when a part begins its calls: `heap` gives `printf` its buffer by
-- size, `node` gives the tree of files its nodes by the number of the call, and `served` is the
-- state of both after the calls of the part.
pub record Platform : Type 0 where
  pub kernel_ver : List ℕ
  pub build_id : List ℕ
  pub gdt_address : ℕ
  pub idt_address : ℕ
  pub kernel_directory : ℕ
  pub isr : ℕ → ℕ
  pub irq : ℕ → ℕ
  pub symbols : Symbols
  pub root_name : Ptr
  pub tar_root_name : Ptr
  pub heap : ℕ → Pmm → ℕ → ℕ
  pub node : ℕ → Pmm → ℕ → Ptr
  pub served : Part → ℕ → Pmm → ℕ × Pmm
  pub junk : ℕ → Node

abbrev pub on_screen : (Screen → Screen) → Kernel → Kernel
on_screen f k = record k { machine = record k.machine { screen = f k.machine.screen } }

abbrev pub say : String → Kernel → Kernel
say t = on_screen (puts (codes t))

-- A difference of pointers to `u32`: that of the addresses over 4, rounded down.
abbrev pub words_between : (start end : ℕ) → ℕ
words_between start end =
    let d = u32 (end + 2 ^ 32 - start) in if leb (2 ^ 31) d then d / 4 + 3 * 2 ^ 30 else d / 4

-- The texts of the first two arguments, which are called by their numbers.
abbrev pub two : (a b : List ℕ) → ℕ → List ℕ
two a b k = if k == 0 then a else b

-- `kmain` ends in a loop at the prompt, with the events that are still to come, or waits in `sleep`
-- when the events are over.
pub data Ending : Type 0 where
  prompt : (rest : List Event) → Kernel → Ending
  waiting : Kernel → Ending

-- Argument `i` of a call.
abbrev argument : List ℕ → ℕ → ℕ
argument [] i = 0
argument (a ∷ args) zero = a
argument (a ∷ args) (suc i) = argument args i

module _ (pf : Platform) where
  abbrev pub use_heap : Part → Kernel → Kernel
  use_heap part k =
      let r = pf.served part k.liballoc k.mmu.pmm in
      record k { mmu = record k.mmu { pmm = r.1 }; liballoc = r.0 }

  abbrev pub print : (fmt : List ℕ) (args : ℕ → ℕ) (texts : ℕ → List ℕ) → Kernel → Option Kernel
  print fmt args texts k =
      printf k.mmu.p_online (pf.heap k.liballoc k.mmu.pmm) fmt args texts k.machine.screen >>= λ s.
      some (on_screen (λ _. s) (if k.mmu.p_online then use_heap (formatting fmt) k else k))

  unfoldable pub terminal : Kernel → Option Kernel
  terminal k =
      print (codes "Night Kernel (%s) (%s) (x86_32)\n") (λ i. i) (two pf.kernel_ver pf.build_id) k
      >>= λ a. some (
          on_screen tab_stop
            (say "\n$ " (say "Copyright (c) 2020 Peeled Fruit Studios. All Rights Reserved.\n" a)))

  -- The descriptor tables and the drivers.
  unfoldable pub install : Kernel → Option Kernel
  install k = gdt_install pf.gdt_address k.gdt >>= λ g.
      let a = say "Setting up Interrupts & Drivers...\n" (record k { gdt = g }) in
      let b = record a {
        idt = irq_gates pf.irq (isr_install pf.isr (idt_install pf.idt_address a.idt));
        machine = irq_remap a.machine;
      } in
      timer_install (say "Setting up System Clock...\n" b).machine >>= λ m.
      keyboard_install (say "Setting up Keyboard...\n" (record b { machine = m })).machine >>= λ n.
      some (record b { machine = n })

  -- The screen after the test of `init_pmm`, which panics for a kernel beyond its first mapping and
  -- then goes on.
  abbrev pub check_size : Screen → Screen
  check_size s =
      if ltb kernel_end_map pf.symbols.end
      then kpanic (codes "The kernel is too large for its initial mapping") s
      else s

  -- The calls that paging has kept, the last one first, carried out. Their formats show numbers
  -- only.
  unfoldable pub carry_out : List Call → Kernel → Option Kernel
  carry_out [] k = some k
  carry_out (Access.printf fmt args ∷ cs) k =
      carry_out cs k >>= λ a. print fmt (argument args) (λ p. []) a
  carry_out (Access.kpanic message ∷ cs) k =
      carry_out cs k >>= λ a. some (on_screen (kpanic message) a)

  -- The memory. Paging is not online until `init_paging` has mapped its pages.
  unfoldable pub init_memory : Multiboot → Kernel → Option Kernel
  unfolding carry_out
  init_memory mb k = init_paging pf.kernel_directory k.mmu >>= λ u.
      carry_out u.calls (record k { mmu = record u { calls = []; p_online = k.mmu.p_online } })
      >>= λ a. init_pmm pf.symbols mb a.mmu.pmm >>= λ p. some (
          on_screen check_size (record a { mmu = record a.mmu { pmm = p; p_online = u.p_online } }))

  -- `kmain` up to its call of `init_fs`.
  unfoldable pub setup : Multiboot → Kernel → Option Kernel
  unfolding install init_memory
  setup mb k =
      let a = on_screen init_video (on_screen (set_color vga_color_white vga_color_black) k) in
      print (codes "Night Kernel %s\n") (λ i. i) (λ p. pf.kernel_ver) a >>= λ b.
      install (say "Setting up Global Descriptor Tables...\n" b) >>= λ c.
      init_memory mb (say "Initializing Memory\n" c)

  unfoldable pub wake : Kernel → Outcome → Option Ending
  unfolding terminal
  wake k (asleep m) = some (waiting (record k { machine = m }))
  wake k (awake rest m) =
      terminal (on_screen cls (record k { machine = m })) >>= λ t. some (prompt rest t)

-- `rounds` bounds the headers of the archive, and `fuel` the walks along the list of a directory.
module _ (pf : Platform) (rounds fuel : ℕ) where
  -- `name` is the text at `tmod->string`. Only the first module is loaded.
  unfoldable pub load_mods : (name : List ℕ) → List Module → Kernel → Option Kernel
  load_mods name [] k = none
  load_mods name (tmod ∷ mods) k =
      print pf (codes "Loading module %s with sz of %d\n")
        (λ i. if i == 0 then 0 else words_between tmod.mod_start tmod.mod_end) (λ p. name) k
      >>= λ a.
          init_tarfs (pf.node a.liballoc a.mmu.pmm) pf.junk rounds fuel pf.tar_root_name
            tmod.mod_start a.fs
          >>= λ r. fs_mount fuel r.0 r.1 >>= λ t.
              some (use_heap pf (filing t.calls) (record a { fs = t }))

  -- `kmain` up to its `sti`.
  unfoldable pub start : (name : List ℕ) → Multiboot → Kernel → Option Kernel
  unfolding setup load_mods
  start name mb k = setup pf mb k >>= λ d.
      let e = say "Initializing Filesystem\n" d in
      init_fs (pf.node e.liballoc e.mmu.pmm) pf.junk pf.root_name e.fs >>= λ f.
      load_mods name mb.mods
        (say "Loading Modules...\n" (use_heap pf (filing f.calls) (record e { fs = f })))

  unfoldable pub kmain : (name : List ℕ) → Multiboot → (es : List Event) → Kernel → Option Ending
  unfolding start wake
  kmain name mb es k = start name mb k >>= λ a. sleep 2 es a.machine >>= λ o. wake pf a o
