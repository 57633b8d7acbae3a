-- ===== src/Kernel/InstallLaws.antt =====
-- What `kmain` of kernel/src/kernel/kernel.c has installed when it gets to the memory.
use night.Base.{ℕ, ◌-◌, ◌^◌, ◌<◌, ◌≡◌, refl, none, some, ltb, if◌then◌else◌, update, arith}
use night.Cpu.Gdt.{Gdt}
use night.Cpu.GdtLaws.{IsSegment, gdt_install_lem}
use night.Cpu.Idt.{Idt, idt_install, isr_install, irq_gates}
use night.Cpu.IdtLaws.{entry_point, interrupts_installed}
use night.Interrupts.Machine.{
  Machine, timer_handler, keyboard_handler, irq_install_handler, timer_install, keyboard_install,
}
use night.Interrupts.Irq.{irq_remap}
use night.Interrupts.SleepLaws.{IsTimed}
use night.Kernel.Main.{Kernel, Platform, say, install}

-- Every exception and interrupt enters its stub.
abbrev pub IsGated : Platform → Idt → Type 0
IsGated pf t =
    (i : ℕ) → i < 48 → entry_point (t.idt i) ≡ (if ltb i 32 then pf.isr i else pf.irq (i - 32))

pub record IsInstalled (pf : Platform) (k q : Kernel) : Type 0 where
  pub segments : (i : ℕ) → i < 5 → IsSegment q.gdt i
  pub gated : IsGated pf q.idt
  pub timed : IsTimed q.machine
  pub mmu : q.mmu ≡ k.mmu
  pub fs : q.fs ≡ k.fs
  pub liballoc : q.liballoc ≡ k.liballoc
  pub ticks : q.machine.timer_ticks ≡ k.machine.timer_ticks

abbrev timed : Machine → Machine
timed m = record m { secs = 0; irq_routines = update m.irq_routines 0 (some timer_handler) }

abbrev keyed : Machine → Machine
keyed m = record m { irq_routines = update m.irq_routines 1 (some keyboard_handler) }

keyed-IsTimed :
    (m : Machine)
    → ((i : ℕ) → m.irq_routines i ≡ none)
    → m.timer_ticks < 18
    → m.secs ≡ 0
    → IsTimed (keyed (record m { irq_routines = update m.irq_routines 0 (some timer_handler) }))
keyed-IsTimed m routines early zero_secs = record {
  timer = refl;
  only = λ i h e. other i h e;
  counted = omega (arith, early, zero_secs);
}
  where
    other :
        (i : ℕ)
        → 0 < i
        → update (update m.irq_routines 0 (some timer_handler)) 1 (some keyboard_handler) i
          ≡ some timer_handler
        → ⊥
    other i h e = ground (arith, routines i, h, e)

module _ (pf : Platform) where
  -- The state after each installation; `g` is the new segment table.
  abbrev tables : Gdt → Kernel → Kernel
  tables g k =
      let a = say "Setting up Interrupts & Drivers...\n" (record k { gdt = g }) in
      record a {
        idt = irq_gates pf.irq (isr_install pf.isr (idt_install pf.idt_address a.idt));
        machine = irq_remap a.machine;
      }

  abbrev drivers : Kernel → Kernel
  drivers b =
      let m = timed (say "Setting up System Clock...\n" b).machine in
      record b {
        machine = keyed (say "Setting up Keyboard...\n" (record b { machine = m })).machine;
      }

  pub install_lem :
      (k : Kernel)
      → ((i : ℕ) → pf.isr i < 2 ^ 32)
      → ((i : ℕ) → pf.irq i < 2 ^ 32)
      → ((i : ℕ) → k.machine.irq_routines i ≡ none)
      → k.machine.timer_ticks < 18
      → (q : Kernel) × (install pf k ≡ some q) × IsInstalled pf k q
  unfolding install timer_install keyboard_install irq_install_handler irq_remap
  install_lem k isr irq routines early =
      let (g, e, seg, base, limit) = gdt_install_lem pf.gdt_address k.gdt in
      (
        drivers (tables g k),
        rw e refl,
        record {
          segments = seg;
          gated = λ i h. ground (
            arith,
            interrupts_installed pf.idt_address pf.isr pf.irq k.idt isr irq i (omega arith),
            h,
          );
          timed =
              keyed-IsTimed
                (record (drivers (tables g k)).machine { irq_routines = k.machine.irq_routines })
                routines early refl;
          mmu = refl;
          fs = refl;
          liballoc = refl;
          ticks = refl;
        },
      )
