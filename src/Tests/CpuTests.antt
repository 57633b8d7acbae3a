-- ===== src/Tests/CpuTests.antt =====
-- The descriptor tables and the interrupt handlers at concrete entries and states.
use night.Base.{◌/◌, ◌≡◌, arith, [], ◌==◌, if◌then◌else◌, false, none, some}
use night.Cpu.Gdt.{encode_gate, gate_base, gate_limit, encode_gate_lem}
use night.Cpu.Idt.{Idt, empty_entry, idt_install, isr_install, irq_gates}
use night.Cpu.IdtLaws.{entry_point, interrupts_installed}
use night.Interrupts.Machine.{timer_handler, Machine}

abbrev no_idt : Idt
no_idt = record { idt = λ i. empty_entry; limit = 0; base = 0 }

interrupts_installed_example :
    let e =
      (irq_gates (λ k. 0x2000) (isr_install (λ k. 0x1000) (idt_install 0x9000 no_idt))).idt 33 in
    (entry_point e ≡ 0x2000) × (e.sel ≡ 0x08) × (e.flags ≡ 0x8E)
interrupts_installed_example =
    interrupts_installed 0x9000 (λ k. 0x1000) (λ k. 0x2000) no_idt (λ k. omega arith)
      (λ k. omega arith) 33 (omega arith)

abbrev running : Machine
running = record {
  screen = record {
    textmemptr = 0xB8000;
    text = λ i. 0;
    attrib = 0x0F;
    csr_x = 0;
    csr_y = 0;
    vga_locked = false;
    tstop = 0;
    outs = [];
  };
  timer_ticks = 17;
  secs = 0;
  cur_char = 0;
  irq_routines = λ i. if i == 0 then some timer_handler else none;
}

encode_gate_lem_example :
    let e = encode_gate 0x1234_5678 0xFFFF_FFFF 0x9A 0xCF in
    (gate_base e ≡ 0x1234_5678)
    × (gate_limit e ≡ 0xFFFFF)
    × (e.access ≡ 0x9A)
    × (e.granularity / 16 ≡ 12)
encode_gate_lem_example =
    encode_gate_lem 0x1234_5678 0xFFFF_FFFF 0x9A 0xCF (omega arith) (omega arith) (omega arith)
