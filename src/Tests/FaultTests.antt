-- ===== src/Tests/FaultTests.antt =====
-- kernel/src/cpu/isr.c at a page fault, with paging online.
use night.Base.{◌+◌, ◌≡◌, arith, true, false, some, []}
use night.Drivers.Screen.{Screen, puts}
use night.Interrupts.Faults.{halted, fault_handler, pg_handle}
use night.Interrupts.FaultLaws.{address_line, reason_line, pg_handle_lem, fault_handler_lem}

abbrev blank : Screen
blank = record {
  textmemptr = 0xB8000;
  text = λ i. 0x0F20;
  attrib = 0x0F;
  csr_x = 0;
  csr_y = 0;
  vga_locked = false;
  tstop = 0;
  outs = [];
}

pg_handle_lem_example :
    pg_handle true (λ n. n + 4096) 0xBEEF 2 blank
    ≡ some (halted (puts (reason_line 2) (puts (address_line 0xBEEF) blank)))
pg_handle_lem_example = pg_handle_lem true (λ n. n + 4096) 0xBEEF 2 blank (λ n e. omega (arith, e))

fault_handler_lem_example :
    fault_handler true (λ n. n + 4096) 14 0xBEEF 2 blank
    ≡ some (halted (puts (reason_line 2) (puts (address_line 0xBEEF) blank)))
fault_handler_lem_example =
    fault_handler_lem true (λ n. n + 4096) 14 0xBEEF 2 blank (λ n e. omega (arith, e))
