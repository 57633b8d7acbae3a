-- ===== src/Interrupts.antt =====
-- Interrupts from the entry stub on: kernel/src/cpu/irq.c, and the handlers of
-- kernel/src/drivers/timer.c and kb.c.
pub mod Machine
pub mod Irq
pub mod Faults
pub mod FaultLaws
pub mod Sleep
pub mod SleepLaws
