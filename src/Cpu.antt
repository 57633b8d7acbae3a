-- ===== src/Cpu.antt =====
-- kernel/src/cpu: the descriptor tables and the interrupt handlers.
pub mod Gdt
pub mod Idt
pub mod IdtLaws
pub mod GdtLaws
