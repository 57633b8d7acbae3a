-- ===== src/Console.antt =====
-- What the kernel writes for its user: lib/libk/src/printf.c and panic.c.
pub mod Printf
pub mod Panic
pub mod PrintfLaws
