-- ===== src/Libk.antt =====
-- lib/libk: the C library of the kernel.
pub mod Arith
pub mod Memory
pub mod Strtok
pub mod StrtokLaws
pub mod Format
pub mod FormatLaws
pub mod Vsprintf
pub mod VsprintfTotal
pub mod VsprintfLaws
pub mod Strings
pub mod StringsLaws
