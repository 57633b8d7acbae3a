-- ===== src/Kernel.antt =====
-- kernel/src/kernel/kernel.c: the start of the kernel, over all of its parts.
pub mod Main
pub mod InstallLaws
pub mod MemoryLaws
pub mod TextLaws
pub mod SetupLaws
pub mod Files
pub mod StarvedLaws
