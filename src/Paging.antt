-- ===== src/Paging.antt =====
-- kernel/src/mm/paging.c: page tables that the code reaches through the directory's last entry.
pub mod Access
pub mod Entries
pub mod Pages
pub mod Reach
pub mod MapLaws
pub mod TranslateLaws
pub mod NewTable
pub mod CreateLaws
pub mod RangeLaws
pub mod BackLaws
pub mod TakeLaws
pub mod AllocLaws
