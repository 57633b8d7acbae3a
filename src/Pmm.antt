-- ===== src/Pmm.antt =====
-- kernel/src/mm/pmm.c: the allocator of physical pages.
pub mod State
pub mod Find
pub mod Blocks
pub mod Regions
pub mod Alloc
pub mod Runs
pub mod FirstFree
pub mod RunState
pub mod FirstRun
pub mod PageLaws
pub mod Holders
pub mod Counts
pub mod RunCounts
pub mod RegionLaws
pub mod RunLaws
pub mod Boot
pub mod BootLaws
pub mod Hooks
pub mod Spec
pub mod SpecLaws
pub mod Client
pub mod Refine
