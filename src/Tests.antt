-- ===== src/Tests.antt =====
-- The laws applied at concrete states.
mod PmmTests
mod CountTests
mod LibkTests
mod ReadTests
mod ScreenTests
mod CpuTests
mod FsTests
mod PagingTests
mod FormatTests
mod RefineTests
mod PrintTests
mod FaultTests
mod ArchiveTests
mod SleepTests
mod StartTests
