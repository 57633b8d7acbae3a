-- ===== src/Fs.antt =====
-- kernel/src/fs: the tree of files, and the archive that fills it.
pub mod Nodes
pub mod Lists
pub mod Forest
pub mod LookupLaws
pub mod DirLaws
pub mod Tar
pub mod TarLaws
pub mod FrameLaws
pub mod TouchLaws
pub mod MkfileLaws
pub mod ParseLaws
pub mod ArchiveLaws
pub mod FileLaws
pub mod TreeLaws
pub mod ParsedFiles
pub mod MountLaws
pub mod BootLaws
pub mod BootTree
pub mod ReadyLaws
pub mod ReadLaws
