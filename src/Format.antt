-- ===== src/Format.antt =====
-- The places of the fields in the structures that MFS keeps on disk.
pub mod Zone
pub mod Header
pub mod Inode
