-- ===== src/Backup.antt =====
-- backup/backup.c of MFSTools: what is backed up, and in which order.
mod Tests
mod WholeTests
pub mod Blocks
pub mod Info
pub mod Scan
pub mod Partitions
pub mod Start
pub mod Stream
pub mod Runs
pub mod Union
pub mod Sets
pub mod Gathered
pub mod Requested
pub mod Copied
pub mod Sectors
pub mod Reading
pub mod Scanned
pub mod Held
pub mod Heading
pub mod Whole
