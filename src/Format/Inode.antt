-- ===== src/Format/Inode.antt =====
-- The words of `mfs_inode` of include/fsid.h. The type is the first byte of word 10.
use tivo_tools.Base.{ℕ}

abbrev pub fsid : ℕ
fsid = 0

abbrev pub refcount : ℕ
refcount = 1

abbrev pub inode : ℕ
inode = 4

abbrev pub size : ℕ
size = 6

abbrev pub blocksize : ℕ
blocksize = 7

abbrev pub blockused : ℕ
blockused = 8

abbrev pub checksum : ℕ
checksum = 12

abbrev pub inode_flags : ℕ
inode_flags = 13

abbrev pub numblocks : ℕ
numblocks = 14

abbrev pub datablocks : ℕ
datablocks = 15
