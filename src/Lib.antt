-- ===== src/Lib.antt =====
-- MFSTools: the library under mfstools_1.4/source/MFSTools-snapshot050221/lib that opens the MFS volume
-- set of a TiVo drive, reads and writes its sectors, and adds partitions to it, and the backup of it. Paths below are
-- relative to mfstools_1.4/source/MFSTools-snapshot050221.
--
-- The parts, from the disk up, and the files that model them:
--   Disk       the devices behind lseek64, read and write: sectors, an end, bad sectors
--   ReadWrite  lib/readwrite.c: data_swab, tivo_partition_read, tivo_partition_write
--   Macpart    lib/macpart.c: the partition table of a drive: reading, writing, checking, adding
--   Crc        lib/crc.c: the checksum of all structures on the disk
--   Text       the functions of <string.h> on C strings that the code calls
--   Volume     lib/volume.c: the set of volumes, and transfers by the sector of the set
--   Format     the words of the structures of include/zonemap.h, mfs.h and fsid.h
--   Zonemap    lib/zonemap.c: the chain of zone maps, and inode numbers to sectors
--   Mfs        lib/mfs.c: the volume header, and the opening of a set
--   Inode      lib/inode.c: inodes by number and by fsid, and their data
--   Log        lib/log.c: the sectors of the transaction log
--   NewZone    lib/zonemap.c: mfs_new_zone_map
--   AddPair    lib/zonemap.c: mfs_can_add_volume_pair, mfs_add_volume_pair
--   Backup     backup/backup.c and the loop of backup/backmain.c: the sectors to back up, and their stream
--   Base       shared names, lists, bits, and buffers of bytes with their 32-bit words
--   Sample     a small volume set for the tests
-- Volume goes to the drive through ReadWrite; Zonemap, Inode and Log read and write through Volume and
-- check by Crc; Mfs opens a set with Volume and loads it with Zonemap; AddPair uses all of them. Backup scans the inodes,
-- and reads partitions through ReadWrite and blocks through Volume. Macpart reads the drive itself and writes through
-- ReadWrite.
-- Each function of the code is the definition of its name; a step of a longer function, such as the
-- part from an opened file on, has a name of its own.
--
-- State is passed on: a function takes the disk and the handle and gives its result with the handle,
-- the caller's buffer and the disk where it changes them. The disk is a function from a file
-- descriptor and a sector to bytes. Structures on the disk stay lists of bytes; a field is a
-- big-endian word of them. int results of -1 are err, none, false or failed. unsigned int arithmetic is
-- written out modulo 2 ^ 32.
--
-- Bounds and fuel. The loops over lists and buffers are structural. The names in a header are followed
-- for as many rounds as they have characters, and a round takes one at least. The search by fsid has
-- as many rounds as there are inodes. A chain of zone maps that comes back to itself is followed for
-- ever by the code: the number of rounds is a parameter, and looping is the result past it.
-- The loop that writes a
-- backup has fuel for its calls, of which each gives a sector at least until the last.
-- The walk that checks a partition table and the search for free space have their number of rounds as a
-- parameter, and none is the result past it; the walk needs no more than the drive has sectors and one, and the search one more than there are
-- partitions, where these have sectors and do not wrap around.
-- mfs_new_zone_map is modelled for at most 2 ^ 30 blocks, the size of its map for at most 2 ^ 31, where
-- the wrap-around of int is written out, and mfs_read_inode_data for sizes below 2 ^ 31.
--
-- A host of 32 bits, little-endian, is modelled: unsigned long and pointers have 4 bytes. A word that
-- is not whole inside its buffer reads as 0, where the code reads past the buffer. A number of log
-- sectors of 0, by which the code divides, is not modelled as a fault.
--
-- Not modelled: the branches that the TiVo's own kernel or a Mac compiles in (#ifdef TIVO,
-- TARGET_OS_MAC); a malloc that fails; freeing and closing; what is printed, and the texts of messages.
-- tivo_partition_open of lib/macpart.c is a parameter: any function from paths and modes to open
-- partitions; so are the functions on partition tables that a backup calls, and the branch of
-- backup_read that calls zlib. Of lib/macpart.c the table is modelled from the opened device on: not the
-- list of the open tables, tivo_partition_largest_free, the renaming of a partition, the making of a
-- table, and the opening of a partition.
-- Restore and the command line tools are not modelled, nor
-- the partition editor under tivopart_20040530 and the Java and shell programs.
pub mod Base
pub mod Crc
pub mod Disk
pub mod ReadWrite
pub mod Text
pub mod Volume
pub mod Format
pub mod Zonemap
pub mod Mfs
pub mod Inode
pub mod Log
pub mod NewZone
pub mod AddPair
pub mod Sample
pub mod Backup
pub mod Macpart
