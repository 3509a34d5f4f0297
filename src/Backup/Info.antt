-- ===== src/Backup/Info.antt =====
-- `struct backup_info` of include/backup.h, as far as backup/backup.c uses it, and its flags.
use tivo_tools.Base.{ℕ, List, Bool, not, ◌==◌, Option, bit_and}
use tivo_tools.Text.{CString}
use tivo_tools.ReadWrite.{TpFile}
use tivo_tools.Zonemap.{MfsHandle}
use tivo_tools.Backup.Blocks.{BackupBlock}

-- The values that `err_msg` takes, with the arguments.
pub data BackupError : Type 0 where
  memory_exhausted : BackupError
  required_data_beyond : ℕ → ℕ → BackupError
  zone_outside : ℕ → BackupError
  failed_init : BackupError
  bad_partition_name : CString → BackupError
  empty_mfs_partition : CString → BackupError
  not_enough_partitions boot_sector_unread no_primary_boot : BackupError
  opening_partition : ℕ → BackupError
  backing_up_partitions reading_volume : BackupError
  buffer_too_small ended_early : BackupError

-- `struct backup_partition`.
pub record BackupPartition : Type 0 where
  pub sectors : ℕ
  pub partno : ℕ
  pub devno : ℕ

-- `parts` with the open file of each: `devs[0].files`, of which the entry `partno` is used.
pub record BackupInfo : Type 0 where
  pub mfs : MfsHandle
  pub cursector : ℕ
  pub presector : ℕ
  pub parts : List BackupPartition
  pub files : ℕ → Option TpFile
  pub blocks : List BackupBlock
  pub mfsparts : List BackupPartition
  pub nmfs : ℕ
  pub nsectors : ℕ
  pub back_flags : ℕ
  pub thresh : ℕ
  pub hda : CString
  pub err_msg : Option BackupError

abbrev pub bf_compressed : ℕ
bf_compressed = 0x1

abbrev pub bf_backupvar : ℕ
bf_backupvar = 0x4

abbrev pub bf_shrink : ℕ
bf_shrink = 0x8

abbrev pub bf_threshsize : ℕ
bf_threshsize = 0x10

abbrev pub bf_threshtot : ℕ
bf_threshtot = 0x20

abbrev pub bf_streamtot : ℕ
bf_streamtot = 0x40

abbrev pub bf_nobswap : ℕ
bf_nobswap = 0x80

abbrev pub bf_truncated : ℕ
bf_truncated = 0x100

abbrev pub bf_flags : ℕ
bf_flags = 0xffff

abbrev pub has_flag : ℕ → ℕ → Bool
has_flag flags f = not (bit_and flags f == 0)
