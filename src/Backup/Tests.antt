-- ===== src/Backup/Tests.antt =====
-- Runs of the lists and the scan of backup/backup.c on small inputs.
use tivo_tools.Base.{ℕ, suc, ◌+◌, ◌≤◌, ◌<◌, ◌≡◌, refl, sym, ◌∙◌, ap, arith, ◌⊎◌, inl, inr}
use tivo_tools.Base.{
  List, [], ◌∷◌, ◌++◌, Bool, true, false, ltb, ◌==◌, if◌then◌else◌, All, Option, none, some,
  replicate,
}
use tivo_tools.Disk.{Disk}
use tivo_tools.Sample.{drive, loaded, put_words}
use tivo_tools.Crc.{mfs_update_crc}
use tivo_tools.Format.Inode
use tivo_tools.Text.{codes}
use tivo_tools.Backup.Blocks.{Block, empty_block, backup_add_block, copied, block_list_array_concat}
use tivo_tools.Backup.Sets.{Started, fresh, backed_up, backed_sectors, AllGrown, add_block-AllGrown}
use tivo_tools.Backup.Copied.{Copy, copied-concat}
use tivo_tools.Backup.Info.{BackupInfo}
use tivo_tools.Backup.Scan.{scan_inodes, all_volumes}
use tivo_tools.Backup.Gathered.{Separate}
use tivo_tools.Backup.Scanned.{Backed, asked_for, scan_inodes-Backed}

-- Two volumes, of which the second has a run already.
abbrev lists : List (List Block)
lists =
    (empty_block ∷ [])
    ∷ (empty_block
        ∷ record { backup = true; sector = 2060 }
        ∷ record { backup = false; sector = 2070 }
        ∷ [])
    ∷ []

lists-Started : All Started lists
lists-Started = (
  fresh [] refl,
  (fresh _ (refl, omega arith, omega arith, (refl, omega arith, omega arith, refl)), tt),
)

add_block-AllGrown_example :
    AllGrown lists 2070 5 (backup_add_block lists (0 ∷ 2048 ∷ 4294967295 ∷ []) [] 2070 5)
add_block-AllGrown_example =
    add_block-AllGrown lists (0 ∷ 2048 ∷ 4294967295 ∷ []) [] 2070 5 lists-Started
      (inr (inl (omega arith))) (omega arith) (omega arith) (λ x a b. ground arith)

-- The run is put at the end of the one before it.
extended :
    backup_add_block lists (0 ∷ 2048 ∷ 4294967295 ∷ []) [] 2070 5
    ≡ some (
      (empty_block ∷ [])
          ∷ (empty_block
              ∷ record { backup = true; sector = 2060 }
              ∷ record { backup = false; sector = 2075 }
              ∷ [])
          ∷ [],
      [],
    )
unfolding backup_add_block tivo_tools.Backup.Blocks.add_in tivo_tools.Backup.Blocks.add_at
    tivo_tools.Backup.Blocks.settle tivo_tools.Backup.Blocks.drop_overlap
extended = refl

copied-concat_example :
    Copy (backed_up lists) (backed_sectors lists) (copied (block_list_array_concat lists))
copied-concat_example = copied-concat lists lists-Started

-- A stream of ten sectors, six of them in use, as inode 1.
abbrev inode_1 : List ℕ
inode_1 =
    let typed = replicate 40 0 ++ (2 ∷ replicate 471 0) in
    let named = put_words typed Inode.fsid (5 ∷ 1 ∷ []) in
    let sized = put_words named Inode.size (5 ∷ 1024 ∷ 3 ∷ []) in
    mfs_update_crc (put_words sized Inode.numblocks (1 ∷ 2100 ∷ 10 ∷ [])) 512 Inode.checksum

abbrev stream_drive : Disk
stream_drive = record drive { sector = λ fd s. if s == 82 then inode_1 else drive.sector fd s }

abbrev info : BackupInfo
info = record {
  mfs = loaded;
  cursector = 0;
  presector = 0;
  parts = [];
  files = λ i. none;
  blocks = [];
  mfsparts = [];
  nmfs = 0;
  nsectors = 7;
  back_flags = 0;
  thresh = 2000;
  hda = codes "/dev/hda";
  err_msg = none;
}

asked : asked_for stream_drive info ≡ (2100, 6) ∷ (0, 2048) ∷ []
unfolding tivo_tools.Backup.Requested.inodes_runs tivo_tools.Zonemap.mfs_inode_count
    tivo_tools.Backup.Requested.inode_runs tivo_tools.Inode.mfs_read_inode tivo_tools.Inode.inode_at
    tivo_tools.Zonemap.mfs_inode_to_sector tivo_tools.Zonemap.inode_result
    tivo_tools.Zonemap.sector_in tivo_tools.Zonemap.maps_of tivo_tools.Base.Memory.htonl
    tivo_tools.Base.Memory.load32 mfs_update_crc tivo_tools.Base.Memory.store32
    tivo_tools.Volume.mfsvol_read_data tivo_tools.Volume.read_from
    tivo_tools.Volume.mfsvol_get_volume tivo_tools.Volume.find_volume
    tivo_tools.Backup.Gathered.stream_runs tivo_tools.Backup.Scan.measured
    tivo_tools.Backup.Scan.to_save tivo_tools.Backup.Scan.wanted tivo_tools.Crc.Table.crc32tab
    tivo_tools.Crc.crc_loop tivo_tools.Crc.mfs_check_crc tivo_tools.Crc.mfs_compute_crc
    tivo_tools.Crc.octet_at tivo_tools.Crc.updc32 tivo_tools.Disk.available tivo_tools.Disk.os_read
    tivo_tools.Disk.overlay tivo_tools.Disk.run tivo_tools.Disk.run_faulty
    tivo_tools.ReadWrite.data_swab tivo_tools.ReadWrite.swab_rest tivo_tools.ReadWrite.swab_word
    tivo_tools.ReadWrite.tivo_partition_offset tivo_tools.ReadWrite.tivo_partition_read
    tivo_tools.ReadWrite.tivo_partition_size tivo_tools.ReadWrite.tivo_partition_swab
    tivo_tools.Volume.holds tivo_tools.Backup.Requested.volume_runs
    tivo_tools.Backup.Scan.volumes_from tivo_tools.Volume.mfsvol_volume_size
    tivo_tools.Volume.size_at
asked = refl

separate : Separate (λ x. false) (asked_for stream_drive info)
separate = rw asked (
  omega arith,
  omega arith,
  (λ x a b. refl),
  (omega arith, omega arith, (λ x a b. ground arith), tt),
)

scan_inodes-Backed_example :
    Backed info (asked_for stream_drive info) (scan_inodes stream_drive info)
unfolding tivo_tools.Backup.Scan.volumes_from tivo_tools.Volume.mfsvol_volume_size
    tivo_tools.Volume.size_at
scan_inodes-Backed_example =
    scan_inodes-Backed stream_drive info (0, 2048) ((2048, 1024) ∷ []) refl refl refl separate
