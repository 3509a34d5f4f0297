-- ===== src/Sample.antt =====
-- A small volume set for the tests: two partitions of one drive, with a header, a zone map for
-- inodes, two inodes and a log.
use tivo_tools.Base.{ℕ, ◌+◌, ◌-◌, List, [], ◌∷◌, ◌++◌, true, false, ◌==◌, if◌then◌else◌}
use tivo_tools.Base.{none, some, length, replicate}
use tivo_tools.Base.Memory.{set_field}
use tivo_tools.Text.{CString, codes}
use tivo_tools.Disk.{Disk}
use tivo_tools.ReadWrite.{TpFile, direct}
use tivo_tools.Crc.{mfs_update_crc}
use tivo_tools.Format.Header
use tivo_tools.Format.Inode
use tivo_tools.Format.Zone
use tivo_tools.Volume.{VolumeInfo, VolumeHandle, char_at}
use tivo_tools.Zonemap.{MfsHandle, empty_head}
use tivo_tools.Mfs.{Machine}

-- The words of a structure from some word on.
abbrev pub put_words : List ℕ → ℕ → List ℕ → List ℕ
put_words buf i [] = buf
put_words buf i (w ∷ ws) = put_words (set_field buf i w) (i + 1) ws

abbrev pub file_a : TpFile
file_a = record {
  tptype = direct;
  fd = 3;
  kernel_sectors = 0;
  part_start = 64;
  part_sectors = 2050;
  swabbed = false;
}

abbrev pub file_b : TpFile
file_b = record file_a { part_start = 3000; part_sectors = 1024; swabbed = true }

abbrev pub volume_a : VolumeInfo
volume_a = record { file = file_a; start = 0; sectors = 2048; rdonly_volume = false }

abbrev pub volume_b : VolumeInfo
volume_b = record { file = file_b; start = 2048; sectors = 1024; rdonly_volume = false }

abbrev pub volumes : VolumeHandle
volumes = record {
  volumes = volume_a ∷ volume_b ∷ [];
  fake_write = false;
  hda = some (codes "/dev/hda");
  hdb = none;
  err_msg = none;
}

abbrev pub names : CString
names = codes "/dev/hda10 /dev/hda11"

abbrev pub header : List ℕ
header =
    let listed = replicate 36 0 ++ names ++ replicate (196 - length names) 0 in
    let sized = put_words listed Header.total_sectors (3072 ∷ []) in
    let logged = put_words sized Header.logstart (100 ∷ 8 ∷ 5 ∷ []) in
    mfs_update_crc (put_words logged Header.zonemap (2 ∷ 3 ∷ 1 ∷ [])) 232 Header.checksum

-- The zone of the inodes 0 to 3, on sectors 16 to 23, and no next zone map.
abbrev pub inode_map : List ℕ
inode_map =
    let pointed = put_words (replicate 512 0) Zone.sector (2 ∷ 3 ∷ 1 ∷ []) in
    mfs_update_crc (put_words pointed Zone.first (16 ∷ 23 ∷ 8 ∷ 1 ∷ 4 ∷ [])) 512 Zone.checksum

-- Inode 0, in use.
abbrev pub inode_0 : List ℕ
inode_0 = mfs_update_crc (put_words (replicate 512 0) Inode.fsid (4 ∷ 1 ∷ [])) 512 Inode.checksum

abbrev pub sector_of : ℕ → List ℕ
sector_of s =
    if s == 64
    then header ++ replicate 280 0
    else if s == 66
    then inode_map
    else if s == 81
    then inode_0
    else replicate 512 0

-- The drive: the first copy of inode 0, on sector 16 of the set, is lost.
abbrev pub drive : Disk
drive = record { sector = λ fd s. sector_of s; end_sector = λ fd. 8000; faulty = λ fd s. false }

abbrev pub machine : Machine
machine = record {
  tivo_partition_open = λ path mode. if char_at path 9 == 48 then some file_a else some file_b;
  mfs_device = none;
  mfs_fake_write = none;
  chain_fuel = 4;
}

-- The handle before its zone maps are loaded, and after.
abbrev pub set : MfsHandle
set = record {
  vols = volumes;
  vol_hdr = header;
  zones = λ t. empty_head;
  loaded_zones = [];
  err_msg = none;
}

abbrev pub loaded : MfsHandle
loaded = record set {
  zones = λ t. if t == 0 then record { size = 8; free = 4; next = 0 ∷ [] } else empty_head;
  loaded_zones = inode_map ∷ [];
}
