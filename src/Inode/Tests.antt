-- ===== src/Inode/Tests.antt =====
-- Tests of the inodes, on a set whose inode 0 has lost its first copy.
use tivo_tools.Base.{◌++◌, replicate, All-append, All-replicate}
use tivo_tools.Base.Memory.{IsByte, AllBytes}
use tivo_tools.Crc.{mfs_update_crc}
use tivo_tools.Inode.{mfs_write_inode}
use tivo_tools.Inode.RoundTrip.{read_inode-write_inode}
use tivo_tools.Sample.{volumes, volume_a}
use tivo_tools.Volume.Access.{Ready}
use tivo_tools.Base.{
  ℕ, ◌+◌, ◌*◌, ◌<◌, ◌^◌, List, [], ◌∷◌, ◌≡◌, ◌≢◌, refl, arith, some, none, true, false, inl, inr,
}
use tivo_tools.Inode.{checked, found, endless, mfs_read_inode, mfs_read_inode_by_fsid}
use tivo_tools.Inode.Read.{Recoverable, IsCopy, read_inode-Recoverable, read_inode_checked}
use tivo_tools.Inode.Search.{IsFound, read_inode_by_fsid_ends, read_inode_by_fsid-IsFound}
use tivo_tools.Sample.{drive, loaded, inode_0}
use tivo_tools.Zonemap.{mfs_inode_to_sector}

reads_backup : (mfs_read_inode drive loaded 0).0 ≡ some inode_0
unfolding mfs_read_inode tivo_tools.Inode.inode_at mfs_inode_to_sector
    tivo_tools.Zonemap.mfs_inode_count tivo_tools.Zonemap.inode_result tivo_tools.Zonemap.sector_in
    tivo_tools.Zonemap.maps_of tivo_tools.Base.Memory.htonl tivo_tools.Base.Memory.load32
    tivo_tools.Crc.mfs_update_crc tivo_tools.Base.Memory.store32 tivo_tools.Volume.mfsvol_read_data
    tivo_tools.Volume.read_from tivo_tools.Volume.mfsvol_get_volume tivo_tools.Volume.find_volume
    tivo_tools.Volume.holds tivo_tools.ReadWrite.tivo_partition_read tivo_tools.Crc.Table.crc32tab
    tivo_tools.Crc.crc_loop tivo_tools.Crc.mfs_check_crc tivo_tools.Crc.mfs_compute_crc
    tivo_tools.Crc.octet_at tivo_tools.Crc.updc32 tivo_tools.Disk.available tivo_tools.Disk.os_read
    tivo_tools.Disk.overlay tivo_tools.Disk.run tivo_tools.Disk.run_faulty
    tivo_tools.ReadWrite.data_swab tivo_tools.ReadWrite.swab_rest tivo_tools.ReadWrite.swab_word
    tivo_tools.ReadWrite.tivo_partition_offset tivo_tools.ReadWrite.tivo_partition_size
    tivo_tools.ReadWrite.tivo_partition_swab
reads_backup = refl

finds_4 : mfs_read_inode_by_fsid drive loaded 4 ≡ found inode_0
unfolding mfs_read_inode_by_fsid tivo_tools.Inode.fsid_loop tivo_tools.Zonemap.mfs_inode_count
    tivo_tools.Inode.probe mfs_read_inode tivo_tools.Inode.inode_at mfs_inode_to_sector
    tivo_tools.Inode.hash_of tivo_tools.Zonemap.inode_result tivo_tools.Zonemap.sector_in
    tivo_tools.Zonemap.maps_of tivo_tools.Base.Memory.htonl tivo_tools.Base.Memory.load32
    tivo_tools.Crc.mfs_update_crc tivo_tools.Base.Memory.store32 tivo_tools.Volume.mfsvol_read_data
    tivo_tools.Volume.read_from tivo_tools.Crc.Table.crc32tab tivo_tools.Crc.crc_loop
    tivo_tools.Crc.mfs_check_crc tivo_tools.Crc.mfs_compute_crc tivo_tools.Crc.octet_at
    tivo_tools.Crc.updc32 tivo_tools.Disk.available tivo_tools.Disk.os_read tivo_tools.Disk.overlay
    tivo_tools.Disk.run tivo_tools.Disk.run_faulty tivo_tools.Inode.following tivo_tools.Inode.judge
    tivo_tools.ReadWrite.data_swab tivo_tools.ReadWrite.swab_rest tivo_tools.ReadWrite.swab_word
    tivo_tools.ReadWrite.tivo_partition_offset tivo_tools.ReadWrite.tivo_partition_read
    tivo_tools.ReadWrite.tivo_partition_size tivo_tools.ReadWrite.tivo_partition_swab
    tivo_tools.Volume.find_volume tivo_tools.Volume.holds tivo_tools.Volume.mfsvol_get_volume
finds_4 = refl

recoverable : Recoverable drive loaded 16
unfolding tivo_tools.Volume.mfsvol_read_data tivo_tools.Volume.read_from
    tivo_tools.Volume.mfsvol_get_volume tivo_tools.Volume.find_volume tivo_tools.Volume.holds
    tivo_tools.ReadWrite.tivo_partition_read tivo_tools.ReadWrite.tivo_partition_size
    tivo_tools.Disk.os_read tivo_tools.Disk.run_faulty tivo_tools.Disk.available
    tivo_tools.ReadWrite.tivo_partition_offset tivo_tools.Crc.mfs_check_crc
    tivo_tools.Base.Memory.load32 tivo_tools.ReadWrite.tivo_partition_swab tivo_tools.Disk.overlay
    tivo_tools.Disk.run tivo_tools.Crc.mfs_update_crc tivo_tools.Base.Memory.store32
    tivo_tools.Crc.mfs_compute_crc tivo_tools.Base.Memory.htonl mfs_read_inode
    tivo_tools.Inode.inode_at mfs_inode_to_sector tivo_tools.Zonemap.mfs_inode_count
    tivo_tools.Zonemap.inode_result tivo_tools.Zonemap.sector_in tivo_tools.Zonemap.maps_of
    tivo_tools.Crc.Table.crc32tab tivo_tools.Crc.crc_loop tivo_tools.Crc.octet_at
    tivo_tools.Crc.updc32 tivo_tools.ReadWrite.data_swab tivo_tools.ReadWrite.swab_rest
    tivo_tools.ReadWrite.swab_word
recoverable = (λ e. absurd (omega (arith, e)), refl, inr (refl, refl))

read_inode-Recoverable_example :
    (inode : List ℕ) × (mfs_read_inode drive loaded 0 ≡ (some inode, loaded))
    × IsCopy drive loaded 16 inode
unfolding mfs_inode_to_sector tivo_tools.Zonemap.mfs_inode_count tivo_tools.Zonemap.inode_result
    tivo_tools.Zonemap.sector_in tivo_tools.Zonemap.maps_of tivo_tools.Base.Memory.htonl
    tivo_tools.Base.Memory.load32 tivo_tools.Crc.mfs_update_crc tivo_tools.Base.Memory.store32
read_inode-Recoverable_example = read_inode-Recoverable drive loaded 0 recoverable

read_inode_checked_example : Recoverable drive loaded 16 × (checked inode_0 ≡ true)
unfolding mfs_inode_to_sector tivo_tools.Zonemap.mfs_inode_count tivo_tools.Zonemap.inode_result
    tivo_tools.Zonemap.sector_in tivo_tools.Zonemap.maps_of tivo_tools.Base.Memory.htonl
    tivo_tools.Base.Memory.load32 tivo_tools.Crc.mfs_update_crc tivo_tools.Base.Memory.store32
read_inode_checked_example = read_inode_checked drive loaded 0 inode_0 reads_backup

read_inode_by_fsid_ends_example : mfs_read_inode_by_fsid drive loaded 5 ≢ endless
unfolding tivo_tools.Zonemap.mfs_inode_count
read_inode_by_fsid_ends_example = read_inode_by_fsid_ends drive loaded 5 2 (refl, omega arith)

read_inode_by_fsid-IsFound_example : IsFound drive loaded 4 inode_0 × (checked inode_0 ≡ true)
read_inode_by_fsid-IsFound_example = read_inode_by_fsid-IsFound drive loaded 4 inode_0 finds_4

-- Inode 3, with no checksum yet.
abbrev head_3 : List ℕ
head_3 = 0 ∷ 0 ∷ 0 ∷ 9 ∷ 0 ∷ 0 ∷ 0 ∷ 1 ∷ 0 ∷ 0 ∷ 0 ∷ 0 ∷ 0 ∷ 0 ∷ 0 ∷ 0 ∷ 0 ∷ 0 ∷ 0 ∷ 3 ∷ []

abbrev inode_3 : List ℕ
inode_3 = head_3 ++ replicate 492 0

head_3-AllBytes : AllBytes head_3
head_3-AllBytes = ground arith

ready_3 : Ready drive volumes 22 2
unfolding tivo_tools.Volume.mfsvol_get_volume tivo_tools.Volume.find_volume tivo_tools.Volume.holds
    tivo_tools.ReadWrite.tivo_partition_size tivo_tools.ReadWrite.tivo_partition_offset
    tivo_tools.Disk.run_faulty
ready_3 = record {
  vol = volume_a;
  is_found = refl;
  after_start = omega arith;
  inside = omega arith;
  no_wrap = omega arith;
  covers = record {
    some_sectors = omega arith;
    inside = omega arith;
    placed = omega arith;
    end_small = omega arith;
    healthy = refl;
  };
}

read_inode-write_inode_example :
    let (ok, inode, hnd, d) = mfs_write_inode drive loaded inode_3 in
    (ok ≡ true)
    × (inode ≡ mfs_update_crc inode_3 512 12)
    × (hnd ≡ loaded)
    × (mfs_read_inode d loaded 3 ≡ (some inode, loaded))
unfolding mfs_inode_to_sector tivo_tools.Zonemap.mfs_inode_count tivo_tools.Base.Memory.htonl
    tivo_tools.Base.Memory.load32 tivo_tools.Zonemap.inode_result tivo_tools.Zonemap.sector_in
    tivo_tools.Zonemap.maps_of mfs_update_crc tivo_tools.Base.Memory.store32 ready_3
read_inode-write_inode_example =
    read_inode-write_inode drive loaded inode_3 22 refl (λ e. absurd (omega (arith, e)))
      (record { ready = ready_3; real = refl; for_writing = refl })
      (All-append IsByte head_3 (replicate 492 0) head_3-AllBytes
        (All-replicate IsByte 492 0 (omega arith)))
      refl
