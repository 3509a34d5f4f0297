-- ===== src/Zonemap/Tests.antt =====
-- Tests of the zone maps, on a set with one map of four inodes.
use tivo_tools.Base.{
  ℕ, ◌+◌, ◌*◌, ◌<◌, ◌≤◌, ◌^◌, List, [], ◌∷◌, ◌≡◌, refl, arith, some, none, true, false,
  if◌then◌else◌, ◌==◌,
}
use tivo_tools.Disk.{Disk}
use tivo_tools.Format.Header
use tivo_tools.Sample.{drive, volumes, set, loaded, header, inode_map}
use tivo_tools.Zonemap.{
  MfsHandle, ptr_at, maps_of, zt_inode, done, empty_head, mfs_load_zone_maps, mfs_inode_to_sector,
  mfs_sa_hours_estimate,
}
use tivo_tools.Zonemap.Inodes.{Placed, first_of, HasInodes, inode_to_sector-Placed}
use tivo_tools.Zonemap.Loaded.{IsLinked}
use tivo_tools.Zonemap.Load.{
  Ends, Chain, chain_link, chain_end, load_zone_maps-IsLinked, load_zone_maps-Chain,
}

chain : Chain drive volumes (ptr_at header Header.zonemap) (inode_map ∷ [])
unfolding tivo_tools.Zonemap.mfs_load_zone_map tivo_tools.Base.Memory.load32
    tivo_tools.Crc.mfs_update_crc tivo_tools.Base.Memory.store32 tivo_tools.Base.Memory.htonl
    tivo_tools.Crc.mfs_check_crc tivo_tools.Volume.mfsvol_read_data tivo_tools.Volume.read_from
    tivo_tools.Volume.mfsvol_get_volume tivo_tools.Volume.find_volume tivo_tools.Volume.holds
    tivo_tools.ReadWrite.tivo_partition_read tivo_tools.ReadWrite.tivo_partition_size
    tivo_tools.ReadWrite.tivo_partition_swab tivo_tools.Disk.os_read tivo_tools.Disk.run_faulty
    tivo_tools.Disk.available tivo_tools.ReadWrite.tivo_partition_offset tivo_tools.Disk.overlay
    tivo_tools.Disk.run tivo_tools.Crc.mfs_compute_crc tivo_tools.Crc.crc_loop tivo_tools.Crc.updc32
    tivo_tools.Crc.Table.crc32tab tivo_tools.Crc.octet_at tivo_tools.ReadWrite.data_swab
    tivo_tools.ReadWrite.swab_rest tivo_tools.ReadWrite.swab_word
chain =
    chain_link {p = ptr_at header Header.zonemap} {m = inode_map} {ms = []} refl refl (omega arith)
      (chain_end refl)

load_zone_maps-Chain_example :
    (hnd : MfsHandle) × (mfs_load_zone_maps 4 drive set ≡ done (some 1) hnd)
    × (hnd.loaded_zones ≡ inode_map ∷ [])
    × IsLinked hnd
    × (hnd.vol_hdr ≡ header)
    × (hnd.vols ≡ volumes)
load_zone_maps-Chain_example = load_zone_maps-Chain 4 drive set (inode_map ∷ []) chain (omega arith)

load_zone_maps-IsLinked_example : Ends IsLinked (mfs_load_zone_maps 4 drive set)
load_zone_maps-IsLinked_example = load_zone_maps-IsLinked 4 drive set

has_inodes : HasInodes loaded
unfolding maps_of tivo_tools.Base.Memory.htonl tivo_tools.Base.Memory.load32
    tivo_tools.Crc.mfs_update_crc tivo_tools.Base.Memory.store32
has_inodes = record { total = refl; small = omega arith; in_range = (omega arith, tt) }

sector_of_3 : mfs_inode_to_sector loaded 3 ≡ (22, loaded)
unfolding mfs_inode_to_sector tivo_tools.Zonemap.mfs_inode_count tivo_tools.Zonemap.inode_result
    tivo_tools.Zonemap.sector_in maps_of tivo_tools.Base.Memory.htonl tivo_tools.Base.Memory.load32
    tivo_tools.Crc.mfs_update_crc tivo_tools.Base.Memory.store32
sector_of_3 = refl

inode_to_sector-Placed_example :
    (p : Placed (maps_of loaded zt_inode) 6) × (mfs_inode_to_sector loaded 3
      ≡ (first_of p.zone + p.offset, loaded))
unfolding tivo_tools.Zonemap.mfs_inode_count
inode_to_sector-Placed_example = inode_to_sector-Placed loaded 3 has_inodes (omega arith)

abbrev media : ℕ → MfsHandle
media n = record set { zones = λ t. if t == 2 then record empty_head { size = n } else empty_head }

hours : mfs_sa_hours_estimate (media 30000000) ≡ 18
unfolding mfs_sa_hours_estimate
hours = refl
