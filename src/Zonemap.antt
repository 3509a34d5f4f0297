-- ===== src/Zonemap.antt =====
-- lib/zonemap.c of MFSTools and the handle of include/mfs.h: the zone maps of a volume set, and the
-- sectors of its inodes. Headers stay the bytes that the disk holds; a field is a word of them.
pub mod Inodes
pub mod Loaded
pub mod Load
mod Tests
use tivo_tools.Base.{
  ℕ, zero, suc, ◌+◌, ◌-◌, ◌*◌, ◌/◌, ◌%◌, ◌^◌, List, [], ◌∷◌, ◌++◌, Bool, true, false, map,
}
use tivo_tools.Base.{
  ◌&&◌, ◌||◌, not, ltb, leb, ◌==◌, if◌then◌else◌, Option, none, some, length, get_or, replicate,
}
use tivo_tools.Base.Memory.{add32, sub32, mul32, load32, htonl, field}
use tivo_tools.Text.{CString}
use tivo_tools.Disk.{Disk, Ret}
use tivo_tools.Crc.{mfs_check_crc}
use tivo_tools.Format.Zone
use tivo_tools.Format.Header
use tivo_tools.Volume.{VolumeHandle, mfsvol_read_data}

-- `err_msg` of an MFS handle, with its number.
pub data MfsError : Type 0 where
  inode_out_of_bounds : ℕ → MfsError
  inode_corrupt : ℕ → MfsError
  zone_checksum : MfsError
  bad_map_type : ℕ → MfsError
  reading_header : MfsError
  header_corrupt : MfsError
  size_mismatch : ℕ → ℕ → MfsError
  log_checksum : ℕ → MfsError
  no_volume_space : MfsError
  readonly_set : MfsError
  maps_not_loaded : MfsError
  open_failed : CString → MfsError

-- `struct zone_map_head`. The maps of a list are named by their places in the loaded order.
pub record ZoneHead : Type 0 where
  pub size : ℕ
  pub free : ℕ
  pub next : List ℕ

-- `struct mfs_handle`: `zones` by zone type, `loaded_zones` in the order of loading.
pub record MfsHandle : Type 0 where
  pub vols : VolumeHandle
  pub vol_hdr : List ℕ
  pub zones : ℕ → ZoneHead
  pub loaded_zones : List (List ℕ)
  pub err_msg : Option MfsError

-- `zone_type`.
abbrev pub zt_inode : ℕ
zt_inode = 0

abbrev pub zt_application : ℕ
zt_application = 1

abbrev pub zt_media : ℕ
zt_media = 2

abbrev pub zt_max : ℕ
zt_max = 3

-- The maps of one type, in the order of their list.
unfoldable pub maps_of : MfsHandle → ℕ → List (List ℕ)
maps_of hnd t = map (λ i. get_or hnd.loaded_zones i []) (hnd.zones t).next

-- What `mfs_next_zone` gives: the place of a map, the null pointer, or a read through one.
pub data NextZone : Type 0 where
  zone : ℕ → NextZone
  null : NextZone
  fault : NextZone

-- `mfs_next_zone`: `none` is the null pointer, `some i` the map at place `i` of the loaded order.
unfoldable pub mfs_next_zone : MfsHandle → Option ℕ → NextZone
mfs_next_zone hnd none = if 0 == length hnd.loaded_zones then fault else zone 0
mfs_next_zone hnd (some i) =
    if ltb i (length hnd.loaded_zones)
    then (if ltb (i + 1) (length hnd.loaded_zones) then zone (i + 1) else null)
    else fault

-- `mfs_sa_hours_estimate`.
abbrev pub sablocksec : ℕ
sablocksec = 1630000

unfoldable pub mfs_sa_hours_estimate : MfsHandle → ℕ
mfs_sa_hours_estimate hnd =
    let sectors = (hnd.zones zt_media).size in
    (if ltb (72 * 1024 * 1024 * 2) sectors
      then sub32 sectors (12 * 1024 * 1024 * 2)
      else if ltb (14 * 1024 * 1024 * 2) sectors
      then sub32 sectors (sub32 sectors (14 * 1024 * 1024 * 2) / 4)
      else sectors)
    / sablocksec

unfoldable pub mfs_inode_count : MfsHandle → ℕ
mfs_inode_count hnd = (hnd.zones zt_inode).size / 2

-- The loop of `mfs_inode_to_sector` over the inode zone maps: `sector` is relative to the next one.
unfoldable pub sector_in : List (List ℕ) → ℕ → Option ℕ
sector_in [] sector = none
sector_in (m ∷ ms) sector =
    let rest = sector_in ms (sub32 sector (field m Zone.size)) in
    if ltb sector (field m Zone.size) then some (add32 sector (field m Zone.first)) else rest

unfoldable pub inode_result : MfsHandle → ℕ → Option ℕ → ℕ × MfsHandle
inode_result hnd inode none = (0, record hnd { err_msg = some (inode_out_of_bounds inode) })
inode_result hnd inode (some s) = (s, hnd)

-- The sector and the handle with the error, if any; the result 0 is no sector.
unfoldable pub mfs_inode_to_sector : MfsHandle → ℕ → ℕ × MfsHandle
mfs_inode_to_sector hnd inode =
    if leb (mfs_inode_count hnd) inode
    then (0, hnd)
    else inode_result hnd inode (sector_in (maps_of hnd zt_inode) (mul32 inode 2))

-- `mfs_cleanup_zone_maps`: the totals stay.
unfoldable pub mfs_cleanup_zone_maps : MfsHandle → MfsHandle
mfs_cleanup_zone_maps hnd = record hnd {
  zones = λ t. record (hnd.zones t) { next = [] };
  loaded_zones = [];
}

-- `zone_map_ptr`, as the words stand in memory.
pub record ZoneMapPtr : Type 0 where
  pub sector : ℕ
  pub sbackup : ℕ
  pub length : ℕ

abbrev pub ptr_at : List ℕ → ℕ → ZoneMapPtr
ptr_at bytes i = record {
  sector = load32 bytes i;
  sbackup = load32 bytes (i + 1);
  length = load32 bytes (i + 2);
}

-- `mfs_load_zone_map`: the map, or its backup where the checksum is wrong.
unfoldable pub mfs_load_zone_map : Disk → VolumeHandle → ZoneMapPtr → Option (List ℕ)
mfs_load_zone_map d vols ptr =
    let size = htonl ptr.length * 512 in
    let hdr =
      (mfsvol_read_data d vols (replicate size 0) (htonl ptr.sector) (htonl ptr.length)).1 in
    let backup = (mfsvol_read_data d vols hdr (htonl ptr.sbackup) (htonl ptr.length)).1 in
    if mfs_check_crc hdr size Zone.checksum
    then some hdr
    else if mfs_check_crc backup size Zone.checksum
    then some backup
    else none

-- One more map at the tail of its list and of the loaded order, and in the totals.
unfoldable pub link_map : MfsHandle → List ℕ → MfsHandle
link_map hnd cur =
    let t = field cur Zone.zone_type in
    let head = hnd.zones t in
    let head' : ZoneHead = record {
      size = add32 head.size (field cur Zone.size);
      free = add32 head.free (field cur Zone.free);
      next = head.next ++ (length hnd.loaded_zones ∷ []);
    } in
    record hnd {
      zones = λ u. if u == t then head' else hnd.zones u;
      loaded_zones = hnd.loaded_zones ++ (cur ∷ []);
    }

-- The end of the loading: -1 or the number of maps, with the handle. A chain of maps that comes back
-- to itself is followed for ever: `looping`.
pub data Loading : Type 0 where
  done : Option ℕ → MfsHandle → Loading
  looping : Loading

abbrev pub ends_chain : ZoneMapPtr → Bool
ends_chain ptr = ptr.sector == 0 || ptr.sbackup == htonl 0xdeadbeef

-- A round of the loop of `mfs_load_zone_maps` ends it, or goes on with the next pointer.
pub data Round : Type 0 where
  stop : Option ℕ → MfsHandle → Round
  go_on : ZoneMapPtr → MfsHandle → Round

-- The round from the loaded map on.
unfoldable pub take_map : MfsHandle → Option (List ℕ) → Round
take_map hnd none = stop none (record hnd { err_msg = some zone_checksum })
take_map hnd (some cur) =
    let t = field cur Zone.zone_type in
    if leb zt_max t
    then stop none (record hnd { err_msg = some (bad_map_type t) })
    else go_on (ptr_at cur Zone.next) (link_map hnd cur)

-- The count that is returned is that of the loaded maps.
unfoldable pub load_round : Disk → ZoneMapPtr → MfsHandle → Round
load_round d ptr hnd =
    if ends_chain ptr
    then stop (some (length hnd.loaded_zones)) hnd
    else take_map hnd (mfs_load_zone_map d hnd.vols ptr)

unfoldable pub load_loop : ℕ → Disk → ZoneMapPtr → MfsHandle → Loading
load_loop zero d ptr hnd = looping
load_loop (suc fuel) d ptr hnd = elim (load_round d ptr hnd) [
  | stop r hnd' ↦ done r hnd'
  | go_on ptr' hnd' ↦ load_loop fuel d ptr' hnd'
]

abbrev pub empty_head : ZoneHead
empty_head = record { size = 0; free = 0; next = [] }

unfoldable pub mfs_load_zone_maps : ℕ → Disk → MfsHandle → Loading
mfs_load_zone_maps fuel d hnd =
    load_loop fuel d (ptr_at hnd.vol_hdr Header.zonemap)
      (record (mfs_cleanup_zone_maps hnd) { zones = λ t. empty_head })
