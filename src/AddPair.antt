-- ===== src/AddPair.antt =====
-- lib/zonemap.c of MFSTools, `mfs_can_add_volume_pair` and `mfs_add_volume_pair`: a pair of
-- partitions joins a volume set.
pub mod Refused
pub mod Listed
mod Tests
use tivo_tools.Base.{
  ℕ, zero, suc, ◌+◌, ◌-◌, ◌*◌, ◌/◌, ◌%◌, ◌^◌, List, [], ◌∷◌, ◌++◌, Bool, true, false,
}
use tivo_tools.Base.{
  ltb, leb, ◌==◌, not, ◌&&◌, ◌||◌, if◌then◌else◌, Option, none, some, take, drop, length, replicate,
}
use tivo_tools.Base.Memory.{add32, sub32, mul32, field, set_field}
use tivo_tools.Disk.{Disk}
use tivo_tools.Text.{CString}
use tivo_tools.ReadWrite.{TpFile}
use tivo_tools.Crc.{mfs_update_crc}
use tivo_tools.Format.Header
use tivo_tools.Format.Zone
use tivo_tools.Volume.{
  Mode, rdwr, VolumeHandle, mfsvol_device_translate, mfsvol_add_volume, mfsvol_is_writable,
}
use tivo_tools.Volume.{mfsvol_volume_size, mfsvol_volume_set_size, mfsvol_write_data}
use tivo_tools.Zonemap.{
  MfsHandle, MfsError, no_volume_space, readonly_set, maps_not_loaded, open_failed, zt_media,
  mfs_load_zone_maps,
}
use tivo_tools.Mfs.{
  Machine, mfs_partition_list, header_size, Status, opened, failed, endless, status_of, mfs_reinit,
}
use tivo_tools.NewZone.{default_minalloc, map_sectors, last_map, mfs_new_zone_map}

-- The tests of `mfs_can_add_volume_pair`: the error, if any.
unfoldable pub obstacle : MfsHandle → CString → CString → Option MfsError
obstacle hnd app media =
    if leb 128 (length (mfs_partition_list hnd) + length app + length media + 3)
    then some no_volume_space
    else if not (mfsvol_is_writable hnd.vols 0)
    then some readonly_set
    else if length hnd.loaded_zones == 0
    then some maps_not_loaded
    else if not (mfsvol_is_writable hnd.vols (field (last_map hnd) Zone.sector))
    then some readonly_set
    else none

-- `true` is the result 0 and `false` -1.
unfoldable pub mfs_can_add_volume_pair : MfsHandle → CString → CString → Bool × MfsHandle
mfs_can_add_volume_pair hnd app media = elim (obstacle hnd app media) [
  | none ↦ (true, hnd)
  | some e ↦ (false, record hnd { err_msg = some e })
]

-- The text and its 0 over the bytes of `vol_hdr.partitionlist`, and the size and checksum after it.
unfoldable pub new_header : MfsHandle → CString → CString → List ℕ
new_header hnd app media =
    let names = take 127 (mfs_partition_list hnd ++ ((32 ∷ app) ++ (32 ∷ media))) in
    let listed = take 36 hnd.vol_hdr ++ (names ++ (0 ∷ drop (36 + length names + 1) hnd.vol_hdr)) in
    mfs_update_crc (set_field listed Header.total_sectors (mfsvol_volume_set_size hnd.vols))
      header_size Header.checksum

-- The header goes to the first and the last sector of the first volume.
unfoldable pub write_header : Disk → MfsHandle → Disk
write_header d hnd =
    let sector = hnd.vol_hdr ++ replicate (512 - header_size) 0 in
    let (_, sector', d') = mfsvol_write_data d hnd.vols sector 0 1 in
    (mfsvol_write_data d' hnd.vols sector' (sub32 (mfsvol_volume_size hnd.vols 0) 1) 1).2

-- A start as an `int`.
abbrev pub is_negative : Option ℕ → Bool
is_negative none = true
is_negative (some w) = leb (2 ^ 31) w

abbrev pub start_or : Option ℕ → ℕ
start_or none = 2 ^ 32 - 1
start_or (some w) = w

-- `appstart + appsize - mapsize - 1`: where the backup of the new zone map goes.
unfoldable pub backup_sector : ℕ → ℕ → ℕ → ℕ
backup_sector appstart appsize mapsize = sub32 (sub32 (add32 appstart appsize) mapsize) 1

module _ (machine : Machine) where
  -- The end of `mfs_add_volume_pair`, from the new zone map on.
  unfoldable pub finish_pair :
      Disk → MfsHandle → CString → CString → ℕ → ℕ → ℕ → Status × MfsHandle × Disk
  finish_pair d hnd app media appstart mediastart minalloc =
      let appsize = mfsvol_volume_size hnd.vols appstart in
      let mediasize = mfsvol_volume_size hnd.vols mediastart in
      let mapsize = map_sectors (mediasize / minalloc) in
      let backup = backup_sector appstart appsize mapsize in
      let (linked, d') =
        mfs_new_zone_map d hnd (add32 appstart 1) backup mediastart mediasize minalloc zt_media in
      let headed = record linked { vol_hdr = new_header linked app media } in
      let d'' = write_header d' headed in
      let (status, hnd') = status_of headed (mfs_load_zone_maps machine.chain_fuel d'' headed) in
      (status, hnd', d'')

  -- After an error the set is opened again, and the result is -1.
  unfoldable pub reopened : Disk → MfsHandle → Status × MfsHandle × Disk
  reopened d hnd = (failed, mfs_reinit machine d hnd rdwr, d)

  -- From the added volumes on.
  unfoldable pub check_pair :
      Disk → MfsHandle → CString → CString → Option ℕ → Option ℕ → ℕ → Status × MfsHandle × Disk
  check_pair d hnd app media appstart mediastart minalloc =
      let appsize = mfsvol_volume_size hnd.vols (start_or appstart) in
      let mediasize = mfsvol_volume_size hnd.vols (start_or mediastart) in
      if is_negative appstart || is_negative mediastart
      then reopened d hnd
      else if not (mfsvol_is_writable hnd.vols (start_or appstart))
          || not (mfsvol_is_writable hnd.vols (start_or mediastart))
      then reopened d hnd
      else if ltb appsize (map_sectors (mediasize / minalloc) * 2 + 2)
      then reopened d hnd
      else finish_pair d hnd app media (start_or appstart) (start_or mediastart) minalloc

  -- `mfsvol_add_volume` of both partitions.
  unfoldable pub join_pair : Disk → MfsHandle → CString → CString → ℕ → Status × MfsHandle × Disk
  join_pair d hnd app media minalloc =
      let (appstart, vols) = mfsvol_add_volume machine.tivo_partition_open hnd.vols app rdwr in
      let (mediastart, vols') = mfsvol_add_volume machine.tivo_partition_open vols media rdwr in
      check_pair d (record hnd { vols = vols' }) app media appstart mediastart minalloc

  -- Does a device open to be written? `tivo_partition_open` of the null pointer fails too.
  unfoldable pub opens : Option CString → Bool
  opens none = false
  opens (some path) = elim (machine.tivo_partition_open path rdwr) [ none ↦ false | some f ↦ true ]

  abbrev name_of : Option CString → CString
  name_of none = []
  name_of (some path) = path

  -- From the tests at the beginning on: the two devices are opened once to see that they can be.
  unfoldable pub try_pair : Disk → MfsHandle → CString → CString → ℕ → Status × MfsHandle × Disk
  try_pair d hnd app media minalloc =
      let (app_path, vols) = mfsvol_device_translate hnd.vols app in
      let (media_path, vols') = mfsvol_device_translate vols media in
      let hnd' = record hnd { vols = vols } in
      let hnd'' = record hnd { vols = vols' } in
      elim app_path [
        | none ↦ (failed, hnd', d)
        | some p ↦
            if not (opens (some p))
            then (failed, record hnd' { err_msg = some (open_failed p) }, d)
            else if not (opens media_path)
            then (failed, record hnd'' { err_msg = some (open_failed (name_of media_path)) }, d)
            else join_pair d hnd'' app media minalloc
      ]

  -- The result -1 with an error, before anything has changed.
  abbrev pair_fails : Disk → MfsHandle → MfsError → Status × MfsHandle × Disk
  pair_fails d hnd e = (failed, record hnd { err_msg = some e }, d)

  -- With its own tests at the beginning.
  unfoldable pub mfs_add_volume_pair :
      Disk → MfsHandle → CString → CString → ℕ → Status × MfsHandle × Disk
  mfs_add_volume_pair d hnd app media minalloc =
      if leb 128 (length (mfs_partition_list hnd) + length app + length media + 3)
      then pair_fails d hnd no_volume_space
      else if not (mfsvol_is_writable hnd.vols 0)
      then pair_fails d hnd readonly_set
      else if length hnd.loaded_zones == 0
      then pair_fails d hnd maps_not_loaded
      else if not (mfsvol_is_writable hnd.vols (field (last_map hnd) Zone.sector))
      then pair_fails d hnd readonly_set
      else try_pair d hnd app media (default_minalloc minalloc)
