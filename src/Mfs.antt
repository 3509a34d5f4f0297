-- ===== src/Mfs.antt =====
-- lib/mfs.c of MFSTools: the volume header, and the opening of a volume set.
pub mod Opened
mod Tests
use tivo_tools.Base.{ℕ, zero, suc, ◌+◌, ◌-◌, ◌*◌, ◌^◌, List, [], ◌∷◌, ◌++◌, Bool, true, false}
use tivo_tools.Base.{
  ◌&&◌, ◌||◌, not, ltb, leb, ◌==◌, if◌then◌else◌, Option, none, some, length, take, drop, replicate,
}
use tivo_tools.Base.Memory.{sub32, field}
use tivo_tools.Text.{CString, codes, strcspn, strspn}
use tivo_tools.Disk.{Disk, Ret, is_ret}
use tivo_tools.ReadWrite.{TpFile}
use tivo_tools.Crc.{mfs_check_crc}
use tivo_tools.Format.Header
use tivo_tools.Volume.{Mode, VolumeHandle, mfsvol_add_volume, mfsvol_read_data, mfsvol_volume_size}
use tivo_tools.Volume.{mfsvol_volume_set_size, mfsvol_init, mfsvol_has_error, mfsvol_clearerror}
use tivo_tools.Zonemap.{
  MfsHandle, MfsError, reading_header, header_corrupt, size_mismatch, empty_head,
}
use tivo_tools.Zonemap.{Loading, done, looping, mfs_load_zone_maps}

-- What the code finds around it: the partitions that it can open, the variables MFS_DEVICE and
-- MFS_FAKE_WRITE, and how many zone maps a loading follows before it counts as endless.
pub record Machine : Type 0 where
  pub tivo_partition_open : CString → Mode → Option TpFile
  pub mfs_device : Option CString
  pub mfs_fake_write : Option CString
  pub chain_fuel : ℕ

-- sizeof (volume_header)
abbrev pub header_size : ℕ
header_size = 232

-- The text that starts at a byte of a buffer: up to the first 0.
unfoldable pub c_string : List ℕ → CString
c_string [] = []
c_string (b ∷ r) = let rest = c_string r in if b == 0 then [] else b ∷ rest

-- `vol_hdr.partitionlist`, at byte 36 of the header, and `mfs_partition_list`.
unfoldable pub mfs_partition_list : MfsHandle → CString
mfs_partition_list hnd = c_string (drop 36 hnd.vol_hdr)

abbrev pub separators : CString
separators = b' ' ∷ 9 ∷ 13 ∷ 10 ∷ []

-- `volume_names += strcspn (…); volume_names += strspn (…)`.
unfoldable pub skip_name : CString → CString
skip_name s = let t = drop (strcspn s separators) s in drop (strspn t separators) t

-- The header, and the handle with the error: the first sector, or the last of the first volume.
unfoldable pub read_header : Disk → MfsHandle → Bool × MfsHandle
read_header d hnd =
    let (r, buf) = mfsvol_read_data d hnd.vols (replicate 512 0) 0 1 in
    let first = record hnd { vol_hdr = take header_size buf } in
    let last_sector = sub32 (mfsvol_volume_size hnd.vols 0) 1 in
    let (r', buf') = mfsvol_read_data d hnd.vols buf last_sector 1 in
    let second = record hnd { vol_hdr = take header_size buf' } in
    if not (is_ret r 512)
    then (false, record hnd { err_msg = some reading_header })
    else if mfs_check_crc first.vol_hdr header_size Header.checksum
    then (true, first)
    else if not (is_ret r' 512)
    then (false, record first { err_msg = some reading_header })
    else if mfs_check_crc second.vol_hdr header_size Header.checksum
    then (true, second)
    else (false, record second { err_msg = some header_corrupt })

-- Reports the size where the header has another one.
unfoldable pub compare_size : MfsHandle → ℕ → MfsHandle
compare_size hnd total =
    if total == field hnd.vol_hdr Header.total_sectors then hnd else record hnd {
      err_msg = some (size_mismatch total (field hnd.vol_hdr Header.total_sectors));
    }

-- An `unsigned int` that is not above 0 as an `int`, or -1.
abbrev pub not_positive : Option ℕ → Bool
not_positive none = true
not_positive (some w) = w == 0 || leb (2 ^ 31) w

-- The results 0 and -1 of `mfs_init_internal`, and a chain of zone maps that does not end.
pub data Status : Type 0 where
  opened failed endless : Status

unfoldable pub status_of : MfsHandle → Loading → Status × MfsHandle
status_of hnd looping = (endless, hnd)
status_of hnd (done none hnd') = (failed, hnd')
status_of hnd (done (some n) hnd') = (opened, hnd')

-- `bzero`, and the volume handle.
unfoldable pub zeroed : VolumeHandle → MfsHandle
zeroed vols = record {
  vols = vols;
  vol_hdr = replicate header_size 0;
  zones = λ t. empty_head;
  loaded_zones = [];
  err_msg = none;
}

-- A start as an `int`, that is not negative.
abbrev pub as_start : Option ℕ → Option ℕ
as_start none = none
as_start (some n) = if leb (2 ^ 31) n then none else some n

module _ (machine : Machine) where
  -- `while (*volume_names)`: each name that is left is added; `false` is the result -1. The fuel is
  -- the length of the text, of which a round takes one character at least.
  unfoldable pub add_names : ℕ → Mode → VolumeHandle → CString → Bool × VolumeHandle
  add_names fuel flags vols [] = (true, vols)
  add_names zero flags vols (c ∷ s) = (false, vols)
  add_names (suc fuel) flags vols (c ∷ s) =
      let (start, vols') = mfsvol_add_volume machine.tivo_partition_open vols (c ∷ s) flags in
      elim (as_start start) [
        | none ↦ (false, vols')
        | some n ↦ add_names fuel flags vols' (skip_name (c ∷ s))
      ]

  -- `mfs_load_volume_header` from the checked header on: `none` is the result -1.
  unfoldable pub load_names : Mode → MfsHandle → Option ℕ × MfsHandle
  load_names flags hnd =
      let names = skip_name (mfs_partition_list hnd) in
      let (added, vols) = add_names (length names) flags hnd.vols names in
      let hnd' = record hnd { vols = vols } in
      let total = mfsvol_volume_set_size vols in
      if added then (some total, compare_size hnd' total) else (none, hnd')

  unfoldable pub mfs_load_volume_header : Disk → Mode → MfsHandle → Option ℕ × MfsHandle
  mfs_load_volume_header d flags hnd =
      let (good, hnd') = read_header d hnd in if good then load_names flags hnd' else (none, hnd')

  unfoldable pub first_volume : CString
  first_volume = elim machine.mfs_device [ none ↦ codes "/dev/hda10" | some v ↦ v ]

  -- `mfs_init_internal` from the first volume on.
  unfoldable pub init_from : Disk → Mode → Option ℕ × VolumeHandle → Status × MfsHandle
  init_from d flags (none, vols) = (failed, zeroed vols)
  init_from d flags (some start, vols) =
      let (total, hnd) = mfs_load_volume_header d flags (zeroed vols) in
      if not_positive total
      then (failed, hnd)
      else status_of hnd (mfs_load_zone_maps machine.chain_fuel d hnd)

  unfoldable pub mfs_init_internal :
      Disk → Option CString → Option CString → Mode → Status × MfsHandle
  mfs_init_internal d hda hdb flags = init_from d flags (
      mfsvol_add_volume machine.tivo_partition_open (mfsvol_init machine.mfs_fake_write hda hdb)
        first_volume flags)

  -- `mfs_init` and `mfs_reinit` give back the handle whatever came of it.
  unfoldable pub mfs_init : Disk → Option CString → Option CString → Mode → MfsHandle
  mfs_init d hda hdb flags = (mfs_init_internal d hda hdb flags).1

  unfoldable pub mfs_reinit : Disk → MfsHandle → Mode → MfsHandle
  mfs_reinit d hnd flags = (mfs_init_internal d hnd.vols.hda hnd.vols.hdb flags).1

unfoldable pub mfs_has_error : MfsHandle → Bool
mfs_has_error hnd = elim hnd.err_msg [ none ↦ mfsvol_has_error hnd.vols | some e ↦ true ]

unfoldable pub mfs_clearerror : MfsHandle → MfsHandle
mfs_clearerror hnd = record hnd { err_msg = none; vols = mfsvol_clearerror hnd.vols }
