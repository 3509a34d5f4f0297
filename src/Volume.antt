-- ===== src/Volume.antt =====
-- lib/volume.c of MFSTools: the list of open volumes that makes up an MFS volume set, and the
-- sectors of the set. Memory is taken to be there (`calloc` and `strdup` succeed).
pub mod Layout
pub mod Lookup
pub mod Access
mod Tests
use tivo_tools.Base.{
  ℕ, zero, suc, ◌+◌, ◌-◌, ◌*◌, ◌/◌, ◌%◌, ◌^◌, List, [], ◌∷◌, ◌++◌, Bool, true, false,
}
use tivo_tools.Base.{◌&&◌, ◌||◌, not, ltb, leb, ◌==◌, if◌then◌else◌, Option, none, some, take, drop}
use tivo_tools.Base.Memory.{add32, sub32}
use tivo_tools.Text.{CString, codes, strcspn, starts_with}
use tivo_tools.Disk.{Disk, Ret, err, ret, eio, eperm}
use tivo_tools.ReadWrite.{TpFile, tivo_partition_size, tivo_partition_read, tivo_partition_write}

-- `flags & O_ACCMODE`.
pub data Mode : Type 0 where
  rdonly rdwr : Mode

-- `err_msg` of a volume handle, with the argument that names the device or path.
pub data VolumeError : Type 0 where
  unknown_device : CString → VolumeError
  os_error : CString → VolumeError
  empty_partition : CString → VolumeError

-- `struct volume_info`; `rdonly_volume` is VOL_RDONLY of `vol_flags`, and `offset` is never set.
pub record VolumeInfo : Type 0 where
  pub file : TpFile
  pub start : ℕ
  pub sectors : ℕ
  pub rdonly_volume : Bool

-- `struct volume_handle`.
pub record VolumeHandle : Type 0 where
  pub volumes : List VolumeInfo
  pub fake_write : Bool
  pub hda : Option CString
  pub hdb : Option CString
  pub err_msg : Option VolumeError

-- `dev[i]`, 0 at the end of the text.
unfoldable pub char_at : CString → ℕ → ℕ
char_at [] i = 0
char_at (c ∷ s) zero = c
char_at (c ∷ s) (suc i) = char_at s i

unfoldable pub base_device : VolumeHandle → ℕ → Option CString
base_device hnd c = if c == b'a' then hnd.hda else if c == b'b' then hnd.hdb else none

-- The real name of a device that MFS calls /dev/hda… or /dev/hdb…, and the handle with the error.
unfoldable pub mfsvol_device_translate : VolumeHandle → CString → Option CString × VolumeHandle
mfsvol_device_translate hnd dev =
    let dev_len = strcspn dev (codes " ") in
    let unknown : Option CString × VolumeHandle =
      (none, record hnd { err_msg = some (unknown_device (take dev_len dev)) }) in
    if starts_with dev (codes "/dev/hd")
    then elim (base_device hnd (char_at dev 7)) [
      | some devbase ↦ (some (devbase ++ take (dev_len - 8) (drop 8 dev)), hnd)
      | none ↦ unknown
    ]
    else unknown

-- The start of a new volume: the end of the last one.
unfoldable pub next_start : ℕ → List VolumeInfo → ℕ
next_start start [] = start
next_start start (v ∷ vs) = next_start (add32 v.start v.sectors) vs

-- `newvol->sectors &= ~(MFS_PARTITION_ROUND - 1)`, in whole counts of 1024 sectors.
abbrev pub mfs_partition_round : ℕ
mfs_partition_round = 1024

unfoldable pub round_down : ℕ → ℕ
round_down sectors = sectors / mfs_partition_round * mfs_partition_round

-- The end of `mfsvol_add_volume`, once the file is open.
unfoldable pub add_opened : VolumeHandle → CString → Bool → TpFile → Option ℕ × VolumeHandle
add_opened hnd path ro file =
    let sectors = round_down (tivo_partition_size file) in
    let start = next_start 0 hnd.volumes in
    let vol : VolumeInfo = record {
      file = file;
      start = start;
      sectors = sectors;
      rdonly_volume = ro && not hnd.fake_write;
    } in
    if sectors == 0
    then (none, record hnd { err_msg = some (empty_partition path) })
    else (some start, record hnd { volumes = hnd.volumes ++ (vol ∷ []) })

abbrev pub is_rdonly : Mode → Bool
is_rdonly rdonly = true
is_rdonly rdwr = false

-- `mfsvol_add_volume` from the opened file on. `none` is the result -1.
unfoldable pub add_file : VolumeHandle → CString → Bool → Option TpFile → Option ℕ × VolumeHandle
add_file hnd path ro none = (none, record hnd { err_msg = some (os_error path) })
add_file hnd path ro (some file) = add_opened hnd path ro file

-- `tivo_partition_open` of lib/macpart.c is the parameter: the file that a path and a mode open.
module _ (tivo_partition_open : CString → Mode → Option TpFile) where
  -- `mfsvol_add_volume` from the real device name on.
  unfoldable pub add_real :
      VolumeHandle → Mode → Option CString × VolumeHandle → Option ℕ × VolumeHandle
  add_real hnd flags (none, failed) = (none, failed)
  add_real hnd flags (some real, _) =
      let forced = hnd.fake_write || starts_with real (codes "RO:") in
      let real_path = if forced then drop 3 real else real in
      let mode = if forced then rdonly else flags in
      add_file hnd real_path (is_rdonly mode) (tivo_partition_open real_path mode)

  unfoldable pub mfsvol_add_volume : VolumeHandle → CString → Mode → Option ℕ × VolumeHandle
  mfsvol_add_volume hnd path flags = add_real hnd flags (mfsvol_device_translate hnd path)

-- Does a volume hold a sector of the set?
unfoldable pub holds : VolumeInfo → ℕ → Bool
holds v sector = leb v.start sector && ltb sector (add32 v.start v.sectors)

unfoldable pub find_volume : List VolumeInfo → ℕ → Option VolumeInfo
find_volume [] sector = none
find_volume (v ∷ vs) sector =
    let rest = find_volume vs sector in if holds v sector then some v else rest

unfoldable pub mfsvol_get_volume : VolumeHandle → ℕ → Option VolumeInfo
mfsvol_get_volume hnd sector = find_volume hnd.volumes sector

unfoldable pub size_at : List VolumeInfo → ℕ → ℕ
size_at [] sector = 0
size_at (v ∷ vs) sector =
    let rest = size_at vs sector in if v.start == sector then v.sectors else rest

-- The size of the volume that starts at a sector.
unfoldable pub mfsvol_volume_size : VolumeHandle → ℕ → ℕ
mfsvol_volume_size hnd sector = size_at hnd.volumes sector

unfoldable pub total_sectors : ℕ → List VolumeInfo → ℕ
total_sectors total [] = total
total_sectors total (v ∷ vs) = total_sectors (add32 total v.sectors) vs

unfoldable pub mfsvol_volume_set_size : VolumeHandle → ℕ
mfsvol_volume_set_size hnd = total_sectors 0 hnd.volumes

unfoldable pub writable_in : Bool → Option VolumeInfo → Bool
writable_in fake none = fake
writable_in fake (some v) = if v.rdonly_volume then fake else true

unfoldable pub mfsvol_is_writable : VolumeHandle → ℕ → Bool
mfsvol_is_writable hnd sector = writable_in hnd.fake_write (mfsvol_get_volume hnd sector)

-- `mfsvol_read_data` from the lookup on.
unfoldable pub read_from : Disk → List ℕ → ℕ → ℕ → Option VolumeInfo → Ret × List ℕ
read_from d buf sector count none = (err eio, buf)
read_from d buf sector count (some v) =
    let inner = sub32 sector v.start in
    if ltb v.sectors (add32 inner count)
    then (err eio, buf)
    else tivo_partition_read d v.file buf inner count

unfoldable pub mfsvol_read_data : Disk → VolumeHandle → List ℕ → ℕ → ℕ → Ret × List ℕ
mfsvol_read_data d hnd buf sector count =
    read_from d buf sector count (mfsvol_get_volume hnd sector)

-- `mfsvol_write_data` from the lookup on. With `fake_write` the data is only printed.
unfoldable pub write_to : Disk → Bool → List ℕ → ℕ → ℕ → Option VolumeInfo → Ret × List ℕ × Disk
write_to d fake buf sector count none = (err eio, buf, d)
write_to d fake buf sector count (some v) =
    let inner = sub32 sector v.start in
    if fake
    then (ret (count * 512), buf, d)
    else if v.rdonly_volume
    then (err eperm, buf, d)
    else if ltb v.sectors (add32 inner count)
    then (err eio, buf, d)
    else tivo_partition_write d v.file buf inner count

unfoldable pub mfsvol_write_data : Disk → VolumeHandle → List ℕ → ℕ → ℕ → Ret × List ℕ × Disk
mfsvol_write_data d hnd buf sector count =
    write_to d hnd.fake_write buf sector count (mfsvol_get_volume hnd sector)

-- `hda && *hda`.
abbrev pub non_empty : Option CString → Option CString
non_empty none = none
non_empty (some []) = none
non_empty (some (c ∷ s)) = some (c ∷ s)

abbrev pub is_set : Option CString → Bool
is_set (some (c ∷ s)) = true
is_set _ = false

-- The first argument is the variable MFS_FAKE_WRITE of the environment.
unfoldable pub mfsvol_init : Option CString → Option CString → Option CString → VolumeHandle
mfsvol_init fake hda hdb = record {
  volumes = [];
  fake_write = is_set fake;
  hda = non_empty hda;
  hdb = non_empty hdb;
  err_msg = none;
}

unfoldable pub mfsvol_has_error : VolumeHandle → Bool
mfsvol_has_error hnd = elim hnd.err_msg [ none ↦ false | some e ↦ true ]

unfoldable pub mfsvol_clearerror : VolumeHandle → VolumeHandle
mfsvol_clearerror hnd = record hnd { err_msg = none }
