-- ===== src/Backup/Start.antt =====
-- The beginning of a backup, of backup/backup.c: `init_backup`, the check of a truncated volume set,
-- the boot partitions, and `backup_start`.
use tivo_tools.Base.{ℕ, zero, suc, ◌+◌, ◌-◌, ◌*◌, ◌/◌, ◌%◌, List, [], ◌∷◌, ◌++◌, bit_and, bit_or}
use tivo_tools.Base.{
  Bool, true, false, ◌&&◌, ◌||◌, not, ltb, leb, ◌==◌, if◌then◌else◌, Option, none, some, length,
  get_or, drop,
}
use tivo_tools.Base.Memory.{load32, field}
use tivo_tools.Text.{CString, codes, starts_with}
use tivo_tools.Disk.{Disk}
use tivo_tools.Format.Zone
use tivo_tools.ReadWrite.{tivo_partition_size}
use tivo_tools.Volume.{rdonly, mfsvol_volume_set_size}
use tivo_tools.Zonemap.{
  MfsHandle, Loading, done, looping, NextZone, zone, null, fault, mfs_next_zone, mfs_load_zone_maps,
  zt_media,
}
use tivo_tools.Mfs.{Machine, mfs_init, mfs_has_error, mfs_clearerror}
use tivo_tools.Backup.Info.{
  BackupInfo, BackupPartition, BackupError, failed_init, zone_outside, not_enough_partitions,
  boot_sector_unread, no_primary_boot, opening_partition, bf_backupvar, bf_nobswap, bf_truncated,
  bf_shrink, bf_flags, has_flag,
}
use tivo_tools.Backup.Scan.{Scanned, scanned, scan_failed, scan_faulted, scan_inodes}
use tivo_tools.Backup.Partitions.{
  Source, Outcome, is_space, add_blocks_to_backup_info, add_mfs_partitions_to_backup_info,
}

unfoldable pub backup_has_error : BackupInfo → Bool
backup_has_error info = elim info.err_msg [ none ↦ mfs_has_error info.mfs | some e ↦ true ]

unfoldable pub backup_clearerror : BackupInfo → BackupInfo
backup_clearerror info = record info { err_msg = none; mfs = mfs_clearerror info.mfs }

unfoldable pub backup_set_thresh : BackupInfo → ℕ → BackupInfo
backup_set_thresh info thresh = record info { thresh = thresh }

-- `flags & ~f` for a flag of one bit.
abbrev pub clear_flag : ℕ → ℕ → ℕ
clear_flag flags f = flags - bit_and flags f

unfoldable pub init_backup :
    Machine → Source → Disk → Option CString → Option CString → ℕ → Option BackupInfo
init_backup machine source d none device2 flags = none
init_backup machine source d (some device) device2 flags =
    let mfs = mfs_init machine d (some device) device2 rdonly in
    let asked = bit_and flags bf_flags in
    let swap = if source.tivo_partition_swabbed device then asked else bit_or asked bf_nobswap in
    some (record {
      mfs = mfs;
      cursector = 0;
      presector = 0;
      parts = [];
      files = λ i. none;
      blocks = [];
      mfsparts = [];
      nmfs = 0;
      nsectors = 0;
      back_flags = if mfs_has_error mfs then swap else clear_flag swap bf_truncated;
      thresh = 2000;
      hda = device;
      err_msg = none;
    })

-- The loop of `backup_verify_zone_maps` from a map on: the type of the first map outside the
-- volumes. The words of the type are compared as they stand in memory, in the disk's byte order.
-- The outer `none` is a read through a null pointer; the fuel is the number of loaded maps.
unfoldable pub verify_loop : ℕ → MfsHandle → ℕ → NextZone → Option (Option ℕ)
verify_loop fuel hnd volume_size null = some none
verify_loop fuel hnd volume_size fault = none
verify_loop zero hnd volume_size (zone i) = none
verify_loop (suc fuel) hnd volume_size (zone i) =
    let hdr = get_or hnd.loaded_zones i [] in
    let rest = verify_loop fuel hnd volume_size (mfs_next_zone hnd (some i)) in
    if load32 hdr Zone.zone_type == zt_media
    then rest
    else if leb volume_size (field hdr Zone.first)
    then some (some (load32 hdr Zone.zone_type))
    else rest

unfoldable pub verified : BackupInfo → Option (Option ℕ) → Outcome
verified info none = none
verified info (some none) = some (true, info)
verified info (some (some t)) = some (false, record info { err_msg = some (zone_outside t) })

unfoldable pub backup_verify_zone_maps : BackupInfo → Outcome
backup_verify_zone_maps info = verified info (
    verify_loop (length info.mfs.loaded_zones) info.mfs (mfsvol_volume_set_size info.mfs.vols)
      (mfs_next_zone info.mfs none))

-- From the loaded zone maps on. The result of the check is left aside, its error stays.
unfoldable pub check_loaded : BackupInfo → Loading → Outcome
check_loaded info looping = none
check_loaded info (done n mfs) =
    backup_verify_zone_maps (backup_clearerror (record info { mfs = mfs }))

unfoldable pub backup_check_truncated_volume : Machine → Disk → BackupInfo → Outcome
backup_check_truncated_volume machine d info =
    let shrunk =
      backup_clearerror (record info { back_flags = bit_or info.back_flags bf_shrink }) in
    if not (has_flag info.back_flags bf_truncated)
    then some (false, record info { err_msg = some failed_init })
    else check_loaded shrunk (mfs_load_zone_maps machine.chain_fuel d shrunk.mfs)

-- `strchr (tmpc, ' ')` and the character after it; `none` is the null pointer.
unfoldable pub after_space : List ℕ → Option (List ℕ)
after_space [] = none
after_space (c ∷ s) =
    let rest = after_space s in if c == 0 then none else if c == 32 then some s else rest

-- The loop that looks for `root=/dev/hda` in the boot sector; `none` is the null pointer, which the
-- code then reads through. The fuel is the size of the sector.
unfoldable pub find_root : ℕ → List ℕ → Option (List ℕ)
find_root zero s = some s
find_root (suc fuel) s =
    if get_or s 0 0 == 0 || starts_with s (codes "root=/dev/hda")
    then some s
    else elim (after_space s) [ none ↦ none | some rest ↦ find_root fuel rest ]

-- The number of the root partition, a `char`.
unfoldable pub rootdev : ℕ → List ℕ → ℕ
rootdev first tmpc =
    let digit = get_or tmpc 13 0 in
    let after = get_or tmpc 14 0 in
    if get_or tmpc 0 0 == 0
    then first
    else if ((digit == b'4' || digit == b'7') && after == 0) || is_space after
    then (digit + 208) % 256
    else first

abbrev pub numbered : ℕ → BackupPartition
numbered n = record { sectors = 0; partno = n; devno = 0 }

abbrev pub no_parts : BackupInfo → BackupError → Bool × BackupInfo
no_parts info e = (false, record info { parts = []; err_msg = some e })

-- The loop that opens the partitions and adds up their sizes.
unfoldable pub open_parts : Source → List BackupPartition → BackupInfo → Bool × BackupInfo
open_parts source [] info = (true, info)
open_parts source (p ∷ ps) info = elim (source.tivo_partition_open_direct info.hda p.partno) [
  | none ↦ no_parts info (opening_partition p.partno)
  | some file ↦ open_parts source ps (record info {
    parts = info.parts ++ (record p { sectors = tivo_partition_size file } ∷ []);
    files = λ i. if i == p.partno then some file else info.files i;
    nsectors = info.nsectors + tivo_partition_size file;
  })
]

unfoldable pub open_roots : Source → BackupInfo → ℕ → Option (List ℕ) → Outcome
open_roots source info primary none = none
open_roots source info primary (some tmpc) =
    let boot =
      numbered (primary - 1) ∷ numbered primary ∷ numbered (rootdev (primary + 1) tmpc) ∷ [] in
    some (
      open_parts source
        (if has_flag info.back_flags bf_backupvar then boot ++ (numbered 9 ∷ []) else boot)
        (record info { parts = []; files = λ i. none }))

unfoldable pub boot_parts : Source → BackupInfo → Option (List ℕ) → Outcome
boot_parts source info none = some (no_parts info boot_sector_unread)
boot_parts source info (some bootsector) =
    let primary = get_or bootsector 2 0 in
    if not (primary == 3) && not (primary == 6)
    then some (no_parts info no_primary_boot)
    else open_roots source info primary (find_root 512 (drop 4 bootsector))

unfoldable pub add_partitions_to_backup_info : Source → BackupInfo → Outcome
add_partitions_to_backup_info source info =
    if ltb (source.tivo_partition_count info.hda) 9
    then some (no_parts info not_enough_partitions)
    else boot_parts source info (source.tivo_partition_read_bootsector info.hda)

-- `presector`, and what is added to `nsectors`.
unfoldable pub set_presector : Bool × BackupInfo → Bool × BackupInfo
set_presector (false, info) = (false, record info { parts = []; blocks = [] })
set_presector (true, info) =
    let bytes = length info.blocks * 8 + length info.parts * 8 + info.nmfs * 8 in
    let presector = (bytes + 511) / 512 + 1 in
    (true, record info { presector = presector; nsectors = info.nsectors + (presector + 1) })

unfoldable pub start_blocks : Option BackupInfo → Outcome
start_blocks none = none
start_blocks (some info) = some (set_presector (add_mfs_partitions_to_backup_info info))

-- A failed scan gives the null pointer, and the start goes on.
unfoldable pub start_scanned : Scanned → Outcome
start_scanned (scanned blocks info) = start_blocks (add_blocks_to_backup_info info blocks)
start_scanned (scan_failed info) = start_blocks (add_blocks_to_backup_info info [])
start_scanned scan_faulted = none

unfoldable pub start_parts : Disk → Outcome → Outcome
start_parts d none = none
start_parts d (some (false, info)) = some (false, info)
start_parts d (some (true, info)) = start_scanned (scan_inodes d info)

unfoldable pub backup_start : Source → Disk → BackupInfo → Outcome
backup_start source d info = start_parts d (add_partitions_to_backup_info source info)
