-- ===== src/Backup/Scan.antt =====
-- `scan_inodes` of backup/backup.c: the blocks of the streams and of the application volumes.
use tivo_tools.Base.{ℕ, zero, suc, ◌+◌, ◌-◌, ◌/◌, ◌^◌, List, [], ◌∷◌, map}
use tivo_tools.Base.{
  Bool, true, ◌&&◌, ◌||◌, not, ltb, leb, ◌==◌, if◌then◌else◌, Option, none, some, length, get_or,
  bit_and,
}
use tivo_tools.Base.Memory.{add32, mul32, field}
use tivo_tools.Disk.{Disk}
use tivo_tools.Format.Inode
use tivo_tools.Format.Zone
use tivo_tools.Volume.{VolumeHandle, mfsvol_volume_size, mfsvol_volume_set_size}
use tivo_tools.Zonemap.{
  MfsHandle, NextZone, zone, null, fault, mfs_next_zone, mfs_inode_count, zt_media,
}
use tivo_tools.Inode.{mfs_read_inode, block_sector, block_count, type_of, ty_stream}
use tivo_tools.Backup.Blocks.{Block, empty_block, Lists, backup_add_block, block_list_array_concat}
use tivo_tools.Backup.Info.{BackupInfo, BackupError, memory_exhausted, required_data_beyond}
use tivo_tools.Backup.Info.{
  bf_shrink, bf_threshsize, bf_threshtot, bf_streamtot, bf_truncated, has_flag,
}

-- The first sectors and the sizes of the volumes, by `mfs_volume_size` from a sector on. The fuel
-- is above the number of volumes.
unfoldable pub volumes_from : ℕ → VolumeHandle → ℕ → List (ℕ × ℕ)
volumes_from zero vols loop = []
volumes_from (suc fuel) vols loop =
    let size = mfsvol_volume_size vols loop in
    let rest = volumes_from fuel vols (add32 loop size) in
    if size == 0 then [] else (loop, size) ∷ rest

abbrev pub all_volumes : MfsHandle → List (ℕ × ℕ)
all_volumes hnd = volumes_from (suc (length hnd.vols.volumes)) hnd.vols 0

-- `partstart`, which ends with `~0`.
unfoldable pub partstarts : List (ℕ × ℕ) → List ℕ
partstarts [] = (2 ^ 32 - 1) ∷ []
partstarts ((start, size) ∷ vs) = start ∷ partstarts vs

abbrev pub first_lists : List (ℕ × ℕ) → List (List Block)
first_lists = map (λ v. empty_block ∷ [])

-- `blocks`, `pool` and `highest`.
pub record Scan : Type 0 where
  pub blocks : List (List Block)
  pub pool : List Block
  pub highest : ℕ

abbrev pub put : Scan → Lists → Option Scan
put scan none = none
put scan (some (blocks, pool)) = some (record scan { blocks = blocks; pool = pool })

infixl 5 ◌>>=◌
abbrev pub ◌>>=◌ : Option Scan → (Scan → Option Scan) → Option Scan
none >>= f = none
some scan >>= f = f scan

-- The same with a value to give along with `none`.
abbrev pub or_stop {ℓ} : {A : Type ℓ} → A → Option Scan → (Scan → Option Scan × A) → Option Scan × A
or_stop a none f = (none, a)
or_stop a (some scan) f = f scan

abbrev pub higher : ℕ → Scan → Scan
higher end scan = record scan { highest = if ltb scan.highest end then end else scan.highest }

-- `htonl (inode->blocksize) / 512 * htonl (inode->size)`, and with `blockused`.
abbrev pub sectors_total : List ℕ → ℕ
sectors_total inode = mul32 (field inode Inode.blocksize / 512) (field inode Inode.size)

abbrev pub sectors_used : List ℕ → ℕ
sectors_used inode = mul32 (field inode Inode.blocksize / 512) (field inode Inode.blockused)

unfoldable pub measured : ℕ → List ℕ → ℕ
measured flags inode =
    if has_flag flags (bf_threshtot + bf_streamtot) then sectors_total inode else sectors_used inode

-- Is a stream below the threshold?
unfoldable pub wanted : ℕ → ℕ → List ℕ → Bool
wanted flags thresh inode =
    let size = measured flags inode in
    ltb 0 size
    && ((has_flag flags bf_threshsize && ltb size thresh)
        || (not (has_flag flags bf_threshsize) && leb (field inode Inode.fsid) thresh))

-- The sectors of a stream to back up.
unfoldable pub to_save : ℕ → List ℕ → ℕ
to_save flags inode =
    if bit_and flags (bf_threshtot + bf_streamtot) == bf_threshtot
    then sectors_used inode
    else measured flags inode

abbrev pub clip : ℕ → ℕ → ℕ
clip count size = if ltb size count then size else count

-- The loop over the blocks of a stream: those that are left, the next one, and `streamsize`.
-- `none` is the exit on an error of `backup_add_block`.
unfoldable pub stream_loop : ℕ → List ℕ → List ℕ → ℕ → ℕ → Scan → Option Scan
stream_loop zero partstart inode i size scan = some scan
stream_loop (suc n) partstart inode i size scan =
    let count = clip (block_count inode i) size in
    let sector = block_sector inode i in
    put scan (backup_add_block scan.blocks partstart scan.pool sector count) >>= λ scan'.
    if size - count == 0
    then some scan'
    else stream_loop n partstart inode (i + 1) (size - count) (higher (add32 count sector) scan')

-- The loop over the blocks of another inode.
unfoldable pub other_loop : ℕ → List ℕ → ℕ → Scan → Scan
other_loop zero inode i scan = scan
other_loop (suc n) inode i scan =
    other_loop n inode (i + 1) (higher (add32 (block_count inode i) (block_sector inode i)) scan)

unfoldable pub scan_inode : ℕ → ℕ → List ℕ → Option (List ℕ) → Scan → Option Scan
scan_inode flags thresh partstart none scan = some scan
scan_inode flags thresh partstart (some inode) scan =
    let n = field inode Inode.numblocks in
    if type_of inode == ty_stream
    then if wanted flags thresh inode
      then stream_loop n partstart inode 0 (to_save flags inode) scan
      else some scan
    else some (other_loop n inode 0 scan)

-- The loop over the inodes: those that are left, and the next one. Reading may set an error of the
-- handle.
unfoldable pub inodes_loop :
    ℕ → Disk → ℕ → ℕ → List ℕ → ℕ → MfsHandle → Scan → Option Scan × MfsHandle
inodes_loop zero d flags thresh partstart loop hnd scan = (some scan, hnd)
inodes_loop (suc n) d flags thresh partstart loop hnd scan =
    let (inode, hnd') = mfs_read_inode d hnd loop in
    or_stop hnd' (scan_inode flags thresh partstart inode scan)
      (λ scan'. inodes_loop n d flags thresh partstart (loop + 1) hnd' scan')

-- What `BF_SHRINK` adds to `highest`: the zones that are not for media, and their maps.
abbrev pub above_zone : List ℕ → ℕ → ℕ
above_zone hdr highest =
    let map_end = add32 (field hdr Zone.sector) (field hdr Zone.length) in
    let highest' = if ltb highest map_end then map_end else highest in
    if field hdr Zone.zone_type == zt_media
    then highest
    else if ltb highest' (field hdr Zone.last)
    then field hdr Zone.last
    else highest'

-- `while ((hdr = mfs_next_zone (info->mfs, hdr)) != 0)` from the map at a place on; the fuel is the
-- number of loaded maps. `none` is a read through the null pointer.
unfoldable pub zones_loop : ℕ → MfsHandle → NextZone → ℕ → Option ℕ
zones_loop fuel hnd null highest = some highest
zones_loop fuel hnd fault highest = none
zones_loop zero hnd (zone i) highest = none
zones_loop (suc fuel) hnd (zone i) highest =
    zones_loop fuel hnd (mfs_next_zone hnd (some i))
      (above_zone (get_or hnd.loaded_zones i []) highest)

unfoldable pub highest_zone : ℕ → MfsHandle → ℕ → Option ℕ
highest_zone flags hnd highest =
    if has_flag flags bf_shrink
    then zones_loop (length hnd.loaded_zones) hnd (mfs_next_zone hnd none) highest
    else some highest

-- The loop over the whole volumes, of which every other one is added, and what `nmfs` grows to. It
-- ends early, with `BF_SHRINK`, at the first of those that is above all the data.
unfoldable pub whole_volumes : List (ℕ × ℕ) → ℕ → List ℕ → Bool → ℕ → Scan → Option Scan × ℕ
whole_volumes [] flags partstart app nmfs scan = (some scan, nmfs)
whole_volumes ((loop, size) ∷ vs) flags partstart app nmfs scan =
    let nmfs' = if has_flag flags bf_shrink then nmfs + 1 else nmfs in
    let skipped = whole_volumes vs flags partstart (not app) nmfs' scan in
    if not app
    then skipped
    else if has_flag flags bf_shrink && leb scan.highest loop
    then (some scan, nmfs)
    else or_stop nmfs (put scan (backup_add_block scan.blocks partstart scan.pool loop size))
        (λ scan'. whole_volumes vs flags partstart (not app) nmfs' scan')

-- What `scan_inodes` gives: a list, the null pointer with an error, or a read through a null
-- pointer, each with the structure.
pub data Scanned : Type 0 where
  scanned : List Block → BackupInfo → Scanned
  scan_failed : BackupInfo → Scanned
  scan_faulted : Scanned

abbrev pub give_up : BackupInfo → BackupError → Scanned
give_up info e = scan_failed (record info { err_msg = some e })

unfoldable pub finish_scan : BackupInfo → Option Scan × ℕ → Scanned
finish_scan info (none, nmfs) = give_up (record info { nmfs = nmfs }) memory_exhausted
finish_scan info (some scan, nmfs) =
    scanned (block_list_array_concat scan.blocks) (record info { nmfs = nmfs })

-- From the check of a truncated set on.
unfoldable pub scan_volumes : BackupInfo → List (ℕ × ℕ) → Scan → Option ℕ → Scanned
scan_volumes info volumes scan none = scan_faulted
scan_volumes info volumes scan (some highest) = finish_scan info (
    whole_volumes volumes info.back_flags (partstarts volumes) true info.nmfs
      (record scan { highest = highest }))

unfoldable pub scan_rest : BackupInfo → List (ℕ × ℕ) → Option Scan → Scanned
scan_rest info volumes none = give_up info memory_exhausted
scan_rest info volumes (some scan) =
    let set_size = mfsvol_volume_set_size info.mfs.vols in
    if has_flag info.back_flags bf_truncated && ltb set_size scan.highest
    then give_up info (required_data_beyond scan.highest set_size)
    else scan_volumes info volumes scan (highest_zone info.back_flags info.mfs scan.highest)

unfoldable pub scan_inodes : Disk → BackupInfo → Scanned
scan_inodes d info =
    let volumes = all_volumes info.mfs in
    let (scan, mfs) =
      inodes_loop (mfs_inode_count info.mfs) d info.back_flags info.thresh (partstarts volumes) 0
        info.mfs (record { blocks = first_lists volumes; pool = []; highest = 0 }) in
    scan_rest (record info { mfs = mfs }) volumes scan
