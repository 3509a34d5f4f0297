-- ===== src/Inode.antt =====
-- lib/inode.c of MFSTools: inodes by number and by fsid, and the data of an inode.
pub mod Read
pub mod Search
pub mod RoundTrip
mod Tests
use tivo_tools.Base.{
  ℕ, zero, suc, ◌+◌, ◌-◌, ◌*◌, ◌/◌, ◌%◌, ◌^◌, List, [], ◌∷◌, ◌++◌, Bool, true, false,
}
use tivo_tools.Base.{
  ◌&&◌, ◌||◌, not, ltb, leb, ◌==◌, if◌then◌else◌, Option, none, some, take, drop, replicate, get_or,
  bit_and,
}
use tivo_tools.Base.Memory.{add32, sub32, mul32, field, set_field}
use tivo_tools.Disk.{Disk, Ret, err, ret, is_ret}
use tivo_tools.Crc.{mfs_check_crc, mfs_update_crc}
use tivo_tools.Format.Inode
use tivo_tools.Volume.{VolumeHandle, mfsvol_read_data, mfsvol_write_data}
use tivo_tools.Zonemap.{MfsHandle, MfsError, inode_corrupt, mfs_inode_count, mfs_inode_to_sector}

abbrev pub checked : List ℕ → Bool
checked inode = mfs_check_crc inode 512 Inode.checksum

-- `mfs_read_inode` from the sector on: the inode, or its backup on the next sector.
unfoldable pub inode_at : Disk → MfsHandle → ℕ → ℕ → Option (List ℕ) × MfsHandle
inode_at d hnd inode sector =
    let (r, first) = mfsvol_read_data d hnd.vols (replicate 512 0) sector 1 in
    let (r', backup) = mfsvol_read_data d hnd.vols first (add32 sector 1) 1 in
    if sector == 0 || not (is_ret r 512)
    then (none, hnd)
    else if checked first
    then (some first, hnd)
    else if not (is_ret r' 512)
    then (none, hnd)
    else if checked backup
    then (some backup, hnd)
    else (none, record hnd { err_msg = some (inode_corrupt inode) })

unfoldable pub mfs_read_inode : Disk → MfsHandle → ℕ → Option (List ℕ) × MfsHandle
mfs_read_inode d hnd inode =
    let (sector, hnd') = mfs_inode_to_sector hnd inode in inode_at d hnd' inode sector

-- `mfs_write_inode` from the sector on: `true` is the result 0 and `false` -1; then the caller's
-- inode, the handle and the disk.
unfoldable pub write_at : Disk → List ℕ → ℕ × MfsHandle → Bool × List ℕ × MfsHandle × Disk
write_at d inode (sector, hnd) =
    let inode' = mfs_update_crc inode 512 Inode.checksum in
    let (r, _, d') = mfsvol_write_data d hnd.vols (inode' ++ inode') sector 2 in
    if sector == 0 then (false, inode, hnd, d) else (is_ret r 1024, inode', hnd, d')

unfoldable pub mfs_write_inode : Disk → MfsHandle → List ℕ → Bool × List ℕ × MfsHandle × Disk
mfs_write_inode d hnd inode = write_at d inode (mfs_inode_to_sector hnd (field inode Inode.inode))

abbrev pub mfs_fsid_hash : ℕ
mfs_fsid_hash = 0x106d9

abbrev pub inode_chained : ℕ
inode_chained = 0x80000000

abbrev pub is_chained : List ℕ → Bool
is_chained cur = not (bit_and (field cur Inode.inode_flags) inode_chained == 0)

-- `fsid * MFS_FSID_HASH & (count - 1)` and `(inode + 1) & (count - 1)`.
unfoldable pub hash_of : ℕ → ℕ → ℕ
hash_of count fsid = bit_and (mul32 fsid mfs_fsid_hash) (sub32 count 1)

unfoldable pub following : ℕ → ℕ → ℕ
following count inode = bit_and (add32 inode 1) (sub32 count 1)

-- The result of `mfs_read_inode_by_fsid`: an inode, the null pointer, or a read through one, which
-- follows an inode that cannot be read. `endless` is a search that has not ended.
pub data Lookup : Type 0 where
  found : List ℕ → Lookup
  missing fault endless : Lookup

-- The tests after the loop.
unfoldable pub judge : ℕ → List ℕ → Lookup
judge fsid cur =
    if field cur Inode.fsid == fsid && not (field cur Inode.refcount == 0)
    then found cur
    else missing

-- A round of the loop ends it, or goes on with the next inode.
pub data Probe : Type 0 where
  ends : Lookup → Probe
  next : ℕ → Probe

-- A round from the inode on.
unfoldable pub probe : ℕ → ℕ → ℕ → ℕ → Option (List ℕ) → Probe
probe count fsid base inode none = ends fault
probe count fsid base inode (some cur) =
    if not (field cur Inode.fsid == fsid) && (is_chained cur && not (following count inode == base))
    then next (following count inode)
    else ends (judge fsid cur)

unfoldable pub fsid_loop : ℕ → Disk → MfsHandle → ℕ → ℕ → ℕ → Lookup
fsid_loop zero d hnd fsid base inode = endless
fsid_loop (suc fuel) d hnd fsid base inode =
    elim (probe (mfs_inode_count hnd) fsid base inode (mfs_read_inode d hnd inode).0) [
      | ends r ↦ r
      | next inode' ↦ fsid_loop fuel d hnd fsid base inode'
    ]

-- A round for every inode is enough.
unfoldable pub mfs_read_inode_by_fsid : Disk → MfsHandle → ℕ → Lookup
mfs_read_inode_by_fsid d hnd fsid =
    let base = hash_of (mfs_inode_count hnd) fsid in
    fsid_loop (mfs_inode_count hnd) d hnd fsid base base

-- `datablocks[loop]`.
abbrev pub block_sector : List ℕ → ℕ → ℕ
block_sector inode i = field inode (Inode.datablocks + 2 * i)

abbrev pub block_count : List ℕ → ℕ → ℕ
block_count inode i = field inode (Inode.datablocks + 2 * i + 1)

abbrev pub min : ℕ → ℕ → ℕ
min a b = if ltb b a then b else a

-- The loop over the blocks of an inode, with the blocks that are left, the next one, the sectors to
-- skip, the sectors to read, the bytes read, and the buffer from `data` on.
unfoldable pub data_loop : ℕ → Disk → VolumeHandle → List ℕ → ℕ → ℕ → ℕ → ℕ → List ℕ → Ret × List ℕ
data_loop zero d vols inode i start count total buf = (ret total, buf)
data_loop (suc n) d vols inode i start count total buf =
    let blkcount = block_count inode i in
    let skip = data_loop n d vols inode (i + 1) (start - blkcount) count total buf in
    let here = min (blkcount - start) count in
    let (r, buf') = mfsvol_read_data d vols buf (add32 (block_sector inode i) start) here in
    if count == 0
    then (ret total, buf)
    else if not (start == 0) && leb blkcount start
    then skip
    else elim r [
      | err e ↦ (err e, buf')
      | ret got ↦
          let (r', rest) =
            data_loop n d vols inode (i + 1) 0 (count - here) (add32 total got) (drop got buf') in
          if not (got == mul32 here 512) || count == here
          then (ret (add32 total got), buf')
          else (r', take got buf' ++ rest)
    ]

-- `inode->type`, `tyStream` and the bytes before the data that an inode holds itself.
abbrev pub type_of : List ℕ → ℕ
type_of inode = get_or inode 40 0

abbrev pub ty_stream : ℕ
ty_stream = 2

abbrev pub inode_header : ℕ
inode_header = 0x3c

-- `mfs_read_inode_data_part` with a buffer and an inode.
unfoldable pub mfs_read_inode_data_part :
    Disk → VolumeHandle → List ℕ → List ℕ → ℕ → ℕ → Ret × List ℕ
mfs_read_inode_data_part d vols inode buf start count =
    let size = field inode Inode.size in
    let blocks = data_loop (field inode Inode.numblocks) d vols inode 0 start count 0 buf in
    let inside = take size (drop inode_header inode) in
    if count == 0
    then (ret 0, buf)
    else if not (field inode Inode.numblocks == 0)
    then blocks
    else if ltb size (512 - inode_header) && not (type_of inode == ty_stream)
    then (if not (start == 0)
        then (ret 0, buf)
        else (ret 512, inside ++ replicate (512 - size) 0 ++ drop 512 buf))
    else (ret 0, buf)

-- `mfs_read_inode_data`: the data if any, and `*size`, as long as it is below 2 ^ 31; an error is a
-- negative size.
unfoldable pub mfs_read_inode_data : Disk → VolumeHandle → List ℕ → Option (List ℕ) × Ret
mfs_read_inode_data d vols inode =
    let size = field inode Inode.size in
    let (r, buf) =
      mfs_read_inode_data_part d vols inode (replicate ((size + 511) / 512 * 512) 0) 0
        ((size + 511) / 512) in
    if type_of inode == ty_stream || size == 0
    then (none, ret 0)
    else elim r [ err e ↦ (none, err e) | ret n ↦ (some buf, ret size) ]
