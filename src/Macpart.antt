-- ===== src/Macpart.antt =====
-- lib/macpart.c of MFSTools: the partition table of a drive, as it is read and written. A name or a
-- type of a partition is a C string.
pub mod Entry
pub mod Stored
pub mod RoundTrip
pub mod Validate
pub mod Space
pub mod Grown
pub mod Placed
pub mod InUse
pub mod Ends
pub mod Found
pub mod Succeeds
pub mod Decided
pub mod Over
mod Tests
use tivo_tools.Base.{ℕ, zero, suc, ◌+◌, ◌-◌, ◌*◌, ◌/◌, ◌%◌, List, [], ◌∷◌, ◌++◌}
use tivo_tools.Base.{
  Bool, true, false, ◌&&◌, ◌||◌, not, ltb, leb, ◌==◌, if◌then◌else◌, Option, none, some, length,
  take, drop, replicate, get_or,
}
use tivo_tools.Base.Memory.{field}
use tivo_tools.Text.{CString}
use tivo_tools.Disk.{Disk, Ret, is_ret, os_read}
use tivo_tools.ReadWrite.{TpFile, TpType, direct, direct_file, data_swab, tivo_partition_write}
use tivo_tools.Mfs.{c_string}

-- `struct tivo_partition`.
pub record Partition : Type 0 where
  pub sectors : ℕ
  pub start : ℕ
  pub refs : ℕ
  pub name : CString
  pub ptype : CString

-- `struct tivo_partition_table` with its flags; `count` is the length of `partitions`.
pub record Table : Type 0 where
  pub rw_fd : ℕ
  pub vol_file : Bool
  pub vol_swab : Bool
  pub vol_dirty : Bool
  pub vol_noninit : Bool
  pub vol_valid : Bool
  pub allocated : ℕ
  pub devsize : ℕ
  pub partitions : List Partition

abbrev pub tivo_boot_magic : ℕ
tivo_boot_magic = 0x1492

abbrev pub tivo_boot_amigc : ℕ
tivo_boot_amigc = 0x9214

abbrev pub mac_partition_magic : ℕ
mac_partition_magic = 0x504d

-- `htons (*(unsigned short *) buf)`: the big-endian halfword.
abbrev pub half : List ℕ → ℕ
half buf = 256 * get_or buf 0 0 + get_or buf 1 0

-- A word as an `int` that is compared with counts: a negative one is below all of them.
unfoldable pub as_int : ℕ → ℕ
as_int w = if ltb w 0x80000000 then w else 0

-- The partition that an entry of `struct mac_partition` describes.
unfoldable pub read_entry : List ℕ → Partition
read_entry buf = record {
  sectors = field buf 3;
  start = field buf 2;
  refs = 1;
  name = c_string (drop 16 buf);
  ptype = c_string (drop 48 buf);
}

abbrev pub with_part : Partition → Option (List Partition) → Option (List Partition)
with_part p none = none
with_part p (some ps) = some (p ∷ ps)

module _ (d : Disk) (fd : ℕ) (swab : Bool) where
  abbrev pub in_order : List ℕ → List ℕ
  in_order buf = if swab then data_swab buf 512 else buf

  -- The loop over the sectors of the table: room for so many more partitions, `cursec` and
  -- `maxsec`. `none` is a read that fails.
  unfoldable pub read_entries : ℕ → ℕ → ℕ → List ℕ → Option (List Partition)
  read_entries zero cursec maxsec old = some []
  read_entries (suc n) cursec maxsec old =
      let (r, raw) = os_read d fd old cursec 1 in
      let buf = in_order raw in
      let next = if cursec == 1 then as_int (field buf 1) else maxsec in
      if not (leb cursec maxsec)
      then some []
      else if not (is_ret r 512)
      then none
      else if not (half buf == mac_partition_magic)
      then some []
      else with_part (read_entry buf) (read_entries n (cursec + 1) next buf)

abbrev pub first_sectors : List Partition → ℕ
first_sectors [] = 0
first_sectors (p ∷ ps) = p.sectors

-- The table, where there is a partition and they fit in the first one.
unfoldable pub make_table : ℕ → Bool → Bool → ℕ → Option (List Partition) → Option Table
make_table fd is_file swab devsize none = none
make_table fd is_file swab devsize (some ps) =
    if length ps == 0 || ltb (first_sectors ps) (length ps)
    then none
    else some (record {
      rw_fd = fd;
      vol_file = is_file;
      vol_swab = swab;
      vol_dirty = false;
      vol_noninit = false;
      vol_valid = false;
      allocated = as_int (first_sectors ps);
      devsize = devsize;
      partitions = ps;
    })

-- `tivo_read_partition_table` for a device that has been opened, and is a file or not, of a size.
unfoldable pub tivo_read_partition_table : Disk → ℕ → Bool → ℕ → Option Table
tivo_read_partition_table d fd is_file devsize =
    let (r, boot) = os_read d fd (replicate 512 0) 0 1 in
    let read =
      λ (swab : Bool). make_table fd is_file swab devsize (read_entries d fd swab 256 1 1 boot) in
    if not (is_ret r 512)
    then none
    else if half boot == tivo_boot_magic
    then read false
    else if half boot == tivo_boot_amigc
    then read true
    else none

-- A word with `htonl`, as it stands in memory.
abbrev pub big_endian : ℕ → List ℕ → List ℕ
big_endian w rest = (w / 16777216 % 256) ∷ (w / 65536 % 256) ∷ (w / 256 % 256) ∷ (w % 256) ∷ rest

-- `strncpy (field, text, 31)` into 32 zeros.
abbrev pub text_32 : CString → List ℕ
text_32 s = take 31 s ++ replicate (32 - length (take 31 s)) 0

-- The sector of an entry, field by field.
unfoldable pub write_entry : ℕ → Partition → List ℕ
write_entry count p =
    0x50
    ∷ 0x4d
    ∷ 0
    ∷ 0
    ∷ big_endian count (
        big_endian p.start (
          big_endian p.sectors (
            text_32 p.name
            ++ (text_32 p.ptype
                ++ (0 ∷ 0 ∷ 0 ∷ 0 ∷ big_endian p.sectors (big_endian 0x33 (replicate 420 0)))))))

-- `file` with a partition of the table.
unfoldable pub table_file : Table → ℕ → ℕ → TpFile
table_file table start sectors = record {
  tptype = if table.vol_file then direct_file else direct;
  fd = table.rw_fd;
  kernel_sectors = 0;
  part_start = start;
  part_sectors = sectors;
  swabbed = table.vol_swab;
}

-- The loop that writes the entries, and an empty one after them: the partitions that are left, and
-- `loop`. `false` is the result -1.
unfoldable pub write_entries : TpFile → ℕ → ℕ → List Partition → ℕ → Disk → Bool × Disk
write_entries file count allocated [] loop d =
    let (r, buf, d') = tivo_partition_write d file (replicate 512 0) loop 1 in
    if ltb loop allocated then (is_ret r 512, d') else (true, d)
write_entries file count allocated (p ∷ ps) loop d =
    let (r, buf, d') = tivo_partition_write d file (write_entry count p) loop 1 in
    let rest = write_entries file count allocated ps (loop + 1) d' in
    if not (ltb loop allocated) then (true, d) else if is_ret r 512 then rest else (false, d')

-- The boot block of a new table: the result, the disk, and the table.
unfoldable pub write_boot : Table → Disk → Bool × Disk
write_boot table d =
    let (r, buf, d') =
      tivo_partition_write d (table_file table 0 1) (0x14 ∷ 0x92 ∷ replicate 510 0) 0 1 in
    if table.vol_noninit then (is_ret r 512, d') else (true, d)

unfoldable pub finish_table : Table → Bool × Disk → Bool × Table × Disk
finish_table table (false, d) = (false, table, d)
finish_table table (true, d) = (true, record table { vol_dirty = false }, d)

abbrev pub first_part : Table → ℕ × ℕ
first_part table = elim table.partitions [ [] ↦ (0, 0) | p ∷ ps ↦ (p.start, p.sectors) ]

unfoldable pub write_after_boot : Table → Bool × Disk → Bool × Table × Disk
write_after_boot table (false, d) = (false, table, d)
write_after_boot table (true, d) =
    let (start, sectors) = first_part table in
    finish_table table (
      write_entries (table_file table start sectors) (length table.partitions) table.allocated
        table.partitions 0 d)

-- `tivo_partition_table_write` from the table on.
unfoldable pub tivo_partition_table_write : Table → Disk → Bool × Table × Disk
tivo_partition_table_write table d =
    if table.vol_dirty
    then write_after_boot (record table { vol_noninit = false }) (write_boot table d)
    else (true, table, d)
