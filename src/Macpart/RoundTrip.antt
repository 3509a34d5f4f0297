-- ===== src/Macpart/RoundTrip.antt =====
-- A partition table of lib/macpart.c that is written and read again.
use tivo_tools.Base.{ℕ, ◌+◌, ◌^◌, ◌≤◌, ◌<◌, ◌≡◌, refl, sym, ap, ap₂, ◌∙◌, arith, inl, inr}
use tivo_tools.Base.{
  List, ◌∷◌, Bool, true, false, ltb, ◌==◌, ◌||◌, if◌then◌else◌, length, length-map,
  length-replicate, map, replicate, Option, some, All, append-nil, Bool-cases,
}
use tivo_tools.Disk.{Disk, ret, run, run_faulty, os_read, overlay}
use tivo_tools.Disk.Laws.{os_read_whole, overlay_whole}
use tivo_tools.ReadWrite.{tivo_partition_offset, tivo_partition_swab}
use tivo_tools.ReadWrite.Transfer.{Covers}
use tivo_tools.Macpart.{
  Partition, Table, as_int, half, tivo_boot_magic, tivo_boot_amigc, make_table, read_entries,
  tivo_read_partition_table, table_file, write_boot, finish_table, write_after_boot,
  tivo_partition_table_write,
}
use tivo_tools.Macpart.Entry.{IsEntry}
use tivo_tools.Macpart.Stored.{
  Stored, Wrote, wrote, write_entries-Wrote, read_entries-Stored, fresh,
}

-- The table as it is read: its flags are cleared, and each partition has one reference.
abbrev pub saved : Table → Table
saved table = record table {
  vol_dirty = false;
  vol_noninit = false;
  vol_valid = false;
  partitions = map fresh table.partitions;
}

-- A changed table of a drive that has a boot block, with its partition for the table itself, all
-- entries of which the drive can hold and transfer.
pub record IsWritable (table : Table) (d : Disk) (p : Partition) (ps : List Partition)
    : Type 0 where
  pub partitions_are : table.partitions ≡ p ∷ ps
  pub dirty : table.vol_dirty ≡ true
  pub initialized : table.vol_noninit ≡ false
  pub boot :
      half (d.sector table.rw_fd 0) ≡ (if table.vol_swab then tivo_boot_amigc else tivo_boot_magic)
  pub boot_size : length (d.sector table.rw_fd 0) ≡ 512
  pub entries : All IsEntry (p ∷ ps)
  pub at_one : p.start ≡ 1
  pub allocated_are : table.allocated ≡ p.sectors
  pub room_small : p.sectors < 2 ^ 31
  pub few : length (p ∷ ps) ≤ 256
  pub fit : length (p ∷ ps) ≤ p.sectors
  pub on_device : length (p ∷ ps) < d.end_sector table.rw_fd
  pub covered : (i : ℕ) → i < p.sectors → Covers d (table_file table 1 p.sectors) i 1
  pub healthy : (t : ℕ) → d.faulty table.rw_fd t ≡ false

-- A write that succeeds, after which the table is read as it was.
pub data Reread (table : Table) : Bool × Table × Disk → Type 0 where
  reread :
      (table' : Table) (d : Disk)
      → tivo_read_partition_table d table.rw_fd table.vol_file table.devsize ≡ some (saved table)
      → Reread table (true, table', d)

module _ (table : Table) (start sectors : ℕ) where
  offset_lem : tivo_partition_offset (table_file table start sectors) ≡ start
  unfolding tivo_partition_offset table_file
  offset_lem = elim (Bool-cases table.vol_file) [ inl e ↦ rw e refl | inr e ↦ rw e refl ]

  swab_lem : tivo_partition_swab (table_file table start sectors) ≡ table.vol_swab
  unfolding tivo_partition_swab table_file
  swab_lem = elim (Bool-cases table.vol_file) [ inl e ↦ rw e refl | inr e ↦ rw e refl ]

  fd_lem : (table_file table start sectors).fd ≡ table.rw_fd
  unfolding table_file
  fd_lem = refl

module _ (table : Table) (d : Disk) (p : Partition) (ps : List Partition)
    (w : IsWritable table d p ps) where
  make_table-saved :
      (swab : Bool) (entries : Option (List Partition))
      → swab ≡ table.vol_swab
      → entries ≡ some (map fresh (p ∷ ps))
      → make_table table.rw_fd table.vol_file swab table.devsize entries ≡ some (saved table)
  unfolding make_table as_int
  make_table-saved swab entries e es =
      ap (make_table table.rw_fd table.vol_file swab table.devsize) es ∙ checked
    where
      enough :
          (length (map fresh (p ∷ ps)) == 0 || ltb p.sectors (length (map fresh (p ∷ ps)))) ≡ false
      enough = ground (arith, w.fit, length-map (p ∷ ps) fresh)

      positive : as_int p.sectors ≡ p.sectors
      positive = ground (arith, w.room_small)

      made : Bool → ℕ → List Partition → Table
      made b n l = record table {
        vol_swab = b;
        vol_dirty = false;
        vol_noninit = false;
        vol_valid = false;
        allocated = n;
        partitions = map fresh l;
      }

      checked :
          make_table table.rw_fd table.vol_file swab table.devsize (some (map fresh (p ∷ ps)))
          ≡ some (saved table)
      checked = rw enough (
          ap some (
            ap (λ b. made b (as_int p.sectors) (p ∷ ps)) e
            ∙ ap₂ (made table.vol_swab) (positive ∙ sym w.allocated_are) (sym w.partitions_are)))

  module _ (sector : ℕ → ℕ → List ℕ) (same : sector table.rw_fd 0 ≡ d.sector table.rw_fd 0) where
    abbrev now : Disk
    now = record d { sector = sector }

    sized : length (sector table.rw_fd 0) ≡ 512
    sized = ap (λ (b : List ℕ). length b) same ∙ w.boot_size

    boot_read : os_read now table.rw_fd (replicate 512 0) 0 1 ≡ (ret 512, sector table.rw_fd 0)
    unfolding run run_faulty
    boot_read =
        os_read_whole now table.rw_fd 0 1 (replicate 512 0) (omega (arith, w.on_device)) healthy
        ∙ ap (λ (b : List ℕ). (ret 512, b))
            (ap (λ b. overlay b (replicate 512 0)) (append-nil (sector table.rw_fd 0))
              ∙ overlay_whole (sector table.rw_fd 0) (replicate 512 0)
                  (omega (arith, sized, length-replicate {A = ℕ} 512 0)))
      where
        healthy : run_faulty now table.rw_fd 0 1 ≡ false
        healthy = rw (w.healthy 0) refl

    entries_read :
        Stored (table_file table 1 p.sectors) (length (p ∷ ps)) now (p ∷ ps) 0
        → read_entries now table.rw_fd table.vol_swab 256 1 1 (sector table.rw_fd 0)
          ≡ some (map fresh (p ∷ ps))
    unfolding table_file
    entries_read stored =
        ap (λ (b : Bool). read_entries now table.rw_fd b 256 1 1 (sector table.rw_fd 0))
          (sym (swab_lem table 1 p.sectors))
        ∙ read_entries-Stored (table_file table 1 p.sectors) (length (p ∷ ps)) now
            (omega (arith, w.few)) (p ∷ ps) 256 0 1 1 (sector table.rw_fd 0) w.entries stored
            (omega arith) w.few at_one_now (offset_lem table 1 p.sectors) (inr (refl, refl))
            (omega arith) (omega (arith, sized)) w.on_device w.healthy
      where
        at_one_now : 0 + tivo_partition_offset (table_file table 1 p.sectors) ≡ 1
        at_one_now = omega (arith, offset_lem table 1 p.sectors)

    read_back :
        Stored (table_file table 1 p.sectors) (length (p ∷ ps)) now (p ∷ ps) 0
        → tivo_read_partition_table now table.rw_fd table.vol_file table.devsize
          ≡ some (saved table)
    unfolding tivo_read_partition_table
    read_back stored = picked ∙ make_table-saved table.vol_swab _ refl (entries_read stored)
      where
        picked :
            tivo_read_partition_table now table.rw_fd table.vol_file table.devsize
            ≡ make_table table.rw_fd table.vol_file table.vol_swab table.devsize
                (read_entries now table.rw_fd table.vol_swab 256 1 1 (sector table.rw_fd 0))
        picked = elim (Bool-cases table.vol_swab) [
          | inl swapped ↦ rw (boot_read, same, w.boot, swapped) refl
          | inr plain ↦ rw (boot_read, same, w.boot, plain) refl
        ]

  finish_table-Reread :
      (u : Table) (result : Bool × Disk)
      → Wrote (table_file table 1 p.sectors) (length (p ∷ ps)) d (p ∷ ps) 0 result
      → Reread table (finish_table u result)
  unfolding finish_table table_file
  finish_table-Reread u _ (wrote sector same stored) =
      reread _ (record d { sector = sector })
        (read_back sector (same 0 (omega (arith, offset_lem table 1 p.sectors))) stored)

-- A changed partition table that is written can be read again as it was. The partitions have names
-- and types of at most 31 bytes, none of them zero, and sizes and starts of 32 bits; there are at
-- most 256 of them and no more than the sectors of the first one, which starts at sector 1, is
-- the table's own and has less than 2^31 of them. The drive has a boot block with the magic number in the table's byte order,
-- reaches past the table, and transfers all of its sectors. Then the write gives the result 0, and
-- the table that is read from the drive after it has the same partitions in the same order, each
-- with one reference, the same byte order and room, and its flags cleared.
pub tivo_partition_table_write-Reread :
    (table : Table) (d : Disk) (p : Partition) (ps : List Partition)
    → IsWritable table d p ps
    → Reread table (tivo_partition_table_write table d)
unfolding tivo_partition_table_write write_boot write_after_boot table_file
tivo_partition_table_write-Reread table d p ps w =
    simp (w.dirty, w.initialized, w.partitions_are, w.at_one, w.allocated_are)
      (finish_table-Reread table d p ps w _ _ (
        write_entries-Wrote (table_file table 1 p.sectors) (length (p ∷ ps)) p.sectors (p ∷ ps) 0 d
          w.entries (omega (arith, w.fit)) w.covered))
