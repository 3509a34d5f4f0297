-- ===== src/Macpart/Tests.antt =====
-- The partition table of a small drive that is byte-swapped, and of one with free space.
use tivo_tools.Base.{
  ℕ, zero, suc, ◌+◌, ◌<◌, ◌%◌, ◌≡◌, refl, arith, [], ◌∷◌, Bool, true, false, if◌then◌else◌, ◌==◌,
  replicate,
}
use tivo_tools.Disk.{Disk, run_faulty}
use tivo_tools.ReadWrite.Transfer.{Covers}
use tivo_tools.Text.{codes}
use tivo_tools.Macpart.{Partition, Table, table_file, tivo_partition_table_write}
use tivo_tools.Macpart.Entry.{IsEntry}
use tivo_tools.Macpart.Validate.{part_at, same_text, tivo_partition_validate}
use tivo_tools.Base.{inl, inr, suc, zero}
use tivo_tools.Macpart.Space.{start_part, start_from}
use tivo_tools.Macpart.Found.{AreApart, HasFree}
use tivo_tools.Base.{Option}
use tivo_tools.Macpart.Over.{tivo_partition_add_ends}
use tivo_tools.Macpart.Succeeds.{tivo_partition_add_succeeds}
use tivo_tools.Macpart.Ends.{Ended, find_space-Ended}
use tivo_tools.Macpart.Space.{find_space, tivo_partition_add, tivo_partition_total_free}
use tivo_tools.Base.{some, none}
use tivo_tools.Macpart.RoundTrip.{IsWritable, Reread, tivo_partition_table_write-Reread}

abbrev apple : Partition
apple = record {
  sectors = 63;
  start = 1;
  refs = 1;
  name = codes "Apple";
  ptype = codes "Apple_partition_map";
}

abbrev media : Partition
media = record {
  sectors = 5000;
  start = 64;
  refs = 2;
  name = codes "New MFS Media";
  ptype = codes "MFS";
}

abbrev table_of : Bool → Table
table_of swab = record {
  rw_fd = 3;
  vol_file = false;
  vol_swab = swab;
  vol_dirty = true;
  vol_noninit = false;
  vol_valid = true;
  allocated = 63;
  devsize = 8000;
  partitions = apple ∷ media ∷ [];
}

abbrev drive_of : Bool → Disk
drive_of swab = record {
  sector = λ fd s.
      if s == 0
      then (if swab then 0x92 ∷ 0x14 ∷ replicate 510 0 else 0x14 ∷ 0x92 ∷ replicate 510 0)
      else replicate 512 (s % 256);
  end_sector = λ fd. 8000;
  faulty = λ fd s. false;
}

apple-IsEntry : IsEntry apple
apple-IsEntry = record {
  sectors_word = omega arith;
  start_word = omega arith;
  name_short = omega arith;
  name_text = ground arith;
  name_bytes = ground arith;
  type_bytes = ground arith;
  type_short = omega arith;
  type_text = ground arith;
}

media-IsEntry : IsEntry media
media-IsEntry = record {
  sectors_word = omega arith;
  start_word = omega arith;
  name_short = omega arith;
  name_text = ground arith;
  name_bytes = ground arith;
  type_bytes = ground arith;
  type_short = omega arith;
  type_text = ground arith;
}

healthy : (swab : Bool) (fd s n : ℕ) → run_faulty (drive_of swab) fd s n ≡ false
unfolding run_faulty
healthy swab fd s zero = refl
healthy swab fd s (suc n) = healthy swab fd (s + 1) n

covers : (i : ℕ) → i < 63 → Covers (drive_of true) (table_file (table_of true) 1 63) i 1
unfolding table_file tivo_tools.ReadWrite.tivo_partition_size
    tivo_tools.ReadWrite.tivo_partition_offset
covers i h = record {
  some_sectors = omega arith;
  inside = omega arith;
  placed = omega arith;
  end_small = omega arith;
  healthy = healthy true 3 (i + 1) 1;
}

writable : IsWritable (table_of true) (drive_of true) apple (media ∷ [])
writable = record {
  partitions_are = refl;
  dirty = refl;
  initialized = refl;
  boot = refl;
  boot_size = refl;
  entries = (apple-IsEntry, (media-IsEntry, tt));
  at_one = refl;
  allocated_are = refl;
  room_small = omega arith;
  few = omega arith;
  fit = omega arith;
  on_device = omega arith;
  covered = covers;
  healthy = λ t. refl;
}

tivo_partition_table_write-Reread_example :
    Reread (table_of true) (tivo_partition_table_write (table_of true) (drive_of true))
tivo_partition_table_write-Reread_example =
    tivo_partition_table_write-Reread (table_of true) (drive_of true) apple (media ∷ []) writable

abbrev free_space : Partition
free_space = record {
  sectors = 2000;
  start = 5064;
  refs = 1;
  name = codes "Extra";
  ptype = codes "Apple_Free";
}

abbrev with_space : Table
with_space = record (table_of false) { partitions = apple ∷ media ∷ free_space ∷ [] }

-- A table as it is read from a drive with space behind its last partition.
abbrev read_table : Table
read_table = record (table_of false) {
  vol_valid = false;
  devsize = 7064;
  partitions = apple ∷ media ∷ [];
}

-- A partition that is added in front of the free space that the check finds, of which a part is
-- left.
added_now :
    tivo_partition_add 4 read_table 1500 0 (codes "New") (codes "MFS")
    ≡ some (
      some 3,
      record with_space {
        devsize = 7064;
        partitions =
            apple
            ∷ media
            ∷ record media { sectors = 1500; start = 5064; refs = 1; name = codes "New" }
            ∷ record free_space { sectors = 500; start = 6564 }
            ∷ [];
      },
    )
unfolding tivo_partition_add tivo_tools.Macpart.Space.add_if_valid tivo_partition_validate
    tivo_tools.Macpart.Validate.after_walk tivo_tools.Macpart.Validate.walk
    tivo_tools.Macpart.Validate.nearest part_at tivo_tools.Macpart.Validate.all_used
    tivo_tools.Macpart.Space.add_checked tivo_tools.Macpart.Space.put_part find_space
    tivo_tools.Macpart.Space.next_free start_from same_text tivo_tools.Macpart.Space.delete_inside
    tivo_tools.Macpart.Space.back_over
added_now = refl

-- A table whose last partition ends behind the drive is refused.
too_long :
    tivo_partition_add 4 (record read_table { devsize = 5000 }) 1500 0 (codes "New") (codes "MFS")
    ≡ some (none, record read_table { devsize = 5000 })
unfolding tivo_partition_add tivo_tools.Macpart.Space.add_if_valid tivo_partition_validate
    tivo_tools.Macpart.Validate.after_walk tivo_tools.Macpart.Validate.walk
    tivo_tools.Macpart.Validate.nearest part_at
too_long = refl

all_free : tivo_partition_total_free with_space ≡ 2000
unfolding tivo_partition_total_free tivo_tools.Macpart.Space.sum_free same_text
all_free = refl

-- The check fills the space behind the last partition.
valid : tivo_partition_validate 4 read_table ≡ some (true, record with_space { devsize = 7064 })
unfolding tivo_partition_validate tivo_tools.Macpart.Validate.after_walk
    tivo_tools.Macpart.Validate.walk tivo_tools.Macpart.Validate.nearest part_at
    tivo_tools.Macpart.Validate.all_used
valid = refl

find_space-Ended_example : Ended (find_space 4 with_space.partitions 1 3000 0 0)
find_space-Ended_example =
    find_space-Ended 4 with_space.partitions 1 3000 0 0
      ((omega arith, omega arith), ((omega arith, omega arith), ((omega arith, omega arith), tt)))
      (omega arith)

apart : AreApart with_space.partitions
unfolding part_at
apart zero zero k l different = absurd (different refl)
apart zero (suc zero) k l different = inl (omega arith)
apart zero (suc (suc zero)) k l different = inl (omega arith)
apart (suc zero) zero k l different = inr (omega arith)
apart (suc zero) (suc zero) k l different = absurd (different refl)
apart (suc zero) (suc (suc zero)) k l different = inl (omega arith)
apart (suc (suc zero)) zero k l different = inr (omega arith)
apart (suc (suc zero)) (suc zero) k l different = inr (omega arith)
apart (suc (suc zero)) (suc (suc zero)) k l different = absurd (different refl)
apart (suc (suc (suc i))) j k l different = absurd (omega arith)
apart i (suc (suc (suc j))) k l different = absurd (omega arith)

behind_media : HasFree with_space.partitions (start_part with_space.partitions) 1500 2
unfolding part_at start_from same_text
behind_media = record {
  inside = omega arith;
  from_start = omega arith;
  free = refl;
  large = omega arith;
}

tivo_partition_add_succeeds_example :
    (i : ℕ) × (v : Table) × (tivo_partition_add 4 read_table 1500 0 (codes "New") (codes "MFS")
      ≡ some (some i, v))
tivo_partition_add_succeeds_example =
    tivo_partition_add_succeeds 4 read_table (record with_space { devsize = 7064 }) 1500 0
      (codes "New") (codes "MFS") 2 valid
      ((omega arith, omega arith), ((omega arith, omega arith), ((omega arith, omega arith), tt)))
      apart behind_media (omega arith) (omega arith) (inl refl) (omega arith)

tivo_partition_add_ends_example :
    (number : Option ℕ) × (u : Table) × (tivo_partition_add 7065 read_table 1500 0
        (codes "New")
        (codes "MFS")
      ≡ some (number, u))
tivo_partition_add_ends_example =
    tivo_partition_add_ends 7065 read_table 1500 0 (codes "New") (codes "MFS")
      ((omega arith, omega arith), ((omega arith, omega arith), tt)) (omega arith) (omega arith)
      (omega arith)
