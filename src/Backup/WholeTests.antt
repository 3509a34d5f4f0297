-- ===== src/Backup/WholeTests.antt =====
-- A backup of one partition and one block of a plain drive.
use tivo_tools.Base.{ℕ, zero, suc, ◌+◌, ◌-◌, ◌*◌, ◌%◌, ◌≤◌, ◌<◌, ◌^◌, ◌≡◌, refl, ◌∙◌, ap, arith}
use tivo_tools.Base.{
  List, [], ◌∷◌, ◌++◌, Bool, true, false, Option, none, some, replicate, length, length-replicate,
  length-drop, drop,
}
use tivo_tools.Disk.{Disk, run_faulty}
use tivo_tools.ReadWrite.{TpFile, tivo_partition_swab}
use tivo_tools.ReadWrite.Transfer.{Covers}
use tivo_tools.Sample.{loaded, file_a, volume_a, volumes}
use tivo_tools.Text.{codes}
use tivo_tools.Volume.{mfsvol_get_volume, find_volume, holds}
use tivo_tools.Volume.Access.{Ready}
use tivo_tools.Backup.Blocks.{BackupBlock}
use tivo_tools.Backup.Info.{BackupInfo, BackupPartition}
use tivo_tools.Backup.Partitions.{Source}
use tivo_tools.Backup.Stream.{
  Next, next_faulted, backup_next_sectors, main_loop, backup_finish, segments_of,
}
use tivo_tools.Backup.Held.{part-Holds, block-Holds, on_file}
use tivo_tools.Backup.Reading.{Data, all_data, given, next_sectors_lem, ended}
use tivo_tools.Backup.Heading.{Fits}
use tivo_tools.Backup.Whole.{whole, main_loop-whole}

abbrev plain_drive : Disk
plain_drive = record {
  sector = λ fd s. replicate 512 (s % 256);
  end_sector = λ fd. 8000;
  faulty = λ fd s. false;
}

sized : (s : ℕ) → length (plain_drive.sector 3 s) ≡ 512
sized s = length-replicate 512 (s % 256)

healthy : (fd s n : ℕ) → run_faulty plain_drive fd s n ≡ false
unfolding run_faulty
healthy fd s zero = refl
healthy fd s (suc n) = healthy fd (s + 1) n

plain : tivo_partition_swab file_a ≡ false
unfolding tivo_partition_swab
plain = refl

covers : (s n : ℕ) → 0 < n → s + n ≤ 2050 → Covers plain_drive file_a s n
unfolding tivo_tools.ReadWrite.tivo_partition_size tivo_tools.ReadWrite.tivo_partition_offset
covers s n asked inside = record {
  some_sectors = asked;
  inside = inside;
  placed = omega arith;
  end_small = omega arith;
  healthy = healthy 3 (s + 64) n;
}

abbrev source : Source
source = record {
  tivo_partition_count = λ device. 12;
  tivo_partition_read_bootsector = λ device. some (replicate 512 7);
  tivo_partition_open_direct = λ device i. none;
  tivo_partition_swabbed = λ device. false;
}

abbrev part : BackupPartition
part = record { sectors = 2; partno = 3; devno = 0 }

abbrev block : BackupBlock
block = record { firstsector = 100; sectors = 3 }

abbrev info : BackupInfo
info = record {
  mfs = loaded;
  cursector = 0;
  presector = 2;
  parts = part ∷ [];
  files = λ i. some file_a;
  blocks = block ∷ [];
  mfsparts = [];
  nmfs = 0;
  nsectors = 8;
  back_flags = 0;
  thresh = 2000;
  hda = codes "/dev/hda";
  err_msg = none;
}

ready : (c n : ℕ) → 0 < n → c + n ≤ 3 → Ready plain_drive volumes (100 + c) n
unfolding mfsvol_get_volume find_volume holds
ready c n asked inside = record {
  vol = volume_a;
  is_found = ground arith;
  after_start = omega arith;
  inside = omega arith;
  no_wrap = omega arith;
  covers = covers (100 + c - 0) n asked (omega arith);
}

data_at : (k : ℕ) → Data source plain_drive (record info { cursector = k })
unfolding segments_of ready
data_at k = record {
  boot = replicate 512 7;
  boot_size = refl;
  boot_read = refl;
  wholes =
      on_file plain_drive file_a plain sized 0 2
      ∷ on_file plain_drive file_a plain sized 100 3
      ∷ [];
  held = (
    part-Holds plain_drive file_a plain sized source (record info { cursector = k }) part refl
        (λ c n asked inside. covers c n asked (omega arith)),
    (
      block-Holds plain_drive file_a plain sized source (record info { cursector = k }) block 0
          (omega arith) (omega arith) (λ c n asked inside. (ready c n asked inside, (refl, refl))),
      tt,
    ),
  );
}

next_sectors_lem_example :
    backup_next_sectors source plain_drive (record info { cursector = 4 }) 2 (replicate 1024 0)
    ≡ given (record info { cursector = 4 }) (drop 2 (all_data (data_at 4))) 2 (replicate 1024 0)
next_sectors_lem_example =
    next_sectors_lem source plain_drive (record info { cursector = 4 }) (data_at 4) 2 2
      (replicate 1024 0) refl (omega (arith, length-replicate {A = ℕ} 1024 0))

fits : Fits info 3
unfolding tivo_tools.Backup.Stream.part_bytes tivo_tools.Base.Memory.store32
    tivo_tools.Backup.Stream.block_bytes
fits = record { some_parts = omega arith; counted = refl; room = ground arith }

main_loop-whole_example :
    (main_loop source plain_drive (λ i b. next_faulted) (λ i b. true) 8 info (replicate 2048 0)
      ≡ ended info (whole (data_at 0)) 8)
    × (backup_finish (record info { cursector = 8 }) ≡ (true, record info { cursector = 8 }))
unfolding data_at
main_loop-whole_example =
    main_loop-whole source plain_drive (λ i b. next_faulted) (λ i b. true) (λ i b. refl) 7 info
      (data_at 0) 3 (replicate 2048 0) refl refl refl refl fits (omega arith)
