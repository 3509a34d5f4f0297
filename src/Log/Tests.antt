-- ===== src/Log/Tests.antt =====
-- Tests of the log, on a log of eight sectors from sector 100 on.
use tivo_tools.Base.{ℕ, List, [], ◌∷◌, ◌≡◌, refl, arith, some, none, replicate, All-replicate}
use tivo_tools.Base.Memory.{IsByte, field}
use tivo_tools.Crc.{mfs_update_crc}
use tivo_tools.Disk.{ret}
use tivo_tools.Log.{crc, log_sector, mfs_log_read, mfs_log_write, mfs_log_last_sync}
use tivo_tools.Log.RoundTrip.{log_read-log_write}
use tivo_tools.Sample.{drive, volumes, volume_a, set}
use tivo_tools.Volume.Access.{Ready}

-- A log sector with stamp 21, at place 5 of the log.
abbrev entry : List ℕ
entry = 0 ∷ 0 ∷ 0 ∷ 21 ∷ replicate 508 9

place : log_sector set 21 ≡ 105
unfolding log_sector tivo_tools.Base.Memory.htonl tivo_tools.Base.Memory.load32 mfs_update_crc
    tivo_tools.Base.Memory.store32
place = refl

last_sync : mfs_log_last_sync set ≡ 5
unfolding mfs_log_last_sync tivo_tools.Base.Memory.htonl tivo_tools.Base.Memory.load32
    mfs_update_crc tivo_tools.Base.Memory.store32
last_sync = refl

ready : Ready drive volumes 105 1
unfolding tivo_tools.Volume.mfsvol_get_volume tivo_tools.Volume.find_volume tivo_tools.Volume.holds
    tivo_tools.ReadWrite.tivo_partition_size tivo_tools.ReadWrite.tivo_partition_offset
    tivo_tools.Disk.run_faulty
ready = record {
  vol = volume_a;
  is_found = refl;
  after_start = omega arith;
  inside = omega arith;
  no_wrap = omega arith;
  covers = record {
    some_sectors = omega arith;
    inside = omega arith;
    placed = omega arith;
    end_small = omega arith;
    healthy = refl;
  };
}

log_read-log_write_example :
    let (r, b, d) = mfs_log_write drive set entry in
    (r ≡ ret 512)
    × (b ≡ mfs_update_crc entry 512 crc)
    × (mfs_log_read d set [] 21 ≡ (ret 512, mfs_update_crc entry 512 crc, set))
unfolding log_sector tivo_tools.Base.Memory.htonl tivo_tools.Base.Memory.load32 mfs_update_crc
    tivo_tools.Base.Memory.store32 ready
log_read-log_write_example =
    log_read-log_write drive set entry []
      (record { ready = ready; real = refl; for_writing = refl })
      (
        omega arith,
        (omega arith, (omega arith, (omega arith, All-replicate IsByte 508 9 (omega arith)))),
      )
      refl (omega arith)
