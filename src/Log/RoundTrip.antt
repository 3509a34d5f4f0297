-- ===== src/Log/RoundTrip.antt =====
-- What lib/log.c writes to the log it reads back.
use tivo_tools.Base.{ℕ, ◌≤◌, ◌≡◌, refl, ap, ◌∙◌, arith, List, true}
use tivo_tools.Base.{length, ==_iff}
use tivo_tools.Base.Memory.{
  field, AllBytes, length-store32, store32-AllBytes, load32-store32_ne, htonl,
}
use tivo_tools.Disk.{Disk, Ret, ret}
use tivo_tools.Crc.{mfs_check_crc, mfs_update_crc}
use tivo_tools.Crc.Check.{check-update}
use tivo_tools.Volume.{mfsvol_write_data}
use tivo_tools.Volume.Access.{Open, read_data-write_data}
use tivo_tools.Zonemap.{MfsHandle}
use tivo_tools.Log.{logstamp, crc, log_sector, log_taken, log_put, mfs_log_read, mfs_log_write}

module _ (d : Disk) (hnd : MfsHandle) (buf old : List ℕ) where
  abbrev stamp : ℕ
  stamp = field buf logstamp

  abbrev sealed : List ℕ
  sealed = mfs_update_crc buf 512 crc

  -- The update leaves the length, the bytes and the stamp.
  sealed_lem :
      AllBytes buf
      → length buf ≡ 512
      → AllBytes sealed
        × (length sealed ≡ 512)
        × (field sealed logstamp ≡ stamp)
        × (mfs_check_crc sealed 512 crc ≡ true)
  unfolding mfs_update_crc
  sealed_lem h l = (
    store32-AllBytes buf crc _ h,
    length-store32 buf crc _ ∙ l,
    ap htonl (load32-store32_ne buf crc logstamp _ (λ e. absurd (omega (arith, e)))),
    check-update buf 512 crc (omega arith) (omega arith),
  )

  -- The disk after the write.
  abbrev after : Disk
  after = (mfsvol_write_data d hnd.vols sealed (log_sector hnd stamp) 1).2

  log_taken_lem :
      field sealed logstamp ≡ stamp
      → mfs_check_crc sealed 512 crc ≡ true
      → log_taken hnd stamp (ret 512, sealed) ≡ (ret 512, sealed, hnd)
  unfolding log_taken
  log_taken_lem e c = rw (e, c, (==_iff stamp stamp).1 refl)

  log_put_lem : (x : Ret × List ℕ × Disk) → x.0 ≡ ret 512 → log_put x ≡ (ret 512, x.1, x.2)
  unfolding log_put
  log_put_lem (r, b, e) h = rw h

-- A sector of 512 bytes that is written to the log, where its place lies on a volume that can be
-- written, is read back by its stamp: with its checksum set, and the check of the checksum passed.
-- Both calls report 512 bytes.
pub log_read-log_write :
    (d : Disk) (hnd : MfsHandle) (buf old : List ℕ)
    → Open d hnd.vols (log_sector hnd (field buf logstamp)) 1
    → AllBytes buf
    → length buf ≡ 512
    → length old ≤ 512
    → let (r, b, d') = mfs_log_write d hnd buf in
      (r ≡ ret 512)
      × (b ≡ mfs_update_crc buf 512 crc)
      × (mfs_log_read d' hnd old (field buf logstamp) ≡ (ret 512, mfs_update_crc buf 512 crc, hnd))
unfolding mfs_log_read mfs_log_write
log_read-log_write d hnd buf old o h l small =
    let (bytes, len, kept, good) = sealed_lem d hnd buf old h l in
    let (r, b, read) =
      read_data-write_data d hnd.vols (log_sector hnd (field buf logstamp)) 1 (sealed d hnd buf old)
        old o bytes len small in
    rw
      (log_put_lem d hnd buf old
        (mfsvol_write_data d hnd.vols (sealed d hnd buf old) (log_sector hnd (field buf logstamp))
          1)
        r)
      (
        refl,
        b,
        ap (log_taken hnd (field buf logstamp)) read ∙ log_taken_lem d hnd buf old kept good,
      )
