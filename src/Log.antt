-- ===== src/Log.antt =====
-- lib/log.c of MFSTools: the sectors of the transaction log.
pub mod RoundTrip
mod Tests
use tivo_tools.Base.{ℕ, ◌+◌, ◌%◌, List, Bool, not, ◌==◌, if◌then◌else◌, some}
use tivo_tools.Base.Memory.{add32, field}
use tivo_tools.Disk.{Disk, Ret, err, ret, is_ret, eio}
use tivo_tools.Crc.{mfs_check_crc, mfs_update_crc}
use tivo_tools.Format.Header
use tivo_tools.Volume.{mfsvol_read_data, mfsvol_write_data}
use tivo_tools.Zonemap.{MfsHandle, log_checksum}

-- The words of `log_hdr` of include/log.h.
abbrev pub logstamp : ℕ
logstamp = 0

abbrev pub crc : ℕ
crc = 1

unfoldable pub mfs_log_last_sync : MfsHandle → ℕ
mfs_log_last_sync hnd = field hnd.vol_hdr Header.logstamp

-- `logstamp % lognsectors + logstart`.
unfoldable pub log_sector : MfsHandle → ℕ → ℕ
log_sector hnd stamp =
    add32 (stamp % field hnd.vol_hdr Header.lognsectors) (field hnd.vol_hdr Header.logstart)

-- `mfs_log_read` from the read on. -1 is given as the I/O error that it stands for.
unfoldable pub log_taken : MfsHandle → ℕ → Ret × List ℕ → Ret × List ℕ × MfsHandle
log_taken hnd stamp (r, buf) =
    if not (is_ret r 512)
    then (err eio, buf, hnd)
    else if not (stamp == field buf logstamp)
    then (ret 0, buf, hnd)
    else if not (mfs_check_crc buf 512 crc)
    then (ret 0, buf, record hnd { err_msg = some (log_checksum stamp) })
    else (ret 512, buf, hnd)

unfoldable pub mfs_log_read : Disk → MfsHandle → List ℕ → ℕ → Ret × List ℕ × MfsHandle
mfs_log_read d hnd old stamp =
    log_taken hnd stamp (mfsvol_read_data d hnd.vols old (log_sector hnd stamp) 1)

-- The result of `mfs_log_write` for that of `mfsvol_write_data`.
unfoldable pub log_put : Ret × List ℕ × Disk → Ret × List ℕ × Disk
log_put (r, buf, d) = if is_ret r 512 then (ret 512, buf, d) else (err eio, buf, d)

unfoldable pub mfs_log_write : Disk → MfsHandle → List ℕ → Ret × List ℕ × Disk
mfs_log_write d hnd buf = log_put (
    mfsvol_write_data d hnd.vols (mfs_update_crc buf 512 crc) (log_sector hnd (field buf logstamp))
      1)
