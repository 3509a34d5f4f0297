-- ===== src/Backup/Stream.antt =====
-- The sectors of a backup in their order, of backup/backup.c: `backup_next_sectors`.
use tivo_tools.Base.{ℕ, zero, suc, ◌+◌, ◌-◌, ◌*◌, ◌/◌, ◌%◌, List, [], ◌∷◌, ◌++◌, map}
use tivo_tools.Base.{
  Bool, true, false, ◌&&◌, ◌||◌, ltb, leb, ◌==◌, if◌then◌else◌, Option, none, some, length, take,
  drop, replicate, min,
}
use tivo_tools.Base.Memory.{add32, store32}
use tivo_tools.Disk.{Disk, Ret, err, ret}
use tivo_tools.ReadWrite.{TpFile, tivo_partition_read}
use tivo_tools.Volume.{mfsvol_read_data}
use tivo_tools.Backup.Blocks.{BackupBlock}
use tivo_tools.Backup.Info.{
  BackupInfo, BackupPartition, BackupError, opening_partition, backing_up_partitions,
  reading_volume, ended_early, buffer_too_small, bf_compressed, has_flag,
}
use tivo_tools.Backup.Partitions.{Source}

-- What `backup_next_sectors` gives: the number of sectors, with the structure and the buffer, or -1
-- with the structure, or a `memcpy` of a negative size.
pub data Next : Type 0 where
  next_sectors : ℕ → BackupInfo → List ℕ → Next
  next_failed : BackupInfo → Next
  next_faulted : Next

-- One partition or one block of the backup: its sectors, and how a run of them is read into a
-- buffer. `none` is a partition that does not open.
pub record Segment : Type 0 where
  pub sectors : ℕ
  pub fetch : ℕ → ℕ → List ℕ → Option (Ret × List ℕ)
  pub unopened : BackupError
  pub unread : BackupError

-- What a loop over segments gives: `cursector`, the sectors that are left, those that have been
-- copied, and the buffer; or the error, after some sectors.
pub data Copied : Type 0 where
  copied : ℕ → ℕ → ℕ → List ℕ → Copied
  not_copied : ℕ → BackupError → Copied

abbrev pub after_copy : ℕ → List ℕ → Copied → Copied
after_copy n front (copied cursector sectors total buf) =
    copied cursector sectors (n + total) (front ++ buf)
after_copy n front (not_copied total e) = not_copied (n + total) e

unfoldable pub next_copy : Segment → ℕ → Option (Ret × List ℕ) → (List ℕ → Copied) → Copied
next_copy seg n none f = not_copied 0 seg.unopened
next_copy seg n (some (err e, buf)) f = not_copied 0 seg.unread
next_copy seg n (some (ret got, buf)) f = after_copy n (take (n * 512) buf) (f (drop (n * 512) buf))

-- The loop over the partitions, and the loop over the blocks.
unfoldable pub segments_loop : List Segment → ℕ → ℕ → List ℕ → Copied
segments_loop [] cursector sectors buf = copied cursector sectors 0 buf
segments_loop (seg ∷ segs) cursector sectors buf =
    let skipped = segments_loop segs (cursector - seg.sectors) sectors buf in
    let tocopy = min (seg.sectors - cursector) sectors in
    if sectors == 0
    then copied cursector sectors 0 buf
    else if leb seg.sectors cursector
    then skipped
    else next_copy seg tocopy (seg.fetch cursector tocopy buf)
        (λ buf'. segments_loop segs 0 (sectors - tocopy) buf')

abbrev pub or_open : Option TpFile → Option TpFile → Option TpFile
or_open none opened = opened
or_open (some file) opened = some file

module _ (source : Source) (d : Disk) where
  abbrev pub read_part : Option TpFile → ℕ → ℕ → List ℕ → Option (Ret × List ℕ)
  read_part none cursector n buf = none
  read_part (some file) cursector n buf = some (tivo_partition_read d file buf cursector n)

  -- A partition that has not been opened is opened at its first read.
  unfoldable pub part_file : BackupInfo → BackupPartition → Option TpFile
  part_file info p =
      or_open (info.files p.partno) (source.tivo_partition_open_direct info.hda p.partno)

  unfoldable pub part_segment : BackupInfo → BackupPartition → Segment
  part_segment info p = record {
    sectors = p.sectors;
    fetch = read_part (part_file info p);
    unopened = opening_partition p.partno;
    unread = backing_up_partitions;
  }

  unfoldable pub block_segment : BackupInfo → BackupBlock → Segment
  block_segment info b = record {
    sectors = b.sectors;
    fetch = λ cursector n buf.
        some (mfsvol_read_data d info.mfs.vols buf (add32 b.firstsector cursector) n);
    unopened = reading_volume;
    unread = reading_volume;
  }

  -- The loop over the blocks goes on where the loop over the partitions ends, with its variables.
  unfoldable pub segments_of : BackupInfo → List Segment
  segments_of info = map (part_segment info) info.parts ++ map (block_segment info) info.blocks

  abbrev pub put_sector : Option (List ℕ) → List ℕ → List ℕ
  put_sector none buf = take 512 buf
  put_sector (some sector) buf = sector

  -- The data from `cursector`, which is relative to the boot sector here.
  unfoldable pub copy_data : BackupInfo → ℕ → ℕ → List ℕ → Copied
  copy_data info cursector sectors buf =
      if cursector == 0
      then after_copy 1 (put_sector (source.tivo_partition_read_bootsector info.hda) buf)
          (segments_loop (segments_of info) 0 (sectors - 1) (drop 512 buf))
      else segments_loop (segments_of info) (cursector - 1) sectors buf

unfoldable pub to_next : BackupInfo → Copied → Next
to_next info (copied cursector sectors total buf) =
    next_sectors total (record info { cursector = info.cursector + total }) buf
to_next info (not_copied total e) =
    next_failed (record info { cursector = info.cursector + total; err_msg = some e })

-- A word as it stands in memory.
abbrev pub word_bytes : ℕ → List ℕ
word_bytes w = store32 (replicate 4 0) 0 w

-- The arrays of `struct backup_partition` and `struct backup_block` as bytes.
unfoldable pub part_bytes : List BackupPartition → List ℕ
part_bytes [] = []
part_bytes (p ∷ ps) = word_bytes p.sectors ++ (p.partno ∷ p.devno ∷ 0 ∷ 0 ∷ part_bytes ps)

unfoldable pub block_bytes : List BackupBlock → List ℕ
block_bytes [] = []
block_bytes (b ∷ bs) = word_bytes b.firstsector ++ (word_bytes b.sectors ++ block_bytes bs)

-- The variables of the header, with what has been put into the buffer.
pub record Header : Type 0 where
  pub sectors : ℕ
  pub retval : ℕ
  pub presector : ℕ
  pub curoff : ℕ
  pub out : List ℕ

-- `memcpy` of what fits of an array that begins at `headerused`, and the count of whole sectors.
-- `none` is a negative size, or an address before the array.
unfoldable pub put_array : List ℕ → ℕ → Header → Option Header
put_array bytes headerused h =
    let end = min (headerused + length bytes) (h.sectors * 512) in
    let whole = end / 512 - h.presector in
    if ltb end h.curoff || ltb h.curoff headerused
    then none
    else some (record {
      sectors = h.sectors - whole;
      retval = h.retval + whole;
      presector = h.presector + whole;
      curoff = end;
      out = h.out ++ take (end - h.curoff) (drop (h.curoff - headerused) bytes);
    })

-- The partitions are put where they are not past; the other arrays by a test with a product.
unfoldable pub put_parts : List ℕ → Header → Option Header
put_parts bytes h = if ltb h.curoff (length bytes) then put_array bytes 0 h else some h

unfoldable pub put_more : List ℕ → ℕ → Option Header → Option Header
put_more bytes headerused none = none
put_more bytes headerused (some h) =
    if ltb 0 h.sectors && ltb h.curoff (length bytes * headerused)
    then put_array bytes headerused h
    else some h

-- The zeros up to the data. The loop runs once at most: after a round no sector is left or wanted.
unfoldable pub put_zeros : ℕ → Header → Header
put_zeros presector h =
    let end = min (presector - h.presector - 1) h.sectors in
    if ltb 0 h.sectors && ltb h.presector (presector - 1)
    then record h {
      sectors = h.sectors - end;
      retval = h.retval + end;
      presector = h.presector + end;
      out = h.out ++ replicate (end * 512 - h.curoff % 512) 0;
    }
    else h

abbrev pub finish_header : ℕ → Option Header → Option Header
finish_header presector none = none
finish_header presector (some h) = some (put_zeros presector h)

unfoldable pub put_header : BackupInfo → ℕ → Option Header
put_header info sectors =
    let parts = part_bytes info.parts in
    let blocks = block_bytes info.blocks in
    let start : Header = record {
      sectors = sectors;
      retval = 0;
      presector = info.cursector - 1;
      curoff = (info.cursector - 1) * 512;
      out = [];
    } in
    let arrays =
      put_more (part_bytes info.mfsparts) (length parts + length blocks)
        (put_more blocks (length parts) (put_parts parts start)) in
    finish_header info.presector arrays

abbrev pub tb_magic : ℕ
tb_magic = 0x5442414b

-- `struct backup_head`, with 488 bytes of zeros.
unfoldable pub head_bytes : BackupInfo → List ℕ
head_bytes info =
    word_bytes tb_magic
    ++ (word_bytes info.back_flags
        ++ (word_bytes info.nsectors
            ++ (word_bytes (length info.parts)
                ++ (word_bytes (length info.blocks) ++ (word_bytes info.nmfs ++ replicate 488 0)))))

-- What a round of the header has put ahead of the rest.
unfoldable pub after_round : ℕ → List ℕ → Next → Next
after_round n front (next_sectors total info buf) = next_sectors (n + total) info (front ++ buf)
after_round n front (next_failed info) = next_failed info
after_round n front next_faulted = next_faulted

abbrev pub or_fault : Option Header → (Header → Next) → Next
or_fault none f = next_faulted
or_fault (some h) f = f h

module _ (source : Source) (d : Disk) where
  -- `while (sectors > 0)`; each round puts a sector at least, and the fuel is the number of sectors.
  unfoldable pub rounds : ℕ → BackupInfo → ℕ → List ℕ → Next
  rounds fuel info zero buf = next_sectors 0 info buf
  rounds zero info (suc n) buf = next_sectors 0 info buf
  rounds (suc fuel) info (suc n) buf =
      if leb info.presector info.cursector
      then to_next info (copy_data source d info (info.cursector - info.presector) (suc n) buf)
      else if info.cursector == 0
      then after_round 1 (head_bytes info)
          (rounds fuel (record info { cursector = 1 }) n (drop 512 buf))
      else or_fault (put_header info (suc n)) (λ h. after_round h.retval h.out (
          rounds fuel (record info { cursector = info.cursector + h.retval }) h.sectors
            (drop (length h.out) buf)))

  unfoldable pub backup_next_sectors : BackupInfo → ℕ → List ℕ → Next
  backup_next_sectors info sectors buf = rounds sectors info sectors buf

-- `backup_finish`.
unfoldable pub backup_finish : BackupInfo → Bool × BackupInfo
backup_finish info =
    if info.cursector == info.nsectors
    then (true, info)
    else (false, record info { err_msg = some ended_early })

abbrev pub too_small : BackupInfo → Next
too_small info = next_failed (record info { err_msg = some buffer_too_small })

abbrev pub with_written : List ℕ → Option (List ℕ × BackupInfo) → Option (List ℕ × BackupInfo)
with_written first none = none
with_written first (some (written, info)) = some (first ++ written, info)

-- `write (fd, buf, curcount) == curcount`: does the output take all bytes of a call, after which the
-- structure is this one?
abbrev pub Output : Type 0
Output = BackupInfo → List ℕ → Bool

-- The loop of backup/backmain.c: what has been written, and the structure. `none` is the exit on an
-- error, of the reading or of the output, for which -1 is one too as it is more than there is to
-- write; or no more fuel.
unfoldable pub write_next :
    Output
    → (BackupInfo → List ℕ → Option (List ℕ × BackupInfo))
    → Next
    → Option (List ℕ × BackupInfo)
write_next output again next_faulted = none
write_next output again (next_failed info) = none
write_next output again (next_sectors zero info buf) = some ([], info)
write_next output again (next_sectors (suc n) info buf) =
    let rest = with_written (take (suc n * 512) buf) (again info buf) in
    if output info (take (suc n * 512) buf) then rest else none

module _ (source : Source) (d : Disk) (deflating : BackupInfo → List ℕ → Next) where
  -- `backup_read` with a size that is a number of sectors, and the results in sectors. The branch of
  -- `BF_COMPRESSED`, which calls zlib, is a parameter.
  unfoldable pub backup_read : BackupInfo → List ℕ → ℕ → Next
  backup_read info buf size =
      if ltb size 512
      then too_small info
      else if has_flag info.back_flags bf_compressed
      then deflating info buf
      else backup_next_sectors source d info (size / 512) buf

  -- The fuel is a number of calls.
  unfoldable pub main_loop : Output → ℕ → BackupInfo → List ℕ → Option (List ℕ × BackupInfo)
  main_loop output zero info buf = none
  main_loop output (suc fuel) info buf =
      write_next output (λ info' buf'. main_loop output fuel info' buf')
        (backup_read info buf (length buf))
