-- ===== src/Backup/Held.antt =====
-- The partitions and blocks of a backup on a drive: what the segments of backup/backup.c hold.
use tivo_tools.Base.{
  ℕ, zero, suc, ◌+◌, ◌-◌, ◌*◌, ◌^◌, ◌≤◌, ◌<◌, ◌≡◌, refl, sym, ◌∙◌, ap, ap₂, arith,
}
use tivo_tools.Base.{List, [], ◌∷◌, ◌++◌, false, some, length, take, drop, drop-nil}
use tivo_tools.Base.Memory.{add32}
use tivo_tools.Disk.{Disk, ret, run, overlay}
use tivo_tools.Disk.Laws.{length-run}
use tivo_tools.ReadWrite.{TpFile, tivo_partition_swab, tivo_partition_offset, tivo_partition_read}
use tivo_tools.ReadWrite.Transfer.{Covers, read_whole}
use tivo_tools.Volume.{mfsvol_read_data}
use tivo_tools.Volume.Access.{Ready, read_data_lem}
use tivo_tools.Backup.Blocks.{BackupBlock}
use tivo_tools.Backup.Info.{BackupInfo, BackupPartition}
use tivo_tools.Backup.Partitions.{Source}
use tivo_tools.Backup.Stream.{part_segment, part_file, block_segment, read_part, or_open}
use tivo_tools.Backup.Sectors.{flat, AreSectors, Holds}

-- Sectors of a device, one after another.
abbrev pub sectors_on : Disk → ℕ → ℕ → ℕ → List (List ℕ)
sectors_on d fd s zero = []
sectors_on d fd s (suc n) = d.sector fd s ∷ sectors_on d fd (s + 1) n

overlay_lem : (xs ys : List ℕ) → overlay xs ys ≡ xs ++ drop (length xs) ys
unfolding overlay
overlay_lem [] ys = refl
overlay_lem (x ∷ xs) [] = ap (◌∷◌ x) (overlay_lem xs [] ∙ ap (λ b. xs ++ b) (drop-nil (length xs)))
overlay_lem (x ∷ xs) (y ∷ ys) = ap (◌∷◌ x) (overlay_lem xs ys)

module _ (d : Disk) (fd : ℕ) where
  flat-sectors_on : (s n : ℕ) → flat (sectors_on d fd s n) ≡ run d fd s n
  unfolding run
  flat-sectors_on s zero = refl
  flat-sectors_on s (suc n) = ap (λ b. d.sector fd s ++ b) (flat-sectors_on (s + 1) n)

  length-sectors_on : (s n : ℕ) → length (sectors_on d fd s n) ≡ n
  length-sectors_on s zero = refl
  length-sectors_on s (suc n) = ap suc (length-sectors_on (s + 1) n)

  take-sectors_on : (s n m : ℕ) → n ≤ m → take n (sectors_on d fd s m) ≡ sectors_on d fd s n
  take-sectors_on s zero m h = refl
  take-sectors_on s (suc n) zero h = absurd (omega arith)
  take-sectors_on s (suc n) (suc m) h =
      ap (◌∷◌ (d.sector fd s)) (take-sectors_on (s + 1) n m (omega arith))

  drop-sectors_on :
      (s t c m : ℕ) → s + c ≡ t → c ≤ m → drop c (sectors_on d fd s m) ≡ sectors_on d fd t (m - c)
  drop-sectors_on s t zero m e h = ap₂ (sectors_on d fd) {y = t} (omega arith) (omega arith)
  drop-sectors_on s t (suc c) zero e h = absurd (omega arith)
  drop-sectors_on s t (suc c) (suc m) e h =
      drop-sectors_on (s + 1) t c m (omega arith) (omega arith)
      ∙ ap (sectors_on d fd t) (omega arith)

  sectors_on_sized :
      ((s : ℕ) → length (d.sector fd s) ≡ 512) → (s n : ℕ) → AreSectors (sectors_on d fd s n)
  sectors_on_sized h s zero = tt
  sectors_on_sized h s (suc n) = (h s, sectors_on_sized h (s + 1) n)

module _ (d : Disk) (f : TpFile) (plain : tivo_partition_swab f ≡ false)
    (sized : (s : ℕ) → length (d.sector f.fd s) ≡ 512) where
  -- The sectors of a run of a partition.
  abbrev pub on_file : ℕ → ℕ → List (List ℕ)
  on_file s n = sectors_on d f.fd (s + tivo_partition_offset f) n

  read_covered :
      (s c m n : ℕ) (buf : List ℕ)
      → Covers d f (s + c) n
      → c + n ≤ m
      → tivo_partition_read d f buf (s + c) n
        ≡ (ret (n * 512), flat (take n (drop c (on_file s m))) ++ drop (n * 512) buf)
  read_covered s c m n buf h inside =
      rw plain at (read_whole d f (s + c) n h buf) ∙ ap (λ (b : List ℕ). (ret (n * 512), b)) laid
    where
      at : ℕ
      at = s + c + tivo_partition_offset f

      these : take n (drop c (on_file s m)) ≡ sectors_on d f.fd at n
      these =
          ap (take n) (
            drop-sectors_on d f.fd (s + tivo_partition_offset f) at c m (omega arith) (omega arith))
          ∙ take-sectors_on d f.fd at n (m - c) (omega arith)

      laid :
          overlay (run d f.fd at n) buf ≡ flat (take n (drop c (on_file s m))) ++ drop (n * 512) buf
      laid =
          overlay_lem (run d f.fd at n) buf
          ∙ ap₂ (λ b k. b ++ drop k buf) (sym (ap flat these ∙ flat-sectors_on d f.fd at n))
              (length-run d f.fd at n sized)

  -- A partition that is open, is not byte swapped, and can be read throughout.
  pub part-Holds :
      (source : Source) (info : BackupInfo) (p : BackupPartition)
      → info.files p.partno ≡ some f
      → ((c n : ℕ) → 0 < n → c + n ≤ p.sectors → Covers d f c n)
      → Holds (part_segment source d info p) (on_file 0 p.sectors)
  unfolding part_segment part_file
  part-Holds source info p e h = record {
    counts = length-sectors_on d f.fd _ p.sectors;
    sized = sectors_on_sized d f.fd sized _ p.sectors;
    reads = λ c n buf asked inside room.
        ap
          (λ o.
            read_part source d (or_open o (source.tivo_partition_open_direct info.hda p.partno)) c n
              buf)
          e
        ∙ ap some (from_start c n buf (h c n asked inside) inside);
  }
    where
      from_start :
          (c n : ℕ) (buf : List ℕ)
          → Covers d f c n
          → c + n ≤ p.sectors
          → tivo_partition_read d f buf c n
            ≡ (ret (n * 512), flat (take n (drop c (on_file 0 p.sectors))) ++ drop (n * 512) buf)
      from_start c n buf cover inside =
          let zero_first : 0 + c ≡ c = omega arith in
          rw zero_first at (read_covered 0 c p.sectors n buf (rw zero_first cover) inside)

  -- A block that one volume holds, whose file is such a partition.
  pub block-Holds :
      (source : Source) (info : BackupInfo) (b : BackupBlock) (start : ℕ)
      → start ≤ b.firstsector
      → b.firstsector + b.sectors < 2 ^ 32
      → ((c n : ℕ)
          → 0 < n
          → c + n ≤ b.sectors
          → (r : Ready d info.mfs.vols (b.firstsector + c) n) × ((r.vol.start ≡ start)
              × (r.vol.file ≡ f)))
      → Holds (block_segment source d info b) (on_file (b.firstsector - start) b.sectors)
  unfolding block_segment
  block-Holds source info b start above small h = record {
    counts = length-sectors_on d f.fd _ b.sectors;
    sized = sectors_on_sized d f.fd sized _ b.sectors;
    reads = λ c n buf asked inside room. ap some (at_block c n buf (h c n asked inside) inside);
  }
    where
      at_block :
          (c n : ℕ) (buf : List ℕ)
          → (r : Ready d info.mfs.vols (b.firstsector + c) n) × ((r.vol.start ≡ start)
              × (r.vol.file ≡ f))
          → c + n ≤ b.sectors
          → mfsvol_read_data d info.mfs.vols buf (add32 b.firstsector c) n ≡ (
            ret (n * 512),
            flat (take n (drop c (on_file (b.firstsector - start) b.sectors)))
                ++ drop (n * 512) buf,
          )
      at_block c n buf (r, (e, e')) inside =
          let sum : add32 b.firstsector c ≡ b.firstsector + c = omega arith in
          let relative : b.firstsector + c - start ≡ b.firstsector - start + c = omega arith in
          rw sum (
            read_data_lem d info.mfs.vols (b.firstsector + c) n r d buf
            ∙ rw (e, e', relative)
                (read_covered (b.firstsector - start) c b.sectors n buf
                  (rw (e, e', relative) at r.covers) inside))
