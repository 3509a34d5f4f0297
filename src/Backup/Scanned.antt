-- ===== src/Backup/Scanned.antt =====
-- The blocks of a backup that the scan of backup/backup.c comes to.
use tivo_tools.Base.{ℕ, suc, ◌+◌, ◌≡◌, refl, sym, ◌∙◌, ap, arith}
use tivo_tools.Base.{List, [], ◌∷◌, ◌++◌, true, false, length, Option, some, All}
use tivo_tools.Disk.{Disk}
use tivo_tools.Zonemap.{mfs_inode_count}
use tivo_tools.Backup.Blocks.{Block, BackupBlock, sum_blocks, copied, block_list_array_concat}
use tivo_tools.Backup.Sets.{Started, fresh, backed_up, backed_sectors}
use tivo_tools.Backup.Info.{BackupInfo, has_flag, bf_shrink, bf_truncated}
use tivo_tools.Backup.Scan.{
  Scan, Scanned, scanned, scan_inodes, scan_rest, scan_volumes, finish_scan, highest_zone,
  all_volumes, first_lists,
}
use tivo_tools.Backup.Partitions.{add_blocks_to_backup_info, copy_blocks}
use tivo_tools.Backup.Gathered.{
  Saved, saved, Separate, split-Separate, ext-Separate, in_runs, in_runs_append, sum_runs,
  sum_runs_append,
}
use tivo_tools.Backup.Requested.{inodes_runs, volume_runs, inodes_loop-Saved, whole_volumes-Saved}
use tivo_tools.Backup.Copied.{Copy, ext-Copy, copy, in_blocks, copied-concat}

-- The runs that the scan asks for: those of the streams, and every other volume.
abbrev pub asked_for : Disk → BackupInfo → List (ℕ × ℕ)
asked_for d info =
    inodes_runs (mfs_inode_count info.mfs) d info.back_flags info.thresh 0 info.mfs
    ++ volume_runs (all_volumes info.mfs) true

-- A scan that has a list, from which the blocks are copied that stand for the runs.
pub data Backed (info : BackupInfo) (runs : List (ℕ × ℕ)) : Scanned → Type 0 where
  backed :
      (blocks : List Block) (info' info'' : BackupInfo)
      → add_blocks_to_backup_info info' blocks ≡ some info''
      → ((x : ℕ) → in_blocks info''.blocks x ≡ in_runs runs x)
      → info''.nsectors ≡ info.nsectors + sum_runs runs
      → Backed info runs (scanned blocks info')

first_lists-Started : (vs : List (ℕ × ℕ)) → All Started (first_lists vs)
first_lists-Started [] = tt
first_lists-Started (v ∷ vs) = (fresh [] refl, first_lists-Started vs)

backed_up_first : (vs : List (ℕ × ℕ)) (x : ℕ) → backed_up (first_lists vs) x ≡ false
backed_up_first [] x = refl
backed_up_first (v ∷ vs) x = ground (arith, backed_up_first vs x)

backed_sectors_first : (vs : List (ℕ × ℕ)) → backed_sectors (first_lists vs) ≡ 0
backed_sectors_first [] = refl
backed_sectors_first (v ∷ vs) = omega (arith, backed_sectors_first vs)

length-first_lists : (vs : List (ℕ × ℕ)) → length (first_lists vs) ≡ length vs
length-first_lists [] = refl
length-first_lists (v ∷ vs) = ap suc (length-first_lists vs)

copied-Backed :
    (info info' : BackupInfo) (runs : List (ℕ × ℕ)) (blocks : List Block)
    → info'.nsectors ≡ info.nsectors
    → Copy (in_runs runs) (sum_runs runs) (copied blocks)
    → Backed info runs (scanned blocks info')
unfolding add_blocks_to_backup_info copy_blocks
copied-Backed info info' runs blocks n c = go (copied blocks) refl c
  where
    go :
        (o : Option (List BackupBlock))
        → copied blocks ≡ o
        → Copy (in_runs runs) (sum_runs runs) o
        → Backed info runs (scanned blocks info')
    go _ e (copy bs h k) =
        backed blocks info'
          (record info' { blocks = bs; nsectors = info'.nsectors + sum_blocks bs })
          (ap (copy_blocks info') e) h (omega (arith, n, k))

finished-Backed :
    (info info' : BackupInfo) (old : List (List Block)) (runs more : List (ℕ × ℕ)) (nmfs : ℕ)
    (o : Option Scan)
    → info'.nsectors ≡ info.nsectors
    → ((x : ℕ) → backed_up old x ≡ in_runs runs x)
    → backed_sectors old ≡ sum_runs runs
    → Saved old more o
    → Backed info (runs ++ more) (finish_scan info' (o, nmfs))
unfolding finish_scan
finished-Backed info info' old runs more nmfs _ n covers size (saved scan h union size' l) =
    copied-Backed info (record info' { nmfs = nmfs }) (runs ++ more)
      (block_list_array_concat scan.blocks) n
      (ext-Copy _ _ _ _ _ (λ x. ground (arith, union x, covers x, in_runs_append runs more x))
        (omega (arith, size, size', sum_runs_append runs more)) (copied-concat scan.blocks h))

module _ (start vsize : ℕ) (vs : List (ℕ × ℕ)) where
  rest-Backed :
      (info info' : BackupInfo) (runs : List (ℕ × ℕ)) (o : Option Scan)
      → info'.nsectors ≡ info.nsectors
      → has_flag info'.back_flags bf_shrink ≡ false
      → has_flag info'.back_flags bf_truncated ≡ false
      → Saved (first_lists ((start, vsize) ∷ vs)) runs o
      → Separate (λ x. in_runs runs x) (volume_runs ((start, vsize) ∷ vs) true)
      → Backed info
          (runs ++ volume_runs ((start, vsize) ∷ vs) true)
          (scan_rest info' ((start, vsize) ∷ vs) o)
  unfolding scan_rest highest_zone scan_volumes
  rest-Backed info info' runs _ n s t (saved scan h union size l) apart =
      rw (t, s)
        (finished-Backed info info' scan.blocks runs _ _ _ n covers
          (omega (arith, size, backed_sectors_first ((start, vsize) ∷ vs)))
          (whole_volumes-Saved start vsize vs ((start, vsize) ∷ vs) info'.back_flags true info'.nmfs
            (record scan { highest = scan.highest }) s
            (h, l ∙ length-first_lists ((start, vsize) ∷ vs))
            (ext-Separate _ _ _ (λ x. sym (covers x)) apart)))
    where
      covers : (x : ℕ) → backed_up scan.blocks x ≡ in_runs runs x
      covers x = ground (arith, union x, backed_up_first ((start, vsize) ∷ vs) x)

-- The scan of a volume set succeeds, and the blocks that are copied from its list stand for the
-- sectors of the runs that it asks for, whose number is added to `nsectors`: the runs of the streams
-- below the threshold and the volumes for applications, where the set has a volume, the flags
-- BF_SHRINK and BF_TRUNCATED are not set, and those runs are not empty, end below 2 ^ 32 and share
-- no sector.
pub scan_inodes-Backed :
    (d : Disk) (info : BackupInfo) (first : ℕ × ℕ) (vs : List (ℕ × ℕ))
    → all_volumes info.mfs ≡ first ∷ vs
    → has_flag info.back_flags bf_shrink ≡ false
    → has_flag info.back_flags bf_truncated ≡ false
    → Separate (λ x. false) (asked_for d info)
    → Backed info (asked_for d info) (scan_inodes d info)
unfolding scan_inodes
scan_inodes-Backed d info (start, vsize) vs e s t apart =
    let (h1, h2) =
      split-Separate
        (inodes_runs (mfs_inode_count info.mfs) d info.back_flags info.thresh 0 info.mfs)
        (volume_runs (all_volumes info.mfs) true) _ apart in
    rw e (
      rest-Backed start vsize vs info _ _ _ refl s t
        (inodes_loop-Saved start vsize vs (mfs_inode_count info.mfs) d info.back_flags info.thresh 0
          info.mfs (record { blocks = first_lists ((start, vsize) ∷ vs); pool = []; highest = 0 })
          (first_lists-Started ((start, vsize) ∷ vs), length-first_lists ((start, vsize) ∷ vs))
          (ext-Separate _ _ _ (λ x. sym (backed_up_first ((start, vsize) ∷ vs) x)) h1))
        (rw e at h2))
