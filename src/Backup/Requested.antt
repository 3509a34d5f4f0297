-- ===== src/Backup/Requested.antt =====
-- The whole scan of backup/backup.c against the list of the runs that it asks for.
use tivo_tools.Base.{ℕ, zero, suc, ◌+◌, ◌≡◌, refl, ◌∙◌, ap, arith}
use tivo_tools.Base.{List, [], ◌∷◌, ◌++◌, Bool, true, false, ◌&&◌, length, ◌==◌, Option, none, some}
use tivo_tools.Base.{if◌then◌else◌, Bool-cases, inl, inr, All}
use tivo_tools.Base.Memory.{field}
use tivo_tools.Disk.{Disk}
use tivo_tools.Format.Inode
use tivo_tools.Zonemap.{MfsHandle}
use tivo_tools.Inode.{mfs_read_inode, type_of, ty_stream}
use tivo_tools.Backup.Sets.{Started, backed_up}
use tivo_tools.Backup.Info.{has_flag, bf_shrink}
use tivo_tools.Backup.Scan.{
  Scan, partstarts, other_loop, wanted, to_save, scan_inode, inodes_loop, whole_volumes,
}
use tivo_tools.Backup.Gathered.{
  Saved, saved, Separate, split-Separate, ext-Separate, stream_runs, or_stop-Saved, run-Saved,
  stream_loop-Saved,
}

-- The runs of one inode.
unfoldable pub inode_runs : ℕ → ℕ → Option (List ℕ) → List (ℕ × ℕ)
inode_runs flags thresh none = []
inode_runs flags thresh (some inode) =
    if type_of inode == ty_stream && wanted flags thresh inode
    then stream_runs (field inode Inode.numblocks) inode 0 (to_save flags inode)
    else []

-- The runs of the inodes from one on, and the handle after they have been read.
unfoldable pub inodes_runs : ℕ → Disk → ℕ → ℕ → ℕ → MfsHandle → List (ℕ × ℕ)
inodes_runs zero d flags thresh loop hnd = []
inodes_runs (suc n) d flags thresh loop hnd =
    let (inode, hnd') = mfs_read_inode d hnd loop in
    inode_runs flags thresh inode ++ inodes_runs n d flags thresh (loop + 1) hnd'

-- Every other volume.
unfoldable pub volume_runs : List (ℕ × ℕ) → Bool → List (ℕ × ℕ)
volume_runs [] app = []
volume_runs (v ∷ vs) true = v ∷ volume_runs vs false
volume_runs (v ∷ vs) false = volume_runs vs true

other_loop-blocks :
    (n : ℕ) (inode : List ℕ) (i : ℕ) (scan : Scan)
    → (other_loop n inode i scan).blocks ≡ scan.blocks
unfolding other_loop
other_loop-blocks zero inode i scan = refl
other_loop-blocks (suc n) inode i scan = other_loop-blocks n inode (i + 1) _

module _ (start vsize : ℕ) (vs : List (ℕ × ℕ)) where
  abbrev pub Fits : Scan → Type 0
  Fits scan = All Started scan.blocks × (length scan.blocks ≡ length ((start, vsize) ∷ vs))

  nothing-Saved :
      (scan scan' : Scan)
      → Fits scan
      → scan'.blocks ≡ scan.blocks
      → Saved scan.blocks [] (some scan')
  nothing-Saved scan scan' (h, l) e =
      saved scan' (rw e h) (λ x. rw e (ground arith)) (rw e (omega arith)) (ap length e)

  scan_inode-Saved :
      (flags thresh : ℕ) (inode : Option (List ℕ)) (scan : Scan)
      → Fits scan
      → Separate (backed_up scan.blocks) (inode_runs flags thresh inode)
      → Saved scan.blocks
          (inode_runs flags thresh inode)
          (scan_inode flags thresh (partstarts ((start, vsize) ∷ vs)) inode scan)
  unfolding scan_inode inode_runs
  scan_inode-Saved flags thresh none scan f apart = nothing-Saved scan scan f refl
  scan_inode-Saved flags thresh (some inode) scan (h, l) apart =
      elim (Bool-cases (type_of inode == ty_stream)) [
        | inl stream ↦ elim (Bool-cases (wanted flags thresh inode)) [
          | inl small ↦
              rw (stream, small)
                (stream_loop-Saved start vsize vs _ inode 0 _ scan h l
                  (rw (stream, small) at apart))
          | inr large ↦ rw (stream, large) (nothing-Saved scan scan (h, l) refl)
        ]
        | inr other ↦ rw other (nothing-Saved scan _ (h, l) (other_loop-blocks _ inode 0 scan))
      ]

  pub inodes_loop-Saved :
      (n : ℕ) (d : Disk) (flags thresh loop : ℕ) (hnd : MfsHandle) (scan : Scan)
      → Fits scan
      → Separate (backed_up scan.blocks) (inodes_runs n d flags thresh loop hnd)
      → Saved scan.blocks
          (inodes_runs n d flags thresh loop hnd)
          (inodes_loop n d flags thresh (partstarts ((start, vsize) ∷ vs)) loop hnd scan).0
  unfolding inodes_loop inodes_runs
  inodes_loop-Saved zero d flags thresh loop hnd scan f apart = nothing-Saved scan scan f refl
  inodes_loop-Saved (suc n) d flags thresh loop hnd scan (h, l) apart =
      let (first, rest) =
        split-Separate (inode_runs flags thresh (mfs_read_inode d hnd loop).0) _ _ apart in
      or_stop-Saved scan.blocks _ _ _ _ _ (scan_inode-Saved flags thresh _ scan (h, l) first) rest
        (λ scan' h' l' r'. inodes_loop-Saved n d flags thresh (loop + 1) _ scan' (h', l' ∙ l) r')

  pub whole_volumes-Saved :
      (left : List (ℕ × ℕ)) (flags : ℕ) (app : Bool) (nmfs : ℕ) (scan : Scan)
      → has_flag flags bf_shrink ≡ false
      → Fits scan
      → Separate (backed_up scan.blocks) (volume_runs left app)
      → Saved scan.blocks
          (volume_runs left app)
          (whole_volumes left flags (partstarts ((start, vsize) ∷ vs)) app nmfs scan).0
  unfolding whole_volumes volume_runs
  whole_volumes-Saved [] flags app nmfs scan e f apart = nothing-Saved scan scan f refl
  whole_volumes-Saved ((loop, size) ∷ left) flags false nmfs scan e f apart =
      whole_volumes-Saved left flags true _ scan e f apart
  whole_volumes-Saved ((loop, size) ∷ left) flags true nmfs scan e (h, l) (p, small, apart, rest) =
      rw e (
        or_stop-Saved scan.blocks ((loop, size) ∷ []) _ _ _ _
          (run-Saved start vsize vs scan loop size h l p small apart)
          (ext-Separate _ _ _ (λ x. ground arith) rest)
          (λ scan' h' l' r'. whole_volumes-Saved left flags false _ scan' e (h', l' ∙ l) r'))
