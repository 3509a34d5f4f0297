-- ===== src/Inode/Read.antt =====
-- Reading an inode of lib/inode.c: when it succeeds, and what it gives.
use tivo_tools.Base.{ℕ, ◌≡◌, ◌≢◌, ◌⊎◌, inl, inr, refl, arith, List, true, false}
use tivo_tools.Base.{some, replicate, Bool-cases}
use tivo_tools.Base.Memory.{add32}
use tivo_tools.Disk.{Disk, Ret, is_ret}
use tivo_tools.Volume.{mfsvol_read_data}
use tivo_tools.Zonemap.{MfsHandle, mfs_inode_to_sector}
use tivo_tools.Inode.{checked, inode_at, mfs_read_inode}

module _ (d : Disk) (hnd : MfsHandle) where
  abbrev pub first_read : ℕ → Ret × List ℕ
  first_read s = mfsvol_read_data d hnd.vols (replicate 512 0) s 1

  abbrev backup_read : ℕ → Ret × List ℕ
  backup_read s = mfsvol_read_data d hnd.vols (first_read s).1 (add32 s 1) 1

  -- The first copy can be read, and has a good checksum, or the second can be read and has one.
  abbrev pub Recoverable : ℕ → Type 0
  Recoverable s =
      (s ≢ 0)
      × (is_ret (first_read s).0 512 ≡ true)
      × ((checked (first_read s).1 ≡ true)
          ⊎ ((is_ret (backup_read s).0 512 ≡ true) × (checked (backup_read s).1 ≡ true)))

  -- One of the copies, with a good checksum.
  abbrev pub IsCopy : ℕ → List ℕ → Type 0
  IsCopy s inode =
      (checked inode ≡ true) × ((inode ≡ (first_read s).1) ⊎ (inode ≡ (backup_read s).1))

  pub inode_at-first :
      (i s : ℕ)
      → s ≢ 0
      → is_ret (first_read s).0 512 ≡ true
      → checked (first_read s).1 ≡ true
      → inode_at d hnd i s ≡ (some (first_read s).1, hnd)
  unfolding inode_at
  inode_at-first i s p q r = ground arith

  inode_at-backup :
      (i s : ℕ)
      → s ≢ 0
      → is_ret (first_read s).0 512 ≡ true
      → is_ret (backup_read s).0 512 ≡ true
      → checked (first_read s).1 ≡ false
      → checked (backup_read s).1 ≡ true
      → inode_at d hnd i s ≡ (some (backup_read s).1, hnd)
  unfolding inode_at
  inode_at-backup i s p q r t u = ground arith

  -- What a sector that is recoverable gives.
  inode_at-Recoverable :
      (i s : ℕ)
      → Recoverable s
      → (inode : List ℕ) × (inode_at d hnd i s ≡ (some inode, hnd)) × IsCopy s inode
  inode_at-Recoverable i s (p, q, c) = elim (Bool-cases (checked (first_read s).1)) [
    | inl good ↦ ((first_read s).1, inode_at-first i s p q good, (good, inl refl))
    | inr bad ↦ elim c [
      | inl good ↦ absurd (ground arith)
      | inr (t, u) ↦ ((backup_read s).1, inode_at-backup i s p q t bad u, (u, inr refl))
    ]
  ]

  Recoverable-inode_at :
      (i s : ℕ) (inode : List ℕ) → (inode_at d hnd i s).0 ≡ some inode → Recoverable s
  unfolding inode_at
  Recoverable-inode_at i s inode e = ground arith

-- An inode whose sector is known, and whose first copy can be read off the set, all 512 bytes of it,
-- is read where that copy has a good checksum, or where it has not and the second copy can be read
-- and has one. No error is set, and the inode that is given is one of the two copies, with a good
-- checksum. (A first copy that cannot be read is not made good by the second.)
pub read_inode-Recoverable :
    (d : Disk) (hnd : MfsHandle) (i : ℕ)
    → Recoverable d (mfs_inode_to_sector hnd i).1 (mfs_inode_to_sector hnd i).0
    → (inode : List ℕ) × (mfs_read_inode d hnd i ≡ (some inode, (mfs_inode_to_sector hnd i).1))
      × IsCopy d (mfs_inode_to_sector hnd i).1 (mfs_inode_to_sector hnd i).0 inode
unfolding mfs_read_inode
read_inode-Recoverable d hnd i =
    inode_at-Recoverable d (mfs_inode_to_sector hnd i).1 i (mfs_inode_to_sector hnd i).0

-- An inode is given only where a copy of it has a good checksum, and what is given has.
pub read_inode_checked :
    (d : Disk) (hnd : MfsHandle) (i : ℕ) (inode : List ℕ)
    → (mfs_read_inode d hnd i).0 ≡ some inode
    → Recoverable d (mfs_inode_to_sector hnd i).1 (mfs_inode_to_sector hnd i).0
      × (checked inode ≡ true)
read_inode_checked d hnd i inode e =
    (recoverable, same (read_inode-Recoverable d hnd i recoverable))
  where
    recoverable : Recoverable d (mfs_inode_to_sector hnd i).1 (mfs_inode_to_sector hnd i).0
    recoverable = unfold mfs_read_inode in Recoverable-inode_at d _ i _ inode e

    same :
        ((other : List ℕ) × (mfs_read_inode d hnd i ≡ (some other, (mfs_inode_to_sector hnd i).1))
          × IsCopy d (mfs_inode_to_sector hnd i).1 (mfs_inode_to_sector hnd i).0 other)
        → checked inode ≡ true
    same (other, is, (good, _)) = cc
