-- ===== src/Inode/RoundTrip.antt =====
-- An inode that lib/inode.c writes is the one that it reads back.
use tivo_tools.Base.{ℕ, ◌-◌, ◌≤◌, ◌≡◌, ◌≢◌, refl, ap, ◌∙◌, arith, List, ◌++◌}
use tivo_tools.Base.{true, some, length, replicate, length-replicate}
use tivo_tools.Base.Memory.{AllBytes, field, store32-AllBytes, length-store32}
use tivo_tools.Crc.{mfs_update_crc}
use tivo_tools.Crc.Check.{check-update}
use tivo_tools.Disk.{Disk, Ret, ret, is_ret}
use tivo_tools.Format.Inode
use tivo_tools.ReadWrite.Pair.{Covers-first, read-write_first}
use tivo_tools.Volume.{VolumeHandle, mfsvol_read_data, mfsvol_write_data}
use tivo_tools.Volume.Access.{Ready, Open, read_data_lem, write_data_lem}
use tivo_tools.Zonemap.{MfsHandle, mfs_inode_to_sector}
use tivo_tools.Inode.{checked, inode_at, mfs_read_inode, write_at, mfs_write_inode}
use tivo_tools.Inode.Read.{inode_at-first}

-- The first of two sectors.
Ready-first : {d : Disk} {hnd : VolumeHandle} {s : ℕ} → Ready d hnd s 2 → Ready d hnd s 1
Ready-first {d} {hnd} {s} r = record {
  vol = r.vol;
  is_found = r.is_found;
  after_start = r.after_start;
  inside = omega (arith, r.inside);
  no_wrap = r.no_wrap;
  covers = Covers-first d r.vol.file (s - r.vol.start) r.covers;
}

read_first-write_pair :
    (d : Disk) (hnd : VolumeHandle) (s : ℕ) (b old : List ℕ)
    → Open d hnd s 2
    → AllBytes b
    → length b ≡ 512
    → length old ≤ 512
    → let (r, _, d') = mfsvol_write_data d hnd (b ++ b) s 2 in
      (r ≡ ret 1024) × (mfsvol_read_data d' hnd old s 1 ≡ (ret 512, b))
unfolding Ready-first
read_first-write_pair d hnd s b old o h l small =
    rw
      (
        write_data_lem d hnd s 2 o.ready (b ++ b) o.real o.for_writing,
        read_data_lem d hnd s 1 (Ready-first o.ready),
      )
      (read-write_first d o.ready.vol.file (s - o.ready.vol.start) o.ready.covers b old h l small)

module _ (d : Disk) (hnd : MfsHandle) (inode : List ℕ) (s : ℕ) where
  abbrev sealed : List ℕ
  sealed = mfs_update_crc inode 512 Inode.checksum

  abbrev after : Disk
  after = (mfsvol_write_data d hnd.vols (sealed ++ sealed) s 2).2

  sealed_lem :
      AllBytes inode
      → length inode ≡ 512
      → AllBytes sealed × (length sealed ≡ 512) × (checked sealed ≡ true)
  unfolding mfs_update_crc
  sealed_lem h l = (
    store32-AllBytes inode Inode.checksum _ h,
    length-store32 inode Inode.checksum _ ∙ l,
    check-update inode 512 Inode.checksum (omega arith) (omega arith),
  )

  write_at_lem :
      s ≢ 0
      → (mfsvol_write_data d hnd.vols (sealed ++ sealed) s 2).0 ≡ ret 1024
      → write_at d inode (s, hnd) ≡ (true, sealed, hnd, after)
  unfolding write_at
  write_at_lem ne r = rw r (ground arith)

  read_after_lem :
      (i : ℕ)
      → s ≢ 0
      → mfsvol_read_data after hnd.vols (replicate 512 0) s 1 ≡ (ret 512, sealed)
      → checked sealed ≡ true
      → inode_at after hnd i s ≡ (some sealed, hnd)
  read_after_lem i ne r good =
      inode_at-first after hnd i s ne (ap (λ (x : Ret × List ℕ). is_ret x.0 512) r)
        (ap (λ (x : Ret × List ℕ). checked x.1) r ∙ good)
      ∙ ap (λ (x : Ret × List ℕ). (some x.1, hnd)) r

-- An inode of 512 bytes that is written is read back by its number, with its checksum set: where the
-- number has a sector, and both sectors of the inode stand on a volume that can be written. The
-- write reports success, leaves the handle alone, and gives the caller's inode its checksum.
pub read_inode-write_inode :
    (d : Disk) (hnd : MfsHandle) (inode : List ℕ) (s : ℕ)
    → mfs_inode_to_sector hnd (field inode Inode.inode) ≡ (s, hnd)
    → s ≢ 0
    → Open d hnd.vols s 2
    → AllBytes inode
    → length inode ≡ 512
    → let (ok, inode', hnd', d') = mfs_write_inode d hnd inode in
      (ok ≡ true)
      × (inode' ≡ mfs_update_crc inode 512 Inode.checksum)
      × (hnd' ≡ hnd)
      × (mfs_read_inode d' hnd (field inode Inode.inode) ≡ (some inode', hnd))
unfolding mfs_write_inode mfs_read_inode
read_inode-write_inode d hnd inode s e ne o h l =
    rw (ap (write_at d inode) e, write_at_lem d hnd inode s ne pair.0) (refl, refl, refl, again)
  where
    b : List ℕ
    b = sealed d hnd inode s

    facts : AllBytes b × (length b ≡ 512) × (checked b ≡ true)
    facts = sealed_lem d hnd inode s h l

    pair :
        let (r, _, d') = mfsvol_write_data d hnd.vols (b ++ b) s 2 in
        (r ≡ ret 1024) × (mfsvol_read_data d' hnd.vols (replicate 512 0) s 1 ≡ (ret 512, b))
    pair =
        read_first-write_pair d hnd.vols s b (replicate 512 0) o facts.0 facts.1
          (omega (arith, length-replicate {A = ℕ} 512 0))

    again :
        inode_at
          (after d hnd inode s)
          (mfs_inode_to_sector hnd (field inode Inode.inode)).1
          (field inode Inode.inode)
          (mfs_inode_to_sector hnd (field inode Inode.inode)).0
        ≡ (some b, hnd)
    again =
        ap (λ (x : ℕ × MfsHandle). inode_at (after d hnd inode s) x.1 (field inode Inode.inode) x.0)
          e
        ∙ read_after_lem d hnd inode s (field inode Inode.inode) ne pair.1 facts.2
