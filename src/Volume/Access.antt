-- ===== src/Volume/Access.antt =====
-- Reading and writing the sectors of a volume set.
use tivo_tools.Base.{ℕ, ◌+◌, ◌-◌, ◌*◌, ◌^◌, ◌≤◌, ◌<◌, ◌≡◌, refl, ap, ◌∙◌, arith}
use tivo_tools.Base.{List, ◌∷◌, Bool, false, ltb, Option, none, some, length}
use tivo_tools.Base.{inl, inr}
use tivo_tools.Base.Memory.{sub32, add32, AllBytes}
use tivo_tools.Disk.{Disk, Errno, err, ret, eio, eperm}
use tivo_tools.ReadWrite.{tivo_partition_read, tivo_partition_write}
use tivo_tools.ReadWrite.Transfer.{Covers, read-write}
use tivo_tools.Base.{◌⊎◌}
use tivo_tools.Volume.Layout.{IsLaidOut, sum_sectors, sum_sectors-append, volume_set_size_lem}
use tivo_tools.Volume.Lookup.{Located, get_volume-Located, get_volume_outside}
use tivo_tools.Volume.{
  VolumeInfo, VolumeHandle, mfsvol_get_volume, mfsvol_volume_set_size, mfsvol_is_writable,
  writable_in, read_from, write_to,
}
use native.Mathlib.Decide.{dec_lt}
use tivo_tools.Volume.{mfsvol_read_data, mfsvol_write_data}

-- A run of sectors that one volume of the set holds and its device can transfer.
pub record Ready (d : Disk) (hnd : VolumeHandle) (sector count : ℕ) : Type 0 where
  pub vol : VolumeInfo
  pub is_found : mfsvol_get_volume hnd sector ≡ some vol
  pub after_start : vol.start ≤ sector
  pub inside : sector + count ≤ vol.start + vol.sectors
  pub no_wrap : vol.start + vol.sectors < 2 ^ 32
  pub covers : Covers d vol.file (sector - vol.start) count

-- Such a run is written for real.
pub record Open (d : Disk) (hnd : VolumeHandle) (sector count : ℕ) : Type 0 where
  pub ready : Ready d hnd sector count
  pub real : hnd.fake_write ≡ false
  pub for_writing : ready.vol.rdonly_volume ≡ false

module _ (d : Disk) (hnd : VolumeHandle) (sector count : ℕ) (r : Ready d hnd sector count) where
  inner_is : sub32 sector r.vol.start ≡ sector - r.vol.start
  inner_is = omega (arith, r.after_start, r.inside, r.no_wrap)

  in_bounds : ltb r.vol.sectors (add32 (sector - r.vol.start) count) ≡ false
  in_bounds = ground (arith, r.after_start, r.inside, r.no_wrap)

  -- Such reads and writes go to the file of the volume, at the sector relative to its start.
  pub read_data_lem :
      (e : Disk) (buf : List ℕ)
      → mfsvol_read_data e hnd buf sector count
        ≡ tivo_partition_read e r.vol.file buf (sector - r.vol.start) count
  unfolding mfsvol_read_data read_from
  read_data_lem e buf =
      ap (read_from e buf sector count) r.is_found ∙ ground (arith, inner_is, in_bounds)

  pub write_data_lem :
      (buf : List ℕ)
      → hnd.fake_write ≡ false
      → r.vol.rdonly_volume ≡ false
      → mfsvol_write_data d hnd buf sector count
        ≡ tivo_partition_write d r.vol.file buf (sector - r.vol.start) count
  unfolding mfsvol_write_data write_to
  write_data_lem buf real rw_vol =
      ap (write_to d hnd.fake_write buf sector count) r.is_found
      ∙ ground (arith, inner_is, in_bounds, real, rw_vol)

-- Whole sectors of the set that are written are read back as they were, whatever the buffer held
-- that they are read into: where they lie in one volume that is open for writing, its device can
-- transfer them, and writes are not faked. Both calls report all bytes, and the writer's buffer is
-- unchanged.
pub read_data-write_data :
    (d : Disk) (hnd : VolumeHandle) (sector count : ℕ) (buf old : List ℕ)
    → Open d hnd sector count
    → AllBytes buf
    → length buf ≡ count * 512
    → length old ≤ count * 512
    → let (r, b, d') = mfsvol_write_data d hnd buf sector count in
      (r ≡ ret (count * 512))
      × (b ≡ buf)
      × (mfsvol_read_data d' hnd old sector count ≡ (ret (count * 512), buf))
read_data-write_data d hnd sector count buf old o h l small =
    rw
      (
        write_data_lem d hnd sector count o.ready buf o.real o.for_writing,
        read_data_lem d hnd sector count o.ready,
      )
      (read-write d o.ready.vol.file (sector - o.ready.vol.start) count buf old o.ready.covers h l
        small)

write_to_refused :
    (d : Disk) (fake : Bool) (buf : List ℕ) (sector count : ℕ) (o : Option VolumeInfo)
    → writable_in fake o ≡ false
    → (e : Errno) × (write_to d fake buf sector count o ≡ (err e, buf, d))
unfolding writable_in write_to
write_to_refused d fake buf sector count none h = (eio, refl)
write_to_refused d fake buf sector count (some v) h = (eperm, ground arith)

-- Where `mfsvol_is_writable` says no, a write fails, and changes neither the disk nor the buffer.
pub write_refused :
    (d : Disk) (hnd : VolumeHandle) (buf : List ℕ) (sector count : ℕ)
    → mfsvol_is_writable hnd sector ≡ false
    → (e : Errno) × (mfsvol_write_data d hnd buf sector count ≡ (err e, buf, d))
unfolding mfsvol_is_writable mfsvol_write_data
write_refused d hnd buf sector count =
    write_to_refused d hnd.fake_write buf sector count (mfsvol_get_volume hnd sector)

-- A read that reports bytes keeps inside the volume that holds its first sector, and so does a
-- write that changes the disk.
module _ (d : Disk) (buf : List ℕ) (sector count : ℕ) (v : VolumeInfo) where
  abbrev Held : Type 0
  Held =
      (v.start ≤ sector)
      × (sector < v.start + v.sectors)
      × (v.start + v.sectors < 2 ^ 32)
      × (count < 2 ^ 31)
      × (v.sectors ≤ 2 ^ 31)

  read_from_within :
      (n : ℕ)
      → Held
      → (read_from d buf sector count (some v)).0 ≡ ret n
      → sector + count ≤ v.start + v.sectors
  unfolding read_from
  read_from_within n h e = elim (dec_lt v.sectors (sector - v.start + count)) [
    | yes out ↦ ground arith
    | no fits ↦ omega arith
  ]

  write_to_within :
      (n : ℕ)
      → Held
      → (write_to d false buf sector count (some v)).0 ≡ ret n
      → sector + count ≤ v.start + v.sectors
  unfolding write_to
  write_to_within n h e = elim (dec_lt v.sectors (sector - v.start + count)) [
    | yes out ↦ ground arith
    | no fits ↦ omega arith
  ]

-- A read, or a write that is not faked, has reported `n` bytes.
abbrev Reported : Disk → Bool → List ℕ → ℕ → ℕ → ℕ → Option VolumeInfo → Type 0
Reported d fake buf sector count n o =
    ((read_from d buf sector count o).0 ≡ ret n)
    ⊎ ((fake ≡ false) × ((write_to d fake buf sector count o).0 ≡ ret n))

Reported-none :
    (d : Disk) (fake : Bool) (buf : List ℕ) (sector count n : ℕ)
    → Reported d fake buf sector count n none
    → ⊥
unfolding read_from write_to
Reported-none d fake buf sector count n (inl e) = cc
Reported-none d fake buf sector count n (inr (real, e)) = cc

Reported-some :
    (d : Disk) (fake : Bool) (buf : List ℕ) (sector count n : ℕ) (v : VolumeInfo)
    → Held d buf sector count v
    → Reported d fake buf sector count n (some v)
    → sector + count ≤ v.start + v.sectors
Reported-some d fake buf sector count n v h (inl e) = read_from_within d buf sector count v n h e
Reported-some d fake buf sector count n v h (inr (real, e)) =
    write_to_within d buf sector count v n h (rw real at e)

-- In a set that is laid out, of 2 ^ 31 sectors at most, a read of fewer than 2 ^ 31 sectors that
-- reports bytes, and a write that does and is not faked, lie inside the volume that
-- `mfsvol_get_volume` gives for their first sector.
pub within_volume :
    (d : Disk) (hnd : VolumeHandle) (buf : List ℕ) (sector count n : ℕ)
    → IsLaidOut hnd
    → mfsvol_volume_set_size hnd ≤ 2 ^ 31
    → count < 2 ^ 31
    → ((mfsvol_read_data d hnd buf sector count).0 ≡ ret n)
      ⊎ ((hnd.fake_write ≡ false) × ((mfsvol_write_data d hnd buf sector count).0 ≡ ret n))
    → (v : VolumeInfo) × (mfsvol_get_volume hnd sector ≡ some v)
      × (v.start ≤ sector)
      × (sector + count ≤ v.start + v.sectors)
unfolding mfsvol_read_data mfsvol_write_data
within_volume d hnd buf sector count n laid small short e =
    elim (dec_lt sector (mfsvol_volume_set_size hnd)) [
      | yes inside ↦ located (get_volume-Located hnd sector laid inside)
      | no outside ↦ absurd (
          Reported-none d hnd.fake_write buf sector count n
            (rw (get_volume_outside hnd sector laid (omega arith)) at e))
    ]
  where
    located :
        Located hnd.volumes 0 sector (mfsvol_get_volume hnd sector)
        → (v : VolumeInfo) × (mfsvol_get_volume hnd sector ≡ some v)
          × (v.start ≤ sector)
          × (sector + count ≤ v.start + v.sectors)
    located l = (
      l.vol,
      l.is_found,
      l.after_start,
      Reported-some d hnd.fake_write buf sector count n l.vol held (rw l.is_found at e),
    )
      where
        held : Held d buf sector count l.vol
        held = omega (
          arith,
          l.starts,
          l.after_start,
          l.before_end,
          volume_set_size_lem hnd laid,
          ap sum_sectors l.splits,
          sum_sectors-append l.front (l.vol ∷ l.back),
        )
