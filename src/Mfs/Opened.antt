-- ===== src/Mfs/Opened.antt =====
-- What an opened volume set of lib/mfs.c is.
use tivo_tools.Base.{ℕ, zero, suc, ◌^◌, ◌≤◌, ◌<◌, ◌≡◌, refl, sym, ap, ◌∙◌, arith, [], ◌∷◌}
use tivo_tools.Base.{
  Bool, true, false, if◌then◌else◌, Option, none, some, length, inl, inr, Bool-cases,
}
use native.Mathlib.Nat.{le_refl, le_trans, lt_of_le_of_lt}
use mathlib.Core.Path.{subst}
use tivo_tools.Text.{CString}
use tivo_tools.Disk.{Disk}
use tivo_tools.Crc.{mfs_check_crc}
use tivo_tools.Format.Header
use tivo_tools.Volume.{Mode, VolumeHandle, mfsvol_add_volume, mfsvol_volume_set_size, mfsvol_init}
use tivo_tools.Volume.Layout.{IsLaidOut, sum_sectors, add_volume-IsLaidOut, add_volume_grows}
use tivo_tools.Zonemap.{MfsHandle, Loading, done, looping, mfs_load_zone_maps}
use tivo_tools.Zonemap.Loaded.{IsLinked}
use tivo_tools.Zonemap.Load.{Ends, Keeps, load_zone_maps-IsLinked, load_zone_maps-Keeps}
use tivo_tools.Mfs.{
  Machine, header_size, read_header, compare_size, not_positive, Status, opened, status_of,
}
use tivo_tools.Mfs.{
  zeroed, as_start, add_names, skip_name, mfs_partition_list, load_names, mfs_load_volume_header,
  first_volume, init_from, mfs_init_internal,
}
use tivo_tools.Mfs.{mfs_has_error, mfs_clearerror}
use tivo_tools.Volume.{mfsvol_has_error, mfsvol_clearerror}

-- The header that the handle keeps has a good checksum.
abbrev pub IsChecked : MfsHandle → Type 0
IsChecked hnd = mfs_check_crc hnd.vol_hdr header_size Header.checksum ≡ true

read_header-IsChecked :
    (d : Disk) (hnd : MfsHandle) → (read_header d hnd).0 ≡ true → IsChecked (read_header d hnd).1
unfolding read_header
read_header-IsChecked d hnd e = ground arith

read_header-vols : (d : Disk) (hnd : MfsHandle) → (read_header d hnd).1.vols ≡ hnd.vols
unfolding read_header
read_header-vols d hnd = ground arith

compare_size-Keeps : (hnd : MfsHandle) (total : ℕ) → Keeps hnd (compare_size hnd total)
unfolding compare_size
compare_size-Keeps hnd total = (ground arith, ground arith)

module _ (machine : Machine) where
  -- A round of the names, from the added volume on.
  abbrev name_added : ℕ → Mode → CString → Option ℕ → VolumeHandle → Bool × VolumeHandle
  name_added fuel flags s start vols = elim start [
    | none ↦ (false, vols)
    | some n ↦ add_names machine fuel flags vols (skip_name s)
  ]

  add_names_grows :
      (fuel : ℕ) (flags : Mode) (vols : VolumeHandle) (s : CString)
      → sum_sectors vols.volumes ≤ sum_sectors (add_names machine fuel flags vols s).1.volumes
  unfolding add_names
  add_names_grows fuel flags vols [] = le_refl _
  add_names_grows zero flags vols (c ∷ s) = le_refl _
  add_names_grows (suc fuel) flags vols (c ∷ s) =
      le_trans (add_volume_grows machine.tivo_partition_open vols (c ∷ s) flags) (
        go (as_start (mfsvol_add_volume machine.tivo_partition_open vols (c ∷ s) flags).0)
          (λ v. add_names_grows fuel flags v (skip_name (c ∷ s))))
    where
      after : VolumeHandle
      after = (mfsvol_add_volume machine.tivo_partition_open vols (c ∷ s) flags).1

      go :
          (o : Option ℕ)
          → ((v : VolumeHandle)
              → sum_sectors v.volumes
                ≤ sum_sectors (add_names machine fuel flags v (skip_name (c ∷ s))).1.volumes)
          → sum_sectors after.volumes
            ≤ sum_sectors (name_added fuel flags (c ∷ s) o after).1.volumes
      go none rest = le_refl _
      go (some n) rest = rest after

  -- However the names end, the volumes are laid out.
  add_names-IsLaidOut :
      (fuel : ℕ) (flags : Mode) (vols : VolumeHandle) (s : CString)
      → IsLaidOut vols
      → sum_sectors (add_names machine fuel flags vols s).1.volumes < 2 ^ 32
      → IsLaidOut (add_names machine fuel flags vols s).1
  unfolding add_names
  add_names-IsLaidOut fuel flags vols [] h k = h
  add_names-IsLaidOut zero flags vols (c ∷ s) h k = h
  add_names-IsLaidOut (suc fuel) flags vols (c ∷ s) h k =
      go (as_start (mfsvol_add_volume machine.tivo_partition_open vols (c ∷ s) flags).0)
        (λ v. add_names-IsLaidOut fuel flags v (skip_name (c ∷ s))) k
    where
      after : VolumeHandle
      after = (mfsvol_add_volume machine.tivo_partition_open vols (c ∷ s) flags).1

      one : sum_sectors after.volumes < 2 ^ 32 → IsLaidOut after
      one = add_volume-IsLaidOut machine.tivo_partition_open vols (c ∷ s) flags h

      go :
          (o : Option ℕ)
          → ((v : VolumeHandle)
              → IsLaidOut v
              → sum_sectors (add_names machine fuel flags v (skip_name (c ∷ s))).1.volumes < 2 ^ 32
              → IsLaidOut (add_names machine fuel flags v (skip_name (c ∷ s))).1)
          → sum_sectors (name_added fuel flags (c ∷ s) o after).1.volumes < 2 ^ 32
          → IsLaidOut (name_added fuel flags (c ∷ s) o after).1
      go none rest k = one k
      go (some n) rest k =
          rest after (one (omega (arith, k, add_names_grows fuel flags after (skip_name (c ∷ s)))))
            k

  -- A set that stays below 2 ^ 32 sectors is laid out.
  abbrev LaidOutIfSmall : VolumeHandle → Type 0
  LaidOutIfSmall vols = sum_sectors vols.volumes < 2 ^ 32 → IsLaidOut vols

  -- The header is checked and the volumes are laid out, if the set stays below 2 ^ 32 sectors.
  abbrev Good : MfsHandle → Type 0
  Good hnd = IsChecked hnd × LaidOutIfSmall hnd.vols

  Good-Keeps : (before after : MfsHandle) → Keeps before after → Good before → Good after
  Good-Keeps before after (same_header, same_volumes) g = rw (same_header, same_volumes) g

  -- A total is the size of the set.
  abbrev Totals : Option ℕ → MfsHandle → Type 0
  Totals none hnd = Unit
  Totals (some total) hnd = Good hnd × (total ≡ mfsvol_volume_set_size hnd.vols)

  named-Totals :
      (hnd : MfsHandle) (added : Bool)
      → Good hnd
      → let total = mfsvol_volume_set_size hnd.vols in
        let (r, hnd') : Option ℕ × MfsHandle =
          if added then (some total, compare_size hnd total) else (none, hnd) in
        Totals r hnd'
  named-Totals hnd true g =
      let keeps = compare_size-Keeps hnd (mfsvol_volume_set_size hnd.vols) in
      (
        Good-Keeps hnd (compare_size hnd (mfsvol_volume_set_size hnd.vols)) keeps g,
        ap mfsvol_volume_set_size (sym keeps.1),
      )
  named-Totals hnd false g = tt

  load_names-Totals :
      (flags : Mode) (hnd : MfsHandle)
      → LaidOutIfSmall hnd.vols
      → IsChecked hnd
      → let (r, hnd') = load_names machine flags hnd in Totals r hnd'
  unfolding load_names
  load_names-Totals flags hnd h c =
      let names = skip_name (mfs_partition_list hnd) in
      named-Totals (record hnd { vols = (add_names machine (length names) flags hnd.vols names).1 })
        _
        (
          c,
          λ k.
              add_names-IsLaidOut (length names) flags hnd.vols names
                (h (lt_of_le_of_lt (add_names_grows (length names) flags hnd.vols names) k)) k,
        )

  load_header-Totals :
      (d : Disk) (flags : Mode) (hnd : MfsHandle)
      → LaidOutIfSmall hnd.vols
      → let (r, hnd') = mfs_load_volume_header machine d flags hnd in Totals r hnd'
  unfolding mfs_load_volume_header
  load_header-Totals d flags hnd h = elim (Bool-cases (read_header d hnd).0) [
    | inl good ↦ rw good (
        load_names-Totals flags (read_header d hnd).1 (rw (read_header-vols d hnd) h)
          (read_header-IsChecked d hnd good))
    | inr bad ↦ rw bad tt
  ]

  -- What a set is that is opened: the header has a good checksum, the lists of the zone maps by type
  -- go with the maps that are loaded, the size is positive as an `int`, and the volumes are laid out
  -- if they end below 2 ^ 32 sectors.
  record IsOpened (hnd : MfsHandle) : Type 0 where
    good : Good hnd
    linked : IsLinked hnd
    positive : 0 < mfsvol_volume_set_size hnd.vols
    small : mfsvol_volume_set_size hnd.vols < 2 ^ 31

  status-IsOpened :
      (hnd : MfsHandle) (total : Option ℕ) (l : Loading) (after : MfsHandle)
      → Totals total hnd
      → not_positive total ≡ false
      → Ends IsLinked l
      → Ends (Keeps hnd) l
      → status_of hnd l ≡ (opened, after)
      → IsOpened after
  unfolding status_of
  status-IsOpened hnd none l after t p _ _ e = absurd cc
  status-IsOpened hnd (some n) looping after t p _ _ e = absurd cc
  status-IsOpened hnd (some n) (done none h) after t p _ _ e = absurd cc
  status-IsOpened hnd (some n) (done (some k) h) after t p linked keeps e =
      let same : h ≡ after = ap (λ (x : Status × MfsHandle). x.1) e in
      let size : n ≡ mfsvol_volume_set_size h.vols =
        t.1 ∙ ap mfsvol_volume_set_size (sym keeps.1) in
      subst IsOpened same (record {
        good = Good-Keeps hnd h keeps t.0;
        linked = linked;
        positive = ground (arith, size);
        small = ground (arith, size);
      })

  init_from-IsOpened :
      (d : Disk) (flags : Mode) (start : Option ℕ) (vols : VolumeHandle) (hnd : MfsHandle)
      → LaidOutIfSmall vols
      → init_from machine d flags (start, vols) ≡ (opened, hnd)
      → IsOpened hnd
  unfolding init_from zeroed
  init_from-IsOpened d flags none vols hnd h e = absurd cc
  init_from-IsOpened d flags (some s) vols hnd h e = elim (Bool-cases (not_positive total)) [
    | inl bad ↦ absurd (refused bad)
    | inr good ↦
        status-IsOpened before total loading hnd (load_header-Totals d flags (zeroed vols) h) good
          (load_zone_maps-IsLinked machine.chain_fuel d before)
          (load_zone_maps-Keeps machine.chain_fuel d before) (rw good at e)
  ]
    where
      total : Option ℕ
      total = (mfs_load_volume_header machine d flags (zeroed vols)).0

      before : MfsHandle
      before = (mfs_load_volume_header machine d flags (zeroed vols)).1

      loading : Loading
      loading = mfs_load_zone_maps machine.chain_fuel d before

      refused : not_positive total ≡ true → ⊥
      refused bad = cc

init_internal-IsOpened :
    (machine : Machine) (d : Disk) (hda hdb : Option CString) (flags : Mode) (hnd : MfsHandle)
    → mfs_init_internal machine d hda hdb flags ≡ (opened, hnd)
    → IsOpened machine hnd
unfolding mfs_init_internal zeroed mfsvol_init
init_internal-IsOpened machine d hda hdb flags hnd e =
    init_from-IsOpened machine d flags start.0 start.1 hnd laid e
  where
    empty : VolumeHandle
    empty = mfsvol_init machine.mfs_fake_write hda hdb

    start : Option ℕ × VolumeHandle
    start = mfsvol_add_volume machine.tivo_partition_open empty (first_volume machine) flags

    laid : LaidOutIfSmall machine start.1
    laid =
        add_volume-IsLaidOut machine.tivo_partition_open empty (first_volume machine) flags
          (omega arith)

-- A volume set that `mfs_init_internal` reports to be open has a header with a good checksum, zone
-- maps whose lists and totals by type go with the maps that are loaded, and a size that is positive
-- as an `int`.
pub init_internal_opened :
    (machine : Machine) (d : Disk) (hda hdb : Option CString) (flags : Mode) (hnd : MfsHandle)
    → mfs_init_internal machine d hda hdb flags ≡ (opened, hnd)
    → IsChecked hnd
      × IsLinked hnd
      × (0 < mfsvol_volume_set_size hnd.vols)
      × (mfsvol_volume_set_size hnd.vols < 2 ^ 31)
init_internal_opened machine d hda hdb flags hnd e =
    let o = init_internal-IsOpened machine d hda hdb flags hnd e in
    (o.good.0, o.linked, o.positive, o.small)

-- The volumes of an opened set stand end to end in whole 1024 sectors, from sector 0 on, as long as
-- their sizes add up to less than 2 ^ 32.
pub init_internal-IsLaidOut :
    (machine : Machine) (d : Disk) (hda hdb : Option CString) (flags : Mode) (hnd : MfsHandle)
    → mfs_init_internal machine d hda hdb flags ≡ (opened, hnd)
    → sum_sectors hnd.vols.volumes < 2 ^ 32
    → IsLaidOut hnd.vols
init_internal-IsLaidOut machine d hda hdb flags hnd e =
    (init_internal-IsOpened machine d hda hdb flags hnd e).good.1

-- Once the errors of a handle are cleared it has none, its own or its volumes'.
pub has_error-clearerror : (hnd : MfsHandle) → mfs_has_error (mfs_clearerror hnd) ≡ false
unfolding mfs_has_error mfs_clearerror mfsvol_has_error mfsvol_clearerror
has_error-clearerror hnd = refl
