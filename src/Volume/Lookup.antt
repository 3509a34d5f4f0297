-- ===== src/Volume/Lookup.antt =====
-- Which volume of a set holds a sector.
use tivo_tools.Base.{ℕ, ◌+◌, ◌^◌, ◌≤◌, ◌<◌, ◌≡◌, refl, ap, arith}
use tivo_tools.Base.{List, [], ◌∷◌, ◌++◌, true, false, if◌then◌else◌, Option, none, some}
use native.Mathlib.Decide.{dec_lt}
use tivo_tools.Volume.{VolumeInfo, VolumeHandle, holds, find_volume, mfsvol_get_volume, size_at}
use tivo_tools.Volume.{mfsvol_volume_size, mfsvol_volume_set_size}
use tivo_tools.Volume.Layout.{sum_sectors, Follows, Follows-lt, IsLaidOut, volume_set_size_lem}

holds_yes :
    (v : VolumeInfo) (s : ℕ)
    → v.start + v.sectors < 2 ^ 32
    → v.start ≤ s
    → s < v.start + v.sectors
    → holds v s ≡ true
unfolding holds
holds_yes v s w l u = ground arith

holds_no :
    (v : VolumeInfo) (s : ℕ)
    → v.start + v.sectors < 2 ^ 32
    → v.start + v.sectors ≤ s
    → holds v s ≡ false
unfolding holds
holds_no v s w l = ground arith

-- Where a sector of a set stands: in a volume that the list splits at, at an offset inside it.
pub record Located (vs : List VolumeInfo) (base sector : ℕ) (found : Option VolumeInfo)
    : Type 0 where
  pub front : List VolumeInfo
  pub vol : VolumeInfo
  pub back : List VolumeInfo
  pub splits : vs ≡ front ++ (vol ∷ back)
  pub is_found : found ≡ some vol
  pub starts : vol.start ≡ base + sum_sectors front
  pub after_start : vol.start ≤ sector
  pub before_end : sector < vol.start + vol.sectors

find_volume-Located :
    (base : ℕ) (vs : List VolumeInfo) (sector : ℕ)
    → Follows base vs
    → base ≤ sector
    → sector < base + sum_sectors vs
    → Located vs base sector (find_volume vs sector)
unfolding find_volume
find_volume-Located base [] sector h l u = absurd (omega arith)
find_volume-Located base (v ∷ vs) sector h l u = elim (dec_lt sector (base + v.sectors)) [
  | yes within ↦ record {
    front = [];
    vol = v;
    back = vs;
    splits = refl;
    is_found = rw (holds_yes v sector no_wrap (omega (arith, h.0)) (omega (arith, h.0)));
    starts = omega (arith, h.0);
    after_start = omega (arith, h.0);
    before_end = omega (arith, h.0);
  }
  | no beyond ↦
      behind (find_volume-Located (base + v.sectors) vs sector h.3 (omega arith) (omega arith))
        (holds_no v sector no_wrap (omega (arith, h.0)))
]
  where
    no_wrap : v.start + v.sectors < 2 ^ 32
    no_wrap = omega (arith, Follows-lt (base + v.sectors) vs h.3, h.0)

    behind :
        Located vs (base + v.sectors) sector (find_volume vs sector)
        → holds v sector ≡ false
        → Located (v ∷ vs) base sector (if holds v sector then some v else find_volume vs sector)
    behind r skipped = record {
      front = v ∷ r.front;
      vol = r.vol;
      back = r.back;
      splits = ap (◌∷◌ v) r.splits;
      is_found = rw skipped r.is_found;
      starts = omega (arith, r.starts);
      after_start = r.after_start;
      before_end = r.before_end;
    }

find_volume_outside :
    (base : ℕ) (vs : List VolumeInfo) (sector : ℕ)
    → Follows base vs
    → base + sum_sectors vs ≤ sector
    → find_volume vs sector ≡ none
unfolding find_volume
find_volume_outside base [] sector h u = refl
find_volume_outside base (v ∷ vs) sector h u =
    rw
      (holds_no v sector (omega (arith, Follows-lt (base + v.sectors) vs h.3, h.0))
        (omega (arith, h.0)))
      (find_volume_outside (base + v.sectors) vs sector h.3 (omega arith))

-- In a set that is laid out, `mfsvol_get_volume` finds the volume that holds a sector below the size of
-- the set.
pub get_volume-Located :
    (hnd : VolumeHandle) (sector : ℕ)
    → IsLaidOut hnd
    → sector < mfsvol_volume_set_size hnd
    → Located hnd.volumes 0 sector (mfsvol_get_volume hnd sector)
unfolding mfsvol_get_volume
get_volume-Located hnd sector h u =
    find_volume-Located 0 hnd.volumes sector h (omega arith)
      (omega (arith, volume_set_size_lem hnd h))

-- It finds nothing for any sector from there on.
pub get_volume_outside :
    (hnd : VolumeHandle) (sector : ℕ)
    → IsLaidOut hnd
    → mfsvol_volume_set_size hnd ≤ sector
    → mfsvol_get_volume hnd sector ≡ none
unfolding mfsvol_get_volume
get_volume_outside hnd sector h u =
    find_volume_outside 0 hnd.volumes sector h (omega (arith, volume_set_size_lem hnd h))

start_of_later :
    (base : ℕ) (front back : List VolumeInfo) (v : VolumeInfo)
    → Follows base (front ++ (v ∷ back))
    → base ≤ v.start
start_of_later base [] back v h = omega (arith, h.0)
start_of_later base (w ∷ front) back v h =
    omega (arith, start_of_later (base + w.sectors) front back v h.3)

size_at_lem :
    (base : ℕ) (front back : List VolumeInfo) (v : VolumeInfo)
    → Follows base (front ++ (v ∷ back))
    → size_at (front ++ (v ∷ back)) v.start ≡ v.sectors
unfolding size_at
size_at_lem base [] back v h = ground arith
size_at_lem base (w ∷ front) back v h = ground (
  arith,
  start_of_later (base + w.sectors) front back v h.3,
  size_at_lem (base + w.sectors) front back v h.3,
)

-- In a set that is laid out, `mfsvol_volume_size` at the start of any volume is the size of that
-- volume.
pub volume_size_lem :
    (hnd : VolumeHandle) (front back : List VolumeInfo) (v : VolumeInfo)
    → IsLaidOut hnd
    → hnd.volumes ≡ front ++ (v ∷ back)
    → mfsvol_volume_size hnd v.start ≡ v.sectors
unfolding mfsvol_volume_size
volume_size_lem hnd front back v h e = rw e (size_at_lem 0 front back v (rw e at h))
