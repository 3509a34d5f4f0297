-- ===== src/Volume/Layout.antt =====
-- The layout of a volume set: its volumes follow one another from sector 0, each of them not empty
-- and of whole counts of 1024 sectors. Adding a volume keeps it so.
use native.Mathlib.Nat.{le_refl}
use tivo_tools.Base.{ℕ, ◌+◌, ◌%◌, ◌^◌, ◌≤◌, ◌<◌, ◌≡◌, refl, ap, ◌∙◌, arith}
use tivo_tools.Base.{List, [], ◌∷◌, ◌++◌, Bool, ◌==◌, Option, none, some, inl, inr, Bool-cases}
use tivo_tools.Base.Memory.{add32}
use tivo_tools.Text.{CString}
use tivo_tools.ReadWrite.{TpFile, tivo_partition_size}
use tivo_tools.Volume.{
  Mode, VolumeInfo, VolumeHandle, next_start, round_down, add_opened, add_file, add_real,
  mfsvol_add_volume,
}
use tivo_tools.Volume.{mfsvol_device_translate, total_sectors, mfsvol_volume_set_size}

-- The sectors of all volumes, with no wrap.
abbrev pub sum_sectors : List VolumeInfo → ℕ
sum_sectors [] = 0
sum_sectors (v ∷ vs) = v.sectors + sum_sectors vs

-- One volume after the other from sector `base` on.
abbrev pub Follows : ℕ → List VolumeInfo → Type 0
Follows base [] = base < 2 ^ 32
Follows base (v ∷ vs) =
    (v.start ≡ base) × (0 < v.sectors) × (v.sectors % 1024 ≡ 0) × Follows (base + v.sectors) vs

abbrev pub IsLaidOut : VolumeHandle → Type 0
IsLaidOut hnd = Follows 0 hnd.volumes

pub Follows-lt :
    (base : ℕ) (vs : List VolumeInfo) → Follows base vs → base + sum_sectors vs < 2 ^ 32
Follows-lt base [] h = omega arith
Follows-lt base (v ∷ vs) h = omega (arith, Follows-lt (base + v.sectors) vs h.3)

next_start_lem :
    (base : ℕ) (vs : List VolumeInfo) → Follows base vs → next_start base vs ≡ base + sum_sectors vs
unfolding next_start
next_start_lem base [] h = omega arith
next_start_lem base (v ∷ vs) h =
    ap (λ (t : ℕ). next_start t vs) ends
    ∙ next_start_lem (base + v.sectors) vs h.3
    ∙ regroup base v.sectors (sum_sectors vs)
  where
    ends : add32 v.start v.sectors ≡ base + v.sectors
    ends = omega (arith, Follows-lt (base + v.sectors) vs h.3, h.0)

    regroup : (a b c : ℕ) → a + b + c ≡ a + (b + c)
    regroup a b c = omega arith

total_sectors_lem :
    (base : ℕ) (vs : List VolumeInfo)
    → Follows base vs
    → total_sectors base vs ≡ base + sum_sectors vs
unfolding total_sectors
total_sectors_lem base [] h = omega arith
total_sectors_lem base (v ∷ vs) h =
    ap (λ (t : ℕ). total_sectors t vs) ends
    ∙ total_sectors_lem (base + v.sectors) vs h.3
    ∙ regroup base v.sectors (sum_sectors vs)
  where
    ends : add32 base v.sectors ≡ base + v.sectors
    ends = omega (arith, Follows-lt (base + v.sectors) vs h.3)

    regroup : (a b c : ℕ) → a + b + c ≡ a + (b + c)
    regroup a b c = omega arith

-- The size of a set that is laid out is the plain sum.
pub volume_set_size_lem :
    (hnd : VolumeHandle) → IsLaidOut hnd → mfsvol_volume_set_size hnd ≡ sum_sectors hnd.volumes
unfolding mfsvol_volume_set_size
volume_set_size_lem hnd h = omega (arith, total_sectors_lem 0 hnd.volumes h)

pub sum_sectors-append :
    (vs ws : List VolumeInfo) → sum_sectors (vs ++ ws) ≡ sum_sectors vs + sum_sectors ws
sum_sectors-append [] ws = omega arith
sum_sectors-append (v ∷ vs) ws = omega (arith, sum_sectors-append vs ws)

Follows-append_one :
    (base : ℕ) (vs : List VolumeInfo) (w : VolumeInfo)
    → Follows base vs
    → w.start ≡ base + sum_sectors vs
    → 0 < w.sectors
    → w.sectors % 1024 ≡ 0
    → base + sum_sectors vs + w.sectors < 2 ^ 32
    → Follows base (vs ++ (w ∷ []))
Follows-append_one base [] w h s p m l = (omega arith, p, m, omega arith)
Follows-append_one base (v ∷ vs) w h s p m l =
    (h.0, h.1, h.2, Follows-append_one (base + v.sectors) vs w h.3 (omega arith) p m (omega arith))

-- What `mfsvol_add_volume` may do to a set: nothing to its volumes, with no result, or one more
-- volume behind the others, with its start for a result.
pub data Added (hnd : VolumeHandle) (result : Option ℕ) (hnd' : VolumeHandle) : Type 0 where
  refused : result ≡ none → hnd'.volumes ≡ hnd.volumes → Added hnd result hnd'
  appended :
      (v : VolumeInfo)
      → result ≡ some v.start
      → hnd'.volumes ≡ hnd.volumes ++ (v ∷ [])
      → v.start ≡ mfsvol_volume_set_size hnd
      → v.sectors ≡ round_down (tivo_partition_size v.file)
      → 0 < v.sectors
      → Added hnd result hnd'

translate-volumes :
    (hnd : VolumeHandle) (dev : CString) → (mfsvol_device_translate hnd dev).1.volumes ≡ hnd.volumes
unfolding mfsvol_device_translate
translate-volumes hnd dev = ground arith

round_down-le : (n : ℕ) → round_down n ≤ n
unfolding round_down
round_down-le n = omega arith

round_down_whole : (n : ℕ) → round_down n % 1024 ≡ 0
unfolding round_down
round_down_whole n = omega arith

opened-Added :
    (hnd : VolumeHandle) (path : CString) (ro : Bool) (file : TpFile)
    → IsLaidOut hnd
    → let (r, hnd') = add_opened hnd path ro file in Added hnd r hnd'
unfolding add_opened
opened-Added hnd path ro file h = elim (Bool-cases (round_down (tivo_partition_size file) == 0)) [
  | inl empty ↦ rw empty (refused refl refl)
  | inr some_left ↦ rw some_left (appended _ refl refl start_is refl (ground arith))
]
  where
    start_is : next_start 0 hnd.volumes ≡ mfsvol_volume_set_size hnd
    start_is = omega (arith, next_start_lem 0 hnd.volumes h, volume_set_size_lem hnd h)

file-Added :
    (hnd : VolumeHandle) (path : CString) (ro : Bool) (file : Option TpFile)
    → IsLaidOut hnd
    → let (r, hnd') = add_file hnd path ro file in Added hnd r hnd'
unfolding add_file
file-Added hnd path ro none h = refused refl refl
file-Added hnd path ro (some file) h = opened-Added hnd path ro file h

real-Added :
    (open_it : CString → Mode → Option TpFile) (hnd : VolumeHandle) (flags : Mode)
    (t : Option CString × VolumeHandle)
    → IsLaidOut hnd
    → t.1.volumes ≡ hnd.volumes
    → let (r, hnd') = add_real open_it hnd flags t in Added hnd r hnd'
unfolding add_real
real-Added open_it hnd flags (none, failed) h same = refused refl same
real-Added open_it hnd flags (some real, _) h same = file-Added hnd _ _ _ h

Added-IsLaidOut :
    {hnd : VolumeHandle} {r : Option ℕ} {hnd' : VolumeHandle}
    → IsLaidOut hnd
    → Added hnd r hnd'
    → sum_sectors hnd'.volumes < 2 ^ 32
    → IsLaidOut hnd'
Added-IsLaidOut h (refused _ same) k = rw same h
Added-IsLaidOut {hnd = hnd} {hnd' = hnd'} h (appended v _ more start_is rounded pos) k = rw more (
    Follows-append_one 0 hnd.volumes v h (omega (arith, start_is, volume_set_size_lem hnd h)) pos
      (ap (λ (t : ℕ). t % 1024) rounded ∙ round_down_whole (tivo_partition_size v.file))
      (omega (arith, ap sum_sectors more, sum_sectors-append hnd.volumes (v ∷ []))))

module _ (tivo_partition_open : CString → Mode → Option TpFile) (hnd : VolumeHandle)
    (path : CString) (flags : Mode) where
  abbrev result : Option ℕ × VolumeHandle
  result = mfsvol_add_volume tivo_partition_open hnd path flags

  -- On a set that is laid out, `mfsvol_add_volume` either returns -1 and leaves the volumes alone, or
  -- appends one volume behind the others: it starts where the set ended, which is the result, and
  -- has the sectors of its partition rounded down to a whole count of 1024, not 0.
  pub add_volume-Added : IsLaidOut hnd → Added hnd result.0 result.1
  unfolding mfsvol_add_volume
  add_volume-Added h =
      real-Added tivo_partition_open hnd flags (mfsvol_device_translate hnd path) h
        (translate-volumes hnd path)

  -- A set that is laid out is laid out after `mfsvol_add_volume` too, as long as its volumes have
  -- fewer than 2 ^ 32 sectors together.
  pub add_volume-IsLaidOut :
      IsLaidOut hnd → sum_sectors result.1.volumes < 2 ^ 32 → IsLaidOut result.1
  add_volume-IsLaidOut h small = Added-IsLaidOut h (add_volume-Added h) small

-- A volume set only grows, laid out or not.
opened_grows :
    (hnd : VolumeHandle) (path : CString) (ro : Bool) (file : TpFile)
    → sum_sectors hnd.volumes ≤ sum_sectors (add_opened hnd path ro file).1.volumes
unfolding add_opened
opened_grows hnd path ro file = elim (Bool-cases (round_down (tivo_partition_size file) == 0)) [
  | inl empty ↦ rw empty (le_refl _)
  | inr some_left ↦ rw (some_left, sum_sectors-append hnd.volumes) (omega arith)
]

file_grows :
    (hnd : VolumeHandle) (path : CString) (ro : Bool) (file : Option TpFile)
    → sum_sectors hnd.volumes ≤ sum_sectors (add_file hnd path ro file).1.volumes
unfolding add_file
file_grows hnd path ro none = le_refl _
file_grows hnd path ro (some file) = opened_grows hnd path ro file

real_grows :
    (open_it : CString → Mode → Option TpFile) (hnd : VolumeHandle) (flags : Mode)
    (t : Option CString × VolumeHandle)
    → t.1.volumes ≡ hnd.volumes
    → sum_sectors hnd.volumes ≤ sum_sectors (add_real open_it hnd flags t).1.volumes
unfolding add_real
real_grows open_it hnd flags (none, failed) same = rw same (le_refl _)
real_grows open_it hnd flags (some real, _) same = file_grows hnd _ _ _

pub add_volume_grows :
    (open_it : CString → Mode → Option TpFile) (hnd : VolumeHandle) (path : CString) (flags : Mode)
    → sum_sectors hnd.volumes ≤ sum_sectors (mfsvol_add_volume open_it hnd path flags).1.volumes
unfolding mfsvol_add_volume
add_volume_grows open_it hnd path flags =
    real_grows open_it hnd flags (mfsvol_device_translate hnd path) (translate-volumes hnd path)
