-- ===== src/Zonemap/Inodes.antt =====
-- The sector of an inode: the inodes fill the inode zones in the order of their maps.
use tivo_tools.Base.{ℕ, ◌+◌, ◌*◌, ◌^◌, ◌≤◌, ◌<◌, ◌≡◌, refl, ap, arith}
use tivo_tools.Base.{List, [], ◌∷◌, ◌++◌, false, ltb, leb, if◌then◌else◌, Option, some, All}
use tivo_tools.Base.Memory.{add32, sub32, mul32, field}
use native.Mathlib.Decide.{dec_lt}
use tivo_tools.Format.Zone
use tivo_tools.Zonemap.{
  MfsHandle, maps_of, zt_inode, sector_in, inode_result, mfs_inode_count, mfs_inode_to_sector,
}

abbrev pub size_of : List ℕ → ℕ
size_of m = field m Zone.size

abbrev pub first_of : List ℕ → ℕ
first_of m = field m Zone.first

abbrev pub sum_sizes : List (List ℕ) → ℕ
sum_sizes [] = 0
sum_sizes (m ∷ ms) = size_of m + sum_sizes ms

-- A number of sectors into the zones of some maps: the map, and the place in its zone.
pub record Placed (ms : List (List ℕ)) (sector : ℕ) : Type 0 where
  pub front : List (List ℕ)
  pub zone : List ℕ
  pub back : List (List ℕ)
  pub splits : ms ≡ front ++ (zone ∷ back)
  pub offset : ℕ
  pub counts : sector ≡ sum_sizes front + offset
  pub inside : offset < size_of zone

pub record Found (ms : List (List ℕ)) (sector : ℕ) (result : Option ℕ) : Type 0 where
  pub place : Placed ms sector
  pub is_found : result ≡ some (first_of place.zone + place.offset)

-- The zones end below 2 ^ 32.
abbrev pub InRange : List (List ℕ) → Type 0
InRange = All (λ m. first_of m + size_of m ≤ 2 ^ 32)

sector_in-Found :
    (ms : List (List ℕ)) (s : ℕ)
    → InRange ms
    → sum_sizes ms < 2 ^ 32
    → s < sum_sizes ms
    → Found ms s (sector_in ms s)
unfolding sector_in
sector_in-Found [] s h w l = absurd (omega arith)
sector_in-Found (m ∷ ms) s h w l = elim (dec_lt s (size_of m)) [
  | yes within ↦ record {
    place = record {
      front = [];
      zone = m;
      back = ms;
      splits = refl;
      offset = s;
      counts = omega arith;
      inside = within;
    };
    is_found = ground (arith, h.0);
  }
  | no beyond ↦
      behind (sector_in-Found ms (sub32 s (size_of m)) h.1 (omega arith) (omega arith))
        (omega arith)
]
  where
    behind :
        Found ms (sub32 s (size_of m)) (sector_in ms (sub32 s (size_of m)))
        → size_of m ≤ s
        → Found (m ∷ ms) s (
            if ltb s (size_of m)
            then some (add32 s (first_of m))
            else sector_in ms (sub32 s (size_of m)))
    behind r past = record {
      place = record {
        front = m ∷ r.place.front;
        zone = r.place.zone;
        back = r.place.back;
        splits = ap (◌∷◌ m) r.place.splits;
        offset = r.place.offset;
        counts = omega (arith, r.place.counts);
        inside = r.place.inside;
      };
      is_found = ground (arith, r.is_found);
    }

-- The inode zones of a handle: their total is that of the maps, and nothing passes 2 ^ 32.
pub record HasInodes (hnd : MfsHandle) : Type 0 where
  pub total : (hnd.zones zt_inode).size ≡ sum_sizes (maps_of hnd zt_inode)
  pub small : (hnd.zones zt_inode).size < 2 ^ 32
  pub in_range : InRange (maps_of hnd zt_inode)

-- Where the total of the inode zones is that of their maps and no zone passes sector 2 ^ 32, every
-- inode below the count has a sector: `2 * inode` sectors into the inode zones, taken in the order
-- of their maps. No error is set.
pub inode_to_sector-Placed :
    (hnd : MfsHandle) (inode : ℕ)
    → HasInodes hnd
    → inode < mfs_inode_count hnd
    → (p : Placed (maps_of hnd zt_inode) (2 * inode)) × (mfs_inode_to_sector hnd inode
        ≡ (first_of p.zone + p.offset, hnd))
unfolding mfs_inode_to_sector inode_result
inode_to_sector-Placed hnd inode h l = (
  record {
    front = f.place.front;
    zone = f.place.zone;
    back = f.place.back;
    splits = f.place.splits;
    offset = f.place.offset;
    counts = omega (arith, f.place.counts, below);
    inside = f.place.inside;
  },
  rw accepted (ap (inode_result hnd inode) f.is_found),
)
  where
    below : 2 * inode < sum_sizes (maps_of hnd zt_inode)
    below = unfold mfs_inode_count in omega arith

    f :
        Found
          (maps_of hnd zt_inode)
          (mul32 inode 2)
          (sector_in (maps_of hnd zt_inode) (mul32 inode 2))
    f =
        sector_in-Found (maps_of hnd zt_inode) (mul32 inode 2) h.in_range (omega arith)
          (omega (arith, below))

    accepted : leb (mfs_inode_count hnd) inode ≡ false
    accepted = ground arith

-- No other inode has a sector, and no error is set for it.
pub inode_to_sector_outside :
    (hnd : MfsHandle) (inode : ℕ)
    → mfs_inode_count hnd ≤ inode
    → mfs_inode_to_sector hnd inode ≡ (0, hnd)
unfolding mfs_inode_to_sector
inode_to_sector_outside hnd inode h = ground arith
