-- ===== src/Zonemap/Loaded.antt =====
-- What the loading of the zone maps leaves in the handle.
use tivo_tools.Base.{ℕ, zero, suc, ◌+◌, ◌%◌, ◌^◌, ◌<◌, ◌≡◌, refl, sym, ap, ap₂, ◌∙◌, arith}
use tivo_tools.Base.{List, [], ◌∷◌, ◌++◌, true, false, ◌==◌, if◌then◌else◌, All, map}
use tivo_tools.Base.{length, length-append, get_or, All-append, ==_iff, inl, inr, Bool-cases}
use tivo_tools.Base.Memory.{add32, field}
use mathlib.Core.List.{map-append}
use tivo_tools.Format.Zone
use tivo_tools.Zonemap.{MfsHandle, maps_of}
use tivo_tools.Zonemap.{link_map}

abbrev pub type_of : List ℕ → ℕ
type_of m = field m Zone.zone_type

-- The maps of one type, in order, and a field summed over them.
abbrev pub of_type : ℕ → List (List ℕ) → List (List ℕ)
of_type t [] = []
of_type t (m ∷ ms) = if type_of m == t then m ∷ of_type t ms else of_type t ms

abbrev pub sum_field : ℕ → List (List ℕ) → ℕ
sum_field w [] = 0
sum_field w (m ∷ ms) = field m w + sum_field w ms

-- The lists of a handle go with its loaded maps: each holds the maps of its type in the order of
-- loading, and its totals are the sums over them, as 32-bit words.
pub record IsLinked (hnd : MfsHandle) : Type 0 where
  pub in_range : (t : ℕ) → All (λ i. i < length hnd.loaded_zones) (hnd.zones t).next
  pub lists : (t : ℕ) → maps_of hnd t ≡ of_type t hnd.loaded_zones
  pub sizes :
      (t : ℕ) → (hnd.zones t).size ≡ sum_field Zone.size (of_type t hnd.loaded_zones) % 2 ^ 32
  pub frees :
      (t : ℕ) → (hnd.zones t).free ≡ sum_field Zone.free (of_type t hnd.loaded_zones) % 2 ^ 32

of_type-append_one :
    (t : ℕ) (ms : List (List ℕ)) (m : List ℕ)
    → of_type t (ms ++ (m ∷ []))
      ≡ (if type_of m == t then of_type t ms ++ (m ∷ []) else of_type t ms)
of_type-append_one t [] m = refl
of_type-append_one t (x ∷ ms) m = ground (arith, of_type-append_one t ms m)

sum_field-append_one :
    (w : ℕ) (ms : List (List ℕ)) (m : List ℕ)
    → sum_field w (ms ++ (m ∷ [])) ≡ sum_field w ms + field m w
sum_field-append_one w [] m = omega arith
sum_field-append_one w (x ∷ ms) m = omega (arith, sum_field-append_one w ms m)

get_or-append_left :
    (ms : List (List ℕ)) (m : List ℕ) (i : ℕ)
    → i < length ms
    → get_or (ms ++ (m ∷ [])) i [] ≡ get_or ms i []
get_or-append_left [] m i h = absurd (omega arith)
get_or-append_left (x ∷ ms) m zero h = refl
get_or-append_left (x ∷ ms) m (suc i) h = get_or-append_left ms m i (omega arith)

get_or-append_last : (ms : List (List ℕ)) (m : List ℕ) → get_or (ms ++ (m ∷ [])) (length ms) [] ≡ m
get_or-append_last [] m = refl
get_or-append_last (x ∷ ms) m = get_or-append_last ms m

-- The places of a list still name the same maps once a map is appended to the loaded ones.
places_keep :
    (ms : List (List ℕ)) (m : List ℕ) (is : List ℕ)
    → All (λ i. i < length ms) is
    → map (λ i. get_or (ms ++ (m ∷ [])) i []) is ≡ map (λ i. get_or ms i []) is
places_keep ms m [] h = refl
places_keep ms m (i ∷ is) h = ap₂ ◌∷◌ (get_or-append_left ms m i h.0) (places_keep ms m is h.1)

All-longer :
    (ms : List (List ℕ)) (m : List ℕ) (is : List ℕ)
    → All (λ i. i < length ms) is
    → All (λ i. i < length (ms ++ (m ∷ []))) is
All-longer ms m [] h = tt
All-longer ms m (i ∷ is) h = (omega (arith, length-append ms (m ∷ []), h.0), All-longer ms m is h.1)

eq_self : (n : ℕ) → (n == n) ≡ true
eq_self n = ground arith

of_type_same :
    (ms : List (List ℕ)) (m : List ℕ)
    → of_type (type_of m) (ms ++ (m ∷ [])) ≡ of_type (type_of m) ms ++ (m ∷ [])
of_type_same ms m = of_type-append_one (type_of m) ms m ∙ rw (eq_self (type_of m))

of_type_other :
    (t : ℕ) (ms : List (List ℕ)) (m : List ℕ)
    → (t == type_of m) ≡ false
    → of_type t (ms ++ (m ∷ [])) ≡ of_type t ms
of_type_other t ms m h = of_type-append_one t ms m ∙ rw (flip t (type_of m) h)
  where
    flip : (a b : ℕ) → (a == b) ≡ false → (b == a) ≡ false
    flip a b e = ground arith

-- The list of the new map's type gets one more place, which names the new map.
link_map_next :
    (hnd : MfsHandle) (m : List ℕ)
    → ((link_map hnd m).zones (type_of m)).next
      ≡ (hnd.zones (type_of m)).next ++ (length hnd.loaded_zones ∷ [])
unfolding link_map
link_map_next hnd m = rw (eq_self (type_of m))

sum_mod : (a b s : ℕ) → a ≡ s % 2 ^ 32 → add32 a b ≡ (s + b) % 2 ^ 32
sum_mod a b s e = omega arith

module _ (hnd : MfsHandle) (m : List ℕ) (l : IsLinked hnd) where
  range_at :
      (t : ℕ) → All (λ i. i < length (link_map hnd m).loaded_zones) ((link_map hnd m).zones t).next
  unfolding link_map
  range_at t = elim (Bool-cases (t == type_of m)) [
    | inl same ↦ rw same (
        All-append (λ i. i < length (hnd.loaded_zones ++ (m ∷ []))) (hnd.zones (type_of m)).next
          (length hnd.loaded_zones ∷ [])
          (All-longer hnd.loaded_zones m (hnd.zones (type_of m)).next (l.in_range (type_of m)))
          (omega (arith, length-append hnd.loaded_zones (m ∷ [])), tt))
    | inr other ↦ rw other (All-longer hnd.loaded_zones m (hnd.zones t).next (l.in_range t))
  ]

  list_same :
      maps_of (link_map hnd m) (type_of m) ≡ of_type (type_of m) (hnd.loaded_zones ++ (m ∷ []))
  unfolding maps_of link_map
  list_same =
      ap (map (λ i. get_or (hnd.loaded_zones ++ (m ∷ [])) i [])) (link_map_next hnd m)
      ∙ map-append _ (hnd.zones (type_of m)).next (length hnd.loaded_zones ∷ [])
      ∙ ap₂ ◌++◌
          (places_keep hnd.loaded_zones m (hnd.zones (type_of m)).next (l.in_range (type_of m))
            ∙ l.lists (type_of m))
          (ap (λ (x : List ℕ). x ∷ []) (get_or-append_last hnd.loaded_zones m))
      ∙ sym (of_type_same hnd.loaded_zones m)

  list_other :
      (t : ℕ)
      → (t == type_of m) ≡ false
      → maps_of (link_map hnd m) t ≡ of_type t (hnd.loaded_zones ++ (m ∷ []))
  unfolding maps_of link_map
  list_other t other = rw other (
      places_keep hnd.loaded_zones m (hnd.zones t).next (l.in_range t)
      ∙ l.lists t
      ∙ sym (of_type_other t hnd.loaded_zones m other))

  total_at :
      (t : ℕ)
      → (((link_map hnd m).zones t).size
          ≡ sum_field Zone.size (of_type t (hnd.loaded_zones ++ (m ∷ []))) % 2 ^ 32)
        × (((link_map hnd m).zones t).free
            ≡ sum_field Zone.free (of_type t (hnd.loaded_zones ++ (m ∷ []))) % 2 ^ 32)
  unfolding link_map
  total_at t = elim (Bool-cases (t == type_of m)) [
    | inl same ↦
        rw
          (
            same,
            (==_iff t (type_of m)).0 same,
            of_type_same hnd.loaded_zones m,
            sum_field-append_one,
            sum_field-append_one,
          )
          (sum_mod _ _ _ (l.sizes (type_of m)), sum_mod _ _ _ (l.frees (type_of m)))
    | inr other ↦ rw (other, of_type_other t hnd.loaded_zones m other) (l.sizes t, l.frees t)
  ]

  -- One more map keeps the lists and the totals together.
  pub link_map-IsLinked : IsLinked (link_map hnd m)
  link_map-IsLinked = record {
    in_range = range_at;
    lists = λ t. elim (Bool-cases (t == type_of m)) [
      | inl same ↦ rw ((==_iff t (type_of m)).0 same) (unfold link_map in list_same)
      | inr other ↦ unfold link_map in list_other t other
    ];
    sizes = λ t. unfold link_map in (total_at t).0;
    frees = λ t. unfold link_map in (total_at t).1;
  }
