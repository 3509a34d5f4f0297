-- ===== src/Macpart/Ends.antt =====
-- The search for free space of lib/macpart.c ends.
use tivo_tools.Base.{ℕ, zero, suc, ◌+◌, ◌^◌, ◌≤◌, ◌<◌, ◌≡◌, refl, ap, ◌∙◌, arith, ◌⊎◌, inl, inr}
use tivo_tools.Base.{
  List, [], ◌∷◌, Bool, true, false, ◌&&◌, ◌||◌, ltb, leb, ◌==◌, if◌then◌else◌, All, length, drop,
  Bool-cases,
}
use tivo_tools.Base.Memory.{add32, sub32}
use tivo_tools.Macpart.{Partition}
use tivo_tools.Macpart.Validate.{is_free, part_at}
use tivo_tools.Macpart.Space.{next_free, Space, space, no_space, find_space}

-- A partition with sectors, which ends before the last number of 32 bits.
abbrev pub IsSolid : Partition → Type 0
IsSolid p = (0 < p.sectors) × (p.start + p.sectors < 2 ^ 32)

-- The partitions that start at a sector or behind it.
abbrev pub behind : ℕ → List Partition → ℕ
behind last [] = 0
behind last (p ∷ ps) = (if leb last p.start then 1 else 0) + behind last ps

pub behind-length : (last : ℕ) (ps : List Partition) → behind last ps ≤ length ps
behind-length last [] = omega arith
behind-length last (p ∷ ps) = ground (arith, behind-length last ps)

behind_anti : (last next : ℕ) (ps : List Partition) → last ≤ next → behind next ps ≤ behind last ps
behind_anti last next [] h = omega arith
behind_anti last next (p ∷ ps) h = ground (arith, behind_anti last next ps h)

-- A partition that starts between two sectors counts for the first one only.
pub behind_fewer :
    (last next : ℕ) (ps : List Partition) (i : ℕ)
    → i < length ps
    → last ≤ (part_at ps i).start
    → (part_at ps i).start < next
    → behind next ps < behind last ps
unfolding part_at
behind_fewer last next [] i h l u = absurd (omega arith)
behind_fewer last next (p ∷ ps) zero h l u = ground (arith, behind_anti last next ps (omega arith))
behind_fewer last next (p ∷ ps) (suc i) h l u =
    ground (arith, behind_fewer last next ps i (omega arith) l u)

pub All-part_at :
    (ps : List Partition) (i : ℕ) → All IsSolid ps → i < length ps → IsSolid (part_at ps i)
unfolding part_at
All-part_at [] i h l = absurd (omega arith)
All-part_at (p ∷ ps) zero (h, hs) l = h
All-part_at (p ∷ ps) (suc i) (h, hs) l = All-part_at ps i hs (omega arith)

-- Entries of a part of the array stand in the whole array from an index on.
abbrev pub PartOf : List Partition → List Partition → ℕ → Type 0
PartOf all rest i =
    (j : ℕ) → j < length rest → (i + j < length all) × (part_at rest j ≡ part_at all (i + j))

pub drop-PartOf : (ps : List Partition) (n : ℕ) → PartOf ps (drop n ps) n
unfolding part_at
drop-PartOf ps zero j h = (omega arith, ap (part_at ps) same)
  where
    same : j ≡ 0 + j
    same = omega arith
drop-PartOf [] (suc n) j h = absurd (omega arith)
drop-PartOf (p ∷ ps) (suc n) j h = (
  omega (arith, (drop-PartOf ps n j h).0),
  (drop-PartOf ps n j h).1 ∙ ap (part_at (p ∷ ps)) shift,
)
  where
    shift : suc (n + j) ≡ suc n + j
    shift = omega arith

pub tail-PartOf :
    (all rest : List Partition) (p : Partition) (i : ℕ)
    → PartOf all (p ∷ rest) i
    → PartOf all rest (i + 1)
unfolding part_at
tail-PartOf all rest p i h j l = (
  omega (arith, (h (suc j) (omega arith)).0),
  (h (suc j) (omega arith)).1 ∙ ap (part_at all) shift,
)
  where
    shift : i + suc j ≡ i + 1 + j
    shift = omega arith

-- An entry that the search may give.
abbrev pub IsNext : List Partition → ℕ → ℕ → Type 0
IsNext all last j = (j ≡ 0) ⊎ ((j < length all) × (last ≤ (part_at all j).start))

pub next_free-IsNext :
    (all : List Partition) (last : ℕ) (rest : List Partition) (i next : ℕ)
    → PartOf all rest i
    → IsNext all last next
    → IsNext all last (next_free all last rest i next)
unfolding next_free part_at
next_free-IsNext all last [] i next h n = n
next_free-IsNext all last (p ∷ rest) i next h n =
    next_free-IsNext all last rest (i + 1) _ (tail-PartOf all rest p i h) (choose _ refl)
  where
    here : i + 0 ≡ i
    here = omega arith

    start_same : p.start ≡ (part_at all i).start
    start_same = ap (λ (x : Partition). x.start) ((h 0 (omega arith)).1 ∙ ap (part_at all) here)

    choose :
        (b : Bool)
        → (is_free p && leb last p.start && ((next == 0) || ltb p.start (part_at all next).start))
          ≡ b
        → IsNext all last (if b then i else next)
    choose true e = inr (omega (arith, (h 0 (omega arith)).0), ground (arith, e, start_same))
    choose false e = n

-- A search that has come to an end.
pub data Ended : Space → Type 0 where
  ended : (first last : ℕ) → Ended (space first last)
  ended_without : Ended no_space

choose-Ended : (b : Bool) (r : Space) → (b ≡ false → Ended r) → Ended (if b then no_space else r)
choose-Ended true r h = ended_without
choose-Ended false r h = h refl

search-Ended :
    (n : ℕ) (ps : List Partition) (start size first last : ℕ)
    → All IsSolid ps
    → behind last ps < n
    → Ended (find_space n ps start size first last)
unfolding find_space
search-Ended zero ps start size first last h fuel = absurd (omega arith)
search-Ended (suc n) ps start size first last h fuel =
    elim (Bool-cases (ltb (sub32 last first) size)) [
      | inl more ↦
          rw more (choose-Ended (next == 0) _ (λ e. search-Ended n ps start size _ _ h (fewer e)))
      | inr enough ↦ rw enough (ended _ _)
    ]
  where
    next : ℕ
    next = next_free ps last (drop start ps) start 0

    fewer_at :
        IsNext ps last next
        → (next == 0) ≡ false
        → behind (add32 (part_at ps next).start (part_at ps next).sectors) ps < n
    fewer_at (inl none_found) e = absurd (ground arith)
    fewer_at (inr (inside, later)) e = omega (
      arith,
      fuel,
      behind_fewer last (add32 (part_at ps next).start (part_at ps next).sectors) ps next inside
          later (omega (arith, All-part_at ps next h inside)),
    )

    fewer :
        (next == 0) ≡ false
        → behind (add32 (part_at ps next).start (part_at ps next).sectors) ps < n
    fewer e =
        fewer_at
          (next_free-IsNext ps last (drop start ps) start 0 (drop-PartOf ps start) (inl refl)) e

-- Where each partition has sectors and ends before sector 2^32, the search for space of a size
-- comes to an end in at most one more round than there are partitions: it gives a range, or there
-- is no space. This holds from any range on, and for any size and first index of the search.
pub find_space-Ended :
    (rounds : ℕ) (ps : List Partition) (start size first last : ℕ)
    → All IsSolid ps
    → length ps < rounds
    → Ended (find_space rounds ps start size first last)
find_space-Ended rounds ps start size first last h enough =
    search-Ended rounds ps start size first last h (omega (arith, behind-length last ps))
