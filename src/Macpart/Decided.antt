-- ===== src/Macpart/Decided.antt =====
-- The check of a partition table by lib/macpart.c comes to an end.
use tivo_tools.Base.{ℕ, zero, suc, ◌+◌, ◌-◌, ◌≤◌, ◌<◌, ◌≡◌, refl, ap, ◌∙◌, arith, ◌⊎◌, inl, inr}
use tivo_tools.Base.{
  List, [], ◌∷◌, Bool, true, false, ◌&&◌, ◌||◌, not, ltb, leb, ◌==◌, if◌then◌else◌, Option, some,
  All, length, Bool-cases,
}
use tivo_tools.Base.Memory.{add32, sub32}
use tivo_tools.Macpart.{Partition, Table}
use tivo_tools.Macpart.Validate.{
  part_at, nearest, mark, is_full, Walk, refused, walked, walk, after_walk, with_parts,
  tivo_partition_validate,
}
use tivo_tools.Macpart.Space.{}
use tivo_tools.Macpart.Ends.{IsSolid, All-part_at, PartOf, tail-PartOf}
use tivo_tools.Macpart.Grown.{no_gap}

-- What the search for the closest partition may give.
abbrev IsNear : List Partition → ℕ → ℕ → Type 0
IsNear all loop partno =
    (partno ≡ 0) ⊎ ((partno - 1 < length all) × (loop ≤ (part_at all (partno - 1)).start))

nearest-IsNear :
    (all : List Partition) (loop : ℕ) (rest : List Partition) (i partno : ℕ)
    → PartOf all rest i
    → IsNear all loop partno
    → IsNear all loop (nearest all loop rest i partno)
unfolding nearest
nearest-IsNear all loop [] i partno h n = n
nearest-IsNear all loop (p ∷ rest) i partno h n =
    nearest-IsNear all loop rest (i + 1) _ (tail-PartOf all rest p i h) (choose _ refl)
  where
    here : i + 0 ≡ i + 1 - 1
    here = omega arith

    start_same : p.start ≡ (part_at all (i + 1 - 1)).start
    start_same =
        unfold part_at in
        ap (λ (x : Partition). x.start) ((h 0 (omega arith)).1 ∙ ap (part_at all) here)

    choose :
        (b : Bool)
        → (leb loop p.start && (ltb partno 1 || ltb p.start (part_at all (partno - 1)).start)) ≡ b
        → IsNear all loop (if b then i + 1 else partno)
    choose true e = inr (omega (arith, (h 0 (omega arith)).0), ground (arith, e, start_same))
    choose false e = n

whole-PartOf : (ps : List Partition) → PartOf ps ps 0
whole-PartOf ps j h = (omega arith, ap (part_at ps) same)
  where
    same : j ≡ 0 + j
    same = omega arith

-- A walk that is over.
data IsOver : Walk → Type 0 where
  stopped : (ps : List Partition) → IsOver (refused ps)
  at_end : (ps : List Partition) (loop : ℕ) (used : ℕ → Bool) → IsOver (walked ps loop used)

choose-IsOver :
    {v : Walk} (b : Bool) (w : Walk)
    → IsOver v
    → (b ≡ false → IsOver w)
    → IsOver (if b then v else w)
choose-IsOver true w h k = h
choose-IsOver false w h k = k refl

walk-IsOver :
    (n : ℕ) (table : Table) (ps : List Partition) (loop : ℕ) (used : ℕ → Bool)
    → All IsSolid ps
    → table.devsize - loop < n
    → IsOver (walk n table ps loop used)
unfolding walk
walk-IsOver zero table ps loop used solid fuel = absurd (omega arith)
walk-IsOver (suc n) table ps loop used solid fuel = rw (no_gap ps loop) (
    choose-IsOver _ _ (at_end ps loop used) (λ more.
      choose-IsOver (ltb (sub32 0 p.sectors) loop) _ (stopped ps) (λ fits.
        walk-IsOver n table ps (add32 loop p.sectors) (mark (partno - 1) used) solid
          (further more))))
  where
    partno : ℕ
    partno = nearest ps loop ps 0 0

    p : Partition
    p = part_at ps (partno - 1)

    further :
        (not (ltb loop table.devsize) || (partno == 0)) ≡ false
        → table.devsize - add32 loop p.sectors < n
    further more = elim (nearest-IsNear ps loop ps 0 0 (whole-PartOf ps) (inl refl)) [
      | inl none_left ↦ absurd (ground (arith, none_left, more))
      | inr (inside, later) ↦ omega (
        arith,
        fuel,
        below,
        later,
        (All-part_at ps (partno - 1) solid inside).0,
        (All-part_at ps (partno - 1) solid inside).1,
      )
    ]
      where
        below : loop < table.devsize
        below = ground (arith, more)

-- A check that is over.
abbrev pub IsDecided : Option (Bool × Table) → Type 0
IsDecided r = (valid : Bool) × (u : Table) × (r ≡ some (valid, u))

after_walk-IsDecided :
    (table : Table) (w : Walk) → IsOver w → IsDecided (with_parts table (after_walk table w))
unfolding after_walk
after_walk-IsDecided table _ (stopped ps) = (_, _, refl)
after_walk-IsDecided table _ (at_end ps loop used) = elim (Bool-cases (ltb table.devsize loop)) [
  | inl past ↦ rw past (_, _, refl)
  | inr more ↦ rw more (elim (Bool-cases (ltb loop table.devsize)) [
    | inr to_end ↦ rw to_end (_, _, refl)
    | inl short ↦ rw short (elim (Bool-cases (is_full table ps)) [
      | inl full ↦ rw full (_, _, refl)
      | inr room ↦ rw room (_, _, refl)
    ])
  ])
]

pub validate-IsDecided :
    (rounds : ℕ) (table : Table)
    → All IsSolid table.partitions
    → table.devsize < rounds
    → IsDecided (tivo_partition_validate rounds table)
unfolding tivo_partition_validate
validate-IsDecided rounds table solid enough = elim (Bool-cases table.vol_valid) [
  | inl valid ↦ rw valid (_, _, refl)
  | inr unknown ↦ rw unknown (
      count _ (leb 256 (length table.partitions)) (
        after_walk-IsDecided _ _
          (walk-IsOver rounds _ table.partitions 1 (λ i. false) solid (omega arith))))
]
  where
    count :
        (t : Table) {r : Option (Bool × Table)} (b : Bool)
        → IsDecided r
        → IsDecided (if b then some (false, t) else r)
    count t true h = (_, _, refl)
    count t false h = h
