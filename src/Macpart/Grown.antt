-- ===== src/Macpart/Grown.antt =====
-- What the check of a partition table by lib/macpart.c does to it.
use tivo_tools.Base.{◌+◌}
use tivo_tools.Base.{ℕ, zero, suc, ◌-◌, ◌<◌, ◌≡◌, refl, sym, ap, ◌∙◌, arith, inl, inr}
use tivo_tools.Base.{
  List, [], ◌∷◌, ◌++◌, Bool, true, false, ◌||◌, not, ltb, leb, ◌==◌, if◌then◌else◌, Option, none,
  some, length, length-append, Bool-cases,
}
use tivo_tools.Base.Memory.{add32, sub32}
use tivo_tools.Macpart.{Partition, Table}
use tivo_tools.Macpart.Validate.{
  part_at, extra, nearest, mark, is_full, Walk, refused, walked, walking, walk, after_walk,
  with_parts, tivo_partition_validate,
}
use tivo_tools.Macpart.Space.{start_from, start_part}

-- A table after its check: at most the flag has changed, and an entry for the space from a
-- sector to the end of the drive has been put behind the others.
pub data Grown (table : Table) : Table → Type 0 where
  as_it_was : (valid : Bool) → Grown table (record table { vol_valid = valid })
  filled :
      (valid : Bool) (start sectors : ℕ)
      → 0 < sectors
      → start + sectors ≡ table.devsize
      → Grown table (record table {
        vol_valid = valid;
        partitions = table.partitions ++ (extra start sectors ∷ []);
      })

-- What the check gives, and the table.
pub data Checked (table : Table) : Option (Bool × Table) → Type 0 where
  check_goes_on : Checked table none
  checked : (valid : Bool) (u : Table) → Grown table u → Checked table (some (valid, u))

behind_last : (ps : List Partition) → (part_at ps (length ps)).start ≡ 0
unfolding part_at
behind_last [] = refl
behind_last (p ∷ ps) = behind_last ps

part_at-append :
    (ps : List Partition) (q : Partition) (i : ℕ)
    → i < length ps
    → part_at (ps ++ (q ∷ [])) i ≡ part_at ps i
unfolding part_at
part_at-append [] q i h = absurd (omega arith)
part_at-append (p ∷ ps) q zero h = refl
part_at-append (p ∷ ps) q (suc i) h = part_at-append ps q i (omega arith)

part_at-last :
    (ps : List Partition) (q : Partition) (i : ℕ) → i ≡ length ps → part_at (ps ++ (q ∷ [])) i ≡ q
unfolding part_at
part_at-last [] q zero h = refl
part_at-last [] q (suc i) h = absurd (omega arith)
part_at-last (p ∷ ps) q zero h = absurd (omega arith)
part_at-last (p ∷ ps) q (suc i) h = part_at-last ps q i (omega arith)

-- Nothing stands behind the last partition, so that no gap is seen.
pub no_gap : (ps : List Partition) (loop : ℕ) → ltb loop (part_at ps (length ps)).start ≡ false
no_gap ps loop = ground (arith, behind_last ps)

-- A walk leaves the partitions as they are.
data Walked (ps : List Partition) : Walk → Type 0 where
  on : Walked ps walking
  stopped : Walked ps (refused ps)
  ended : (loop : ℕ) (used : ℕ → Bool) → Walked ps (walked ps loop used)

walk-Walked :
    (n : ℕ) (table : Table) (ps : List Partition) (loop : ℕ) (used : ℕ → Bool)
    → Walked ps (walk n table ps loop used)
unfolding walk
walk-Walked zero table ps loop used = on
walk-Walked (suc n) table ps loop used = rw no_gap (
    choose (not (ltb loop table.devsize) || (nearest ps loop ps 0 0 == 0)) (ended loop used) (
      choose (ltb (sub32 0 p.sectors) loop) stopped
        (walk-Walked n table ps (add32 loop p.sectors) (mark (nearest ps loop ps 0 0 - 1) used))))
  where
    p : Partition
    p = part_at ps (nearest ps loop ps 0 0 - 1)

    choose : {v w : Walk} (b : Bool) → Walked ps v → Walked ps w → Walked ps (if b then v else w)
    choose true h k = h
    choose false h k = k

after_walk-Checked :
    (table : Table) (w : Walk)
    → Walked table.partitions w
    → Checked table (with_parts table (after_walk table w))
unfolding after_walk
after_walk-Checked table _ on = check_goes_on
after_walk-Checked table _ stopped = checked false _ (as_it_was false)
after_walk-Checked table _ (ended loop used) = elim (Bool-cases (ltb table.devsize loop)) [
  | inl past ↦ rw past (checked false _ (as_it_was false))
  | inr more ↦ rw more (elim (Bool-cases (ltb loop table.devsize)) [
    | inr at_end ↦ rw at_end (checked _ _ (as_it_was _))
    | inl short ↦ rw short (elim (Bool-cases (is_full table table.partitions)) [
      | inl full ↦ rw full (checked false _ (as_it_was false))
      | inr room ↦ rw room (
          checked _ _
            (filled _ loop (table.devsize - loop) (ground (arith, short)) (ground (arith, short))))
    ])
  ])
]

pub validate-Checked :
    (rounds : ℕ) (table : Table) → Checked table (tivo_partition_validate rounds table)
unfolding tivo_partition_validate
validate-Checked rounds table = elim (Bool-cases table.vol_valid) [
  | inl valid ↦ rw valid (checked true _ (as_it_was true))
  | inr unknown ↦ rw unknown (
      count (leb 256 (length table.partitions))
        (after_walk-Checked _ _ (walk-Walked rounds _ table.partitions 1 (λ i. false))))
]
  where
    plain : Table
    plain = record table { vol_valid = false }

    count :
        {r : Option (Bool × Table)} (b : Bool)
        → Checked plain r
        → Checked plain (if b then some (false, plain) else r)
    count true h = checked false _ (as_it_was false)
    count false h = h

-- Entries with one reference behind the others do not change where those in use end.
start_from-append :
    (ps : List Partition) (q : Partition) (k : ℕ)
    → k < length ps
    → start_from (ps ++ (q ∷ [])) k ≡ start_from ps k
unfolding start_from
start_from-append ps q zero h = refl
start_from-append ps q (suc k) h =
    rw (part_at-append ps q (suc k) h, start_from-append ps q k (omega arith)) refl

start_part_is :
    (ps : List Partition) → 0 < length ps → start_part ps ≡ start_from ps (length ps - 1)
start_part_is ps h = rw some_parts refl
  where
    some_parts : (length ps == 0) ≡ false
    some_parts = ground arith

pub start_part-append :
    (ps : List Partition) (q : Partition)
    → 0 < length ps
    → q.refs ≡ 1
    → start_part (ps ++ (q ∷ [])) ≡ start_part ps
unfolding start_from
start_part-append ps q h e =
    start_part_is (ps ++ (q ∷ [])) (omega (arith, length-append ps (q ∷ [])))
    ∙ ap (start_from (ps ++ (q ∷ []))) at_last
    ∙ rw (part_at-last ps q (suc (length ps - 1)) (omega arith), one) refl
    ∙ start_from-append ps q (length ps - 1) (omega arith)
    ∙ sym (start_part_is ps h)
  where
    at_last : length (ps ++ (q ∷ [])) - 1 ≡ suc (length ps - 1)
    at_last = omega (arith, length-append ps (q ∷ []))

    one : ltb 1 q.refs ≡ false
    one = ground (arith, e)
