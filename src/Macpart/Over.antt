-- ===== src/Macpart/Over.antt =====
-- Adding a partition by lib/macpart.c comes to an end.
use tivo_tools.Base.{ℕ, ◌+◌, ◌-◌, ◌^◌, ◌≤◌, ◌<◌, ◌≡◌, refl, arith, inl, inr}
use tivo_tools.Base.{
  [], ◌∷◌, Bool, true, false, ◌&&◌, ltb, leb, ◌==◌, if◌then◌else◌, Option, none, some, All,
  All-append, length, length-append, Bool-cases,
}
use tivo_tools.Text.{CString}
use tivo_tools.Macpart.{Table}
use tivo_tools.Macpart.Validate.{extra}
use tivo_tools.Macpart.Space.{
  start_part, Space, put_part, add_checked, add_if_valid, tivo_partition_add,
}
use tivo_tools.Macpart.Ends.{IsSolid, Ended, ended, ended_without, find_space-Ended}
use tivo_tools.Macpart.Grown.{
  Grown, as_it_was, filled, Checked, checked, check_goes_on, validate-Checked,
}
use tivo_tools.Macpart.Decided.{IsDecided, validate-IsDecided}

-- An adding that is over.
abbrev IsAnswered : Option (Option ℕ × Table) → Type 0
IsAnswered r = (number : Option ℕ) × (u : Table) × (r ≡ some (number, u))

put_part-IsAnswered :
    (u : Table) (start index : ℕ) (name type : CString) (found : Space)
    → Ended found
    → IsAnswered (put_part u start index name type found)
unfolding put_part
put_part-IsAnswered u start index name type _ (ended first last) = (_, _, refl)
put_part-IsAnswered u start index name type _ ended_without = (_, _, refl)

add_checked-IsAnswered :
    (rounds : ℕ) (u : Table) (size index : ℕ) (name type : CString)
    → All IsSolid u.partitions
    → length u.partitions < rounds
    → IsAnswered (add_checked rounds u size index name type)
unfolding add_checked
add_checked-IsAnswered rounds u size index name type solid enough =
    choose (leb u.allocated (length u.partitions + 1)) (
      choose (ltb 0 index && ltb index (start_part u.partitions)) (
        put_part-IsAnswered u (start_part u.partitions) index name type _
          (find_space-Ended rounds u.partitions (start_part u.partitions) size 0 0 solid enough)))
  where
    choose :
        {r : Option (Option ℕ × Table)} (b : Bool)
        → IsAnswered r
        → IsAnswered (if b then some (none, u) else r)
    choose true h = (_, _, refl)
    choose false h = h

Grown-IsSolid :
    (table u : Table)
    → All IsSolid table.partitions
    → table.devsize < 2 ^ 32
    → Grown table u
    → All IsSolid u.partitions × (length u.partitions ≤ length table.partitions + 1)
Grown-IsSolid table _ solid small (as_it_was valid) = (solid, omega arith)
Grown-IsSolid table _ solid small (filled valid start sectors some_sectors to_end) = (
  All-append IsSolid table.partitions (extra start sectors ∷ []) solid
      ((some_sectors, omega arith), tt),
  omega (arith, length-append table.partitions (extra start sectors ∷ [])),
)

checked-IsAnswered :
    (rounds : ℕ) (table : Table) (size index : ℕ) (name type : CString) (r : Option (Bool × Table))
    → All IsSolid table.partitions
    → table.devsize < 2 ^ 32
    → length table.partitions + 1 < rounds
    → IsDecided r
    → Checked table r
    → IsAnswered (add_if_valid rounds size index name type r)
unfolding add_if_valid
checked-IsAnswered rounds table size index name type _ solid small enough (valid, u, e)
      check_goes_on =
    absurd cc
checked-IsAnswered rounds table size index name type _ solid small enough h (checked false u g) =
    (_, _, refl)
checked-IsAnswered rounds table size index name type _ solid small enough h (checked true u g) =
    add_checked-IsAnswered rounds u size index name type (Grown-IsSolid table u solid small g).0
      (omega (arith, (Grown-IsSolid table u solid small g).1))

-- Adding a partition comes to an end, with a number or -1 and a table, where the rounds of each loop
-- are more than the drive has sectors and at least two more than there are partitions, each
-- partition has sectors and ends before sector 2^32, and the drive has fewer than 2^32 sectors.
pub tivo_partition_add_ends :
    (rounds : ℕ) (table : Table) (size before : ℕ) (name type : CString)
    → All IsSolid table.partitions
    → table.devsize < 2 ^ 32
    → table.devsize < rounds
    → length table.partitions + 1 < rounds
    → (number : Option ℕ) × (u : Table) × (tivo_partition_add rounds table size before name type
        ≡ some (number, u))
unfolding tivo_partition_add
tivo_partition_add_ends rounds table size before name type solid small walks searches =
    elim (Bool-cases (size == 0)) [
      | inl nothing ↦ rw nothing (_, _, refl)
      | inr something ↦ rw something (
          checked-IsAnswered rounds table size (before - 1) name type _ solid small searches
            (validate-IsDecided rounds table solid walks) (validate-Checked rounds table))
    ]
