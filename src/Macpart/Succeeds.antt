-- ===== src/Macpart/Succeeds.antt =====
-- Adding a partition by lib/macpart.c succeeds where there is space.
use tivo_tools.Base.{ℕ, ◌+◌, ◌-◌, ◌≤◌, ◌<◌, ◌≡◌, refl, arith, ◌⊎◌, inl, inr}
use tivo_tools.Base.{List, false, ◌&&◌, ltb, leb, ◌==◌, some, All, length}
use tivo_tools.Text.{CString}
use tivo_tools.Macpart.{Partition, Table}
use tivo_tools.Macpart.Space.{
  start_part, Space, put_part, add_checked, add_if_valid, tivo_partition_add,
}
use tivo_tools.Macpart.Validate.{tivo_partition_validate}
use tivo_tools.Base.{true}
use tivo_tools.Macpart.Ends.{IsSolid, behind-length}
use tivo_tools.Macpart.Placed.{start_from-le}
use tivo_tools.Macpart.Found.{AreApart, HasFree, IsSpace, is_space, find_space-IsSpace}

start_part_some : (ps : List Partition) → 0 < length ps → 0 < start_part ps
start_part_some ps h = ground (arith, h, start_from-le ps (length ps - 1))

put_part-some :
    (table : Table) (start index : ℕ) (name type : CString) (found : Space)
    → IsSpace found
    → (i : ℕ) × (v : Table) × (put_part table start index name type found ≡ some (some i, v))
unfolding put_part
put_part-some table start index name type _ (is_space first last) = (_, _, refl)

add_checked_succeeds :
    (rounds : ℕ) (u : Table) (size index : ℕ) (name type : CString) (j : ℕ)
    → All IsSolid u.partitions
    → AreApart u.partitions
    → HasFree u.partitions (start_part u.partitions) size j
    → length u.partitions + 1 < u.allocated
    → (index ≡ 0) ⊎ (start_part u.partitions ≤ index)
    → length u.partitions < rounds
    → (i : ℕ) × (v : Table) × (add_checked rounds u size index name type ≡ some (some i, v))
unfolding add_checked
add_checked_succeeds rounds u size index name type j solid apart q room place enough =
    rw (not_full, allowed)
      (put_part-some u (start_part u.partitions) index name type _ (
        find_space-IsSpace u.partitions (start_part u.partitions) size j solid apart q
          (start_part_some u.partitions (omega (arith, q.inside))) rounds 0 0
          (omega (arith, behind-length 0 u.partitions)) (omega arith) (omega arith)
          (inl (omega arith))))
  where
    not_full : leb u.allocated (length u.partitions + 1) ≡ false
    not_full = ground arith

    allowed : (ltb 0 index && ltb index (start_part u.partitions)) ≡ false
    allowed = elim place [
      | inl at_end ↦ rw at_end refl
      | inr behind_used ↦ ground (arith, behind_used)
    ]

-- Adding a partition succeeds, with a number for it, where the check accepts the table, which may
-- put one more entry behind the others, and a partition behind those in use is then free space and
-- has at least the sectors asked for, which are not 0. For this no two partitions of the checked
-- table overlap, each has sectors and ends before sector 2^32, there is room for one more entry and
-- one behind it, the place asked for is the end or behind the partitions in use, and the search has
-- more rounds than there are partitions.
pub tivo_partition_add_succeeds :
    (rounds : ℕ) (table u : Table) (size before : ℕ) (name type : CString) (j : ℕ)
    → tivo_partition_validate rounds table ≡ some (true, u)
    → All IsSolid u.partitions
    → AreApart u.partitions
    → HasFree u.partitions (start_part u.partitions) size j
    → 0 < size
    → length u.partitions + 1 < u.allocated
    → (before - 1 ≡ 0) ⊎ (start_part u.partitions ≤ before - 1)
    → length u.partitions < rounds
    → (i : ℕ) × (v : Table) × (tivo_partition_add rounds table size before name type
        ≡ some (some i, v))
unfolding tivo_partition_add add_if_valid
tivo_partition_add_succeeds rounds table u size before name type j valid solid apart q asked room
      place enough =
    rw (something, valid)
      (add_checked_succeeds rounds u size (before - 1) name type j solid apart q room place enough)
  where
    something : (size == 0) ≡ false
    something = ground arith
