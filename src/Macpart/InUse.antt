-- ===== src/Macpart/InUse.antt =====
-- Adding a partition by lib/macpart.c: the new partition, and the partitions in use.
use tivo_tools.Base.{ℕ, ◌+◌, ◌≤◌, ◌<◌, ◌≡◌}
use tivo_tools.Base.{true, Option, none, some, All, length, take}
use tivo_tools.Base.Memory.{sub32}
use tivo_tools.Text.{CString}
use tivo_tools.Macpart.{Table}
use tivo_tools.Macpart.Validate.{part_at}
use tivo_tools.Macpart.Space.{start_part, Space, space, no_space, searching}
use tivo_tools.Macpart.Grown.{Grown}
use tivo_tools.Macpart.Placed.{IsKept}

-- What the search for space may give: nothing, or a range of the size asked.
data HasSize (size : ℕ) : Space → Type 0 where
  sized : (first last : ℕ) → sub32 last first ≡ size → HasSize size (space first last)
  none_left : HasSize size no_space
  searching_on : HasSize size searching

-- What adding a partition may do to a table. A loop goes on after its rounds; or -1 is the result,
-- and the table is changed by the check alone; or the new partition stands at an index behind the
-- partitions in use, which have not changed.
pub data Added (table : Table) (size : ℕ) (name type : CString)
    : Option (Option ℕ × Table) → Type 0 where
  goes_on : Added table size name type none
  not_added : (u : Table) → Grown table u → Added table size name type (some (none, u))
  added :
      (i first : ℕ) (u : Table)
      → u.vol_dirty ≡ true
      → start_part table.partitions ≤ i
      → take (start_part table.partitions) u.partitions
        ≡ take (start_part table.partitions) table.partitions
      → part_at u.partitions i
        ≡ record { sectors = size; start = first; refs = 1; name = name; ptype = type }
      → Added table size name type (some (some (i + 1), u))

-- A table that the check has left, with the entries in use as they were.
record Ready (table u : Table) : Type 0 where
  grown : Grown table u
  kept : All IsKept u.partitions
  nonempty : 0 < length u.partitions
  same_start : start_part u.partitions ≡ start_part table.partitions
  same_front :
      take (start_part table.partitions) u.partitions
      ≡ take (start_part table.partitions) table.partitions
