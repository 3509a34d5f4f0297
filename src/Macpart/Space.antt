-- ===== src/Macpart/Space.antt =====
-- lib/macpart.c of MFSTools: the free space of a partition table, and the adding of a
-- partition.
use tivo_tools.Base.{
  ℕ, zero, suc, ◌+◌, ◌-◌, List, [], ◌∷◌, ◌++◌, Bool, true, false, ◌&&◌, ◌||◌, not, ltb, leb, ◌==◌,
  if◌then◌else◌, Option, none, some, length, take, drop,
}
use tivo_tools.Base.Memory.{add32, sub32}
use tivo_tools.Text.{CString}
use tivo_tools.Macpart.{Partition, Table}
use tivo_tools.Macpart.Validate.{is_free, part_at, tivo_partition_validate}

-- The loop over the partitions: `total`.
unfoldable pub sum_free : ℕ → List Partition → ℕ
sum_free total [] = total
sum_free total (p ∷ ps) = sum_free (if is_free p then add32 total p.sectors else total) ps

-- `tivo_partition_total_free` of a table that has been read and found valid.
unfoldable pub tivo_partition_total_free : Table → ℕ
tivo_partition_total_free table =
    if leb table.allocated (length table.partitions + 1) then 0 else sum_free 0 table.partitions

-- `startpart`: behind the last partition in use, from an index down.
unfoldable pub start_from : List Partition → ℕ → ℕ
start_from ps zero = 1
start_from ps (suc k) =
    let earlier = start_from ps k in if ltb 1 (part_at ps (suc k)).refs then suc k + 1 else earlier

abbrev pub start_part : List Partition → ℕ
start_part ps = if length ps == 0 then 0 else start_from ps (length ps - 1)

-- The search for the free space that is closest to the start: the partitions that are left, `loop`
-- and `nextpart`.
unfoldable pub next_free : List Partition → ℕ → List Partition → ℕ → ℕ → ℕ
next_free all last [] i next = next
next_free all last (p ∷ rest) i next = next_free all last rest (i + 1) (
    if is_free p && leb last p.start && ((next == 0) || ltb p.start (part_at all next).start)
    then i
    else next)

-- What the search for space gives; `searching` is one that goes on.
pub data Space : Type 0 where
  space : ℕ → ℕ → Space
  no_space : Space
  searching : Space

-- The loop until the range from `first` to `last` is large enough.
unfoldable pub find_space : ℕ → List Partition → ℕ → ℕ → ℕ → ℕ → Space
find_space zero ps start size first last = searching
find_space (suc n) ps start size first last =
    let next = next_free ps last (drop start ps) start 0 in
    let p = part_at ps next in
    let first' = if p.start == last then first else p.start in
    let rest = find_space n ps start size first' (add32 p.start p.sectors) in
    if not (ltb (sub32 last first) size)
    then space first (if ltb size (sub32 last first) then add32 first size else last)
    else if next == 0
    then no_space
    else rest

-- A partition inside the range that is now used: the part behind it stays.
abbrev pub is_inside : ℕ → ℕ → Partition → Bool
is_inside first last p = leb first p.start && ltb p.start last

abbrev pub is_deleted : ℕ → ℕ → Partition → Bool
is_deleted first last p = is_inside first last p && not (ltb last (add32 p.start p.sectors))

abbrev pub truncated : ℕ → ℕ → Partition → Partition
truncated first last p =
    if is_inside first last p
    then record p { sectors = sub32 p.sectors (last - p.start); start = last }
    else p

-- The loop that deletes partitions. The partition that moves to the place of a deleted one is
-- passed over, as the code has it.
unfoldable pub delete_inside : ℕ → ℕ → Bool → List Partition → List Partition
delete_inside first last passed [] = []
delete_inside first last true (p ∷ ps) = p ∷ delete_inside first last false ps
delete_inside first last false (p ∷ ps) =
    let rest = delete_inside first last (is_deleted first last p) ps in
    if is_deleted first last p then rest else truncated first last p ∷ rest

-- The loop that goes back over free partitions.
unfoldable pub back_over : List Partition → ℕ → ℕ
back_over ps zero = 0
back_over ps (suc k) =
    let earlier = back_over ps k in if ltb 0 k && is_free (part_at ps k) then earlier else suc k

abbrev pub place : List Partition → ℕ → ℕ
place ps before =
    if ltb (length ps) before || (before == 0) then back_over ps (length ps) else before

abbrev pub new_part : ℕ → ℕ → CString → CString → Partition
new_part first last name type = record {
  sectors = sub32 last first;
  start = first;
  refs = 1;
  name = name;
  ptype = type;
}

-- The new partition in its place: the result, and the table. `none` is a search that goes on.
unfoldable pub put_part : Table → ℕ → ℕ → CString → CString → Space → Option (Option ℕ × Table)
put_part table start before name type searching = none
put_part table start before name type no_space = some (none, table)
put_part table start before name type (space first last) =
    let ps =
      take start table.partitions ++ delete_inside first last false (drop start table.partitions) in
    let i = place ps before in
    some (
      some (i + 1),
      record table {
        vol_dirty = true;
        partitions = take i ps ++ (new_part first last name type ∷ drop i ps);
      },
    )

-- `tivo_partition_add` from the checked table on; the place is the array index.
unfoldable pub add_checked : ℕ → Table → ℕ → ℕ → CString → CString → Option (Option ℕ × Table)
add_checked rounds table size index name type =
    let start = start_part table.partitions in
    if leb table.allocated (length table.partitions + 1)
    then some (none, table)
    else if ltb 0 index && ltb index start
    then some (none, table)
    else put_part table start index name type (find_space rounds table.partitions start size 0 0)

-- What follows the check: -1, or the adding.
unfoldable pub add_if_valid :
    ℕ → ℕ → ℕ → CString → CString → Option (Bool × Table) → Option (Option ℕ × Table)
add_if_valid rounds size index name type none = none
add_if_valid rounds size index name type (some (false, table)) = some (none, table)
add_if_valid rounds size index name type (some (true, table)) =
    add_checked rounds table size index name type

-- `tivo_partition_add` of a table that has been read, for so many rounds of the check's walk and of
-- the search each; `before` is the argument, not negative. The result is -1 or a number, and the
-- table; `none` is a loop that goes on after these rounds.
unfoldable pub tivo_partition_add :
    ℕ → Table → ℕ → ℕ → CString → CString → Option (Option ℕ × Table)
tivo_partition_add rounds table size before name type =
    let checked = tivo_partition_validate rounds table in
    if size == 0
    then some (none, table)
    else add_if_valid rounds size (before - 1) name type checked
