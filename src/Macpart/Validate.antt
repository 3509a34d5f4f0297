-- ===== src/Macpart/Validate.antt =====
-- lib/macpart.c of MFSTools: tivo_partition_validate.
use tivo_tools.Base.{
  ℕ, zero, suc, ◌+◌, ◌-◌, List, [], ◌∷◌, ◌++◌, Bool, true, false, ◌&&◌, ◌||◌, not, ltb, leb, ◌==◌,
  if◌then◌else◌, Option, none, some, length,
}
use tivo_tools.Base.Memory.{add32, sub32}
use tivo_tools.Text.{CString, codes}
use tivo_tools.Macpart.{Partition, Table}

-- `!strcmp (s, t)`.
unfoldable pub same_text : CString → CString → Bool
same_text [] [] = true
same_text [] (c ∷ t) = false
same_text (b ∷ s) [] = false
same_text (b ∷ s) (c ∷ t) = (b == c) && same_text s t

abbrev pub is_free : Partition → Bool
is_free p = same_text p.ptype (codes "Apple_Free")

-- An entry of the array; behind the partitions it is zeroed.
unfoldable pub part_at : List Partition → ℕ → Partition
part_at [] i = record { sectors = 0; start = 0; refs = 0; name = []; ptype = [] }
part_at (p ∷ ps) zero = p
part_at (p ∷ ps) (suc i) = part_at ps i

abbrev pub extra : ℕ → ℕ → Partition
extra start sectors = record {
  sectors = sectors;
  start = start;
  refs = 1;
  name = codes "Extra";
  ptype = codes "Apple_Free";
}

-- The search for the partition that is closest to a sector: the partitions that are left, `loop2`
-- and `partno`.
unfoldable pub nearest : List Partition → ℕ → List Partition → ℕ → ℕ → ℕ
nearest all loop [] i partno = partno
nearest all loop (p ∷ rest) i partno = nearest all loop rest (i + 1) (
    if leb loop p.start && (ltb partno 1 || ltb p.start (part_at all (partno - 1)).start)
    then i + 1
    else partno)

-- The walk over the sectors of the drive: it is refused, it ends, or it goes on after so many
-- rounds.
pub data Walk : Type 0 where
  refused : List Partition → Walk
  walked : List Partition → ℕ → (ℕ → Bool) → Walk
  walking : Walk

abbrev pub mark : ℕ → (ℕ → Bool) → ℕ → Bool
mark i used j = (j == i) || used j

abbrev pub is_full : Table → List Partition → Bool
is_full table ps = leb table.allocated (length ps) || leb 256 (length ps)

-- The walk from `loop` on: the partitions, and `partsused`. The gap is looked for behind the last
-- partition, as the code has it.
unfoldable pub walk : ℕ → Table → List Partition → ℕ → (ℕ → Bool) → Walk
walk zero table ps loop used = walking
walk (suc n) table ps loop used =
    let partno = nearest ps loop ps 0 0 in
    let p = part_at ps (partno - 1) in
    let behind = part_at ps (length ps) in
    let gap = ltb loop behind.start in
    let ps' = if gap then ps ++ (extra loop (behind.start - loop) ∷ []) else ps in
    let used' = mark (partno - 1) (if gap then mark (length ps) used else used) in
    let rest = walk n table ps' (add32 loop p.sectors) used' in
    if not (ltb loop table.devsize) || (partno == 0)
    then walked ps loop used
    else if gap && is_full table ps
    then refused ps
    else if ltb (sub32 0 p.sectors) loop
    then refused ps'
    else rest

-- The test that each of the first partitions is marked.
unfoldable pub all_used : (ℕ → Bool) → ℕ → Bool
all_used used zero = true
all_used used (suc n) = used n && all_used used n

-- What follows the walk: the result is 0 or not, and the partitions.
unfoldable pub after_walk : Table → Walk → Option (Bool × List Partition)
after_walk table (refused ps) = some (false, ps)
after_walk table walking = none
after_walk table (walked ps loop used) =
    let filled = ps ++ (extra loop (table.devsize - loop) ∷ []) in
    if ltb table.devsize loop
    then some (false, ps)
    else if not (ltb loop table.devsize)
    then some (all_used used (length ps), ps)
    else if is_full table ps
    then some (false, ps)
    else some (all_used (mark (length ps) used) (length filled), filled)

abbrev pub with_parts : Table → Option (Bool × List Partition) → Option (Bool × Table)
with_parts table none = none
with_parts table (some (valid, ps)) =
    some (valid, record table { vol_valid = valid; partitions = ps })

-- `tivo_partition_validate`, for so many rounds of the walk; `none` is a walk that goes on.
unfoldable pub tivo_partition_validate : ℕ → Table → Option (Bool × Table)
tivo_partition_validate rounds table =
    if table.vol_valid
    then some (true, table)
    else if leb 256 (length table.partitions)
    then some (false, table)
    else with_parts table (after_walk table (walk rounds table table.partitions 1 (λ i. false)))
