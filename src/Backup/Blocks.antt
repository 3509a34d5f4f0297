-- ===== src/Backup/Blocks.antt =====
-- The lists of sectors to back up, of backup/backup.c: `struct blocklist`, and the pool of its
-- nodes. A node says whether the sectors from its own on are backed up, up to the next node.
use tivo_tools.Base.{ℕ, ◌+◌, List, [], ◌∷◌, ◌++◌, Bool, true, false, Option, none, some}
use tivo_tools.Base.{◌&&◌, ◌||◌, not, ltb, leb, if◌then◌else◌}
use tivo_tools.Base.Memory.{add32, sub32}

pub record Block : Type 0 where
  pub backup : Bool
  pub sector : ℕ

abbrev pub empty_block : Block
empty_block = record { backup = false; sector = 0 }

-- `calloc` gives a block where the pool has none.
unfoldable pub alloc_block : List Block → Block × List Block
alloc_block [] = (empty_block, [])
alloc_block (block ∷ pool) = (empty_block, pool)

unfoldable pub free_block : List Block → Block → List Block
free_block pool block = block ∷ pool

-- An array ends at its first empty list.
unfoldable pub block_list_array_concat : List (List Block) → List Block
block_list_array_concat [] = []
block_list_array_concat ([] ∷ lists) = []
block_list_array_concat ((block ∷ blocks) ∷ lists) =
    (block ∷ blocks) ++ block_list_array_concat lists

abbrev pub same : Bool → Bool → Bool
same true b = b
same false b = not b

-- `while ((*loop)->next && …)`: what is left after the block, and the pool.
unfoldable pub drop_overlap : Block → List Block → List Block → List Block × List Block
drop_overlap block [] pool = ([], pool)
drop_overlap block (next ∷ rest) pool =
    let dropped = drop_overlap block rest (free_block pool next) in
    if ltb next.sector block.sector || same next.backup block.backup
    then dropped
    else (next ∷ rest, pool)

-- A block with what is left after it.
unfoldable pub settle : Block → List Block → List Block → List Block × List Block
settle block rest pool = let (rest', pool') = drop_overlap block rest pool in (block ∷ rest', pool')

-- The two new blocks, and the pool without them.
unfoldable pub new_blocks : List Block → ℕ → ℕ → Block × Block × List Block
new_blocks pool sector count =
    let (newblock, pool') = alloc_block pool in
    let (next, pool'') = alloc_block pool' in
    (
      record newblock { backup = true; sector = sector },
      record next { sector = add32 sector count },
      pool'',
    )

-- The new run ahead of the blocks of `rest`; `loop` is its first block, and where there is no
-- `prev` its second.
unfoldable pub insert_run : List Block → ℕ → ℕ → List Block → List Block × List Block
insert_run pool sector count rest =
    let (newblock, next, pool') = new_blocks pool sector count in
    settle newblock (next ∷ rest) pool'

unfoldable pub insert_first : List Block → ℕ → ℕ → List Block → List Block × List Block
insert_first pool sector count rest =
    let (newblock, next, pool') = new_blocks pool sector count in
    let (rest', pool'') = settle next rest pool' in (newblock ∷ rest', pool'')

-- The cases on `*loop`, a block that is not before the sector. `none` is the result -1.
unfoldable pub add_at :
    Bool → Block → List Block → List Block → ℕ → ℕ → Option (List Block × List Block)
add_at prev block rest pool sector count =
    if block.backup
    then if leb block.sector (add32 sector count)
      then some (settle (record block { sector = sector }) rest pool)
      else some (insert_run pool sector count (block ∷ rest))
    else if prev && ltb block.sector (add32 sector count)
    then some (settle (record block { sector = add32 sector count }) rest pool)
    else if not prev
    then some (insert_first pool sector count rest)
    else none

abbrev pub behind : Block → Option (List Block × List Block) → Option (List Block × List Block)
behind block none = none
behind block (some (rest, pool)) = some (block ∷ rest, pool)

-- The search for `loop` in one list. `prev` says whether a block has been passed.
unfoldable pub add_in : Bool → List Block → List Block → ℕ → ℕ → Option (List Block × List Block)
add_in prev [] pool sector count = some (insert_run pool sector count [])
add_in prev (block ∷ rest) pool sector count =
    let later = add_in true rest pool sector count in
    if ltb block.sector sector then behind block later else add_at prev block rest pool sector count

abbrev pub Lists : Type 0
Lists = Option (List (List Block) × List Block)

abbrev pub here : List (List Block) → Option (List Block × List Block) → Lists
here lists none = none
here lists (some (list, pool)) = some (list ∷ lists, pool)

abbrev pub there : List Block → Lists → Lists
there list none = none
there list (some (lists, pool)) = some (list ∷ lists, pool)

-- `while (partstart[1] <= sector)`: the last entry of `partstart` is above any sector, so that the
-- search never leaves the arrays. The lists are those of the volumes that start at `partstart`.
unfoldable pub backup_add_block : List (List Block) → List ℕ → List Block → ℕ → ℕ → Lists
backup_add_block (list ∷ lists) (start ∷ next ∷ partstart) pool sector count =
    let later = backup_add_block lists (next ∷ partstart) pool sector count in
    if leb next sector then there list later else here lists (add_in false list pool sector count)
backup_add_block _ _ pool sector count = none

pub record BackupBlock : Type 0 where
  pub firstsector : ℕ
  pub sectors : ℕ

abbrev pub with_block : BackupBlock → Option (List BackupBlock) → Option (List BackupBlock)
with_block b none = none
with_block b (some bs) = some (b ∷ bs)

-- The second loop of `add_blocks_to_backup_info`. `none` is a run without an end, where the code
-- reads through a null pointer.
unfoldable pub copied : List Block → Option (List BackupBlock)
copied [] = some []
copied (block ∷ []) = if block.backup then none else some []
copied (block ∷ next ∷ rest) =
    let later = copied (next ∷ rest) in
    if block.backup
    then with_block
        (record { firstsector = block.sector; sectors = sub32 next.sector block.sector }) later
    else later

-- What `nsectors` grows by, and `nblocks`: the sizes are added up in an `int`.
unfoldable pub sum_blocks : List BackupBlock → ℕ
sum_blocks [] = 0
sum_blocks (b ∷ bs) = b.sectors + sum_blocks bs
