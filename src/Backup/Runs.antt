-- ===== src/Backup/Runs.antt =====
-- What a list of blocks of backup/backup.c stands for: the set of sectors of its runs.
use tivo_tools.Base.{ℕ, ◌+◌, ◌-◌, ◌^◌, ◌≤◌, ◌<◌, ◌≡◌, refl, arith}
use tivo_tools.Base.{List, [], ◌∷◌, Bool, true, false, ◌&&◌, not, ltb, leb}
use tivo_tools.Base.{if◌then◌else◌}
use tivo_tools.Backup.Blocks.{Block, drop_overlap, settle}

-- Whether a sector is backed up, where `before` says whether the sectors ahead of the list are.
abbrev pub covered : Bool → List Block → ℕ → Bool
covered before [] x = before
covered before (b ∷ rest) x = if ltb x b.sector then before else covered b.backup rest x

abbrev pub within : ℕ → ℕ → ℕ → Bool
within sector count x = leb sector x && ltb x (sector + count)

abbrev pub one_if : Bool → ℕ
one_if true = 1
one_if false = 0

-- The blocks from `low` on are in order and change between the two states, a run that is backed up
-- has a sector, and the last block is not backed up.
abbrev pub Runs : Bool → ℕ → List Block → Type 0
Runs before low [] = before ≡ false
Runs before low (b ∷ rest) =
    (b.backup ≡ not before)
    × (low + one_if before ≤ b.sector)
    × (b.sector < 2 ^ 32)
    × Runs b.backup b.sector rest

-- The number of sectors that are backed up from `low` on.
abbrev pub total : Bool → ℕ → List Block → ℕ
total before low [] = 0
total before low (b ∷ rest) = (if before then b.sector - low else 0) + total b.backup b.sector rest

pub drop_overlap-Runs :
    (b : Block) (rest pool : List Block)
    → Runs b.backup b.sector rest
    → drop_overlap b rest pool ≡ (rest, pool)
unfolding drop_overlap
drop_overlap-Runs b [] pool r = refl
drop_overlap-Runs b (n ∷ rest) pool r = ground (arith)

pub settle-Runs :
    (b : Block) (rest pool : List Block)
    → Runs b.backup b.sector rest
    → settle b rest pool ≡ (b ∷ rest, pool)
unfolding settle
settle-Runs b rest pool r = rw (drop_overlap-Runs b rest pool r)

-- The first sector of a run is in it.
pub covered_first :
    (low : ℕ) (rest : List Block) → Runs true low rest → covered true rest low ≡ true
covered_first low [] r = refl
covered_first low (b ∷ rest) r = ground arith

-- No sector ahead of a gap's first is added to.
pub covered_below :
    (low x : ℕ) (rest : List Block) → Runs false low rest → x < low → covered false rest x ≡ false
covered_below low x [] r h = refl
covered_below low x (b ∷ rest) r h = ground arith

pub later-Runs :
    (low high : ℕ) (rest : List Block)
    → Runs false low rest
    → ((x : ℕ) → low ≤ x → x < high → covered false rest x ≡ false)
    → Runs false high rest
later-Runs low high [] r h = refl
later-Runs low high (b ∷ rest) (flag, above, small, r) h =
    ground (arith, h b.sector, covered_first b.sector rest)

-- Where a gap begins does not count.
pub total_gap : (low high : ℕ) (rest : List Block) → total false low rest ≡ total false high rest
total_gap low high [] = refl
total_gap low high (b ∷ rest) = refl
