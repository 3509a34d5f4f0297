-- ===== src/Backup/Union.antt =====
-- `backup_add_block` of backup/backup.c against the set of sectors that its lists stand for.
use tivo_tools.Base.{ℕ, ◌+◌, ◌^◌, ◌≤◌, ◌<◌, ◌≡◌, refl, arith}
use tivo_tools.Base.{List, [], ◌∷◌, Bool, true, false, ◌||◌, not, ltb, leb, Option, some, drop}
use tivo_tools.Base.{Bool-cases, inl, inr}
use tivo_tools.Base.Memory.{add32}
use tivo_tools.Backup.Blocks.{
  Block, alloc_block, new_blocks, settle, insert_run, add_at, add_in, behind,
}
use tivo_tools.Backup.Runs.{
  Runs, covered, within, total, one_if, settle-Runs, covered_first, covered_below, total_gap,
  later-Runs,
}

pub new_blocks_lem :
    (pool : List Block) (sector count : ℕ)
    → new_blocks pool sector count ≡ (
      record { backup = true; sector = sector },
      record { backup = false; sector = add32 sector count },
      drop 2 pool,
    )
unfolding new_blocks alloc_block
new_blocks_lem [] sector count = refl
new_blocks_lem (a ∷ []) sector count = refl
new_blocks_lem (a ∷ b ∷ pool) sector count = refl

-- A list and its pool after a run of `count` sectors has been added to the list `old`.
pub data Added (before : Bool) (low : ℕ) (old : List Block) (sector count : ℕ)
    : Option (List Block × List Block) → Type 0 where
  added :
      (new pool : List Block)
      → Runs before low new
      → ((x : ℕ) → covered before new x ≡ (covered before old x || within sector count x))
      → total before low new ≡ total before low old + count
      → Added before low old sector count (some (new, pool))

-- No sector of the run is backed up.
abbrev pub Apart : ℕ → ℕ → Bool → List Block → Type 0
Apart sector count before list =
    (x : ℕ) → sector ≤ x → x < sector + count → covered before list x ≡ false

module _ (sector count : ℕ) (some_sectors : 0 < count) (small : sector + count < 2 ^ 32) where
  pub fits : add32 sector count ≡ sector + count
  fits = omega arith

  -- A gap of the list, from `low` to the first of `rest`, takes the run.
  insert_run-Added :
      (low : ℕ) (rest pool : List Block)
      → low ≤ sector
      → Runs false (sector + count) rest
      → Added false low rest sector count (some (insert_run pool sector count rest))
  unfolding insert_run
  insert_run-Added low rest pool above r =
      rw (new_blocks_lem, fits)
        (rw (settle-Runs (record { backup = true; sector = sector }) _ _ shape) (
          added _ _ (refl, omega arith, omega arith, shape) union
            (omega (arith, total_gap (sector + count) low rest))))
    where
      shape : Runs true sector (record { backup = false; sector = sector + count } ∷ rest)
      shape = (refl, omega arith, small, r)

      union :
          (x : ℕ)
          → covered false
              (record { backup = true; sector = sector }
                ∷ record { backup = false; sector = sector + count }
                ∷ rest)
              x
            ≡ (covered false rest x || within sector count x)
      union x = ground (arith, covered_below (sector + count) x rest r)

  -- The run ends where the next run begins.
  extend_left-Added :
      (low s : ℕ) (rest pool : List Block)
      → low ≤ sector
      → s ≡ sector + count
      → Runs true s rest
      → Added false low
          (record { backup = true; sector = s } ∷ rest)
          sector
          count
          (some (settle (record { backup = true; sector = sector }) rest pool))
  extend_left-Added low s [] pool above e r = cc
  extend_left-Added low s (n ∷ rest) pool above e (flag, later, ends, r) =
      rw (settle-Runs (record { backup = true; sector = sector }) (n ∷ rest) pool shape)
        (added _ _ (refl, omega arith, omega arith, shape) (λ x. ground arith) (omega arith))
    where
      shape : Runs true sector (n ∷ rest)
      shape = (flag, omega arith, ends, r)

  -- The run begins where a run ends.
  extend_right-Added :
      (low s : ℕ) (rest pool : List Block)
      → low < sector
      → s ≡ sector
      → Runs false (sector + count) rest
      → Added true low
          (record { backup = false; sector = s } ∷ rest)
          sector
          count
          (some (settle (record { backup = false; sector = sector + count }) rest pool))
  extend_right-Added low s rest pool above e r =
      rw (settle-Runs (record { backup = false; sector = sector + count }) rest pool r) (
        added _ _ (refl, omega arith, small, r)
          (λ x. ground (arith, covered_below (sector + count) x rest r))
          (omega (arith, total_gap (sector + count) s rest)))

  add_at_gap :
      (prev : Bool) (low s : ℕ) (rest pool : List Block)
      → low ≤ sector
      → sector ≤ s
      → s < 2 ^ 32
      → Runs true s rest
      → Apart sector count false (record { backup = true; sector = s } ∷ rest)
      → Added false low
          (record { backup = true; sector = s } ∷ rest)
          sector
          count
          (add_at prev (record { backup = true; sector = s }) rest pool sector count)
  unfolding add_at
  add_at_gap prev low s rest pool above stops ends r apart =
      elim (Bool-cases (leb s (sector + count))) [
        | inl touches ↦
            rw (fits, touches) (extend_left-Added low s rest pool above (ground (arith, ahead)) r)
        | inr away ↦
            rw (fits, away)
              (insert_run-Added low (record { backup = true; sector = s } ∷ rest) pool above
                (refl, ground arith, ends, r))
      ]
    where
      ahead : sector + count ≤ s
      ahead = ground (arith, apart s, covered_first s rest r)

  add_at_run :
      (low s : ℕ) (rest pool : List Block)
      → low < sector
      → sector ≤ s
      → Runs false s rest
      → Apart sector count true (record { backup = false; sector = s } ∷ rest)
      → Added true low
          (record { backup = false; sector = s } ∷ rest)
          sector
          count
          (add_at true (record { backup = false; sector = s }) rest pool sector count)
  unfolding add_at
  add_at_run low s rest pool above stops r apart =
      rw (fits, longer) (extend_right-Added low s rest pool above meets beyond)
    where
      meets : s ≡ sector
      meets = ground (arith, apart sector)

      longer : ltb s (sector + count) ≡ true
      longer = ground (arith, meets)

      beyond : Runs false (sector + count) rest
      beyond = later-Runs s (sector + count) rest r (λ x h h'. ground (arith, meets, apart x))

  behind-Added :
      (before : Bool) (low : ℕ) (b : Block) (rest : List Block)
      (o : Option (List Block × List Block))
      → Runs before low (b ∷ rest)
      → b.sector < sector
      → Added b.backup b.sector rest sector count o
      → Added before low (b ∷ rest) sector count (behind b o)
  behind-Added before low b rest _ (flag, later, ends, r) h (added new pool r' union size) =
      added (b ∷ new) pool (flag, later, ends, r') (λ x. ground (arith, union x))
        (omega (arith, size))

  at_place :
      (prev before flag : Bool) (low s : ℕ) (rest pool : List Block)
      → prev || not before ≡ true
      → flag ≡ not before
      → low + one_if before ≤ sector
      → sector ≤ s
      → s < 2 ^ 32
      → Runs flag s rest
      → Apart sector count before (record { backup = flag; sector = s } ∷ rest)
      → Added before low
          (record { backup = flag; sector = s } ∷ rest)
          sector
          count
          (add_at prev (record { backup = flag; sector = s }) rest pool sector count)
  at_place prev false true low s rest pool p e above stops ends r apart =
      add_at_gap prev low s rest pool (omega arith) stops ends r apart
  at_place true true false low s rest pool p e above stops ends r apart =
      add_at_run low s rest pool (omega arith) stops r apart
  at_place prev false false low s rest pool p e above stops ends r apart = cc
  at_place prev true true low s rest pool p e above stops ends r apart = cc
  at_place false true flag low s rest pool p e above stops ends r apart = cc

  -- The search for the place of the run.
  pub add_in-Added :
      (prev before : Bool) (low : ℕ) (list pool : List Block)
      → prev || not before ≡ true
      → Runs before low list
      → low + one_if before ≤ sector
      → Apart sector count before list
      → Added before low list sector count (add_in prev list pool sector count)
  unfolding add_in
  add_in-Added prev false low [] pool p r above apart =
      insert_run-Added low [] pool (omega arith) refl
  add_in-Added prev true low [] pool p r above apart = cc
  add_in-Added prev before low (b ∷ rest) pool p (flag, later, ends, r) above apart =
      elim (Bool-cases (ltb b.sector sector)) [
        | inl passed ↦ rw passed (
            behind-Added before low b rest _ (flag, later, ends, r) (ground arith)
              (add_in-Added true b.backup b.sector rest pool refl r (ground arith)
                (λ x h h'. ground (arith, apart x))))
        | inr stops ↦ rw stops (
            at_place prev before b.backup low b.sector rest pool p flag above (ground arith) ends r
              apart)
      ]
