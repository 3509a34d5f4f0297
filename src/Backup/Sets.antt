-- ===== src/Backup/Sets.antt =====
-- The lists of all volumes of backup/backup.c, and the set of sectors that they stand for.
use tivo_tools.Base.{ℕ, suc, ◌+◌, ◌^◌, ◌≤◌, ◌<◌, ◌≡◌, refl, ap, arith}
use tivo_tools.Base.{List, [], ◌∷◌, Bool, true, false, ◌||◌, length, ltb, leb, Option, some}
use tivo_tools.Base.{Bool-cases, inl, inr, ◌⊎◌, All}
use tivo_tools.Backup.Blocks.{
  Block, empty_block, insert_first, add_at, add_in, behind, Lists, here, there, backup_add_block,
}
use tivo_tools.Backup.Runs.{
  Runs, covered, within, total, settle-Runs, covered_below, total_gap, later-Runs,
}
use tivo_tools.Backup.Union.{Added, added, Apart, add_in-Added, new_blocks_lem, fits}

-- The list of a volume: the first block, as `scan_inodes` allocates it, is left, or it has been
-- replaced by a run from sector 0.
pub data Started : List Block → Type 0 where
  fresh : (rest : List Block) → Runs false 0 rest → Started (empty_block ∷ rest)
  replaced : (b : Block) (rest : List Block) → Runs false 0 (b ∷ rest) → Started (b ∷ rest)

-- The sectors that the lists of the volumes stand for.
abbrev pub backed_up : List (List Block) → ℕ → Bool
backed_up [] x = false
backed_up (list ∷ lists) x = covered false list x || backed_up lists x

-- Their number.
abbrev pub backed_sectors : List (List Block) → ℕ
backed_sectors [] = 0
backed_sectors (list ∷ lists) = total false 0 list + backed_sectors lists

pub data Grown (old : List Block) (sector count : ℕ)
    : Option (List Block × List Block) → Type 0 where
  grown :
      (new pool : List Block)
      → Started new
      → ((x : ℕ) → covered false new x ≡ (covered false old x || within sector count x))
      → total false 0 new ≡ total false 0 old + count
      → Grown old sector count (some (new, pool))

module _ (sector count : ℕ) (some_sectors : 0 < count) (small : sector + count < 2 ^ 32) where
  from_Added :
      (list : List Block) (o : Option (List Block × List Block))
      → Added false 0 list sector count o
      → Grown list sector count o
  from_Added list _ (added [] pool r union size) = absurd (omega (arith, size))
  from_Added list _ (added (b ∷ rest) pool r union size) =
      grown (b ∷ rest) pool (replaced b rest r) union size

  behind_fresh :
      (rest : List Block) (o : Option (List Block × List Block))
      → Added false 0 rest sector count o
      → Grown (empty_block ∷ rest) sector count (behind empty_block o)
  behind_fresh rest _ (added new pool r union size) =
      grown (empty_block ∷ new) pool (fresh new r) (λ x. ground (arith, union x))
        (omega (arith, size))

  insert_first-Grown :
      (rest pool : List Block)
      → Runs false (sector + count) rest
      → Grown (empty_block ∷ rest) sector count (some (insert_first pool sector count rest))
  unfolding insert_first
  insert_first-Grown rest pool r =
      rw (new_blocks_lem, fits sector count some_sectors small)
        (rw (settle-Runs (record { backup = false; sector = sector + count }) rest _ r) (
          grown _ _ (replaced _ _ (refl, omega arith, omega arith, (refl, omega arith, small, r)))
            (λ x. ground (arith, covered_below (sector + count) x rest r))
            (omega (arith, total_gap (sector + count) 0 rest))))

  add_in-Grown :
      (list pool : List Block)
      → Started list
      → Apart sector count false list
      → Grown list sector count (add_in false list pool sector count)
  unfolding add_in add_at
  add_in-Grown _ pool (replaced b rest r) apart = from_Added (b ∷ rest) _ (
      add_in-Added sector count some_sectors small false false 0 (b ∷ rest) pool refl r
        (omega arith) apart)
  add_in-Grown _ pool (fresh rest r) apart = elim (Bool-cases (ltb 0 sector)) [
    | inl later ↦ rw later (
        behind_fresh rest _ (
          add_in-Added sector count some_sectors small true false 0 rest pool refl r (omega arith)
            (λ x h h'. ground (arith, apart x))))
    | inr first ↦ rw first (
        insert_first-Grown rest pool
          (later-Runs 0 (sector + count) rest r (λ x h h'. ground (arith, apart x))))
  ]

-- The lists of the volumes after a run has been added to those before.
pub data AllGrown (old : List (List Block)) (sector count : ℕ) : Lists → Type 0 where
  all_grown :
      (new : List (List Block)) (pool : List Block)
      → All Started new
      → ((x : ℕ) → backed_up new x ≡ (backed_up old x || within sector count x))
      → backed_sectors new ≡ backed_sectors old + count
      → length new ≡ length old
      → AllGrown old sector count (some (new, pool))

here-AllGrown :
    (list : List Block) (lists : List (List Block)) (sector count : ℕ)
    (o : Option (List Block × List Block))
    → All Started lists
    → Grown list sector count o
    → AllGrown (list ∷ lists) sector count (here lists o)
here-AllGrown list lists sector count _ h (grown new pool r union size) =
    all_grown _ _ (r, h) (λ x. ground (arith, union x)) (omega (arith, size)) refl

there-AllGrown :
    (list : List Block) (lists : List (List Block)) (sector count : ℕ) (o : Lists)
    → Started list
    → AllGrown lists sector count o
    → AllGrown (list ∷ lists) sector count (there list o)
there-AllGrown list lists sector count _ h (all_grown new pool r union size l) =
    all_grown _ _ (h, r) (λ x. ground (arith, union x)) (omega (arith, size)) (ap suc l)

-- A sector is below the end of one of the first volumes, which start at `partstart`.
abbrev pub Below : ℕ → ℕ → List ℕ → Type 0
Below sector (suc n) (start ∷ next ∷ partstart) =
    (sector < next) ⊎ Below sector n (next ∷ partstart)
Below sector _ _ = ⊥

-- No sector of the run is backed up by the lists.
abbrev pub AllApart : ℕ → ℕ → List (List Block) → Type 0
AllApart sector count lists = (x : ℕ) → sector ≤ x → x < sector + count → backed_up lists x ≡ false

-- A run of sectors that is added to the lists of the volumes is added to the set of sectors that
-- they stand for, its sectors count once more, and the lists stay well formed: where the run is
-- not empty, ends below 2 ^ 32, begins below the end of the last volume, and none of its sectors
-- has been added before. In particular -1 is not the result.
pub add_block-AllGrown :
    (lists : List (List Block)) (partstart : List ℕ) (pool : List Block) (sector count : ℕ)
    → All Started lists
    → Below sector (length lists) partstart
    → 0 < count
    → sector + count < 2 ^ 32
    → AllApart sector count lists
    → AllGrown lists sector count (backup_add_block lists partstart pool sector count)
unfolding backup_add_block
add_block-AllGrown (list ∷ lists) (start ∷ next ∷ partstart) pool sector count (r, h) below p small
      apart =
    elim (Bool-cases (leb next sector)) [
      | inl passed ↦ rw passed (
          there-AllGrown list lists sector count _ r (
            add_block-AllGrown lists (next ∷ partstart) pool sector count h (rest below passed) p
              small (λ x a b. ground (arith, apart x))))
      | inr stops ↦ rw stops (
          here-AllGrown list lists sector count _ h
            (add_in-Grown sector count p small list pool r (λ x a b. ground (arith, apart x))))
    ]
  where
    rest :
        (sector < next) ⊎ Below sector (length lists) (next ∷ partstart)
        → leb next sector ≡ true
        → Below sector (length lists) (next ∷ partstart)
    rest (inl early) e = absurd (ground arith)
    rest (inr b) e = b
add_block-AllGrown [] partstart pool sector count h below p small apart = absurd below
add_block-AllGrown (list ∷ lists) [] pool sector count h below p small apart = absurd below
add_block-AllGrown (list ∷ lists) (start ∷ []) pool sector count h below p small apart =
    absurd below
