-- ===== src/Backup/Copied.antt =====
-- The blocks of a backup, of backup/backup.c: the runs of the lists of all volumes, as they are
-- copied out of the concatenated list.
use tivo_tools.Base.{ℕ, ◌+◌, ◌-◌, ◌^◌, ◌<◌, ◌≡◌, refl, ◌∙◌, arith}
use tivo_tools.Base.{List, [], ◌∷◌, ◌++◌, Bool, true, false, ◌||◌, not, Option, some}
use tivo_tools.Base.{All}
use tivo_tools.Backup.Blocks.{
  Block, BackupBlock, copied, with_block, sum_blocks, block_list_array_concat,
}
use tivo_tools.Backup.Runs.{Runs, covered, covered_below, within, total}
use tivo_tools.Backup.Sets.{Started, fresh, replaced, backed_up, backed_sectors}

-- The sectors of the blocks.
abbrev pub in_blocks : List BackupBlock → ℕ → Bool
in_blocks [] x = false
in_blocks (b ∷ bs) x = within b.firstsector b.sectors x || in_blocks bs x

-- Blocks that stand for a set of sectors, of which there are `n`.
pub data Copy (f : ℕ → Bool) (n : ℕ) : Option (List BackupBlock) → Type 0 where
  copy :
      (bs : List BackupBlock)
      → ((x : ℕ) → in_blocks bs x ≡ f x)
      → sum_blocks bs ≡ n
      → Copy f n (some bs)

copied_gap :
    (s : ℕ) (rest : List Block)
    → copied (record { backup = false; sector = s } ∷ rest) ≡ copied rest
unfolding copied
copied_gap s [] = refl
copied_gap s (b ∷ rest) = refl

with_block-Copy :
    (f g : ℕ → Bool) (m n : ℕ) (b : BackupBlock) (o : Option (List BackupBlock))
    → ((x : ℕ) → (within b.firstsector b.sectors x || f x) ≡ g x)
    → b.sectors + m ≡ n
    → Copy f m o
    → Copy g n (with_block b o)
unfolding sum_blocks
with_block-Copy f g m n b _ e c (copy bs h k) =
    copy (b ∷ bs) (λ x. ground (arith, e x, h x)) (omega (arith, c, k))

pub ext-Copy :
    (f g : ℕ → Bool) (m n : ℕ) (o : Option (List BackupBlock))
    → ((x : ℕ) → f x ≡ g x)
    → m ≡ n
    → Copy f m o
    → Copy g n o
ext-Copy f g m n _ e c (copy bs h k) = copy bs (λ x. h x ∙ e x) (k ∙ c)

-- A run and the gap after it, ahead of a list.
run-Copy :
    (p q : Bool) (s t : ℕ) (rest more : List Block) (f : ℕ → Bool) (n : ℕ)
    → p ≡ true
    → q ≡ not p
    → s < t
    → t < 2 ^ 32
    → Runs q t rest
    → Copy (λ x. covered false rest x || f x) (total false t rest + n) (copied (rest ++ more))
    → Copy
        (λ x.
          covered false
            (record { backup = p; sector = s } ∷ record { backup = q; sector = t } ∷ rest)
            x
          || f x)
        (t - s + total q t rest + n)
        (copied
          (record { backup = p; sector = s } ∷ record { backup = q; sector = t } ∷ (rest ++ more)))
unfolding copied
run-Copy true false s t rest more f n e e' h small r c =
    with_block-Copy (λ x. covered false rest x || f x) _ (total false t rest + n) _ _ _
      (λ x. ground (arith, covered_below t x rest r)) (omega arith)
      (rw (copied_gap t (rest ++ more)) c)
run-Copy true true s t rest more f n e e' h small r c = cc
run-Copy false q s t rest more f n e e' h small r c = cc

copied-Runs :
    (low : ℕ) (list more : List Block) (f : ℕ → Bool) (n : ℕ)
    → Runs false low list
    → Copy f n (copied more)
    → Copy (λ x. covered false list x || f x) (total false low list + n) (copied (list ++ more))
copied-Runs low [] more f n r c = ext-Copy _ _ _ _ _ (λ x. refl) (omega arith) c
copied-Runs low (b ∷ []) more f n (flag, above, small, r) c = ground arith
copied-Runs low (b ∷ e ∷ rest) more f n (flag, above, small, (flag', above', small', r)) c =
    ext-Copy _ _ _ _ _ (λ x. refl) (ground arith)
      (run-Copy b.backup e.backup b.sector e.sector rest more f n flag flag' (ground arith) small' r
        (copied-Runs e.sector rest more f n (gap e.backup e.sector rest (ground arith) r) c))
  where
    gap : (q : Bool) (t : ℕ) (rest : List Block) → q ≡ false → Runs q t rest → Runs false t rest
    gap true t rest e r = cc
    gap false t rest e r = r

copied-Started :
    (list more : List Block) (f : ℕ → Bool) (n : ℕ)
    → Started list
    → Copy f n (copied more)
    → Copy (λ x. covered false list x || f x) (total false 0 list + n) (copied (list ++ more))
copied-Started _ more f n (replaced b rest r) c = copied-Runs 0 (b ∷ rest) more f n r c
copied-Started _ more f n (fresh rest r) c =
    rw (copied_gap 0 (rest ++ more))
      (ext-Copy _ _ _ _ _ (λ x. ground arith) (omega arith) (copied-Runs 0 rest more f n r c))

concat-Started :
    (list : List Block) (lists : List (List Block))
    → Started list
    → block_list_array_concat (list ∷ lists) ≡ list ++ block_list_array_concat lists
unfolding block_list_array_concat
concat-Started _ lists (replaced b rest r) = refl
concat-Started _ lists (fresh rest r) = refl

-- The blocks that are copied from the lists of all volumes stand for the sectors that the lists
-- stand for, and their sizes add up to the number of those: where the lists are as they have been
-- started and runs have been added. No run is left without an end.
pub copied-concat :
    (lists : List (List Block))
    → All Started lists
    → Copy (backed_up lists) (backed_sectors lists) (copied (block_list_array_concat lists))
unfolding copied block_list_array_concat sum_blocks
copied-concat [] h = copy [] (λ x. refl) refl
copied-concat (list ∷ lists) (h, hs) =
    rw (concat-Started list lists h)
      (copied-Started list (block_list_array_concat lists) _ _ h (copied-concat lists hs))
