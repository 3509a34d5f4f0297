-- ===== src/Backup/Gathered.antt =====
-- What the scan of backup/backup.c gathers: the runs that it asks for, and the lists that it makes.
use tivo_tools.Base.{ℕ, zero, suc, ◌+◌, ◌-◌, ◌^◌, ◌≤◌, ◌<◌, ◌≡◌, refl, sym, ◌∙◌, ap, arith}
use tivo_tools.Base.{List, [], ◌∷◌, ◌++◌, Bool, true, false, ◌||◌, length, ◌==◌, Option, some}
use tivo_tools.Base.{if◌then◌else◌, inl, inr, All}
use tivo_tools.Base.Memory.{add32}
use tivo_tools.Inode.{block_sector, block_count}
use tivo_tools.Backup.Blocks.{Block, Lists, backup_add_block}
use tivo_tools.Backup.Runs.{within}
use tivo_tools.Backup.Sets.{
  Started, backed_up, backed_sectors, AllGrown, all_grown, Below, add_block-AllGrown,
}
use tivo_tools.Backup.Scan.{Scan, ◌>>=◌, or_stop, put, higher, clip, stream_loop, partstarts}

abbrev pub in_runs : List (ℕ × ℕ) → ℕ → Bool
in_runs [] x = false
in_runs ((sector, count) ∷ runs) x = within sector count x || in_runs runs x

abbrev pub sum_runs : List (ℕ × ℕ) → ℕ
sum_runs [] = 0
sum_runs ((sector, count) ∷ runs) = count + sum_runs runs

-- The runs are not empty, end below 2 ^ 32, and share no sector with each other or with `taken`.
abbrev pub Separate : (ℕ → Bool) → List (ℕ × ℕ) → Type 0
Separate taken [] = Unit
Separate taken ((sector, count) ∷ runs) =
    (0 < count)
    × (sector + count < 2 ^ 32)
    × ((x : ℕ) → sector ≤ x → x < sector + count → taken x ≡ false)
    × Separate (λ x. taken x || within sector count x) runs

-- The lists of a scan after the runs have been added to those before.
pub data Saved (old : List (List Block)) (runs : List (ℕ × ℕ)) : Option Scan → Type 0 where
  saved :
      (scan : Scan)
      → All Started scan.blocks
      → ((x : ℕ) → backed_up scan.blocks x ≡ (backed_up old x || in_runs runs x))
      → backed_sectors scan.blocks ≡ backed_sectors old + sum_runs runs
      → length scan.blocks ≡ length old
      → Saved old runs (some scan)

-- Every sector is below the last entry of `partstart`.
pub last-Below :
    (sector start size : ℕ) (vs : List (ℕ × ℕ))
    → sector < 2 ^ 32 - 1
    → Below sector (length ((start, size) ∷ vs)) (partstarts ((start, size) ∷ vs))
unfolding partstarts
last-Below sector start size [] h = inl h
last-Below sector start size ((start', size') ∷ vs) h = inr (last-Below sector start' size' vs h)

-- The runs of a stream, in the order of its blocks: its first `size` sectors, block by block.
unfoldable pub stream_runs : ℕ → List ℕ → ℕ → ℕ → List (ℕ × ℕ)
stream_runs zero inode i size = []
stream_runs (suc n) inode i size =
    let count = clip (block_count inode i) size in
    let rest = stream_runs n inode (i + 1) (size - count) in
    (block_sector inode i, count) ∷ (if size - count == 0 then [] else rest)

pub ext-Separate :
    (runs : List (ℕ × ℕ)) (f g : ℕ → Bool)
    → ((x : ℕ) → f x ≡ g x)
    → Separate f runs
    → Separate g runs
ext-Separate [] f g e h = tt
ext-Separate ((sector, count) ∷ runs) f g e (p, small, apart, h) = (
  p,
  small,
  (λ x a b. sym (e x) ∙ apart x a b),
  ext-Separate runs _ _ (λ x. ap (λ t. t || within sector count x) (e x)) h,
)

pub in_runs_append :
    (a b : List (ℕ × ℕ)) (x : ℕ) → in_runs (a ++ b) x ≡ (in_runs a x || in_runs b x)
in_runs_append [] b x = refl
in_runs_append ((sector, count) ∷ a) b x = ground (arith, in_runs_append a b x)

pub sum_runs_append : (a b : List (ℕ × ℕ)) → sum_runs (a ++ b) ≡ sum_runs a + sum_runs b
sum_runs_append [] b = omega arith
sum_runs_append ((sector, count) ∷ a) b = omega (arith, sum_runs_append a b)

pub split-Separate :
    (a b : List (ℕ × ℕ)) (f : ℕ → Bool)
    → Separate f (a ++ b)
    → Separate f a × Separate (λ x. f x || in_runs a x) b
split-Separate [] b f h = (tt, ext-Separate b _ _ (λ x. ground arith) h)
split-Separate ((sector, count) ∷ a) b f (p, small, apart, h) =
    let (ha, hb) = split-Separate a b _ h in
    ((p, small, apart, ha), ext-Separate b _ _ (λ x. ground arith) hb)

-- What one step has saved, and then the next.
pub or_stop-Saved {ℓ} :
    {A : Type ℓ} (old : List (List Block)) (runs more : List (ℕ × ℕ)) (v : A)
    (f : Scan → Option Scan × A) (o : Option Scan)
    → Saved old runs o
    → Separate (λ x. backed_up old x || in_runs runs x) more
    → ((scan : Scan)
        → All Started scan.blocks
        → length scan.blocks ≡ length old
        → Separate (backed_up scan.blocks) more
        → Saved scan.blocks more (f scan).0)
    → Saved old (runs ++ more) (or_stop v o f).0
or_stop-Saved old runs more v f _ (saved scan h union size l) apart next =
    join (f scan).0 (next scan h l (ext-Separate more _ _ (λ x. sym (union x)) apart))
  where
    join : (o : Option Scan) → Saved scan.blocks more o → Saved old (runs ++ more) o
    join _ (saved scan' h' union' size' l') =
        saved scan' h' (λ x. ground (arith, union x, union' x, in_runs_append runs more x))
          (omega (arith, size, size', sum_runs_append runs more)) (l' ∙ l)

pub bind-Saved :
    (old : List (List Block)) (sector count : ℕ) (more : List (ℕ × ℕ)) (f : Scan → Option Scan)
    (o : Option Scan)
    → Saved old ((sector, count) ∷ []) o
    → Separate (λ x. backed_up old x || within sector count x) more
    → ((scan : Scan)
        → All Started scan.blocks
        → length scan.blocks ≡ length old
        → Separate (backed_up scan.blocks) more
        → Saved scan.blocks more (f scan))
    → Saved old ((sector, count) ∷ more) (o >>= f)
bind-Saved old sector count more f _ (saved scan h union size l) apart next =
    or_stop-Saved {A = ℕ} old ((sector, count) ∷ []) more 0 (λ s. (f s, 0)) _
      (saved scan h union size l) (ext-Separate more _ _ (λ x. ground arith) apart) next

put-Saved :
    (scan : Scan) (sector count : ℕ) (lists : Lists)
    → AllGrown scan.blocks sector count lists
    → Saved scan.blocks ((sector, count) ∷ []) (put scan lists)
put-Saved scan sector count _ (all_grown new pool h union size l) =
    saved _ h (λ x. ground (arith, union x)) (omega (arith, size)) l

unless_done :
    (done : Bool) (scan : Scan) (runs : List (ℕ × ℕ)) (o : Option Scan)
    → All Started scan.blocks
    → (Separate (backed_up scan.blocks) runs → Saved scan.blocks runs o)
    → Separate (backed_up scan.blocks) (if done then [] else runs)
    → Saved scan.blocks (if done then [] else runs) (if done then some scan else o)
unless_done true scan runs o h next r = saved scan h (λ x. ground arith) (omega arith) refl
unless_done false scan runs o h next r = next r

module _ (start vsize : ℕ) (vs : List (ℕ × ℕ)) where
  pub run-Saved :
      (scan : Scan) (sector count : ℕ)
      → All Started scan.blocks
      → length scan.blocks ≡ length ((start, vsize) ∷ vs)
      → 0 < count
      → sector + count < 2 ^ 32
      → ((x : ℕ) → sector ≤ x → x < sector + count → backed_up scan.blocks x ≡ false)
      → Saved scan.blocks ((sector, count) ∷ []) (
          put scan (
            backup_add_block scan.blocks (partstarts ((start, vsize) ∷ vs)) scan.pool sector count))
  run-Saved scan sector count h l p small apart = put-Saved scan sector count _ (
      add_block-AllGrown scan.blocks _ scan.pool sector count h
        (rw l (last-Below sector start vsize vs (omega arith))) p small apart)

  pub stream_loop-Saved :
      (n : ℕ) (inode : List ℕ) (i size : ℕ) (scan : Scan)
      → All Started scan.blocks
      → length scan.blocks ≡ length ((start, vsize) ∷ vs)
      → Separate (backed_up scan.blocks) (stream_runs n inode i size)
      → Saved scan.blocks
          (stream_runs n inode i size)
          (stream_loop n (partstarts ((start, vsize) ∷ vs)) inode i size scan)
  unfolding stream_loop stream_runs
  stream_loop-Saved zero inode i size scan h l apart =
      saved scan h (λ x. ground arith) (omega arith) refl
  stream_loop-Saved (suc n) inode i size scan h l (p, small, apart, rest) =
      bind-Saved scan.blocks _ _ _ _ _ (run-Saved scan _ _ h l p small apart) rest
        (λ scan' h' l' r'.
          unless_done (size - clip (block_count inode i) size == 0) scan' _ _ h'
            (stream_loop-Saved n inode (i + 1) (size - clip (block_count inode i) size)
              (higher (add32 (clip (block_count inode i) size) (block_sector inode i)) scan') h'
              (l' ∙ l))
            r')
