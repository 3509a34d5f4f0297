-- ===== src/ReadWrite/Pair.antt =====
-- A write of two sectors that hold the same bytes, and a read of the first of them.
use tivo_tools.Base.{
  ℕ, zero, suc, ◌+◌, ◌≤◌, ◌≡◌, refl, sym, ap, ap₂, ◌∙◌, arith, List, [], ◌∷◌, ◌++◌,
}
use tivo_tools.Base.{length, length-append, take, inl, inr, Bool-cases, All-append}
use mathlib.Core.List.{append-nil}
use tivo_tools.Base.Memory.{AllBytes, IsByte}
use tivo_tools.Disk.{Disk, ret, run, run_faulty, overlay}
use tivo_tools.Disk.Laws.{written, put_run_first, overlay_whole}
use tivo_tools.ReadWrite.{
  TpFile, tivo_partition_offset, tivo_partition_swab, tivo_partition_read, tivo_partition_write,
  data_swab,
}
use tivo_tools.ReadWrite.Swab.{swap_pairs, data_swab-swap_pairs}
use tivo_tools.ReadWrite.Transfer.{
  Covers, Covers-written, seen, seen-seen, read_whole, write_whole, length-seen,
}

-- Whole pairs are swapped part by part.
swap_pairs-append :
    (k m : ℕ) (xs ys : List ℕ)
    → length xs ≡ k + k
    → swap_pairs (k + k + m) (xs ++ ys) ≡ swap_pairs (k + k) xs ++ swap_pairs m ys
unfolding swap_pairs
swap_pairs-append zero m [] ys h = ap (λ (n : ℕ). swap_pairs n ys) (omega arith)
swap_pairs-append zero m (x ∷ xs) ys h = absurd (omega arith)
swap_pairs-append (suc k) m [] ys h = absurd (omega arith)
swap_pairs-append (suc k) m (x ∷ []) ys h = absurd (omega arith)
swap_pairs-append (suc k) m (x ∷ y ∷ xs) ys h =
    ap (λ (n : ℕ). swap_pairs n (x ∷ y ∷ (xs ++ ys))) up
    ∙ ap (λ (r : List ℕ). y ∷ x ∷ r) (swap_pairs-append k m xs ys (omega arith))
    ∙ ap (λ (n : ℕ). swap_pairs n (x ∷ y ∷ xs) ++ swap_pairs m ys) (sym down)
  where
    up : suc k + suc k + m ≡ suc (suc (k + k + m))
    up = omega arith

    down : suc k + suc k ≡ suc (suc (k + k))
    down = omega arith

take-append : (xs ys : List ℕ) → take (length xs) (xs ++ ys) ≡ xs
take-append [] ys = refl
take-append (x ∷ xs) ys = ap (◌∷◌ x) (take-append xs ys)

swab_both :
    (b : List ℕ)
    → AllBytes b
    → length b ≡ 512
    → data_swab (b ++ b) 1024 ≡ data_swab b 512 ++ data_swab b 512
swab_both b h l =
    data_swab-swap_pairs (b ++ b) 1024 (All-append IsByte b b h h)
      (omega (arith, length-append b b))
    ∙ swap_pairs-append 256 512 b b l
    ∙ sym (ap₂ ◌++◌ one one)
  where
    one : data_swab b 512 ≡ swap_pairs 512 b
    one = data_swab-swap_pairs b 512 h (omega arith)

module _ (d : Disk) (f : TpFile) (s : ℕ) (c : Covers d f s 2) where
  -- The first sector alone.
  pub Covers-first : Covers d f s 1
  unfolding run_faulty
  Covers-first = record {
    some_sectors = omega arith;
    inside = omega (arith, c.inside);
    placed = c.placed;
    end_small = c.end_small;
    healthy = ground (arith, c.healthy);
  }

  seen-append :
      (b : List ℕ)
      → AllBytes b
      → length b ≡ 512
      → seen d f s 2 c (b ++ b) ≡ seen d f s 1 Covers-first b ++ seen d f s 1 Covers-first b
  seen-append b h l = elim (Bool-cases (tivo_partition_swab f)) [
    | inl swabbed ↦ rw swabbed (swab_both b h l)
    | inr plain ↦ rw plain
  ]

  -- The first sector of the pair is read back, and the write reports both.
  pub read-write_first :
      (b old : List ℕ)
      → AllBytes b
      → length b ≡ 512
      → length old ≤ 512
      → let (r, _, d') = tivo_partition_write d f (b ++ b) s 2 in
        (r ≡ ret 1024) × (tivo_partition_read d' f old s 1 ≡ (ret 512, b))
  read-write_first b old h l small =
      rw
        (write_whole d f s 2 c (b ++ b) (All-append IsByte b b h h)
          (omega (arith, length-append b b)))
        (refl, again)
    where
      at : ℕ
      at = s + tivo_partition_offset f

      after : Disk
      after = written d f.fd at 2 (seen d f s 2 c (b ++ b))

      held : run after f.fd at 1 ≡ seen d f s 1 Covers-first b
      held =
          unfold run in
          append-nil (after.sector f.fd at)
          ∙ put_run_first d.sector f.fd at 1 (seen d f s 2 c (b ++ b))
          ∙ ap (take 512) (seen-append b h l)
          ∙ ap (λ (n : ℕ). take n (seen d f s 1 Covers-first b ++ seen d f s 1 Covers-first b))
              (sym (length-seen d f s 1 Covers-first b h l))
          ∙ take-append (seen d f s 1 Covers-first b) (seen d f s 1 Covers-first b)

      again : tivo_partition_read after f old s 1 ≡ (ret 512, b)
      again =
          read_whole after f s 1 (Covers-written f.fd at 2 (seen d f s 2 c (b ++ b)) Covers-first)
            old
          ∙ ap (λ (x : List ℕ). (ret 512, seen d f s 1 Covers-first x))
              (ap (λ (x : List ℕ). overlay x old) held
                ∙ overlay_whole (seen d f s 1 Covers-first b) old
                    (omega (arith, length-seen d f s 1 Covers-first b h l)))
          ∙ ap (λ (x : List ℕ). (ret 512, x)) (seen-seen d f s 1 Covers-first b h l)
