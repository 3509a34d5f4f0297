-- ===== src/Macpart/Placed.antt =====
-- Where lib/macpart.c puts a new partition, and the entries in front of it.
use tivo_tools.Base.{
  ℕ, zero, suc, ◌+◌, ◌-◌, ◌≤◌, ◌<◌, ◌≡◌, ◌≢◌, refl, sym, ap, ◌∙◌, arith, ltb→lt, ◌⊎◌, inl, inr,
}
use tivo_tools.Base.{
  List, [], ◌∷◌, ◌++◌, true, false, ◌&&◌, ◌||◌, ltb, ◌==◌, All, length, take, drop, length-append,
  length-take, Bool-cases,
}
use tivo_tools.Macpart.{Partition}
use tivo_tools.Macpart.Validate.{is_free, part_at}
use tivo_tools.Macpart.Space.{start_from, start_part, back_over, place}

-- An entry of the array that is in use is not free space.
abbrev pub IsKept : Partition → Type 0
IsKept p = 1 < p.refs → is_free p ≡ false

part_at-take :
    (ps qs : List Partition) (n i : ℕ)
    → i < n
    → n ≤ length ps
    → part_at (take n ps ++ qs) i ≡ part_at ps i
unfolding part_at
part_at-take ps qs zero i h l = absurd (omega arith)
part_at-take [] qs (suc n) i h l = absurd (omega arith)
part_at-take (p ∷ ps) qs (suc n) zero h l = refl
part_at-take (p ∷ ps) qs (suc n) (suc i) h l = part_at-take ps qs n i (omega arith) (omega arith)

pub part_at-front :
    (ps qs : List Partition) (q : Partition) (i : ℕ)
    → length ps ≡ i
    → part_at (ps ++ (q ∷ qs)) i ≡ q
unfolding part_at
part_at-front [] qs q zero h = refl
part_at-front [] qs q (suc i) h = absurd (omega arith)
part_at-front (p ∷ ps) qs q zero h = absurd (omega arith)
part_at-front (p ∷ ps) qs q (suc i) h = part_at-front ps qs q i (omega arith)

All-part_at : (ps : List Partition) (i : ℕ) → All IsKept ps → IsKept (part_at ps i)
unfolding part_at
All-part_at [] i h = λ used. absurd (omega arith)
All-part_at (p ∷ ps) zero (h, hs) = h
All-part_at (p ∷ ps) (suc i) (h, hs) = All-part_at ps i hs

take-take : (m n : ℕ) (ps : List Partition) → m ≤ n → take m (take n ps) ≡ take m ps
take-take zero n ps h = refl
take-take (suc m) zero ps h = absurd (omega arith)
take-take (suc m) (suc n) [] h = refl
take-take (suc m) (suc n) (p ∷ ps) h = ap (◌∷◌ p) (take-take m n ps (omega arith))

pub take-longer : (m : ℕ) (ps qs : List Partition) → m ≤ length ps → take m (ps ++ qs) ≡ take m ps
take-longer zero ps qs h = refl
take-longer (suc m) [] qs h = absurd (omega arith)
take-longer (suc m) (p ∷ ps) qs h = ap (◌∷◌ p) (take-longer m ps qs (omega arith))

-- Going back ends behind a partition that is not free, and never in front of the first one.
back_over-stop :
    (ps : List Partition) (j k : ℕ) → j < k → is_free (part_at ps j) ≡ false → j < back_over ps k
unfolding back_over
back_over-stop ps j zero h f = absurd (omega arith)
back_over-stop ps j (suc k) h f = elim (Bool-cases (ltb 0 k && is_free (part_at ps k))) [
  | inl over ↦ rw over (back_over-stop ps j k (further over) f)
  | inr stop ↦ rw stop (omega arith)
]
  where
    further : (ltb 0 k && is_free (part_at ps k)) ≡ true → j < k
    further over = ground (arith, different over)
      where
        stays : j ≡ k → is_free (part_at ps k) ≡ false
        stays e = ap (λ i. is_free (part_at ps i)) (sym e) ∙ f

        different : (ltb 0 k && is_free (part_at ps k)) ≡ true → j ≢ k
        different going e = absurd (ground (arith, stays e, going))

back_over-first : (ps : List Partition) (k : ℕ) → 0 < k → 0 < back_over ps k
unfolding back_over
back_over-first ps zero h = absurd (omega arith)
back_over-first ps (suc k) h = elim (Bool-cases (ltb 0 k && is_free (part_at ps k))) [
  | inl over ↦ rw over (back_over-first ps k (some_left over))
  | inr stop ↦ rw stop (omega arith)
]
  where
    some_left : (ltb 0 k && is_free (part_at ps k)) ≡ true → 0 < k
    some_left over = ground arith

back_over-le : (ps : List Partition) (k : ℕ) → back_over ps k ≤ k
unfolding back_over
back_over-le ps zero = omega arith
back_over-le ps (suc k) = ground (arith, back_over-le ps k)

-- The partitions before `startpart` end with one in use, or are the first one.
start_from-used :
    (ps : List Partition) (k : ℕ)
    → (start_from ps k ≡ 1) ⊎ (1 < (part_at ps (start_from ps k - 1)).refs)
unfolding start_from
start_from-used ps zero = inl refl
start_from-used ps (suc k) = elim (Bool-cases (ltb 1 (part_at ps (suc k)).refs)) [
  | inl used ↦ rw (used, here) (inr (ltb→lt 1 _ used))
  | inr unused ↦ rw unused (start_from-used ps k)
]
  where
    here : suc k + 1 - 1 ≡ suc k
    here = omega arith

pub start_from-le :
    (ps : List Partition) (k : ℕ) → (0 < start_from ps k) × (start_from ps k ≤ k + 1)
unfolding start_from
start_from-le ps zero = (omega arith, omega arith)
start_from-le ps (suc k) = ground (arith, start_from-le ps k)

module _ (ps qs : List Partition) (kept : All IsKept ps) (nonempty : 0 < length ps) where
  abbrev start : ℕ
  start = start_part ps

  start_is : start ≡ start_from ps (length ps - 1)
  start_is = rw some_parts refl
    where
      some_parts : (length ps == 0) ≡ false
      some_parts = ground arith

  pub start_inside : (0 < start) × (start ≤ length ps)
  start_inside = rw start_is (ground (arith, start_from-le ps (length ps - 1)))

  abbrev pub left : List Partition
  left = take start ps ++ qs

  front_size : length (take start ps) ≡ start
  front_size = length-take start ps ∙ ground (arith, start_inside)

  left_size : start ≤ length left
  left_size = omega (arith, length-append (take start ps) qs, front_size)

  behind_used : start ≤ back_over left (length left)
  behind_used = elim (start_from-used ps (length ps - 1)) [
    | inl one ↦ omega (
      arith,
      start_is,
      one,
      back_over-first left (length left) (omega (arith, left_size, start_inside.0)),
    )
    | inr used ↦ omega (
      arith,
      start_inside.0,
      back_over-stop left (start - 1) (length left) (omega (arith, left_size, start_inside.0))
          (not_free used),
    )
  ]
    where
      not_free :
          1 < (part_at ps (start_from ps (length ps - 1) - 1)).refs
          → is_free (part_at left (start - 1)) ≡ false
      not_free used =
          ap is_free
            (part_at-take ps qs start (start - 1) (omega (arith, start_inside.0)) start_inside.1)
          ∙ All-part_at ps (start - 1) kept (rw start_is used)

  pub place_behind :
      (before : ℕ)
      → (ltb 0 before && ltb before start) ≡ false
      → (start ≤ place left before) × (place left before ≤ length left)
  place_behind before h = elim (Bool-cases (ltb (length left) before || (before == 0))) [
    | inl at_end ↦ rw at_end (behind_used, back_over-le left (length left))
    | inr given ↦ rw given (ground (arith, h, given))
  ]

  pub kept_front :
      (i : ℕ) (q : Partition)
      → start ≤ i
      → i ≤ length left
      → take start (take i left ++ (q ∷ drop i left)) ≡ take start ps
  kept_front i q h l =
      take-longer start (take i left) _ (ground (arith, length-take i left))
      ∙ take-take start i left h
      ∙ take-longer start (take start ps) qs (omega (arith, front_size))
      ∙ take-take start start ps (omega arith)
