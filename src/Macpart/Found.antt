-- ===== src/Macpart/Found.antt =====
-- The search for free space of lib/macpart.c finds a free partition that is large enough.
use tivo_tools.Base.{
  ℕ, zero, suc, ◌+◌, ◌-◌, ◌^◌, ◌≤◌, ◌<◌, ◌≡◌, ◌≢◌, refl, ap, ◌∙◌, arith, ◌⊎◌, inl, inr,
}
use tivo_tools.Base.{
  List, [], ◌∷◌, Bool, true, false, ◌&&◌, ◌||◌, ltb, leb, ◌==◌, if◌then◌else◌, All, length,
  length-drop, drop, Bool-cases,
}
use tivo_tools.Base.Memory.{add32, sub32}
use tivo_tools.Macpart.{Partition}
use tivo_tools.Macpart.Validate.{is_free, part_at}
use tivo_tools.Macpart.Space.{next_free, Space, space, find_space}
use tivo_tools.Macpart.Ends.{
  IsSolid, behind, behind_fewer, All-part_at, PartOf, drop-PartOf, tail-PartOf, next_free-IsNext,
}

-- An entry that the search has found, which starts no later than a sector.
abbrev IsBy : List Partition → ℕ → ℕ → Type 0
IsBy all s j = (0 < j) × ((part_at all j).start ≤ s)

abbrev is_closer : List Partition → ℕ → Partition → ℕ → Bool
is_closer all last p next =
    is_free p && leb last p.start && ((next == 0) || ltb p.start (part_at all next).start)

part_here :
    (all rest : List Partition) (p : Partition) (i : ℕ)
    → PartOf all (p ∷ rest) i
    → p.start ≡ (part_at all i).start
unfolding part_at
part_here all rest p i h =
    ap (λ (x : Partition). x.start) ((h 0 (omega arith)).1 ∙ ap (part_at all) here)
  where
    here : i + 0 ≡ i
    here = omega arith

next_free-IsBy :
    (all : List Partition) (last s : ℕ) (rest : List Partition) (i next : ℕ)
    → PartOf all rest i
    → 0 < i
    → IsBy all s next
    → IsBy all s (next_free all last rest i next)
unfolding next_free
next_free-IsBy all last s [] i next h l b = b
next_free-IsBy all last s (p ∷ rest) i next h l b =
    next_free-IsBy all last s rest (i + 1) _ (tail-PartOf all rest p i h) (omega arith)
      (choose (is_closer all last p next) refl)
  where
    choose : (c : Bool) → is_closer all last p next ≡ c → IsBy all s (if c then i else next)
    choose true e = (l, ground (arith, e, part_here all rest p i h, b))
    choose false e = b

-- The search finds an entry that starts no later than a free one that it comes across.
next_free-closest :
    (all : List Partition) (last : ℕ) (rest : List Partition) (i next j : ℕ)
    → PartOf all rest i
    → 0 < i
    → j < length rest
    → is_free (part_at rest j) ≡ true
    → last ≤ (part_at rest j).start
    → IsBy all (part_at rest j).start (next_free all last rest i next)
unfolding next_free part_at
next_free-closest all last [] i next j h l k f s = absurd (omega arith)
next_free-closest all last (p ∷ rest) i next zero h l k f s =
    next_free-IsBy all last p.start rest (i + 1) _ (tail-PartOf all rest p i h) (omega arith)
      (choose (is_closer all last p next) refl)
  where
    choose : (c : Bool) → is_closer all last p next ≡ c → IsBy all p.start (if c then i else next)
    choose true e = (l, omega (arith, part_here all rest p i h))
    choose false e = (ground (arith, e, f, s), ground (arith, e, f, s))
next_free-closest all last (p ∷ rest) i next (suc j) h l k f s =
    next_free-closest all last rest (i + 1) _ j (tail-PartOf all rest p i h) (omega arith)
      (omega arith) f s

-- Partitions that do not overlap.
abbrev pub AreApart : List Partition → Type 0
AreApart ps =
    (i j : ℕ)
    → i < length ps
    → j < length ps
    → i ≢ j
    → ((part_at ps i).start + (part_at ps i).sectors ≤ (part_at ps j).start)
      ⊎ ((part_at ps j).start + (part_at ps j).sectors ≤ (part_at ps i).start)

-- A free partition that is large enough, from an index on.
pub record HasFree (ps : List Partition) (start size j : ℕ) : Type 0 where
  pub inside : j < length ps
  pub from_start : start ≤ j
  pub free : is_free (part_at ps j) ≡ true
  pub large : size ≤ (part_at ps j).sectors

pub data IsSpace : Space → Type 0 where
  is_space : (first last : ℕ) → IsSpace (space first last)

module _ (ps : List Partition) (start size j : ℕ) (solid : All IsSolid ps) (apart : AreApart ps)
    (q : HasFree ps start size j) (some_start : 0 < start) where
  abbrev q_start : ℕ
  q_start = (part_at ps j).start

  -- The entry that a round finds.
  abbrev next : ℕ → ℕ
  next last = next_free ps last (drop start ps) start 0

  next-IsBy : (last : ℕ) → last ≤ q_start → IsBy ps q_start (next last)
  next-IsBy last h = same_start (
      next_free-closest ps last (drop start ps) start 0 (j - start) (drop-PartOf ps start)
        some_start in_rest (ap is_free there ∙ q.free)
        (omega (arith, h, ap (λ (x : Partition). x.start) there)))
    where
      in_rest : j - start < length (drop start ps)
      in_rest = omega (arith, length-drop start ps, q.inside, q.from_start)

      index : start + (j - start) ≡ j
      index = omega (arith, q.from_start)

      there : part_at (drop start ps) (j - start) ≡ part_at ps j
      there = (drop-PartOf ps start (j - start) in_rest).1 ∙ ap (part_at ps) index

      same_start :
          IsBy ps
            (part_at (drop start ps) (j - start)).start
            (next_free ps last (drop start ps) start 0)
          → IsBy ps q_start (next_free ps last (drop start ps) start 0)
      same_start (found, by) = (found, omega (arith, by, ap (λ (x : Partition). x.start) there))

  -- What a round needs: the free partition is ahead, or the range is large enough.
  abbrev Ahead : ℕ → ℕ → Type 0
  Ahead first last = (last ≤ q_start) ⊎ (size ≤ last - first)

  round_goes_on :
      (first last i : ℕ)
      → first ≤ last
      → i < length ps
      → last ≤ (part_at ps i).start
      → (part_at ps i).start ≤ q_start
      → Ahead
          (if (part_at ps i).start == last then first else (part_at ps i).start)
          ((part_at ps i).start + (part_at ps i).sectors)
  round_goes_on first last i le inside later by = elim (Bool-cases (i == j)) [
    | inl same ↦ inr (omega (arith, from_le, q.large, same_sectors (ground (arith, same))))
    | inr different ↦ inl (before_q (ground (arith, different)))
  ]
    where
      from_le :
          (if (part_at ps i).start == last then first else (part_at ps i).start)
          ≤ (part_at ps i).start
      from_le = ground (arith, le, later)

      same_sectors : i ≡ j → (part_at ps i).sectors ≡ (part_at ps j).sectors
      same_sectors e = ap (λ (n : ℕ). (part_at ps n).sectors) e

      before_q : i ≢ j → (part_at ps i).start + (part_at ps i).sectors ≤ q_start
      before_q e = elim (apart i j inside q.inside e) [
        | inl ends ↦ ends
        | inr overlaps ↦ absurd (omega (arith, overlaps, by, (All-part_at ps j solid q.inside).0))
      ]

  pub find_space-IsSpace :
      (n first last : ℕ)
      → behind last ps < n
      → first ≤ last
      → last < 2 ^ 32
      → Ahead first last
      → IsSpace (find_space n ps start size first last)
  unfolding find_space
  find_space-IsSpace zero first last fuel le small ahead = absurd (omega arith)
  find_space-IsSpace (suc n) first last fuel le small ahead =
      elim (Bool-cases (ltb (sub32 last first) size)) [
        | inl more ↦
            rw (more, found_one more)
              (rw (no_wrap more) (
                find_space-IsSpace n _ _ (fewer more) (from_le more) (ends_small more)
                  (round_goes_on first last (next last) le (inside more) (later more) (by more).1)))
        | inr enough ↦ rw enough (is_space _ _)
      ]
    where
      More : Type 0
      More = ltb (sub32 last first) size ≡ true

      not_over : More → last ≤ q_start
      not_over more = elim ahead [
        | inl a ↦ a
        | inr large ↦ absurd (ground (arith, more, large, le, small))
      ]

      by : More → IsBy ps q_start (next last)
      by more = next-IsBy last (not_over more)

      found_one : More → (next last == 0) ≡ false
      found_one more = ground (arith, by more)

      is_next : More → (next last < length ps) × (last ≤ (part_at ps (next last)).start)
      is_next more =
          elim (next_free-IsNext ps last (drop start ps) start 0 (drop-PartOf ps start)
            (inl refl)) [
              | inl none_found ↦ absurd (omega (arith, none_found, (by more).0))
              | inr found ↦ found
            ]

      inside : More → next last < length ps
      inside more = (is_next more).0

      later : More → last ≤ (part_at ps (next last)).start
      later more = (is_next more).1

      ends : ℕ
      ends = (part_at ps (next last)).start + (part_at ps (next last)).sectors

      ends_small : More → ends < 2 ^ 32
      ends_small more = (All-part_at ps (next last) solid (inside more)).1

      no_wrap : More → add32 (part_at ps (next last)).start (part_at ps (next last)).sectors ≡ ends
      no_wrap more = omega (arith, ends_small more)

      from_le :
          More
          → (if (part_at ps (next last)).start == last
              then first
              else (part_at ps (next last)).start)
            ≤ ends
      from_le more = ground (arith, le, later more)

      fewer : More → behind ends ps < n
      fewer more = omega (
        arith,
        fuel,
        behind_fewer last ends ps (next last) (inside more) (later more)
            (omega (arith, (All-part_at ps (next last) solid (inside more)).0)),
      )
