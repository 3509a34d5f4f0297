-- ===== src/Backup/Sectors.antt =====
-- The sectors of a backup as one sequence, and the reading of it piece by piece.
use tivo_tools.Base.{ℕ, zero, suc, ◌+◌, ◌-◌, ◌*◌, ◌≤◌, ◌<◌, ◌≡◌, refl, sym, ◌∙◌, ap, arith}
use tivo_tools.Base.{
  List, [], ◌∷◌, ◌++◌, false, leb, ◌==◌, Bool-cases, inl, inr, take-append, drop-append_early,
  drop-append_late, drop-drop, drop-nil, append_assoc, take_front, drop_front, All-append,
}
use tivo_tools.Base.{some, length, take, drop, min, All, length-append, length-drop}
use tivo_tools.Disk.{ret}
use tivo_tools.Backup.Stream.{Segment, Copied, copied, segments_loop, next_copy, after_copy}

-- Sectors of 512 bytes, one after another.
abbrev pub flat : List (List ℕ) → List ℕ
flat [] = []
flat (s ∷ ss) = s ++ flat ss

abbrev pub AreSectors : List (List ℕ) → Type 0
AreSectors = All (λ s. length s ≡ 512)

-- The sectors of a segment, which any run of them is read from: into the front of a buffer that has
-- room for it.
pub record Holds (seg : Segment) (whole : List (List ℕ)) : Type 0 where
  pub counts : length whole ≡ seg.sectors
  pub sized : AreSectors whole
  pub reads :
      (cursector n : ℕ) (buf : List ℕ)
      → 0 < n
      → cursector + n ≤ seg.sectors
      → n * 512 ≤ length buf
      → seg.fetch cursector n buf
        ≡ some (ret (n * 512), flat (take n (drop cursector whole)) ++ drop (n * 512) buf)

-- The sectors of all segments.
abbrev pub AllHold : List Segment → List (List (List ℕ)) → Type 0
AllHold [] [] = Unit
AllHold (seg ∷ segs) (w ∷ ws) = Holds seg w × AllHold segs ws
AllHold _ _ = ⊥

abbrev pub joined : List (List (List ℕ)) → List (List ℕ)
joined [] = []
joined (w ∷ ws) = w ++ joined ws

pub flat_append : (xs ys : List (List ℕ)) → flat (xs ++ ys) ≡ flat xs ++ flat ys
flat_append [] ys = refl
flat_append (x ∷ xs) ys =
    ap (λ t. x ++ t) (flat_append xs ys) ∙ sym (append_assoc x (flat xs) (flat ys))

pub drop-AreSectors : (n : ℕ) (ss : List (List ℕ)) → AreSectors ss → AreSectors (drop n ss)
drop-AreSectors zero ss h = h
drop-AreSectors (suc n) [] h = tt
drop-AreSectors (suc n) (s ∷ ss) h = drop-AreSectors n ss h.1

pub length-flat-take :
    (n : ℕ) (ss : List (List ℕ))
    → AreSectors ss
    → n ≤ length ss
    → length (flat (take n ss)) ≡ n * 512
length-flat-take zero ss h l = omega arith
length-flat-take (suc n) [] h l = absurd (omega arith)
length-flat-take (suc n) (s ∷ ss) h l =
    omega (arith, length-append s (flat (take n ss)), length-flat-take n ss h.1 (omega arith), h.0)

-- What a loop over segments gives that copies as many of `n` sectors as are left.
pub data CopiesAs (left : List (List ℕ)) (n : ℕ) (buf : List ℕ) : Copied → Type 0 where
  copies :
      (cursector sectors t : ℕ) (buf' : List ℕ)
      → sectors ≡ n - t
      → t ≡ min (length left) n
      → buf' ≡ flat (take t left) ++ drop (t * 512) buf
      → CopiesAs left n buf (copied cursector sectors t buf')

pub nothing-CopiesAs :
    (left : List (List ℕ)) (n cursector : ℕ) (buf : List ℕ)
    → 0 ≡ min (length left) n
    → CopiesAs left n buf (copied cursector n 0 buf)
nothing-CopiesAs left n cursector buf e = copies cursector n 0 buf (omega arith) e refl

pub after_copy-CopiesAs :
    (here later : List (List ℕ)) (n t : ℕ) (buf : List ℕ) (result : Copied)
    → t ≡ min (length here) n
    → CopiesAs later (n - t) (drop (t * 512) buf) result
    → CopiesAs (here ++ later) n buf (after_copy t (flat (take t here)) result)
after_copy-CopiesAs here later n t buf _ e (copies cursector sectors u buf' c e' out) =
    copies cursector sectors (t + u) (flat (take t here) ++ buf') (omega arith)
      (omega (arith, length-append here later)) joins
  where
    front : take (t + u) (here ++ later) ≡ take t here ++ take u later
    front =
        let k : t + u - t ≡ u = omega arith in
        take-append (t + u) t here later (omega arith) ∙ ap (λ k. take t here ++ take k later) k

    behind : drop (u * 512) (drop (t * 512) buf) ≡ drop ((t + u) * 512) buf
    behind =
        let k : t * 512 + u * 512 ≡ (t + u) * 512 = omega arith in
        drop-drop (u * 512) (t * 512) buf ∙ ap (λ k. drop k buf) k

    joins :
        flat (take t here) ++ buf' ≡ flat (take (t + u) (here ++ later)) ++ drop ((t + u) * 512) buf
    joins =
        ap (λ b. flat (take t here) ++ b) (out ∙ ap (λ b. flat (take u later) ++ b) behind)
        ∙ sym (append_assoc (flat (take t here)) (flat (take u later)) _)
        ∙ ap (λ b. b ++ drop ((t + u) * 512) buf)
            (sym (ap flat front ∙ flat_append (take t here) (take u later)))

-- A segment that is read from, and then the rest of the loop.
next_copy-CopiesAs :
    (seg : Segment) (w later : List (List ℕ)) (c n t : ℕ) (buf : List ℕ) (f : List ℕ → Copied)
    → Holds seg w
    → c < seg.sectors
    → 0 < n
    → t ≡ min (seg.sectors - c) n
    → n * 512 ≤ length buf
    → CopiesAs later (n - t) (drop (t * 512) buf) (f (drop (t * 512) buf))
    → CopiesAs (drop c w ++ later) n buf (next_copy seg t (seg.fetch c t buf) f)
unfolding next_copy
next_copy-CopiesAs seg w later c n t buf f h inside asked e room rest =
    rw (h.reads c t buf (omega arith) (omega arith) (omega arith)) (
      rw (front, back)
        (after_copy-CopiesAs (drop c w) later n t buf _ (omega (arith, h.counts, length-drop c w))
          rest))
  where
    sized : length (flat (take t (drop c w))) ≡ t * 512
    sized =
        length-flat-take t (drop c w) (drop-AreSectors c w h.sized)
          (omega (arith, h.counts, length-drop c w))

    front :
        take (t * 512) (flat (take t (drop c w)) ++ drop (t * 512) buf) ≡ flat (take t (drop c w))
    front = take_front _ _ (t * 512) sized

    back : drop (t * 512) (flat (take t (drop c w)) ++ drop (t * 512) buf) ≡ drop (t * 512) buf
    back = drop_front _ _ (t * 512) sized

pub segments_loop-CopiesAs :
    (segs : List Segment) (wholes : List (List (List ℕ))) (c n : ℕ) (buf : List ℕ)
    → AllHold segs wholes
    → n * 512 ≤ length buf
    → CopiesAs (drop c (joined wholes)) n buf (segments_loop segs c n buf)
unfolding segments_loop
segments_loop-CopiesAs [] [] c n buf h room = nothing-CopiesAs _ n c buf (rw drop-nil (omega arith))
segments_loop-CopiesAs (seg ∷ segs) (w ∷ ws) c zero buf h room =
    nothing-CopiesAs _ 0 c buf (omega arith)
segments_loop-CopiesAs (seg ∷ segs) (w ∷ ws) c (suc n) buf (h, hs) room =
    rw asked (elim (Bool-cases (leb seg.sectors c)) [
      | inl past ↦
          rw (past, drop-append_late c w (joined ws) (ground (arith, h.counts)), h.counts)
            (segments_loop-CopiesAs segs ws (c - seg.sectors) (suc n) buf hs room)
      | inr within ↦
          rw (within, drop-append_early c w (joined ws) (ground (arith, h.counts)))
            (next_copy-CopiesAs seg w (joined ws) c (suc n) _ buf _ h (ground arith) (omega arith)
              refl room
              (segments_loop-CopiesAs segs ws 0 _ _ hs
                (omega (arith, length-drop (min (seg.sectors - c) (suc n) * 512) buf))))
    ])
  where
    asked : (suc n == 0) ≡ false
    asked = ground arith
segments_loop-CopiesAs [] (w ∷ ws) c n buf h room = absurd h
segments_loop-CopiesAs (seg ∷ segs) [] c n buf h room = absurd h

pub joined-AreSectors :
    (segs : List Segment) (ws : List (List (List ℕ))) → AllHold segs ws → AreSectors (joined ws)
joined-AreSectors [] [] h = tt
joined-AreSectors (seg ∷ segs) (w ∷ ws) (h, hs) =
    All-append (λ s. length s ≡ 512) w (joined ws) h.sized (joined-AreSectors segs ws hs)
joined-AreSectors [] (w ∷ ws) h = absurd h
joined-AreSectors (seg ∷ segs) [] h = absurd h
