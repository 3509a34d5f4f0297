-- ===== src/ReadWrite/Swab.antt =====
-- `data_swab` swaps neighbouring bytes, and undoes itself.
use tivo_tools.Base.{
  ℕ, zero, suc, ◌+◌, ◌-◌, ◌*◌, ◌/◌, ◌%◌, ◌^◌, ◌≤◌, ◌<◌, ◌≡◌, refl, ap, ap₂, ◌∙◌, arith,
}
use tivo_tools.Base.{List, [], ◌∷◌, length, bit_and, bit_or, lt→ltb}
use tivo_tools.Base.Bits.{
  bit_and_bytes, bit_or_bytes, bit_and_mask, bit_and-zero, bit_or-zero, zero-bit_or,
}
use tivo_tools.Base.Memory.{word, IsByte, AllBytes}
use tivo_tools.ReadWrite.{swab_word, store_front, swab_rest, data_swab}

-- A word in the order that the byte lemmas read: `a` is the low byte.
nest : ℕ → ℕ → ℕ → ℕ → ℕ
nest a b c d = ((d * 256 + c) * 256 + b) * 256 + a

-- The first `n` bytes in pairs, each swapped; an odd one is left.
unfoldable pub swap_pairs : ℕ → List ℕ → List ℕ
swap_pairs (suc (suc n)) (a ∷ b ∷ r) = b ∷ a ∷ swap_pairs n r
swap_pairs _ xs = xs

module _ (op : ℕ → ℕ → ℕ)
    (op_bytes : (q r m s : ℕ)
      → r < 256
      → s < 256
      → op (q * 256 + r) (m * 256 + s) ≡ op q m * 256 + op r s) where
  op_word :
      (a b c d e f g h : ℕ)
      → IsByte a
      → IsByte b
      → IsByte c
      → IsByte e
      → IsByte f
      → IsByte g
      → op (nest a b c d) (nest e f g h) ≡ nest (op a e) (op b f) (op c g) (op d h)
  unfolding nest
  op_word a b c d e f g h ha hb hc he hf hg =
      op_bytes ((d * 256 + c) * 256 + b) a ((h * 256 + g) * 256 + f) e ha he
      ∙ ap (λ (t : ℕ). t * 256 + op a e)
          (op_bytes (d * 256 + c) b (h * 256 + g) f hb hf
            ∙ ap (λ (t : ℕ). t * 256 + op b f) (op_bytes d c h g hc hg))

byte_mask : (a : ℕ) → IsByte a → bit_and a 0xff ≡ a
byte_mask a h = omega (arith, bit_and_mask 8 a)

-- The two masked halves of a word.
even_half :
    (a b c d : ℕ)
    → IsByte a
    → IsByte b
    → IsByte c
    → IsByte d
    → bit_and (nest a b c d) 0xff00ff00 ≡ nest 0 b 0 d
unfolding nest
even_half a b c d ha hb hc hd =
    op_word bit_and bit_and_bytes a b c d 0 0xff 0 0xff ha hb hc (omega arith) (omega arith)
      (omega arith)
    ∙ rw (bit_and-zero, byte_mask b hb) (rw (bit_and-zero, byte_mask d hd))

swab_word_lem :
    (a b c d : ℕ)
    → IsByte a
    → IsByte b
    → IsByte c
    → IsByte d
    → swab_word (word a b c d) ≡ word b a d c
unfolding swab_word nest
swab_word_lem a b c d ha hb hc hd =
    ap₂ bit_or (ap (λ (t : ℕ). bit_and t 0xff00ff00) up ∙ even_half 0 a b c (omega arith) ha hb hc)
      (ap (λ (t : ℕ). bit_and t 0xff00ff00 / 256) down
        ∙ ap (λ (t : ℕ). t / 256) (even_half a b c d ha hb hc hd)
        ∙ lower)
    ∙ op_word bit_or bit_or_bytes 0 a 0 c b 0 d 0 (omega arith) ha (omega arith) hb (omega arith) hd
    ∙ join
  where
    up : word a b c d * 256 % 2 ^ 32 ≡ nest 0 a b c
    up = omega arith

    down : word a b c d ≡ nest a b c d
    down = omega arith

    lower : nest 0 b 0 d / 256 ≡ nest b 0 d 0
    lower = omega arith

    join : nest (bit_or 0 b) (bit_or a 0) (bit_or 0 d) (bit_or c 0) ≡ word b a d c
    join = omega (arith, zero-bit_or b, bit_or-zero a, zero-bit_or d, bit_or-zero c)

store_front-word :
    (a b c d : ℕ) (r : List ℕ)
    → IsByte a
    → IsByte b
    → IsByte c
    → IsByte d
    → store_front (word a b c d) r ≡ a ∷ b ∷ c ∷ d ∷ r
store_front-word a b c d r ha hb hc hd = ground arith

swap_pairs-zero : (d : List ℕ) → swap_pairs 0 d ≡ d
unfolding swap_pairs
swap_pairs-zero d = refl

swap_pairs-one : (d : List ℕ) → swap_pairs 1 d ≡ d
unfolding swap_pairs
swap_pairs-one d = refl

-- In a buffer of bytes of at least `size`, `data_swab` swaps the pairs of bytes that lie inside
-- `size`, though it works on whole words.
pub data_swab-swap_pairs :
    (d : List ℕ) (size : ℕ) → AllBytes d → size ≤ length d → data_swab d size ≡ swap_pairs size d
unfolding data_swab swab_rest swap_pairs
data_swab-swap_pairs (a ∷ b ∷ c ∷ e ∷ r) zero h fits = refl
data_swab-swap_pairs (a ∷ b ∷ c ∷ e ∷ r) (suc zero) h fits = refl
data_swab-swap_pairs (a ∷ b ∷ c ∷ e ∷ r) (suc (suc zero)) h fits = refl
data_swab-swap_pairs (a ∷ b ∷ c ∷ e ∷ r) (suc (suc (suc zero))) h fits = refl
data_swab-swap_pairs (a ∷ b ∷ c ∷ e ∷ r) (suc (suc (suc (suc n)))) h fits =
    rw (lt→ltb 3 (suc (suc (suc (suc n)))) (omega arith)) (
      ap (λ (t : ℕ). store_front t (data_swab r (suc (suc (suc (suc n))) - 4)))
        (swab_word_lem a b c e h.0 h.1.0 h.1.1.0 h.1.1.1.0)
      ∙ store_front-word b a e c _ h.1.0 h.0 h.1.1.1.0 h.1.1.0
      ∙ ap (λ (t : List ℕ). b ∷ a ∷ e ∷ c ∷ t)
          (ap (data_swab r) less_four ∙ data_swab-swap_pairs r n h.1.1.1.1 (omega arith)))
  where
    less_four : suc (suc (suc (suc n))) - 4 ≡ n
    less_four = omega arith
data_swab-swap_pairs [] zero h fits = refl
data_swab-swap_pairs [] (suc n) h fits = absurd (omega arith)
data_swab-swap_pairs (a ∷ []) zero h fits = refl
data_swab-swap_pairs (a ∷ []) (suc zero) h fits = refl
data_swab-swap_pairs (a ∷ []) (suc (suc n)) h fits = absurd (omega arith)
data_swab-swap_pairs (a ∷ b ∷ []) zero h fits = refl
data_swab-swap_pairs (a ∷ b ∷ []) (suc zero) h fits = refl
data_swab-swap_pairs (a ∷ b ∷ []) (suc (suc zero)) h fits = refl
data_swab-swap_pairs (a ∷ b ∷ []) (suc (suc (suc n))) h fits = absurd (omega arith)
data_swab-swap_pairs (a ∷ b ∷ c ∷ []) zero h fits = refl
data_swab-swap_pairs (a ∷ b ∷ c ∷ []) (suc zero) h fits = refl
data_swab-swap_pairs (a ∷ b ∷ c ∷ []) (suc (suc zero)) h fits = refl
data_swab-swap_pairs (a ∷ b ∷ c ∷ []) (suc (suc (suc zero))) h fits = refl
data_swab-swap_pairs (a ∷ b ∷ c ∷ []) (suc (suc (suc (suc n)))) h fits = absurd (omega arith)

swap_pairs-twice : (n : ℕ) (d : List ℕ) → swap_pairs n (swap_pairs n d) ≡ d
unfolding swap_pairs
swap_pairs-twice (suc (suc n)) (a ∷ b ∷ r) = ap (λ (t : List ℕ). a ∷ b ∷ t) (swap_pairs-twice n r)
swap_pairs-twice _ xs = refl

pub length-swap_pairs : (n : ℕ) (d : List ℕ) → length (swap_pairs n d) ≡ length d
unfolding swap_pairs
length-swap_pairs (suc (suc n)) (a ∷ b ∷ r) = ap (λ (t : ℕ). suc (suc t)) (length-swap_pairs n r)
length-swap_pairs _ xs = refl

pub swap_pairs-AllBytes : (n : ℕ) (d : List ℕ) → AllBytes d → AllBytes (swap_pairs n d)
unfolding swap_pairs
swap_pairs-AllBytes (suc (suc n)) (a ∷ b ∷ r) h = (h.1.0, (h.0, swap_pairs-AllBytes n r h.1.1))
swap_pairs-AllBytes _ xs h = h

pub length-data_swab :
    (d : List ℕ) (size : ℕ) → AllBytes d → size ≤ length d → length (data_swab d size) ≡ length d
length-data_swab d size h fits = rw (data_swab-swap_pairs d size h fits) (length-swap_pairs size d)

-- Swapping a buffer twice gives it back.
pub data_swab-data_swab :
    (d : List ℕ) (size : ℕ) → AllBytes d → size ≤ length d → data_swab (data_swab d size) size ≡ d
data_swab-data_swab d size h fits = rw (data_swab-swap_pairs d size h fits) (
    data_swab-swap_pairs (swap_pairs size d) size (swap_pairs-AllBytes size d h)
      (omega (arith, length-swap_pairs size d))
    ∙ swap_pairs-twice size d)
