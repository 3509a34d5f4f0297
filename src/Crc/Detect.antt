-- ===== src/Crc/Detect.antt =====
-- `mfs_check_crc` notices every change of a single byte of a sector whose checksum is right.
use tivo_tools.Base.{
  ℕ, zero, suc, ◌+◌, ◌-◌, ◌*◌, ◌/◌, ◌%◌, ◌^◌, ◌≤◌, ◌<◌, ◌≡◌, ◌≢◌, refl, sym, ap, ◌∙◌,
}
use tivo_tools.Base.{List, [], ◌∷◌, ◌++◌, true, false, length, bit_xor, arith, ==_iff, ◌==◌}
use tivo_tools.Base.{get_or, lt→ltb, ◌⊎◌, Bool-cases, inl, inr, All-append_right}
use tivo_tools.Base.Bits.{bit_xor_self, bit_xor_inj_right, bit_xor_inj_left, bit_xor-lt}
use tivo_tools.Base.Memory.{IsByte, IsWord, AllBytes, load32, htonl, htonl_inj, sub32, mul32, add32}
use native.Mathlib.Decide.{dec_lt}
use tivo_tools.Crc.Check.{crc_loop_step}
use tivo_tools.Crc.{
  deadfood, updc32, octet_at, next_bytes, crc_loop, mfs_compute_crc, mfs_check_crc,
}
use tivo_tools.Crc.Bitwise.{
  crc_bit, crc_bits, crc_bit-bit_xor, updc32-crc_bits, updc32-IsWord, crc_bit-IsWord, polynomial,
}

-- Only the zero register is sent to zero: the top bit of the polynomial is set.
crc_bit-zero : (c : ℕ) → IsWord c → crc_bit c ≡ 0 → c ≡ 0
unfolding crc_bit
crc_bit-zero c h e = elim (Bool-cases (c % 2 == 0)) [
  | inl even ↦ ground arith
  | inr odd ↦ absurd (
      top_bit
        (bit_xor_inj_right (c / 2) polynomial polynomial (ground (arith, bit_xor_self polynomial))))
]
  where
    top_bit : c / 2 ≡ polynomial → ⊥
    top_bit p = omega arith

xor-zero→eq : (a b : ℕ) → bit_xor a b ≡ 0 → a ≡ b
xor-zero→eq a b e = bit_xor_inj_right a b b (e ∙ sym (bit_xor_self b))

crc_bit_inj : (a b : ℕ) → IsWord a → IsWord b → crc_bit a ≡ crc_bit b → a ≡ b
crc_bit_inj a b ha hb e = xor-zero→eq a b (
    crc_bit-zero (bit_xor a b) (bit_xor-lt 32 a b ha hb)
      (crc_bit-bit_xor a b ∙ ap (λ (t : ℕ). bit_xor t (crc_bit b)) e ∙ bit_xor_self (crc_bit b)))

crc_bits_inj : (n a b : ℕ) → IsWord a → IsWord b → crc_bits n a ≡ crc_bits n b → a ≡ b
unfolding crc_bits
crc_bits_inj zero a b ha hb e = e
crc_bits_inj (suc n) a b ha hb e =
    crc_bit_inj a b ha hb
      (crc_bits_inj n (crc_bit a) (crc_bit b) (crc_bit-IsWord a ha) (crc_bit-IsWord b hb) e)

-- A round is injective in the register, and in the byte.
updc32_inj :
    (o p c d : ℕ)
    → IsByte o
    → IsByte p
    → IsWord c
    → IsWord d
    → updc32 o c ≡ updc32 p d
    → bit_xor c o ≡ bit_xor d p
updc32_inj o p c d ho hp hc hd e =
    crc_bits_inj 8 (bit_xor c o) (bit_xor d p) (bit_xor-lt 32 c o hc (omega arith))
      (bit_xor-lt 32 d p hd (omega arith))
      (sym (updc32-crc_bits o c ho hc) ∙ e ∙ updc32-crc_bits p d hp hd)

deadfood-IsByte : (i : ℕ) → IsByte (get_or deadfood i 0)
deadfood-IsByte zero = omega arith
deadfood-IsByte (suc zero) = omega arith
deadfood-IsByte (suc (suc zero)) = omega arith
deadfood-IsByte (suc (suc (suc zero))) = omega arith
deadfood-IsByte (suc (suc (suc (suc i)))) = omega arith

octet_at-IsByte : (o : ℕ) (d : List ℕ) → AllBytes d → IsByte (octet_at o d)
unfolding octet_at
octet_at-IsByte o [] h = ground (arith, deadfood-IsByte (3 - o))
octet_at-IsByte o (b ∷ r) h = ground (arith, deadfood-IsByte (3 - o))

next_bytes-AllBytes : (d : List ℕ) → AllBytes d → AllBytes (next_bytes d)
next_bytes-AllBytes [] h = h
next_bytes-AllBytes (b ∷ r) h = h.1

-- Registers that differ stay different under the same bytes.
crc_loop_inj :
    (n : ℕ) (d : List ℕ) (o a b : ℕ)
    → AllBytes d
    → IsWord a
    → IsWord b
    → crc_loop n d o a ≡ crc_loop n d o b
    → a ≡ b
unfolding crc_loop
crc_loop_inj zero d o a b h ha hb e = e
crc_loop_inj (suc n) d o a b h ha hb e = bit_xor_inj_right a b (octet_at o d) (
    updc32_inj (octet_at o d) (octet_at o d) a b octet octet ha hb (
      crc_loop_inj n (next_bytes d) (sub32 o 1) _ _ (next_bytes-AllBytes d h)
        (updc32-IsWord _ a octet ha) (updc32-IsWord _ b octet hb) e))
  where
    octet : IsByte (octet_at o d)
    octet = octet_at-IsByte o d h

crc_loop-IsWord : (n : ℕ) (d : List ℕ) (o c : ℕ) → AllBytes d → IsWord c → IsWord (crc_loop n d o c)
unfolding crc_loop
crc_loop-IsWord zero d o c h w = w
crc_loop-IsWord (suc n) d o c h w =
    crc_loop-IsWord n (next_bytes d) (sub32 o 1) _ (next_bytes-AllBytes d h)
      (updc32-IsWord _ c (octet_at-IsByte o d h) w)

-- A byte inside the checksum word is not read.
crc_loop_window :
    (n : ℕ) (front back : List ℕ) (x y o c : ℕ)
    → sub32 o (length front) < 4
    → o < 2 ^ 32
    → length front < 2 ^ 31
    → crc_loop n (front ++ (x ∷ back)) o c ≡ crc_loop n (front ++ (y ∷ back)) o c
unfolding crc_loop octet_at
crc_loop_window zero front back x y o c h w l = refl
crc_loop_window (suc n) [] back x y o c h w l = rw (lt→ltb o 4 (omega arith))
crc_loop_window (suc n) (f ∷ fs) back x y o c h w l =
    crc_loop_window n fs back x y (sub32 o 1) _ (omega arith) (omega arith) (omega arith)

-- A byte outside it decides the register, the other bytes being equal.
crc_loop_outside :
    (n : ℕ) (front back : List ℕ) (x y o c : ℕ)
    → 4 ≤ sub32 o (length front)
    → o < 2 ^ 32
    → length front < 2 ^ 31
    → length front < n
    → AllBytes (front ++ (x ∷ back))
    → IsByte y
    → IsWord c
    → crc_loop n (front ++ (x ∷ back)) o c ≡ crc_loop n (front ++ (y ∷ back)) o c
    → x ≡ y
unfolding crc_loop
crc_loop_outside zero front back x y o c h w l m bs hy hc e = absurd (omega arith)
crc_loop_outside (suc n) [] back x y o c h w l m bs hy hc e = bit_xor_inj_left c x y (
    updc32_inj x y c c bs.0 hy hc hc (
      crc_loop_inj n back (sub32 o 1) _ _ bs.1 (updc32-IsWord x c bs.0 hc) (updc32-IsWord y c hy hc)
        (sym (crc_loop_step n x back o c (omega arith))
          ∙ e
          ∙ crc_loop_step n y back o c (omega arith))))
crc_loop_outside (suc n) (f ∷ fs) back x y o c h w l m bs hy hc e =
    crc_loop_outside n fs back x y (sub32 o 1) _ (omega arith) (omega arith) (omega arith)
      (omega arith) bs.1 hy (updc32-IsWord _ c (octet_at-IsByte o (f ∷ []) (bs.0, tt)) hc)
      (unfold octet_at in e)

-- A word that the byte is not part of stays as it is.
load32_outside :
    (front back : List ℕ) (x y k : ℕ)
    → (length front < 4 * k) ⊎ (4 * k + 4 ≤ length front)
    → load32 (front ++ (x ∷ back)) k ≡ load32 (front ++ (y ∷ back)) k
unfolding load32
load32_outside (a ∷ b ∷ c ∷ d ∷ fs) back x y zero h = refl
load32_outside (a ∷ b ∷ c ∷ d ∷ fs) back x y (suc k) h = load32_outside fs back x y k (omega arith)
load32_outside [] back x y zero h = absurd (omega arith)
load32_outside (a ∷ []) back x y zero h = absurd (omega arith)
load32_outside (a ∷ b ∷ []) back x y zero h = absurd (omega arith)
load32_outside (a ∷ b ∷ c ∷ []) back x y zero h = absurd (omega arith)
load32_outside [] [] x y (suc k) h = refl
load32_outside [] (p ∷ []) x y (suc k) h = refl
load32_outside [] (p ∷ q ∷ []) x y (suc k) h = refl
load32_outside [] (p ∷ q ∷ r ∷ s) x y (suc k) h = refl
load32_outside (a ∷ []) [] x y (suc k) h = refl
load32_outside (a ∷ []) (p ∷ []) x y (suc k) h = refl
load32_outside (a ∷ []) (p ∷ q ∷ s) x y (suc k) h = refl
load32_outside (a ∷ b ∷ []) [] x y (suc k) h = refl
load32_outside (a ∷ b ∷ []) (p ∷ s) x y (suc k) h = refl
load32_outside (a ∷ b ∷ c ∷ []) s x y (suc k) h = refl

-- The word that it is part of shows it.
load32_inside :
    (front back : List ℕ) (x y k : ℕ)
    → 4 * k ≤ length front
    → length front < 4 * k + 4
    → 4 * k + 4 ≤ length (front ++ (x ∷ back))
    → load32 (front ++ (x ∷ back)) k ≡ load32 (front ++ (y ∷ back)) k
    → x ≡ y
unfolding load32
load32_inside (a ∷ b ∷ c ∷ d ∷ fs) back x y zero h l m e = absurd (omega arith)
load32_inside (a ∷ b ∷ c ∷ d ∷ fs) back x y (suc k) h l m e =
    load32_inside fs back x y k (omega arith) (omega arith) (omega arith) e
load32_inside [] back x y (suc k) h l m e = absurd (omega arith)
load32_inside (a ∷ []) back x y (suc k) h l m e = absurd (omega arith)
load32_inside (a ∷ b ∷ []) back x y (suc k) h l m e = absurd (omega arith)
load32_inside (a ∷ b ∷ c ∷ []) back x y (suc k) h l m e = absurd (omega arith)
load32_inside [] [] x y zero h l m e = absurd (omega arith)
load32_inside [] (p ∷ []) x y zero h l m e = absurd (omega arith)
load32_inside [] (p ∷ q ∷ []) x y zero h l m e = absurd (omega arith)
load32_inside [] (p ∷ q ∷ r ∷ s) x y zero h l m e = omega arith
load32_inside (a ∷ []) [] x y zero h l m e = absurd (omega arith)
load32_inside (a ∷ []) (p ∷ []) x y zero h l m e = absurd (omega arith)
load32_inside (a ∷ []) (p ∷ q ∷ s) x y zero h l m e = omega arith
load32_inside (a ∷ b ∷ []) [] x y zero h l m e = absurd (omega arith)
load32_inside (a ∷ b ∷ []) (p ∷ s) x y zero h l m e = omega arith
load32_inside (a ∷ b ∷ c ∷ []) s x y zero h l m e = omega arith

module _ (front back : List ℕ) (x y size off : ℕ) where
  abbrev before : List ℕ
  before = front ++ (x ∷ back)

  abbrev after : List ℕ
  after = front ++ (y ∷ back)

  same_checks :
      (off < 2 ^ 29)
      → length front < 2 ^ 31
      → length front < size
      → 4 * off + 4 ≤ length before
      → AllBytes before
      → AllBytes after
      → mfs_check_crc before size off ≡ true
      → mfs_check_crc after size off ≡ true
      → x ≡ y
  unfolding mfs_check_crc mfs_compute_crc
  same_checks small lf ls fits bs bs' p q =
      elim (dec_lt (sub32 (add32 (mul32 off 4) 3) (length front)) 4) [
        | yes inside ↦ load32_inside front back x y off (omega arith) (omega arith) fits (
            (==_iff _ _).0 p
            ∙ ap htonl (crc_loop_window size front back x y _ 0 inside (omega arith) lf)
            ∙ sym ((==_iff _ _).0 q))
        | no outside ↦
            crc_loop_outside size front back x y (add32 (mul32 off 4) 3) 0 (omega arith)
              (omega arith) lf ls bs (All-append_right IsByte front (y ∷ back) bs').0 (omega arith)
              (htonl_inj _ _ (crc_loop-IsWord size before _ 0 bs (omega arith))
                (crc_loop-IsWord size after _ 0 bs' (omega arith))
                (sym ((==_iff _ _).0 p)
                  ∙ load32_outside front back x y off (omega arith)
                  ∙ (==_iff _ _).0 q))
      ]

-- A buffer of bytes whose first `size` bytes, at most 2 ^ 31, hold the checksum word and pass the
-- check fails it once any one of those bytes is changed, the bytes of the checksum word included.
pub check_crc_detects :
    (front back : List ℕ) (x y size off : ℕ)
    → x ≢ y
    → length front < size
    → size ≤ length (front ++ (x ∷ back))
    → size ≤ 2 ^ 31
    → 4 * off + 4 ≤ size
    → AllBytes (front ++ (x ∷ back))
    → IsByte y
    → mfs_check_crc (front ++ (x ∷ back)) size off ≡ true
    → mfs_check_crc (front ++ (y ∷ back)) size off ≡ false
check_crc_detects front back x y size off ne lf ls small fits bs hy p =
    elim (Bool-cases (mfs_check_crc (front ++ (y ∷ back)) size off)) [
      | inl passes ↦ absurd (
          ne (
            same_checks front back x y size off (omega arith) (omega arith) lf (omega arith) bs
              (replaced front bs) p passes))
      | inr fails ↦ fails
    ]
  where
    replaced : (f : List ℕ) → AllBytes (f ++ (x ∷ back)) → AllBytes (f ++ (y ∷ back))
    replaced [] h = (hy, h.1)
    replaced (a ∷ f) h = (h.0, replaced f h.1)
