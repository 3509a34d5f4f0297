-- ===== src/Base/Bits.antt =====
-- Laws of `^`, `&` and `|` on numbers of any width, from the recursion on binary digits that the
-- native operations stand for.
use Prim.Native.Nat.{ℕ, zero, suc, ◌+◌, ◌-◌, ◌*◌, ◌/◌, ◌%◌, ◌≤◌, ◌<◌, ◌^◌, min, max}
use Prim.Native.Nat.{bit_and, bit_or, bit_xor, digits, bitwise, differ}
use Prim.Native.Nat.{bit_and-bitwise, bit_or-bitwise, bit_xor-bitwise}
use mathlib.Core.Path.{◌≡◌, refl, sym, ◌∙◌, ap, ap₂}
use native.Mathlib.Nat.{
  le_refl, pow-suc, div-one, div-div-eq-div-mul, mul_comm, div-add-mod', mod-lt,
}
use native.Mathlib.Omega.{arith}

-- An operation on binary digits: `low` is what it does where the first number has none left. Every
-- fuel from the first number on gives the same, so that it can be taken one digit at a time.
module _ (low : ℕ → ℕ) (op : ℕ → ℕ → ℕ)
    (low_step : (y : ℕ) → low y ≡ low (y / 2) * 2 + op 0 (y % 2)) where
  settled : (top fuel x y : ℕ) → fuel ≤ top → x ≤ fuel → digits low op fuel x y ≡ bitwise low op x y
  settled top zero zero y t h = refl
  settled top (suc fuel) zero y t h = refl
  settled top zero (suc x) y t h = absurd (omega arith)
  settled zero (suc fuel) (suc x) y t h = absurd (omega arith)
  settled (suc top) (suc fuel) (suc x) y t h = rw (
    settled top fuel (suc x / 2) (y / 2) (omega arith) (omega arith),
    settled top x (suc x / 2) (y / 2) (omega arith) (omega arith),
  )

  one_digit :
      (x y : ℕ) → bitwise low op x y ≡ bitwise low op (x / 2) (y / 2) * 2 + op (x % 2) (y % 2)
  one_digit zero y = low_step y
  one_digit (suc x) y =
      ap (λ (rest : ℕ). rest * 2 + op (suc x % 2) (y % 2))
        (settled x x (suc x / 2) (y / 2) (le_refl _) (omega arith))

pub bit_or_step : (x y : ℕ) → bit_or x y ≡ bit_or (x / 2) (y / 2) * 2 + max (x % 2) (y % 2)
bit_or_step x y = simp bit_or-bitwise (one_digit (λ b. b) max (λ b. omega arith) x y)

pub bit_and_step : (x y : ℕ) → bit_and x y ≡ bit_and (x / 2) (y / 2) * 2 + min (x % 2) (y % 2)
bit_and_step x y = simp bit_and-bitwise (one_digit (λ b. 0) min (λ b. omega arith) x y)

-- The digit of `^`.
differ_digit : (a b : ℕ) → a < 2 → b < 2 → differ a b ≡ (a + b) % 2
differ_digit zero zero p q = refl
differ_digit zero (suc zero) p q = refl
differ_digit (suc zero) zero p q = refl
differ_digit (suc zero) (suc zero) p q = refl
differ_digit (suc (suc a)) b p q = absurd (omega arith)
differ_digit zero (suc (suc b)) p q = absurd (omega arith)
differ_digit (suc zero) (suc (suc b)) p q = absurd (omega arith)

pub bit_xor_step : (a b : ℕ) → bit_xor a b ≡ bit_xor (a / 2) (b / 2) * 2 + (a % 2 + b % 2) % 2
bit_xor_step a b = simp bit_xor-bitwise (
    omega (
      arith,
      one_digit (λ c. c) differ
          (λ c. omega (arith, differ_digit 0 (c % 2) (omega arith) (omega arith))) a b,
      differ_digit (a % 2) (b % 2) (omega arith) (omega arith),
    ))

-- The step read from the other side: the digits of the result.
pub bit_xor-half : (a b : ℕ) → bit_xor a b / 2 ≡ bit_xor (a / 2) (b / 2)
bit_xor-half a b = omega (arith, bit_xor_step a b)

pub bit_xor-parity : (a b : ℕ) → bit_xor a b % 2 ≡ (a % 2 + b % 2) % 2
bit_xor-parity a b = omega (arith, bit_xor_step a b)

-- Each law goes from the halves of its arguments to the arguments, on fuel that bounds them.
zero-bit_xor_fuel : (n b : ℕ) → b ≤ n → bit_xor 0 b ≡ b
zero-bit_xor_fuel zero b h = rw (zero_of h)
  where
    zero_of : b ≤ 0 → b ≡ 0
    zero_of p = omega arith
zero-bit_xor_fuel (suc n) b h =
    omega (arith, bit_xor_step 0 b, zero-bit_xor_fuel n (b / 2) (omega arith))

pub zero-bit_xor : (b : ℕ) → bit_xor 0 b ≡ b
zero-bit_xor b = zero-bit_xor_fuel b b (le_refl _)

bit_xor_comm_fuel : (n a b : ℕ) → a + b ≤ n → bit_xor a b ≡ bit_xor b a
bit_xor_comm_fuel zero a b h = ap₂ bit_xor (omega arith) (omega arith)
bit_xor_comm_fuel (suc n) a b h =
    omega
      (arith, bit_xor_step a b, bit_xor_step b a, bit_xor_comm_fuel n (a / 2) (b / 2) (omega arith))

pub bit_xor_comm : (a b : ℕ) → bit_xor a b ≡ bit_xor b a
bit_xor_comm a b = bit_xor_comm_fuel (a + b) a b (le_refl _)

pub bit_xor-zero : (a : ℕ) → bit_xor a 0 ≡ a
bit_xor-zero a = bit_xor_comm a 0 ∙ zero-bit_xor a

bit_xor_assoc_fuel :
    (n a b c : ℕ) → a + b + c ≤ n → bit_xor (bit_xor a b) c ≡ bit_xor a (bit_xor b c)
bit_xor_assoc_fuel zero a b c h =
    let e : a ≡ 0 = omega arith in
    let k : c ≡ 0 = omega arith in rw (e, k) (rw (zero-bit_xor, bit_xor-zero, zero-bit_xor))
bit_xor_assoc_fuel (suc n) a b c h = omega (
  arith,
  bit_xor_step (bit_xor a b) c,
  bit_xor_step a (bit_xor b c),
  bit_xor-parity a b,
  bit_xor-parity b c,
  bit_xor_assoc_fuel n (a / 2) (b / 2) (c / 2) (omega arith),
  ap (λ (t : ℕ). bit_xor t (c / 2)) (bit_xor-half a b),
  ap (λ (t : ℕ). bit_xor (a / 2) t) (bit_xor-half b c),
)

pub bit_xor_assoc : (a b c : ℕ) → bit_xor (bit_xor a b) c ≡ bit_xor a (bit_xor b c)
bit_xor_assoc a b c = bit_xor_assoc_fuel (a + b + c) a b c (le_refl _)

bit_xor_self_fuel : (n a : ℕ) → a ≤ n → bit_xor a a ≡ 0
bit_xor_self_fuel zero a h = let e : a ≡ 0 = omega arith in rw e (zero-bit_xor 0)
bit_xor_self_fuel (suc n) a h =
    omega (arith, bit_xor_step a a, bit_xor_self_fuel n (a / 2) (omega arith))

pub bit_xor_self : (a : ℕ) → bit_xor a a ≡ 0
bit_xor_self a = bit_xor_self_fuel a a (le_refl _)

-- A mask applied twice is gone, so `^` with one side fixed is injective.
pub bit_xor_cancel_left : (a b : ℕ) → bit_xor a (bit_xor a b) ≡ b
bit_xor_cancel_left a b =
    sym (bit_xor_assoc a a b) ∙ ap (λ (t : ℕ). bit_xor t b) (bit_xor_self a) ∙ zero-bit_xor b

pub bit_xor_inj_left : (a b c : ℕ) → bit_xor a b ≡ bit_xor a c → b ≡ c
bit_xor_inj_left a b c e =
    sym (bit_xor_cancel_left a b) ∙ ap (bit_xor a) e ∙ bit_xor_cancel_left a c

pub bit_xor_inj_right : (a b c : ℕ) → bit_xor a c ≡ bit_xor b c → a ≡ b
bit_xor_inj_right a b c e = bit_xor_inj_left c a b (bit_xor_comm c a ∙ e ∙ bit_xor_comm b c)

pub bit_xor-lt : (k a b : ℕ) → a < 2 ^ k → b < 2 ^ k → bit_xor a b < 2 ^ k
bit_xor-lt zero a b p q =
    let e : a ≡ 0 = omega arith in
    let d : b ≡ 0 = omega arith in rw (e, d) (omega (arith, zero-bit_xor 0))
bit_xor-lt (suc k) a b p q = omega (
  arith,
  bit_xor_step a b,
  pow-suc 2 k,
  bit_xor-lt k (a / 2) (b / 2) (omega (arith, pow-suc 2 k)) (omega (arith, pow-suc 2 k)),
)

-- Halving k times commutes with `^`.
pub bit_xor-shift : (k a b : ℕ) → bit_xor a b / 2 ^ k ≡ bit_xor (a / 2 ^ k) (b / 2 ^ k)
bit_xor-shift zero a b = rw (div-one, div-one, div-one)
bit_xor-shift (suc k) a b =
    split (bit_xor a b)
    ∙ ap (λ (t : ℕ). t / 2 ^ k) (bit_xor-half a b)
    ∙ bit_xor-shift k (a / 2) (b / 2)
    ∙ ap₂ bit_xor (sym (split a)) (sym (split b))
  where
    split : (x : ℕ) → x / 2 ^ suc k ≡ x / 2 / 2 ^ k
    split x = rw (pow-suc 2 k, mul_comm) (sym (div-div-eq-div-mul x 2 (2 ^ k)))

pub pow_pos : (k : ℕ) → 0 < 2 ^ k
pow_pos zero = omega arith
pow_pos (suc k) = omega (arith, pow-suc 2 k, pow_pos k)

doubled_fields : (k high : ℕ) → high * 2 ^ suc k ≡ 2 * (high * 2 ^ k)
doubled_fields k high = ap (λ (power : ℕ). high * power) (pow-suc 2 k) ∙ regroup (2 ^ k)
  where
    regroup : (power : ℕ) → high * (power * 2) ≡ 2 * (high * power)
    regroup power = omega arith

-- `^` and `&` of the low digits with the high digits left alone.
pub bit_xor_fields :
    (k q r s : ℕ) → r < 2 ^ k → s < 2 ^ k → bit_xor (q * 2 ^ k + r) s ≡ q * 2 ^ k + bit_xor r s
bit_xor_fields zero q r s h p =
    let e : r ≡ 0 = omega arith in
    let d : s ≡ 0 = omega arith in
    rw (e, d)
      (omega (arith, bit_xor-zero (q * 1 + 0), bit_xor-zero 0, bit_xor-zero (q * 2 ^ 0 + 0)))
bit_xor_fields (suc k) q r s h p = omega (
  arith,
  bit_xor_step (q * 2 ^ suc k + r) s,
  bit_xor_step r s,
  doubled_fields k q,
  ap (λ (t : ℕ). bit_xor t (s / 2)) (half_of (q * 2 ^ k) (q * 2 ^ suc k) (doubled_fields k q)),
  bit_xor_fields k q (r / 2) (s / 2) (omega (arith, pow-suc 2 k)) (omega (arith, pow-suc 2 k)),
)
  where
    half_of : (y z : ℕ) → z ≡ 2 * y → (z + r) / 2 ≡ y + r / 2
    half_of y z e = omega arith

bit_and-zero_fuel : (n a : ℕ) → a ≤ n → bit_and a 0 ≡ 0
bit_and-zero_fuel zero a h = let e : a ≡ 0 = omega arith in rw e
bit_and-zero_fuel (suc n) a h =
    omega (arith, bit_and_step a 0, bit_and-zero_fuel n (a / 2) (omega arith))

pub bit_and-zero : (a : ℕ) → bit_and a 0 ≡ 0
bit_and-zero a = bit_and-zero_fuel a a (le_refl _)

bit_and_fields : (k q r : ℕ) → r < 2 ^ k → bit_and (q * 2 ^ k + r) (2 ^ k - 1) ≡ r
bit_and_fields zero q r h = omega (arith, bit_and-zero (q * 2 ^ 0 + r))
bit_and_fields (suc k) q r h = omega (
  arith,
  bit_and_step (q * 2 ^ suc k + r) (2 ^ suc k - 1),
  doubled_fields k q,
  pow-suc 2 k,
  pow_pos k,
  ap₂ bit_and (half_of (q * 2 ^ k) (q * 2 ^ suc k) (doubled_fields k q))
      (half_mask (2 ^ k) (2 ^ suc k) (omega (arith, pow-suc 2 k)) (pow_pos k)),
  bit_and_fields k q (r / 2) (omega (arith, pow-suc 2 k)),
)
  where
    half_of : (y z : ℕ) → z ≡ 2 * y → (z + r) / 2 ≡ y + r / 2
    half_of y z e = omega arith

    half_mask : (y z : ℕ) → z ≡ 2 * y → 1 ≤ y → (z - 1) / 2 ≡ y - 1
    half_mask y z e h = omega arith

-- `&` with a mask of k ones is the remainder by `2 ^ k`.
pub bit_and_mask : (k a : ℕ) → bit_and a (2 ^ k - 1) ≡ a % 2 ^ k
bit_and_mask k a =
    ap (λ (t : ℕ). bit_and t (2 ^ k - 1)) (sym (div-add-mod' a (2 ^ k)))
    ∙ bit_and_fields k (a / 2 ^ k) (a % 2 ^ k) (mod-lt a (pow_pos k))

-- An operation on digits works on the fields of a number side by side.
module _ (op digit : ℕ → ℕ → ℕ)
    (op_step : (a b : ℕ) → op a b ≡ op (a / 2) (b / 2) * 2 + digit (a % 2) (b % 2))
    (op-zero : op 0 0 ≡ 0) where
  op_fields :
      (k q r m s : ℕ)
      → r < 2 ^ k
      → s < 2 ^ k
      → op (q * 2 ^ k + r) (m * 2 ^ k + s) ≡ op q m * 2 ^ k + op r s
  op_fields zero q r m s h p =
      let e : r ≡ 0 = omega arith in
      let d : s ≡ 0 = omega arith in rw (e, d) (omega (arith, op-zero, ap₂ op (plain q) (plain m)))
    where
      plain : (x : ℕ) → x * 2 ^ 0 + 0 ≡ x
      plain x = omega arith
  op_fields (suc k) q r m s h p = omega (
    arith,
    op_step (q * 2 ^ suc k + r) (m * 2 ^ suc k + s),
    op_step r s,
    doubled_fields k (op q m),
    ap₂ op (half_of q r) (half_of m s),
    ap₂ digit (parity_of q r) (parity_of m s),
    op_fields k q (r / 2) m (s / 2) (omega (arith, pow-suc 2 k)) (omega (arith, pow-suc 2 k)),
  )
    where
      half_of : (x y : ℕ) → (x * 2 ^ suc k + y) / 2 ≡ x * 2 ^ k + y / 2
      half_of x y = omega (arith, doubled_fields k x)

      parity_of : (x y : ℕ) → (x * 2 ^ suc k + y) % 2 ≡ y % 2
      parity_of x y = omega (arith, doubled_fields k x)

pub bit_and_bytes :
    (q r m s : ℕ)
    → r < 256
    → s < 256
    → bit_and (q * 256 + r) (m * 256 + s) ≡ bit_and q m * 256 + bit_and r s
bit_and_bytes = op_fields bit_and min bit_and_step refl 8

pub bit_or_bytes :
    (q r m s : ℕ)
    → r < 256
    → s < 256
    → bit_or (q * 256 + r) (m * 256 + s) ≡ bit_or q m * 256 + bit_or r s
bit_or_bytes = op_fields bit_or max bit_or_step refl 8

zero-bit_or_fuel : (n b : ℕ) → b ≤ n → bit_or 0 b ≡ b
zero-bit_or_fuel zero b h = let e : b ≡ 0 = omega arith in rw e
zero-bit_or_fuel (suc n) b h =
    omega (arith, bit_or_step 0 b, zero-bit_or_fuel n (b / 2) (omega arith))

pub zero-bit_or : (b : ℕ) → bit_or 0 b ≡ b
zero-bit_or b = zero-bit_or_fuel b b (le_refl _)

bit_or-zero_fuel : (n b : ℕ) → b ≤ n → bit_or b 0 ≡ b
bit_or-zero_fuel zero b h = let e : b ≡ 0 = omega arith in rw e
bit_or-zero_fuel (suc n) b h =
    omega (arith, bit_or_step b 0, bit_or-zero_fuel n (b / 2) (omega arith))

pub bit_or-zero : (b : ℕ) → bit_or b 0 ≡ b
bit_or-zero b = bit_or-zero_fuel b b (le_refl _)
