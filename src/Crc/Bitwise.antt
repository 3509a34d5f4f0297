-- ===== src/Crc/Bitwise.antt =====
-- The table of lib/crc.c against the polynomial that it is made from: one table step is eight steps
-- of the shift register of CRC-32 (reflected, 0xedb88320).
use tivo_tools.Base.{ℕ, zero, suc, ◌+◌, ◌*◌, ◌/◌, ◌%◌, ◌^◌, ◌<◌, ◌≡◌, refl, sym, ap, ap₂, ◌∙◌}
use tivo_tools.Base.{bit_xor, Bool, true, ◌&&◌, ◌==◌, if◌then◌else◌}
use tivo_tools.Base.{get_or, arith}
use tivo_tools.Base.Memory.{IsByte, IsWord}
use tivo_tools.Base.Bits.{bit_xor-half, bit_xor-parity, zero-bit_xor, bit_xor-zero}
use tivo_tools.Base.Bits.{bit_xor_comm, bit_xor_assoc, bit_xor_self, bit_xor-lt}
use tivo_tools.Base.Bits.{bit_and_mask, bit_xor_fields, bit_xor-shift}
use native.Mathlib.Nat.{pow-suc}
use tivo_tools.Crc.{updc32}
use tivo_tools.Crc.Table.{crc32tab}

abbrev pub polynomial : ℕ
polynomial = 0xedb88320

-- One step of the shift register.
unfoldable pub crc_bit : ℕ → ℕ
crc_bit c = if c % 2 == 0 then c / 2 else bit_xor (c / 2) polynomial

unfoldable pub crc_bits : ℕ → ℕ → ℕ
crc_bits zero c = c
crc_bits (suc n) c = crc_bits n (crc_bit c)

xor_swap : (x y z : ℕ) → bit_xor (bit_xor x y) z ≡ bit_xor (bit_xor x z) y
xor_swap x y z = bit_xor_assoc x y z ∙ ap (bit_xor x) (bit_xor_comm y z) ∙ sym (bit_xor_assoc x z y)

xor_twice : (x y z : ℕ) → bit_xor (bit_xor x z) (bit_xor y z) ≡ bit_xor x y
xor_twice x y z =
    xor_swap x z (bit_xor y z)
    ∙ ap (λ (t : ℕ). bit_xor (bit_xor x t) z) (bit_xor_comm y z)
    ∙ ap (λ (t : ℕ). bit_xor t z) (sym (bit_xor_assoc x z y))
    ∙ xor_swap (bit_xor x z) y z
    ∙ ap (λ (t : ℕ). bit_xor t y)
        (bit_xor_assoc x z z ∙ ap (bit_xor x) (bit_xor_self z) ∙ bit_xor-zero x)

-- The register is linear over `^`.
pub crc_bit-bit_xor : (a b : ℕ) → crc_bit (bit_xor a b) ≡ bit_xor (crc_bit a) (crc_bit b)
unfolding crc_bit
crc_bit-bit_xor a b = ground (
  arith,
  bit_xor-half a b,
  bit_xor-parity a b,
  xor_swap (a / 2) (b / 2) polynomial,
  sym (bit_xor_assoc (a / 2) (b / 2) polynomial),
  xor_twice (a / 2) (b / 2) polynomial,
)

pub crc_bits-bit_xor :
    (n a b : ℕ) → crc_bits n (bit_xor a b) ≡ bit_xor (crc_bits n a) (crc_bits n b)
unfolding crc_bits
crc_bits-bit_xor zero a b = refl
crc_bits-bit_xor (suc n) a b =
    ap (crc_bits n) (crc_bit-bit_xor a b) ∙ crc_bits-bit_xor n (crc_bit a) (crc_bit b)

-- Zeros at the low end are shifted out.
crc_bits-shifted : (n q : ℕ) → crc_bits n (q * 2 ^ n) ≡ q
unfolding crc_bits
crc_bits-shifted zero q = omega arith
crc_bits-shifted (suc n) q = ap (crc_bits n) one_step ∙ crc_bits-shifted n q
  where
    even : q * 2 ^ suc n ≡ 2 * (q * 2 ^ n)
    even = omega (arith, ap (λ (t : ℕ). q * t) (pow-suc 2 n))

    one_step : crc_bit (q * 2 ^ suc n) ≡ q * 2 ^ n
    one_step = unfold crc_bit in ground (arith, even)

-- All 256 entries of the table are eight steps from their index.
table_below : ℕ → Bool
table_below zero = true
table_below (suc n) = (get_or crc32tab n 0 == crc_bits 8 n) && table_below n

table_checked : table_below 256 ≡ true
unfolding table_below crc32tab crc_bits crc_bit
table_checked = refl

table_below_sound : (n i : ℕ) → table_below n ≡ true → i < n → get_or crc32tab i 0 ≡ crc_bits 8 i
unfolding table_below
table_below_sound zero i e h = absurd (omega arith)
table_below_sound (suc n) i e h = ground (arith, table_below_sound n i)

pub crc32tab_lem : (i : ℕ) → i < 256 → get_or crc32tab i 0 ≡ crc_bits 8 i
crc32tab_lem i = table_below_sound 256 i table_checked

-- Eight steps of a register: its low byte goes through the table, the rest moves down.
crc_bits-split : (c : ℕ) → crc_bits 8 c ≡ bit_xor (crc_bits 8 (c % 256)) (c / 256)
crc_bits-split c =
    ap (crc_bits 8) parts
    ∙ crc_bits-bit_xor 8 (c / 256 * 2 ^ 8) (c % 256)
    ∙ ap (λ (t : ℕ). bit_xor t (crc_bits 8 (c % 256))) (crc_bits-shifted 8 (c / 256))
    ∙ bit_xor_comm (c / 256) (crc_bits 8 (c % 256))
  where
    parts : c ≡ bit_xor (c / 256 * 2 ^ 8) (c % 256)
    parts = omega (
      arith,
      bit_xor_fields 8 (c / 256) 0 (c % 256) (omega arith) (omega arith),
      zero-bit_xor (c % 256),
      ap (λ (t : ℕ). bit_xor t (c % 256)) (plus_zero (c / 256 * 2 ^ 8)),
    )
      where
        plus_zero : (x : ℕ) → x + 0 ≡ x
        plus_zero x = omega arith

pub crc_bit-IsWord : (c : ℕ) → IsWord c → IsWord (crc_bit c)
unfolding crc_bit
crc_bit-IsWord c h = ground (arith, bit_xor-lt 32 (c / 2) polynomial)

crc_bits-IsWord : (n c : ℕ) → IsWord c → IsWord (crc_bits n c)
unfolding crc_bits
crc_bits-IsWord zero c h = h
crc_bits-IsWord (suc n) c h = crc_bits-IsWord n (crc_bit c) (crc_bit-IsWord c h)

-- One round of the table-driven loop is the eight steps of the shift register that take in a byte.
pub updc32-crc_bits : (o c : ℕ) → IsByte o → IsWord c → updc32 o c ≡ crc_bits 8 (bit_xor c o)
unfolding updc32
updc32-crc_bits o c ho hc =
    ap₂ bit_xor
      (ap (λ (t : ℕ). get_or crc32tab t 0) (bit_and_mask 8 (bit_xor c o))
        ∙ crc32tab_lem (bit_xor c o % 256) (omega arith))
      (bit_and_mask 24 (c / 256) ∙ high)
    ∙ sym (crc_bits-split (bit_xor c o))
  where
    octet_high : o / 256 ≡ 0
    octet_high = omega arith

    high : c / 256 % 2 ^ 24 ≡ bit_xor c o / 256
    high =
        omega
          (arith, bit_xor-shift 8 c o, bit_xor-zero (c / 256), ap (bit_xor (c / 256)) octet_high)

pub updc32-IsWord : (o c : ℕ) → IsByte o → IsWord c → IsWord (updc32 o c)
updc32-IsWord o c ho hc =
    rw (updc32-crc_bits o c ho hc)
      (crc_bits-IsWord 8 (bit_xor c o) (bit_xor-lt 32 c o hc (omega arith)))
