-- ===== src/Base/Memory.antt =====
-- Byte buffers as lists of numbers below 256, and the 32-bit words that C code reads and writes
-- through a cast pointer. The host is little-endian; the disk format is big-endian, and the code
-- goes from one to the other by `htonl`.
use Prim.Native.Nat.{ℕ, zero, suc, ◌+◌, ◌-◌, ◌*◌, ◌/◌, ◌%◌, ◌^◌, ◌≤◌, ◌<◌}
use mathlib.Core.Path.{◌≡◌, refl, ap}
use mathlib.Core.Logic.{◌≢◌}
use mathlib.Core.List.{List, ◌∷◌}
use native.Mathlib.Omega.{arith}
use tivo_tools.Base.Lists.{length, All}

abbrev pub IsByte : ℕ → Type 0
IsByte b = b < 256

abbrev pub IsWord : ℕ → Type 0
IsWord w = w < 2 ^ 32

abbrev pub AllBytes : List ℕ → Type 0
AllBytes = All IsByte

-- `unsigned int` arithmetic.
abbrev pub add32 : ℕ → ℕ → ℕ
add32 a b = (a + b) % 2 ^ 32

abbrev pub sub32 : ℕ → ℕ → ℕ
sub32 a b = (a + 2 ^ 32 - b % 2 ^ 32) % 2 ^ 32

abbrev pub mul32 : ℕ → ℕ → ℕ
mul32 a b = a * b % 2 ^ 32

-- The word of four bytes, least significant first.
abbrev pub word : ℕ → ℕ → ℕ → ℕ → ℕ
word a b c d = a + 256 * b + 65536 * c + 16777216 * d

-- `((unsigned int *) buf)[i]`; a word that is not whole inside the buffer reads as 0.
unfoldable pub load32 : List ℕ → ℕ → ℕ
load32 (a ∷ b ∷ c ∷ d ∷ r) zero = word a b c d
load32 (a ∷ b ∷ c ∷ d ∷ r) (suc i) = load32 r i
load32 _ _ = 0

-- `((unsigned int *) buf)[i] = w`; a write that is not whole inside the buffer changes nothing.
unfoldable pub store32 : List ℕ → ℕ → ℕ → List ℕ
store32 (a ∷ b ∷ c ∷ d ∷ r) zero w =
    (w % 256) ∷ (w / 256 % 256) ∷ (w / 65536 % 256) ∷ (w / 16777216 % 256) ∷ r
store32 (a ∷ b ∷ c ∷ d ∷ r) (suc i) w = a ∷ b ∷ c ∷ d ∷ store32 r i w
store32 xs _ w = xs

-- `htonl`, which is `ntohl` too: the four bytes in the other order.
unfoldable pub htonl : ℕ → ℕ
htonl w = word (w / 16777216 % 256) (w / 65536 % 256) (w / 256 % 256) (w % 256)

pub htonl-htonl : (w : ℕ) → IsWord w → htonl (htonl w) ≡ w
unfolding htonl
htonl-htonl w h = omega arith

pub htonl-IsWord : (w : ℕ) → IsWord (htonl w)
unfolding htonl
htonl-IsWord w = omega arith

pub htonl_inj : (v w : ℕ) → IsWord v → IsWord w → htonl v ≡ htonl w → v ≡ w
htonl_inj v w hv hw e = omega (arith, htonl-htonl v hv, htonl-htonl w hw, ap htonl e)

-- `htonl (((unsigned int *) buf)[i])`: the big-endian word that stands there, on any host.
abbrev pub field : List ℕ → ℕ → ℕ
field d i = htonl (load32 d i)

-- `((unsigned int *) buf)[i] = htonl (w)`.
abbrev pub set_field : List ℕ → ℕ → ℕ → List ℕ
set_field d i w = store32 d i (htonl w)

pub length-store32 : (d : List ℕ) (i w : ℕ) → length (store32 d i w) ≡ length d
unfolding store32
length-store32 (a ∷ b ∷ c ∷ d ∷ r) zero w = refl
length-store32 (a ∷ b ∷ c ∷ d ∷ r) (suc i) w =
    ap (λ (n : ℕ). suc (suc (suc (suc n)))) (length-store32 r i w)
length-store32 _ _ w = refl

pub load32-IsWord : (d : List ℕ) (i : ℕ) → AllBytes d → IsWord (load32 d i)
unfolding load32
load32-IsWord (a ∷ b ∷ c ∷ d ∷ r) zero h = omega arith
load32-IsWord (a ∷ b ∷ c ∷ d ∷ r) (suc i) h = load32-IsWord r i h.1.1.1.1
load32-IsWord _ _ h = omega arith

pub store32-AllBytes : (d : List ℕ) (i w : ℕ) → AllBytes d → AllBytes (store32 d i w)
unfolding store32
store32-AllBytes (a ∷ b ∷ c ∷ d ∷ r) zero w h =
    (omega arith, (omega arith, (omega arith, (omega arith, h.1.1.1.1))))
store32-AllBytes (a ∷ b ∷ c ∷ d ∷ r) (suc i) w h =
    (h.0, (h.1.0, (h.1.1.0, (h.1.1.1.0, store32-AllBytes r i w h.1.1.1.1))))
store32-AllBytes _ _ w h = h

pub load32-store32_self :
    (d : List ℕ) (i w : ℕ) → 4 * i + 4 ≤ length d → IsWord w → load32 (store32 d i w) i ≡ w
unfolding load32 store32
load32-store32_self (a ∷ b ∷ c ∷ d ∷ r) zero w h k = omega arith
load32-store32_self (a ∷ b ∷ c ∷ d ∷ r) (suc i) w h k = load32-store32_self r i w (omega arith) k
load32-store32_self _ _ w h k = absurd (omega arith)

pub load32-store32_ne : (d : List ℕ) (i j w : ℕ) → i ≢ j → load32 (store32 d i w) j ≡ load32 d j
unfolding load32 store32
load32-store32_ne (a ∷ b ∷ c ∷ d ∷ r) zero zero w h = absurd (h refl)
load32-store32_ne (a ∷ b ∷ c ∷ d ∷ r) zero (suc j) w h = refl
load32-store32_ne (a ∷ b ∷ c ∷ d ∷ r) (suc i) zero w h = refl
load32-store32_ne (a ∷ b ∷ c ∷ d ∷ r) (suc i) (suc j) w h =
    load32-store32_ne r i j w (λ e. h (ap suc e))
load32-store32_ne _ _ _ w h = refl
