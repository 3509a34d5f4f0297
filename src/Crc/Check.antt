-- ===== src/Crc/Check.antt =====
-- `mfs_compute_crc` over a whole buffer: what it computes, and that an update makes the check pass.
use tivo_tools.Base.{ℕ, zero, suc, ◌+◌, ◌*◌, ◌^◌, ◌≤◌, ◌<◌, ◌≡◌, refl, sym, ap, ◌∙◌}
use tivo_tools.Base.{List, [], ◌∷◌, true, length, bit_xor, arith, ==_iff}
use tivo_tools.Base.Memory.{IsWord, AllBytes, store32, htonl, htonl-IsWord}
use tivo_tools.Base.Memory.{sub32, mul32, add32, load32-store32_self, store32-AllBytes}
use tivo_tools.Crc.{updc32, octet_at, crc_loop, mfs_compute_crc, mfs_check_crc}
use tivo_tools.Crc.{mfs_update_crc}
use tivo_tools.Crc.Bitwise.{crc_bits, updc32-crc_bits, updc32-IsWord}

-- The register after all bytes of a buffer, a step at a time.
unfoldable pub crc_fold : (ℕ → ℕ → ℕ) → List ℕ → ℕ → ℕ
crc_fold f [] c = c
crc_fold f (b ∷ r) c = crc_fold f r (f b c)

-- The CRC-32 register taken bit by bit over the bytes, from zero.
unfoldable pub crc32 : List ℕ → ℕ
crc32 bytes = crc_fold (λ o c. crc_bits 8 (bit_xor c o)) bytes 0

crc_fold-updc32 :
    (d : List ℕ) (c : ℕ)
    → AllBytes d
    → IsWord c
    → crc_fold updc32 d c ≡ crc_fold (λ o c. crc_bits 8 (bit_xor c o)) d c
unfolding crc_fold
crc_fold-updc32 [] c h w = refl
crc_fold-updc32 (b ∷ r) c h w =
    crc_fold-updc32 r (updc32 b c) h.1 (updc32-IsWord b c h.0 w)
    ∙ ap (crc_fold (λ o c. crc_bits 8 (bit_xor c o)) r) (updc32-crc_bits b c h.0 w)

-- Outside the checksum a round takes the byte that stands in the buffer.
octet_at-far : (o b : ℕ) (r : List ℕ) → 4 ≤ o → octet_at o (b ∷ r) ≡ b
unfolding octet_at
octet_at-far o b r h = ground arith

pub crc_loop_step :
    (n b : ℕ) (r : List ℕ) (o c : ℕ)
    → 4 ≤ o
    → crc_loop (suc n) (b ∷ r) o c ≡ crc_loop n r (sub32 o 1) (updc32 b c)
unfolding crc_loop
crc_loop_step n b r o c h =
    ap (λ (t : ℕ). crc_loop n r (sub32 o 1) (updc32 t c)) (octet_at-far o b r h)

-- Behind the checksum the loop is the fold.
crc_loop-after :
    (d : List ℕ) (o c : ℕ)
    → length d + 4 ≤ o
    → o < 2 ^ 32
    → crc_loop (length d) d o c ≡ crc_fold updc32 d c
unfolding crc_loop crc_fold
crc_loop-after [] o c h w = refl
crc_loop-after (b ∷ r) o c h w =
    crc_loop_step (length r) b r o c (omega arith)
    ∙ crc_loop-after r (sub32 o 1) (updc32 b c) (omega arith) (omega arith)

-- The loop with the countdown at word `k` is the fold over the buffer with that word replaced.
crc_loop-crc_fold :
    (d : List ℕ) (k o c : ℕ)
    → o ≡ 4 * k + 3
    → 4 * k + 4 ≤ length d
    → length d ≤ 2 ^ 31
    → crc_loop (length d) d o c ≡ crc_fold updc32 (store32 d k (htonl 0xdeadf00d)) c
unfolding store32 crc_loop crc_fold
crc_loop-crc_fold (x ∷ y ∷ z ∷ w ∷ r) zero o c e h s =
    rw e (unfold octet_at htonl in crc_loop-after r _ _ (omega arith) (omega arith))
crc_loop-crc_fold (x ∷ y ∷ z ∷ w ∷ r) (suc k) o c e h s =
    crc_loop_step (suc (suc (suc (length r)))) x (y ∷ z ∷ w ∷ r) o c (omega arith)
    ∙ crc_loop_step (suc (suc (length r))) y (z ∷ w ∷ r) o₁ (updc32 x c) (omega arith)
    ∙ crc_loop_step (suc (length r)) z (w ∷ r) o₂ (updc32 y (updc32 x c)) (omega arith)
    ∙ crc_loop_step (length r) w r o₃ (updc32 z (updc32 y (updc32 x c))) (omega arith)
    ∙ crc_loop-crc_fold r k (sub32 o₃ 1) _ (omega arith) (omega arith) (omega arith)
  where
    o₁ : ℕ
    o₁ = sub32 o 1

    o₂ : ℕ
    o₂ = sub32 o₁ 1

    o₃ : ℕ
    o₃ = sub32 o₂ 1
crc_loop-crc_fold _ _ o c e h s = absurd (omega arith)

-- The checksum of a whole buffer of bytes, of at most 2 ^ 31, that holds the checksum word is the
-- CRC-32 register over its bytes with the checksum word read as 0xdeadf00d, in network order.
pub mfs_compute_crc-crc32 :
    (d : List ℕ) (off : ℕ)
    → AllBytes d
    → 4 * off + 4 ≤ length d
    → length d ≤ 2 ^ 31
    → mfs_compute_crc d (length d) off ≡ htonl (crc32 (store32 d off (htonl 0xdeadf00d)))
unfolding mfs_compute_crc crc32
mfs_compute_crc-crc32 d off h fits small = ap htonl (
    crc_loop-crc_fold d off _ 0 (omega arith) fits small
    ∙ crc_fold-updc32 _ 0 (store32-AllBytes d off _ h) (omega arith))

-- A store into the checksum word is not seen by the loop.
crc_loop-store32 :
    (n : ℕ) (d : List ℕ) (k o c v : ℕ)
    → o ≡ 4 * k + 3
    → o < 2 ^ 32
    → crc_loop n (store32 d k v) o c ≡ crc_loop n d o c
unfolding store32 crc_loop octet_at
crc_loop-store32 zero d k o c v e h = refl
crc_loop-store32 (suc n) (x ∷ y ∷ z ∷ w ∷ r) zero o c v e h = rw e (window n)
  where
    window :
        (m : ℕ)
        → crc_loop (suc m) (store32 (x ∷ y ∷ z ∷ w ∷ r) 0 v) 3 c
          ≡ crc_loop (suc m) (x ∷ y ∷ z ∷ w ∷ r) 3 c
    window zero = refl
    window (suc zero) = refl
    window (suc (suc zero)) = refl
    window (suc (suc (suc m))) = refl
crc_loop-store32 (suc zero) (x ∷ y ∷ z ∷ w ∷ r) (suc k) o c v e h = refl
crc_loop-store32 (suc (suc zero)) (x ∷ y ∷ z ∷ w ∷ r) (suc k) o c v e h = refl
crc_loop-store32 (suc (suc (suc zero))) (x ∷ y ∷ z ∷ w ∷ r) (suc k) o c v e h = refl
crc_loop-store32 (suc (suc (suc (suc n)))) (x ∷ y ∷ z ∷ w ∷ r) (suc k) o c v e h =
    crc_loop-store32 n r k _ _ v (omega arith) (omega arith)
crc_loop-store32 (suc n) _ k o c v e h = refl

-- In a buffer of at most 2 ^ 31 bytes that holds the checksum word, `mfs_update_crc` writes the
-- checksum that `mfs_check_crc` looks for, whatever stood there.
pub check-update :
    (d : List ℕ) (size off : ℕ)
    → 4 * off + 4 ≤ length d
    → length d ≤ 2 ^ 31
    → mfs_check_crc (mfs_update_crc d size off) size off ≡ true
unfolding mfs_check_crc mfs_update_crc mfs_compute_crc
check-update d size off fits small =
    let same =
      crc_loop-store32 size d off (add32 (mul32 off 4) 3) 0 stored (omega arith) (omega arith) in
    (==_iff _ _).1 (load32-store32_self d off stored fits (htonl-IsWord _) ∙ sym (ap htonl same))
  where
    stored : ℕ
    stored = htonl (crc_loop size d (add32 (mul32 off 4) 3) 0)
