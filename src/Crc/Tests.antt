-- ===== src/Crc/Tests.antt =====
-- Tests of the checksum, on a buffer of four words whose second word is the checksum.
use tivo_tools.Base.{ℕ, List, [], ◌∷◌, ◌++◌, ◌≡◌, refl, arith, true, false, length}
use tivo_tools.Base.Memory.{AllBytes, htonl, store32}
use tivo_tools.Crc.{mfs_compute_crc, mfs_check_crc, mfs_update_crc}
use tivo_tools.Crc.Check.{crc32, mfs_compute_crc-crc32, check-update}
use tivo_tools.Crc.Detect.{check_crc_detects}

abbrev data_4 : List ℕ
data_4 = 1 ∷ 2 ∷ 3 ∷ 4 ∷ 0 ∷ 0 ∷ 0 ∷ 0 ∷ 5 ∷ 6 ∷ 7 ∷ 8 ∷ 9 ∷ 10 ∷ 11 ∷ 255 ∷ []

-- The bytes in front of the last one, with the checksum.
abbrev front : List ℕ
front = 1 ∷ 2 ∷ 3 ∷ 4 ∷ 108 ∷ 125 ∷ 169 ∷ 3 ∷ 5 ∷ 6 ∷ 7 ∷ 8 ∷ 9 ∷ 10 ∷ 11 ∷ []

data_4-AllBytes : AllBytes data_4
data_4-AllBytes = ground arith

mfs_compute_crc-crc32_example :
    mfs_compute_crc data_4 16 1 ≡ htonl (crc32 (store32 data_4 1 (htonl 0xdeadf00d)))
mfs_compute_crc-crc32_example =
    mfs_compute_crc-crc32 data_4 1 data_4-AllBytes (omega arith) (omega arith)

check-update_example : mfs_check_crc (mfs_update_crc data_4 16 1) 16 1 ≡ true
check-update_example = check-update data_4 16 1 (omega arith) (omega arith)

data_4_summed :
    mfs_update_crc data_4 16 1
    ≡ 1 ∷ 2 ∷ 3 ∷ 4 ∷ 108 ∷ 125 ∷ 169 ∷ 3 ∷ 5 ∷ 6 ∷ 7 ∷ 8 ∷ 9 ∷ 10 ∷ 11 ∷ 255 ∷ []
unfolding mfs_update_crc store32 mfs_compute_crc htonl tivo_tools.Crc.crc_loop tivo_tools.Crc.updc32
    tivo_tools.Crc.Table.crc32tab tivo_tools.Crc.octet_at
data_4_summed = refl

front_good : mfs_check_crc (front ++ (255 ∷ [])) 16 1 ≡ true
unfolding mfs_check_crc tivo_tools.Base.Memory.load32 mfs_compute_crc htonl tivo_tools.Crc.crc_loop
    tivo_tools.Crc.updc32 tivo_tools.Crc.Table.crc32tab tivo_tools.Crc.octet_at
front_good = refl

check_crc_detects_example : mfs_check_crc (front ++ (254 ∷ [])) 16 1 ≡ false
check_crc_detects_example =
    check_crc_detects front [] 255 254 16 1 (λ e. absurd (omega (arith, e))) (omega arith)
      (omega arith) (omega arith) (omega arith) (ground arith) (omega arith) front_good
