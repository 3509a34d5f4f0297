-- ===== src/Crc.antt =====
-- lib/crc.c of MFSTools: the checksum of volume headers, zone maps, inodes and log sectors.
pub mod Table
pub mod Bitwise
pub mod Check
pub mod Detect
mod Tests
use tivo_tools.Base.{ℕ, zero, suc, ◌+◌, ◌-◌, ◌*◌, ◌/◌, ◌%◌, ◌^◌, bit_and, bit_xor}
use tivo_tools.Base.{List, [], ◌∷◌, Bool, ltb, ◌==◌, if◌then◌else◌, get_or}
use tivo_tools.Base.Memory.{add32, sub32, mul32, load32, store32, htonl}
use Table.{crc32tab}

-- `UPDC32 (octet, crc)`.
unfoldable pub updc32 : ℕ → ℕ → ℕ
updc32 octet crc =
    bit_xor (get_or crc32tab (bit_and (bit_xor crc octet) 0xff) 0) (bit_and (crc / 256) 0x00ffffff)

-- The bytes that stand in for the checksum while it is computed.
abbrev pub deadfood : List ℕ
deadfood = 0xde ∷ 0xad ∷ 0xf0 ∷ 0x0d ∷ []

-- `*data`; a read past the end of the buffer gives 0.
abbrev pub first_byte : List ℕ → ℕ
first_byte [] = 0
first_byte (b ∷ _) = b

abbrev pub next_bytes : List ℕ → List ℕ
next_bytes [] = []
next_bytes (_ ∷ r) = r

-- The byte that a round of the loop takes, at the countdown `off`.
unfoldable pub octet_at : ℕ → List ℕ → ℕ
octet_at off bytes = if ltb off 4 then get_or deadfood (3 - off) 0 else first_byte bytes

-- `while (size)`: `off` counts down, and wraps once the checksum is passed.
unfoldable pub crc_loop : ℕ → List ℕ → ℕ → ℕ → ℕ
crc_loop zero bytes off crc = crc
crc_loop (suc size) bytes off crc =
    crc_loop size (next_bytes bytes) (sub32 off 1) (updc32 (octet_at off bytes) crc)

unfoldable pub mfs_compute_crc : List ℕ → ℕ → ℕ → ℕ
mfs_compute_crc bytes size off = htonl (crc_loop size bytes (add32 (mul32 off 4) 3) 0)

unfoldable pub mfs_check_crc : List ℕ → ℕ → ℕ → Bool
mfs_check_crc bytes size off = load32 bytes off == mfs_compute_crc bytes size off

unfoldable pub mfs_update_crc : List ℕ → ℕ → ℕ → List ℕ
mfs_update_crc bytes size off = store32 bytes off (mfs_compute_crc bytes size off)
