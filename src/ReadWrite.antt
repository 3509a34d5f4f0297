-- ===== src/ReadWrite.antt =====
-- lib/readwrite.c of MFSTools, with the accessors of include/macpart.h and lib/macpart.c that it
-- calls: reading and writing whole sectors of a partition, byte-swapped where the drive is.
-- The branches that the TiVo's own kernel compiles in (`#ifdef TIVO`) are left out.
pub mod Swab
pub mod Transfer
pub mod Pair
mod Tests
use tivo_tools.Base.{ℕ, zero, suc, ◌+◌, ◌-◌, ◌*◌, ◌/◌, ◌%◌, ◌^◌, bit_and, bit_or}
use tivo_tools.Base.{List, [], ◌∷◌, Bool, true, false, ◌&&◌, ◌||◌, ltb, ◌==◌, if◌then◌else◌}
use tivo_tools.Base.Memory.{add32, word}
use tivo_tools.Disk.{Disk, Ret, err, ret, eio, os_read, os_write}

-- `tptype` of `tpFILE`.
pub data TpType : Type 0 where
  unknown file device direct_file direct : TpType

-- `tpFILE`: the size of a file that the kernel opened, or the partition of a table that was read
-- directly (`extra.direct`), with the table's VOL_SWAB flag.
pub record TpFile : Type 0 where
  pub tptype : TpType
  pub fd : ℕ
  pub kernel_sectors : ℕ
  pub part_start : ℕ
  pub part_sectors : ℕ
  pub swabbed : Bool

abbrev pub is_direct : TpType → Bool
is_direct direct = true
is_direct direct_file = true
is_direct _ = false

abbrev size_by : TpType → ℕ → ℕ → ℕ
size_by file k p = k
size_by device k p = k
size_by direct k p = p
size_by direct_file k p = p
size_by unknown k p = 0

unfoldable pub tivo_partition_size : TpFile → ℕ
tivo_partition_size f = size_by f.tptype f.kernel_sectors f.part_sectors

unfoldable pub tivo_partition_offset : TpFile → ℕ
tivo_partition_offset f = if is_direct f.tptype then f.part_start else 0

unfoldable pub tivo_partition_swab : TpFile → Bool
tivo_partition_swab f = is_direct f.tptype && f.swabbed

-- `((x << 8) & 0xff00ff00) | ((x & 0xff00ff00) >> 8)` on an `unsigned int`.
unfoldable pub swab_word : ℕ → ℕ
swab_word x = bit_or (bit_and (x * 256 % 2 ^ 32) 0xff00ff00) (bit_and x 0xff00ff00 / 256)

-- `*idata = w`, in front of the bytes behind it.
abbrev pub store_front : ℕ → List ℕ → List ℕ
store_front w r = (w % 256) ∷ (w / 256 % 256) ∷ (w / 65536 % 256) ∷ (w / 16777216 % 256) ∷ r

-- The two bytes that may be left over: swapped if both are inside `size`.
unfoldable pub swab_rest : List ℕ → ℕ → List ℕ
swab_rest (a ∷ b ∷ r) size = if ltb 1 size then b ∷ a ∷ r else a ∷ b ∷ r
swab_rest xs size = xs

-- `data_swab`: a word at a time while `size > 3`. (A `size` past the end of the buffer is not
-- followed.)
unfoldable pub data_swab : List ℕ → ℕ → List ℕ
data_swab (a ∷ b ∷ c ∷ d ∷ r) size =
    let rest = data_swab r (size - 4) in
    if ltb 3 size
    then store_front (swab_word (word a b c d)) rest
    else swab_rest (a ∷ b ∷ c ∷ d ∷ r) size
data_swab xs size = swab_rest xs size

-- The result and the buffer. A transfer that would leave the partition is refused.
unfoldable pub tivo_partition_read : Disk → TpFile → List ℕ → ℕ → ℕ → Ret × List ℕ
tivo_partition_read d f buf sector count =
    if ltb (tivo_partition_size f) (add32 sector count)
    then (err eio, buf)
    else if count == 0
    then (ret 0, buf)
    else let (r, b) = os_read d f.fd buf (add32 sector (tivo_partition_offset f)) count in
      (r, if tivo_partition_swab f then data_swab b (count * 512) else b)

-- The result, the caller's buffer (swapped for the write and swapped back) and the disk.
unfoldable pub tivo_partition_write : Disk → TpFile → List ℕ → ℕ → ℕ → Ret × List ℕ × Disk
tivo_partition_write d f buf sector count =
    if ltb (tivo_partition_size f) (add32 sector count)
    then (err eio, buf, d)
    else if count == 0
    then (ret 0, buf, d)
    else let swapped = if tivo_partition_swab f then data_swab buf (count * 512) else buf in
      let (r, d') = os_write d f.fd swapped (add32 sector (tivo_partition_offset f)) count in
      (r, if tivo_partition_swab f then data_swab swapped (count * 512) else swapped, d')
