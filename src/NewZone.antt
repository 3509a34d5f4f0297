-- ===== src/NewZone.antt =====
-- lib/zonemap.c of MFSTools, `mfs_new_zone_map`: the map of a new zone, and its link from the last
-- map. Sizes are those of the 32-bit host: pointers and `unsigned long` have 4 bytes. Maps
-- are of at most 2 ^ 30 blocks, where `1 << order` is not negative, and sizes of at most 2 ^ 31,
-- where the shift is defined.
pub mod Size
mod Tests
use tivo_tools.Base.{
  ℕ, zero, suc, ◌+◌, ◌-◌, ◌*◌, ◌/◌, ◌%◌, ◌^◌, List, [], ◌∷◌, ◌++◌, Bool, true, false,
}
use tivo_tools.Base.{
  ltb, leb, ◌==◌, if◌then◌else◌, Option, none, some, take, length, bit_and, get_or,
}
use tivo_tools.Base.Memory.{add32, sub32, mul32, load32, store32, htonl, field, set_field}
use tivo_tools.Disk.{Disk, Ret}
use tivo_tools.Crc.{mfs_update_crc}
use tivo_tools.Format.Zone
use tivo_tools.Volume.{VolumeHandle, mfsvol_write_data, mfs_partition_round}
use tivo_tools.Zonemap.{MfsHandle}

-- `while ((1 << order) < blocks) order++;`, where `1 << 31` compares as the unsigned 2 ^ 31: 31
-- rounds are enough for 2 ^ 31 blocks, and above that the code shifts by 32, which is not defined.
unfoldable pub order_from : ℕ → ℕ → ℕ → ℕ
order_from zero order blocks = order
order_from (suc fuel) order blocks =
    let rest = order_from fuel (suc order) blocks in if ltb (2 ^ order) blocks then rest else order

-- With the `order++` after it: the number of bitmaps.
unfoldable pub bitmaps_of : ℕ → ℕ
bitmaps_of blocks = order_from 31 0 blocks + 1

-- `int tblints = (bits + 57) / 32` for `int bits = 1 << order`, modulo 2 ^ 32: for the order 31,
-- `bits` is -2 ^ 31, and the division rounds to 0.
unfoldable pub table_ints : ℕ → ℕ
table_ints order = if ltb order 31 then (2 ^ order + 57) / 32 else 2 ^ 32 - (2 ^ 31 - 57) / 32

-- `while (order--)`: the bytes of the tables of the orders below, as `int` modulo 2 ^ 32.
unfoldable pub table_bytes : ℕ → ℕ
table_bytes zero = 0
table_bytes (suc order) = add32 (mul32 (table_ints order) 4) (table_bytes order)

-- sizeof (zone_header), in words, and sizeof (bitmap_header), in words.
abbrev pub zone_words : ℕ
zone_words = 18

abbrev pub bitmap_words : ℕ
bitmap_words = 4

unfoldable pub mfs_new_zone_map_size : ℕ → ℕ
mfs_new_zone_map_size blocks =
    add32 (zone_words * 4 + 4 + (bitmap_words * 4 + 4) * bitmaps_of blocks)
      (table_bytes (bitmaps_of blocks))

abbrev pub default_minalloc : ℕ → ℕ
default_minalloc minalloc = if minalloc == 0 then 0x800 else minalloc

-- The sectors of a map, `(mfs_new_zone_map_size (blocks) + 511) / 512`.
unfoldable pub map_sectors : ℕ → ℕ
map_sectors blocks = (mfs_new_zone_map_size blocks + 511) / 512

unfoldable pub mfs_volume_pair_app_size : ℕ → ℕ → ℕ
mfs_volume_pair_app_size blocks minalloc =
    (2 + 2 * map_sectors (blocks / default_minalloc minalloc) + mfs_partition_round - 1)
    / mfs_partition_round
    * mfs_partition_round

-- `n` words of dead beef.
unfoldable pub dead_beef : ℕ → List ℕ
dead_beef zero = []
dead_beef (suc n) = 0xde ∷ 0xad ∷ 0xbe ∷ 0xef ∷ dead_beef n

-- `memset` of `n` words to 0.
unfoldable pub clear_words : List ℕ → ℕ → ℕ → List ℕ
clear_words buf i zero = buf
clear_words buf i (suc n) = clear_words (store32 buf i 0) (i + 1) n

-- The words of `bitmap_header` of include/zonemap.h after `nbits`.
abbrev pub freeblocks : ℕ
freeblocks = 1

abbrev pub last_bit : ℕ
last_bit = 2

abbrev pub nints : ℕ
nints = 3

-- The free bit of a bitmap at word `cur`: an odd last block is in no larger block, and is marked.
unfoldable pub mark_last : List ℕ → ℕ → ℕ → List ℕ
mark_last buf cur blocks =
    if blocks % 2 == 1
    then set_field (set_field (set_field buf (cur + last_bit) (blocks - 1)) (cur + freeblocks) 1)
        (cur + bitmap_words + (blocks - 1) / 32) (2 ^ (31 - (blocks - 1) % 32))
    else store32 (store32 buf (cur + last_bit) 0) (cur + freeblocks) 0

-- A bitmap of `2 ^ order` bits at word `cur`, and its pointer.
unfoldable pub put_bitmap : List ℕ → ℕ → ℕ → ℕ → ℕ → ℕ → List ℕ
put_bitmap buf order loop cur blocks fsmem_base =
    let pointed = set_field buf (zone_words + loop) (add32 fsmem_base (4 * cur)) in
    let sized =
      set_field (set_field pointed cur (2 ^ order)) (cur + nints) ((2 ^ order + 31) / 32) in
    mark_last (clear_words sized (cur + bitmap_words) ((2 ^ order + 31) / 32)) cur blocks

-- The words from one bitmap to the next.
abbrev pub bitmap_step : ℕ → ℕ
bitmap_step order = bitmap_words + (2 ^ order + 57) / 32

-- `for (loop = 0; order-- > 0; loop++, blocks /= 2)`.
unfoldable pub put_bitmaps : ℕ → List ℕ → ℕ → ℕ → ℕ → ℕ → List ℕ
put_bitmaps zero buf loop cur blocks fsmem_base = buf
put_bitmaps (suc order) buf loop cur blocks fsmem_base =
    put_bitmaps order (put_bitmap buf order loop cur blocks fsmem_base) (loop + 1)
      (cur + bitmap_step order) (blocks / 2) fsmem_base

-- `size & ~(minalloc - 1)`.
unfoldable pub truncated : ℕ → ℕ → ℕ
truncated size minalloc = bit_and size (sub32 (2 ^ 32 - 1) (sub32 minalloc 1))

-- Where the memory of the map before ends, for the pointers.
unfoldable pub fsmem_base_of : List ℕ → ℕ
fsmem_base_of last =
    add32 (sub32 (field last zone_words) (add32 (zone_words * 4) (mul32 (field last Zone.num) 4)))
      (add32 (mul32 (field last Zone.length) 512) (512 + 8))

-- The header of a new map, over a buffer of dead beef.
unfoldable pub zone_head : ℕ → ℕ → ℕ → ℕ → ℕ → ℕ → ℕ → ℕ → List ℕ
zone_head sectors sector backup first size minalloc zone_type order =
    let b1 = set_field (dead_beef (sectors * 128)) Zone.sector sector in
    let b2 = set_field b1 Zone.sbackup backup in
    let b3 = set_field b2 Zone.length sectors in
    let b4 = store32 b3 Zone.next 0 in
    let b5 = store32 (store32 (store32 b4 (Zone.next + 2) 0) (Zone.next + 3) 0) (Zone.next + 4) 0 in
    let b6 = store32 (set_field b5 Zone.zone_type zone_type) Zone.logstamp 0 in
    let b7 = set_field (set_field b6 Zone.checksum 0xdeadf00d) Zone.first first in
    let b8 = set_field b7 Zone.last (sub32 (add32 first size) 1) in
    let b9 = set_field (set_field b8 Zone.size size) Zone.min minalloc in
    set_field (store32 (set_field b9 Zone.free size) Zone.zero_word 0) Zone.num order

-- The new map before its checksum.
unfoldable pub zone_body : List ℕ → ℕ → ℕ → ℕ → ℕ → ℕ → ℕ → List ℕ
zone_body last sector backup first size minalloc zone_type =
    let blocks = size / minalloc in
    let order = bitmaps_of blocks in
    put_bitmaps order
      (zone_head (map_sectors blocks) sector backup first (truncated size minalloc) minalloc
        zone_type order)
      0 (zone_words + order) blocks (fsmem_base_of last)

-- `last->next` becomes the pointer to the new map.
unfoldable pub link_next : List ℕ → List ℕ → List ℕ
link_next last zone =
    let l1 = store32 last Zone.next (load32 zone Zone.sector) in
    let l2 = store32 l1 (Zone.next + 1) (load32 zone Zone.sbackup) in
    let l3 = store32 l2 (Zone.next + 2) (load32 zone Zone.length) in
    store32 (store32 l3 (Zone.next + 3) (load32 zone Zone.size)) (Zone.next + 4)
      (load32 zone Zone.min)

-- `MFS_update_crc` of a whole map.
abbrev pub sealed : List ℕ → List ℕ
sealed m = mfs_update_crc m (mul32 (field m Zone.length) 512) Zone.checksum

-- A map goes to its sector and to its backup; the results of the writes are not looked at.
unfoldable pub write_twice : Disk → VolumeHandle → List ℕ → List ℕ × Disk
write_twice d vols m =
    let (_, m', d') = mfsvol_write_data d vols m (field m Zone.sector) (field m Zone.length) in
    let (_, m'', d'') =
      mfsvol_write_data d' vols m' (field m' Zone.sbackup) (field m' Zone.length) in
    (m'', d'')

-- The last loaded map, at the end of the list.
abbrev pub last_place : MfsHandle → ℕ
last_place hnd = length hnd.loaded_zones - 1

unfoldable pub last_map : MfsHandle → List ℕ
last_map hnd = get_or hnd.loaded_zones (last_place hnd) []

-- `mfs_new_zone_map`, where some map is loaded: the handle with the new end of the last map, and the
-- disk. It cannot fail once its memory is there.
unfoldable pub mfs_new_zone_map : Disk → MfsHandle → ℕ → ℕ → ℕ → ℕ → ℕ → ℕ → MfsHandle × Disk
mfs_new_zone_map d hnd sector backup first size minalloc zone_type =
    let zone = zone_body (last_map hnd) sector backup first size minalloc zone_type in
    let last = sealed (link_next (last_map hnd) zone) in
    let (_, d') = write_twice d hnd.vols (sealed zone) in
    let (last', d'') = write_twice d' hnd.vols last in
    (record hnd { loaded_zones = take (last_place hnd) hnd.loaded_zones ++ (last' ∷ []) }, d'')
