-- ===== src/NewZone/Size.antt =====
-- The size of a new zone map of lib/zonemap.c: its bitmaps fit, and two copies of it fit into the
-- application partition that is asked for.
use tivo_tools.Base.{ℕ, zero, suc, ◌+◌, ◌*◌, ◌/◌, ◌%◌, ◌^◌, ◌≤◌, ◌<◌, ◌≡◌, arith}
use tivo_tools.Volume.{mfs_partition_round}
use tivo_tools.NewZone.{bitmaps_of, zone_words, bitmap_words, map_sectors}
use tivo_tools.NewZone.{mfs_volume_pair_app_size, default_minalloc, bitmap_step}

-- The word at which bitmap `j` of `n` begins, where the first begins at word `cur`.
unfoldable pub bitmap_start : ℕ → ℕ → ℕ → ℕ
bitmap_start n cur zero = cur
bitmap_start zero cur (suc j) = cur
bitmap_start (suc order) cur (suc j) = bitmap_start order (cur + bitmap_step order) j

-- The words of a bitmap of `2 ^ order` bits, with its header.
abbrev pub bitmap_length : ℕ → ℕ
bitmap_length order = bitmap_words + (2 ^ order + 31) / 32

-- The bytes of the tables of the orders below, with no wrap-around.
tables_below : ℕ → ℕ
tables_below zero = 0
tables_below (suc order) = (2 ^ order + 57) / 32 * 4 + tables_below order

-- The word at which bitmap `j` of a map for some blocks begins: behind the header and the pointers.
abbrev pub start_in_map : ℕ → ℕ → ℕ
start_in_map blocks = bitmap_start (bitmaps_of blocks) (zone_words + bitmaps_of blocks)

-- An application partition of the size that `mfs_volume_pair_app_size` gives has room for the two
-- copies of the zone map and two more sectors, which is what `mfs_add_volume_pair` asks for. It is
-- whole 1024 sectors, as a volume is, and no such smaller size would do.
pub app_size_enough :
    (blocks minalloc : ℕ)
    → (map_sectors (blocks / default_minalloc minalloc) * 2 + 2
        ≤ mfs_volume_pair_app_size blocks minalloc)
      × (mfs_volume_pair_app_size blocks minalloc % mfs_partition_round ≡ 0)
      × (mfs_volume_pair_app_size blocks minalloc
          < map_sectors (blocks / default_minalloc minalloc) * 2 + 2 + mfs_partition_round)
unfolding mfs_volume_pair_app_size
app_size_enough blocks minalloc = (omega arith, omega arith, omega arith)
