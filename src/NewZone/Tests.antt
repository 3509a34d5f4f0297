-- ===== src/NewZone/Tests.antt =====
-- Tests of the sizes of new zone maps, for a zone of 100 blocks.
use tivo_tools.Base.{◌+◌, ◌*◌, ◌%◌, ◌<◌, ◌≤◌, ◌^◌, ◌≡◌, refl, ltb, true}
use tivo_tools.NewZone.{bitmaps_of, mfs_new_zone_map_size, map_sectors, mfs_volume_pair_app_size}
use tivo_tools.NewZone.Size.{app_size_enough}

sizes_100 : (bitmaps_of 100 ≡ 8) × (mfs_new_zone_map_size 100 ≡ 304) × (map_sectors 100 ≡ 1)
unfolding bitmaps_of mfs_new_zone_map_size map_sectors tivo_tools.NewZone.order_from
    tivo_tools.NewZone.table_bytes tivo_tools.NewZone.table_ints
sizes_100 = (refl, refl, refl)

app_size_enough_example :
    (map_sectors 100 * 2 + 2 ≤ mfs_volume_pair_app_size 204800 0)
    × (mfs_volume_pair_app_size 204800 0 % 1024 ≡ 0)
    × (mfs_volume_pair_app_size 204800 0 < map_sectors 100 * 2 + 2 + 1024)
app_size_enough_example = app_size_enough 204800 0

-- For more than 2 ^ 30 blocks the table of the order 31 counts as less than none.
size_wraps : ltb (mfs_new_zone_map_size (2 ^ 30 + 1)) 1000 ≡ true
unfolding mfs_new_zone_map_size bitmaps_of tivo_tools.NewZone.order_from
    tivo_tools.NewZone.table_bytes tivo_tools.NewZone.table_ints
size_wraps = refl
