-- ===== src/Mfs/Tests.antt =====
-- Tests of the opening of a volume set: two volumes, one zone map.
use tivo_tools.Base.{ℕ, ◌<◌, ◌^◌, List, ◌≡◌, refl, ap, ◌∷◌, [], some, none, length, arith}
use tivo_tools.Crc.{mfs_check_crc}
use tivo_tools.Mfs.{Status, opened, mfs_init_internal, mfs_init}
use tivo_tools.Mfs.Opened.{IsChecked, init_internal_opened, init_internal-IsLaidOut}
use tivo_tools.Text.{codes}
use tivo_tools.Volume.{rdwr, VolumeHandle, mfsvol_volume_set_size}
use tivo_tools.Volume.Layout.{IsLaidOut, sum_sectors}
use tivo_tools.Sample.{machine, drive, inode_map, volumes}
use tivo_tools.Zonemap.{MfsHandle}
use tivo_tools.Zonemap.Loaded.{IsLinked}

abbrev set : MfsHandle
set = mfs_init machine drive (some (codes "/dev/hda")) none rdwr

opens_set : mfs_init_internal machine drive (some (codes "/dev/hda")) none rdwr ≡ (opened, set)
unfolding mfs_init mfs_init_internal tivo_tools.Mfs.init_from tivo_tools.Volume.mfsvol_add_volume
    tivo_tools.Volume.add_real tivo_tools.Volume.mfsvol_device_translate tivo_tools.Text.starts_with
    tivo_tools.Mfs.first_volume tivo_tools.Volume.base_device tivo_tools.Volume.char_at
    tivo_tools.Volume.mfsvol_init tivo_tools.Volume.add_file tivo_tools.Text.strcspn
    tivo_tools.Text.in_set tivo_tools.Volume.add_opened tivo_tools.Volume.round_down
    tivo_tools.ReadWrite.tivo_partition_size tivo_tools.Mfs.mfs_load_volume_header
    tivo_tools.Base.Memory.htonl tivo_tools.Base.Memory.load32 tivo_tools.Crc.Table.crc32tab
    tivo_tools.Crc.crc_loop mfs_check_crc tivo_tools.Crc.mfs_compute_crc tivo_tools.Crc.octet_at
    tivo_tools.Crc.updc32 tivo_tools.Disk.available tivo_tools.Disk.os_read tivo_tools.Disk.overlay
    tivo_tools.Disk.run tivo_tools.Disk.run_faulty tivo_tools.Mfs.add_names tivo_tools.Mfs.c_string
    tivo_tools.Mfs.compare_size tivo_tools.Mfs.load_names tivo_tools.Mfs.mfs_partition_list
    tivo_tools.Mfs.read_header tivo_tools.Mfs.skip_name tivo_tools.Mfs.status_of
    tivo_tools.Mfs.zeroed tivo_tools.ReadWrite.data_swab tivo_tools.ReadWrite.swab_rest
    tivo_tools.ReadWrite.swab_word tivo_tools.ReadWrite.tivo_partition_offset
    tivo_tools.ReadWrite.tivo_partition_read tivo_tools.ReadWrite.tivo_partition_swab
    tivo_tools.Text.strspn tivo_tools.Volume.find_volume tivo_tools.Volume.holds
    tivo_tools.Volume.mfsvol_get_volume tivo_tools.Volume.mfsvol_read_data mfsvol_volume_set_size
    tivo_tools.Volume.mfsvol_volume_size tivo_tools.Volume.next_start tivo_tools.Volume.read_from
    tivo_tools.Volume.size_at tivo_tools.Volume.total_sectors tivo_tools.Zonemap.link_map
    tivo_tools.Zonemap.load_loop tivo_tools.Zonemap.load_round
    tivo_tools.Zonemap.mfs_cleanup_zone_maps tivo_tools.Zonemap.mfs_load_zone_map
    tivo_tools.Zonemap.mfs_load_zone_maps tivo_tools.Zonemap.take_map tivo_tools.Crc.mfs_update_crc
    tivo_tools.Base.Memory.store32
opens_set = ap (λ (s : Status). (s, set)) refl

set_volumes : set.vols.volumes ≡ volumes.volumes
unfolding mfs_init mfs_init_internal tivo_tools.Mfs.init_from tivo_tools.Volume.mfsvol_add_volume
    tivo_tools.Volume.add_real tivo_tools.Volume.mfsvol_device_translate tivo_tools.Text.starts_with
    tivo_tools.Mfs.first_volume tivo_tools.Volume.base_device tivo_tools.Volume.char_at
    tivo_tools.Volume.mfsvol_init tivo_tools.Volume.add_file tivo_tools.Text.strcspn
    tivo_tools.Text.in_set tivo_tools.Volume.add_opened tivo_tools.Volume.round_down
    tivo_tools.ReadWrite.tivo_partition_size tivo_tools.Base.Memory.htonl
    tivo_tools.Base.Memory.load32 tivo_tools.Crc.Table.crc32tab tivo_tools.Crc.crc_loop
    mfs_check_crc tivo_tools.Crc.mfs_compute_crc tivo_tools.Crc.octet_at tivo_tools.Crc.updc32
    tivo_tools.Disk.available tivo_tools.Disk.os_read tivo_tools.Disk.overlay tivo_tools.Disk.run
    tivo_tools.Disk.run_faulty tivo_tools.Mfs.add_names tivo_tools.Mfs.c_string
    tivo_tools.Mfs.compare_size tivo_tools.Mfs.load_names tivo_tools.Mfs.mfs_load_volume_header
    tivo_tools.Mfs.mfs_partition_list tivo_tools.Mfs.read_header tivo_tools.Mfs.skip_name
    tivo_tools.Mfs.status_of tivo_tools.Mfs.zeroed tivo_tools.ReadWrite.data_swab
    tivo_tools.ReadWrite.swab_rest tivo_tools.ReadWrite.swab_word
    tivo_tools.ReadWrite.tivo_partition_offset tivo_tools.ReadWrite.tivo_partition_read
    tivo_tools.ReadWrite.tivo_partition_swab tivo_tools.Text.strspn tivo_tools.Volume.find_volume
    tivo_tools.Volume.holds tivo_tools.Volume.mfsvol_get_volume tivo_tools.Volume.mfsvol_read_data
    mfsvol_volume_set_size tivo_tools.Volume.mfsvol_volume_size tivo_tools.Volume.next_start
    tivo_tools.Volume.read_from tivo_tools.Volume.size_at tivo_tools.Volume.total_sectors
    tivo_tools.Zonemap.link_map tivo_tools.Zonemap.load_loop tivo_tools.Zonemap.load_round
    tivo_tools.Zonemap.mfs_cleanup_zone_maps tivo_tools.Zonemap.mfs_load_zone_map
    tivo_tools.Zonemap.mfs_load_zone_maps tivo_tools.Zonemap.take_map tivo_tools.Crc.mfs_update_crc
    tivo_tools.Base.Memory.store32
set_volumes = refl

set_maps : set.loaded_zones ≡ inode_map ∷ []
unfolding mfs_init mfs_init_internal tivo_tools.Mfs.init_from tivo_tools.Volume.mfsvol_add_volume
    tivo_tools.Volume.add_real tivo_tools.Volume.mfsvol_device_translate tivo_tools.Text.starts_with
    tivo_tools.Mfs.first_volume tivo_tools.Volume.base_device tivo_tools.Volume.char_at
    tivo_tools.Volume.mfsvol_init tivo_tools.Volume.add_file tivo_tools.Text.strcspn
    tivo_tools.Text.in_set tivo_tools.Volume.add_opened tivo_tools.Volume.round_down
    tivo_tools.ReadWrite.tivo_partition_size tivo_tools.Base.Memory.htonl
    tivo_tools.Base.Memory.load32 tivo_tools.Crc.Table.crc32tab tivo_tools.Crc.crc_loop
    mfs_check_crc tivo_tools.Crc.mfs_compute_crc tivo_tools.Crc.octet_at tivo_tools.Crc.updc32
    tivo_tools.Disk.available tivo_tools.Disk.os_read tivo_tools.Disk.overlay tivo_tools.Disk.run
    tivo_tools.Disk.run_faulty tivo_tools.Mfs.add_names tivo_tools.Mfs.c_string
    tivo_tools.Mfs.compare_size tivo_tools.Mfs.load_names tivo_tools.Mfs.mfs_load_volume_header
    tivo_tools.Mfs.mfs_partition_list tivo_tools.Mfs.read_header tivo_tools.Mfs.skip_name
    tivo_tools.Mfs.status_of tivo_tools.Mfs.zeroed tivo_tools.ReadWrite.data_swab
    tivo_tools.ReadWrite.swab_rest tivo_tools.ReadWrite.swab_word
    tivo_tools.ReadWrite.tivo_partition_offset tivo_tools.ReadWrite.tivo_partition_read
    tivo_tools.ReadWrite.tivo_partition_swab tivo_tools.Text.strspn tivo_tools.Volume.find_volume
    tivo_tools.Volume.holds tivo_tools.Volume.mfsvol_get_volume tivo_tools.Volume.mfsvol_read_data
    mfsvol_volume_set_size tivo_tools.Volume.mfsvol_volume_size tivo_tools.Volume.next_start
    tivo_tools.Volume.read_from tivo_tools.Volume.size_at tivo_tools.Volume.total_sectors
    tivo_tools.Zonemap.link_map tivo_tools.Zonemap.load_loop tivo_tools.Zonemap.load_round
    tivo_tools.Zonemap.mfs_cleanup_zone_maps tivo_tools.Zonemap.mfs_load_zone_map
    tivo_tools.Zonemap.mfs_load_zone_maps tivo_tools.Zonemap.take_map tivo_tools.Crc.mfs_update_crc
    tivo_tools.Base.Memory.store32
set_maps = refl

init_internal_opened_example :
    IsChecked set
    × IsLinked set
    × (0 < mfsvol_volume_set_size set.vols)
    × (mfsvol_volume_set_size set.vols < 2 ^ 31)
init_internal_opened_example =
    init_internal_opened machine drive (some (codes "/dev/hda")) none rdwr set opens_set

init_internal-IsLaidOut_example : IsLaidOut set.vols
init_internal-IsLaidOut_example =
    init_internal-IsLaidOut machine drive (some (codes "/dev/hda")) none rdwr set opens_set
      (omega (arith, ap sum_sectors set_volumes))
