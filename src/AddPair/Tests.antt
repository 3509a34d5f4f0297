-- ===== src/AddPair/Tests.antt =====
-- Tests of the adding of a pair of partitions, on volumes that a set has just got.
use tivo_tools.Base.{true}
use tivo_tools.AddPair.{new_header}
use tivo_tools.AddPair.Listed.{NoZero, new_header_lists}
use tivo_tools.Crc.{mfs_check_crc}
use tivo_tools.Mfs.{mfs_partition_list}
use tivo_tools.Base.{ℕ, ◌+◌, ◌*◌, ◌/◌, ◌≤◌, ◌<◌, ◌^◌, ◌≡◌, refl, arith, false, some}
use tivo_tools.AddPair.{mfs_can_add_volume_pair, mfs_add_volume_pair, check_pair, backup_sector}
use tivo_tools.AddPair.Refused.{can_add_refuses}
use tivo_tools.Mfs.{Status, opened, failed}
use tivo_tools.Sample.{machine, drive, set, loaded}
use tivo_tools.Text.{CString, codes}
use tivo_tools.Zonemap.{maps_not_loaded}

abbrev app : CString
app = codes "/dev/hda12"

abbrev media : CString
media = codes "/dev/hda13"

can_add_refuses_example :
    mfs_add_volume_pair machine drive set app media 0
    ≡ (failed, record set { err_msg = some maps_not_loaded }, drive)
unfolding mfs_can_add_volume_pair tivo_tools.AddPair.obstacle tivo_tools.Mfs.mfs_partition_list
    tivo_tools.Mfs.c_string tivo_tools.Crc.mfs_update_crc tivo_tools.Base.Memory.store32
    tivo_tools.Volume.mfsvol_is_writable tivo_tools.Volume.writable_in
    tivo_tools.Volume.mfsvol_get_volume tivo_tools.Volume.find_volume tivo_tools.Volume.holds
can_add_refuses_example = can_add_refuses machine drive set app media 0 refl

joins : (check_pair machine drive loaded app media (some 0) (some 2048) 256).0 ≡ opened
unfolding check_pair tivo_tools.Mfs.init_from tivo_tools.Volume.mfsvol_add_volume
    tivo_tools.Volume.add_real tivo_tools.Volume.mfsvol_device_translate tivo_tools.Text.starts_with
    tivo_tools.Mfs.first_volume tivo_tools.Volume.base_device tivo_tools.Volume.char_at
    tivo_tools.Volume.mfsvol_init tivo_tools.Volume.add_file tivo_tools.Text.strcspn
    tivo_tools.Text.in_set tivo_tools.Volume.add_opened tivo_tools.Volume.round_down
    tivo_tools.ReadWrite.tivo_partition_size tivo_tools.Base.Memory.htonl
    tivo_tools.Base.Memory.load32 tivo_tools.Crc.Table.crc32tab tivo_tools.Crc.crc_loop
    tivo_tools.Crc.mfs_compute_crc tivo_tools.Crc.octet_at tivo_tools.Crc.updc32
    tivo_tools.Disk.available tivo_tools.Disk.os_read tivo_tools.Disk.overlay tivo_tools.Disk.run
    tivo_tools.Disk.run_faulty tivo_tools.Mfs.add_names tivo_tools.Mfs.c_string
    tivo_tools.Mfs.compare_size tivo_tools.Mfs.load_names tivo_tools.Mfs.mfs_load_volume_header
    tivo_tools.Mfs.mfs_partition_list tivo_tools.Mfs.read_header tivo_tools.Mfs.skip_name
    tivo_tools.Mfs.status_of tivo_tools.Mfs.zeroed tivo_tools.ReadWrite.data_swab
    tivo_tools.ReadWrite.swab_rest tivo_tools.ReadWrite.swab_word
    tivo_tools.ReadWrite.tivo_partition_offset tivo_tools.ReadWrite.tivo_partition_read
    tivo_tools.ReadWrite.tivo_partition_swab tivo_tools.Text.strspn tivo_tools.Volume.find_volume
    tivo_tools.Volume.holds tivo_tools.Volume.mfsvol_get_volume tivo_tools.Volume.mfsvol_read_data
    tivo_tools.Volume.mfsvol_volume_size tivo_tools.Volume.next_start tivo_tools.Volume.read_from
    tivo_tools.Volume.size_at tivo_tools.Volume.total_sectors tivo_tools.Zonemap.link_map
    tivo_tools.Zonemap.load_loop tivo_tools.Zonemap.load_round
    tivo_tools.Zonemap.mfs_cleanup_zone_maps tivo_tools.Zonemap.mfs_load_zone_map
    tivo_tools.Zonemap.mfs_load_zone_maps tivo_tools.Zonemap.take_map tivo_tools.Crc.mfs_update_crc
    tivo_tools.Base.Memory.store32 tivo_tools.Volume.mfsvol_is_writable
    tivo_tools.Volume.writable_in tivo_tools.NewZone.map_sectors
    tivo_tools.NewZone.mfs_new_zone_map_size tivo_tools.NewZone.bitmaps_of
    tivo_tools.NewZone.order_from tivo_tools.NewZone.table_bytes tivo_tools.NewZone.table_ints
    tivo_tools.AddPair.finish_pair tivo_tools.AddPair.new_header tivo_tools.NewZone.mfs_new_zone_map
    tivo_tools.Crc.mfs_check_crc tivo_tools.AddPair.write_header tivo_tools.Volume.mfsvol_write_data
    tivo_tools.Volume.write_to tivo_tools.ReadWrite.tivo_partition_write tivo_tools.Disk.os_write
    tivo_tools.NewZone.write_twice backup_sector tivo_tools.AddPair.reopened tivo_tools.Disk.put_run
    tivo_tools.Mfs.mfs_init_internal tivo_tools.Mfs.mfs_reinit tivo_tools.NewZone.clear_words
    tivo_tools.NewZone.dead_beef tivo_tools.NewZone.fsmem_base_of tivo_tools.NewZone.last_map
    tivo_tools.NewZone.link_next tivo_tools.NewZone.mark_last tivo_tools.NewZone.put_bitmap
    tivo_tools.NewZone.put_bitmaps tivo_tools.NewZone.truncated tivo_tools.NewZone.zone_body
    tivo_tools.NewZone.zone_head tivo_tools.Volume.mfsvol_volume_set_size
joins = refl

app-NoZero : NoZero app
app-NoZero = ground arith

media-NoZero : NoZero media
media-NoZero = ground arith

new_header_lists_example :
    (mfs_partition_list (record loaded { vol_hdr = new_header loaded app media })
      ≡ codes "/dev/hda10 /dev/hda11 /dev/hda12 /dev/hda13")
    × (mfs_check_crc (new_header loaded app media) 232 2 ≡ true)
unfolding tivo_tools.AddPair.obstacle mfs_partition_list tivo_tools.Mfs.c_string
    tivo_tools.Crc.mfs_update_crc tivo_tools.Base.Memory.store32
    tivo_tools.Volume.mfsvol_is_writable tivo_tools.Volume.writable_in
    tivo_tools.Volume.mfsvol_get_volume tivo_tools.Volume.find_volume tivo_tools.Volume.holds
    tivo_tools.Base.Memory.htonl tivo_tools.Base.Memory.load32 tivo_tools.NewZone.last_map
new_header_lists_example = new_header_lists loaded app media refl app-NoZero media-NoZero refl
