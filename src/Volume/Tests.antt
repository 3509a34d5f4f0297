-- ===== src/Volume/Tests.antt =====
-- Tests of the volumes, on a set of two.
use tivo_tools.Base.{
  ℕ, ◌+◌, ◌≤◌, List, ◌≡◌, refl, ◌∷◌, [], some, none, arith, true, inl, replicate, All-replicate,
}
use tivo_tools.Base.Memory.{IsByte}
use tivo_tools.Disk.{Disk, Errno, ret, err}
use tivo_tools.ReadWrite.{tivo_partition_size}
use tivo_tools.Sample.{machine, drive, volumes, volume_a, volume_b}
use tivo_tools.Text.{codes}
use tivo_tools.Volume.{
  VolumeInfo, VolumeHandle, rdwr, rdonly, mfsvol_add_volume, mfsvol_get_volume, mfsvol_volume_size,
}
use tivo_tools.Volume.{mfsvol_read_data, mfsvol_write_data}
use tivo_tools.Volume.Access.{Ready, read_data-write_data, write_refused, within_volume}
use tivo_tools.Volume.Layout.{Added, IsLaidOut, add_volume-Added, add_volume-IsLaidOut}
use tivo_tools.Volume.Lookup.{Located, get_volume-Located, get_volume_outside, volume_size_lem}

abbrev one : VolumeHandle
one = record volumes { volumes = volume_a ∷ [] }

abbrev read_only : VolumeHandle
read_only = record volumes { volumes = record volume_a { rdonly_volume = true } ∷ [] }

laid : IsLaidOut volumes
laid = (refl, omega arith, refl, (refl, omega arith, refl, omega arith))

laid_one : IsLaidOut one
laid_one = (refl, omega arith, refl, omega arith)

adds :
    mfsvol_add_volume machine.tivo_partition_open one (codes "/dev/hda11") rdwr
    ≡ (some 2048, volumes)
unfolding mfsvol_add_volume tivo_tools.Volume.add_real tivo_tools.Volume.mfsvol_device_translate
    tivo_tools.Text.starts_with tivo_tools.Volume.base_device tivo_tools.Volume.char_at
    tivo_tools.Volume.add_file tivo_tools.Text.strcspn tivo_tools.Text.in_set
    tivo_tools.Volume.add_opened tivo_tools.Volume.round_down tivo_partition_size
    tivo_tools.Volume.next_start
adds = refl

add_volume-Added_example : Added one (some 2048) volumes
unfolding mfsvol_add_volume tivo_tools.Volume.add_real tivo_tools.Volume.mfsvol_device_translate
    tivo_tools.Text.starts_with tivo_tools.Volume.base_device tivo_tools.Volume.char_at
    tivo_tools.Volume.add_file tivo_tools.Text.strcspn tivo_tools.Text.in_set
    tivo_tools.Volume.add_opened tivo_tools.Volume.round_down tivo_partition_size
    tivo_tools.Volume.next_start
add_volume-Added_example =
    add_volume-Added machine.tivo_partition_open one (codes "/dev/hda11") rdwr laid_one

add_volume-IsLaidOut_example : IsLaidOut volumes
unfolding mfsvol_add_volume tivo_tools.Volume.add_real tivo_tools.Volume.mfsvol_device_translate
    tivo_tools.Text.starts_with tivo_tools.Volume.base_device tivo_tools.Volume.char_at
    tivo_tools.Volume.add_file tivo_tools.Text.strcspn tivo_tools.Text.in_set
    tivo_tools.Volume.add_opened tivo_tools.Volume.round_down tivo_partition_size
    tivo_tools.Volume.next_start
add_volume-IsLaidOut_example =
    add_volume-IsLaidOut machine.tivo_partition_open one (codes "/dev/hda11") rdwr laid_one
      (omega arith)

get_volume-Located_example : Located volumes.volumes 0 2050 (some volume_b)
unfolding tivo_tools.Volume.mfsvol_volume_set_size tivo_tools.Volume.total_sectors mfsvol_get_volume
    tivo_tools.Volume.find_volume tivo_tools.Volume.holds
get_volume-Located_example = get_volume-Located volumes 2050 laid (omega arith)

get_volume_outside_example : mfsvol_get_volume volumes 3072 ≡ none
unfolding tivo_tools.Volume.mfsvol_volume_set_size tivo_tools.Volume.total_sectors
get_volume_outside_example = get_volume_outside volumes 3072 laid (omega arith)

volume_size_lem_example : mfsvol_volume_size volumes 2048 ≡ 1024
volume_size_lem_example = volume_size_lem volumes (volume_a ∷ []) [] volume_b laid refl

abbrev data_2 : List ℕ
data_2 = replicate 1024 7

-- Two sectors of the second volume, whose drive is swapped.
ready : Ready drive volumes 2050 2
unfolding mfsvol_get_volume tivo_tools.Volume.find_volume tivo_tools.Volume.holds
    tivo_partition_size tivo_tools.ReadWrite.tivo_partition_offset tivo_tools.Disk.run_faulty
ready = record {
  vol = volume_b;
  is_found = refl;
  after_start = omega arith;
  inside = omega arith;
  no_wrap = omega arith;
  covers = record {
    some_sectors = omega arith;
    inside = omega arith;
    placed = omega arith;
    end_small = omega arith;
    healthy = refl;
  };
}

read_data-write_data_example :
    let (r, b, d) = mfsvol_write_data drive volumes data_2 2050 2 in
    (r ≡ ret 1024) × (b ≡ data_2) × (mfsvol_read_data d volumes [] 2050 2 ≡ (ret 1024, data_2))
unfolding ready
read_data-write_data_example =
    read_data-write_data drive volumes 2050 2 data_2 []
      (record { ready = ready; real = refl; for_writing = refl })
      (All-replicate IsByte 1024 7 (omega arith)) refl (omega arith)

write_refused_example :
    (e : Errno) × (mfsvol_write_data drive read_only data_2 8 2 ≡ (err e, data_2, drive))
unfolding tivo_tools.Volume.mfsvol_is_writable tivo_tools.Volume.writable_in mfsvol_get_volume
    tivo_tools.Volume.find_volume tivo_tools.Volume.holds
write_refused_example = write_refused drive read_only data_2 8 2 refl

within_volume_example :
    (v : VolumeInfo) × (mfsvol_get_volume volumes 2050 ≡ some v)
    × (v.start ≤ 2050)
    × (2052 ≤ v.start + v.sectors)
unfolding tivo_tools.Volume.mfsvol_volume_set_size tivo_tools.Volume.total_sectors mfsvol_read_data
    tivo_tools.Volume.read_from mfsvol_get_volume tivo_tools.Volume.find_volume
    tivo_tools.Volume.holds tivo_tools.ReadWrite.tivo_partition_read tivo_partition_size
    tivo_tools.Disk.os_read tivo_tools.Disk.run_faulty tivo_tools.Disk.available
    tivo_tools.ReadWrite.tivo_partition_offset
within_volume_example =
    within_volume drive volumes [] 2050 2 1024 laid (omega arith) (omega arith) (inl refl)
