-- ===== src/Backup/Partitions.antt =====
-- The partitions of a backup, of backup/backup.c: the boot partitions and /var, the partitions of
-- the volume set, and the beginning of a backup.
use tivo_tools.Base.{ℕ, zero, suc, ◌+◌, ◌-◌, ◌*◌, ◌%◌, ◌^◌, List, [], ◌∷◌}
use tivo_tools.Base.{
  Bool, true, false, ◌&&◌, ◌||◌, not, ltb, leb, ◌==◌, if◌then◌else◌, Option, none, some, length,
  get_or, drop,
}
use tivo_tools.Base.Memory.{add32, sub32}
use tivo_tools.Text.{CString, codes, starts_with}
use tivo_tools.ReadWrite.{TpFile}
use tivo_tools.Volume.{mfsvol_volume_size}
use tivo_tools.Mfs.{mfs_partition_list}
use tivo_tools.Backup.Blocks.{Block, BackupBlock, copied, sum_blocks}
use tivo_tools.Backup.Info.{
  BackupInfo, BackupPartition, BackupError, bad_partition_name, empty_mfs_partition,
}

-- The partition table of the source drive.
pub record Source : Type 0 where
  pub tivo_partition_count : CString → ℕ
  pub tivo_partition_read_bootsector : CString → Option (List ℕ)
  pub tivo_partition_open_direct : CString → ℕ → Option TpFile
  pub tivo_partition_swabbed : CString → Bool

-- The results 0 (`true`) and -1 of a function, with the structure; `none` is a read through a null
-- pointer.
abbrev pub Outcome : Type 0
Outcome = Option (Bool × BackupInfo)

unfoldable pub copy_blocks : BackupInfo → Option (List BackupBlock) → Option BackupInfo
copy_blocks info none = none
copy_blocks info (some bs) =
    some (record info { blocks = bs; nsectors = info.nsectors + sum_blocks bs })

-- `nblocks` is the length of `blocks`. The null pointer is the empty list.
unfoldable pub add_blocks_to_backup_info : BackupInfo → List Block → Option BackupInfo
add_blocks_to_backup_info info blocks = copy_blocks info (copied blocks)

abbrev pub is_space : ℕ → Bool
is_space c = c == 32 || (leb 9 c && leb c 13)

unfoldable pub skip_spaces : CString → CString
skip_spaces [] = []
skip_spaces (c ∷ s) = let rest = skip_spaces s in if is_space c then rest else c ∷ s

unfoldable pub skip_word : CString → CString
skip_word [] = []
skip_word (c ∷ s) = let rest = skip_word s in if is_space c then c ∷ s else rest

-- The number of names in the list; the fuel is the length of the text.
unfoldable pub count_names : ℕ → CString → ℕ
count_names fuel [] = 0
count_names zero (c ∷ s) = 0
count_names (suc fuel) (c ∷ s) = suc (count_names fuel (skip_spaces (skip_word (c ∷ s))))

abbrev pub is_digit : ℕ → Bool
is_digit c = leb 48 c && leb c 57

-- The digits of `strtoul` with base 10, with the value before them.
unfoldable pub digits : ℕ → CString → ℕ × CString
digits n [] = (n, [])
digits n (c ∷ s) =
    let more = digits (n * 10 + (c - 48)) s in if is_digit c then more else (n, c ∷ s)

abbrev pub clamp : ℕ → ℕ
clamp n = if ltb n (2 ^ 32) then n else 2 ^ 32 - 1

-- `strtoul (s, &end, 10)` with a 32-bit `unsigned long`, and the text at `end`.
unfoldable pub strtoul_signed : CString → CString → ℕ × CString
strtoul_signed whole [] = (0, whole)
strtoul_signed whole (c ∷ s) =
    let signed = c == b'-' || c == b'+' in
    let number = if signed then s else c ∷ s in
    let (n, end) = digits 0 number in
    if is_digit (get_or number 0 0)
    then (if c == b'-' then sub32 0 (clamp n) else clamp n, end)
    else (0, whole)

unfoldable pub strtoul : CString → ℕ × CString
strtoul s = strtoul_signed s (skip_spaces s)

abbrev pub fail : BackupInfo → BackupError → Bool × BackupInfo
fail info e = (false, record info { mfsparts = []; nmfs = 0; err_msg = some e })

-- One name of the list of partitions: the partition, or the error, and the text after the number.
pub data Named : Type 0 where
  named : BackupPartition → CString → Named
  refused : BackupError → Named

unfoldable pub name_number : BackupInfo → ℕ → ℕ → ℕ × CString → Named
name_number info cursector devno (n, rest) =
    let size = mfsvol_volume_size info.mfs.vols cursector in
    if not (get_or rest 0 0 == 0) && not (is_space (get_or rest 0 0))
    then refused (bad_partition_name rest)
    else if size == 0
    then refused (empty_mfs_partition rest)
    else named (record { sectors = size; partno = n % 256; devno = devno }) (skip_spaces rest)

unfoldable pub read_name : BackupInfo → ℕ → CString → Named
read_name info cursector s =
    let letter = get_or s 7 0 in
    if not (starts_with s (codes "/dev/hd"))
    then refused (bad_partition_name s)
    else if letter == b'a'
    then name_number info cursector 0 (strtoul (drop 8 s))
    else if letter == b'b'
    then name_number info cursector 1 (strtoul (drop 8 s))
    else refused (bad_partition_name s)

abbrev pub with_partition :
    BackupPartition
    → List BackupPartition × Option BackupError
    → List BackupPartition × Option BackupError
with_partition p (ps, e) = (p ∷ ps, e)

-- The second loop of `add_mfs_partitions_to_backup_info`.
unfoldable pub names_loop : ℕ → BackupInfo → ℕ → CString → List BackupPartition × Option BackupError
names_loop zero info cursector s = ([], none)
names_loop (suc n) info cursector s = elim (read_name info cursector s) [
  | refused e ↦ ([], some e)
  | named p rest ↦ with_partition p (names_loop n info (add32 cursector p.sectors) rest)
]

unfoldable pub finish_names :
    BackupInfo → List BackupPartition × Option BackupError → Bool × BackupInfo
finish_names info (ps, none) = (true, record info { mfsparts = ps })
finish_names info (ps, some e) = fail info e

unfoldable pub add_mfs_partitions_to_backup_info : BackupInfo → Bool × BackupInfo
add_mfs_partitions_to_backup_info info =
    let names = mfs_partition_list info.mfs in
    let counted = if info.nmfs == 0 then count_names (length names) names else info.nmfs in
    let info' = record info { nmfs = counted } in
    finish_names info' (names_loop counted info' 0 names)
