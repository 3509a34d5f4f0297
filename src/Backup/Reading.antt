-- ===== src/Backup/Reading.antt =====
-- `backup_next_sectors` of backup/backup.c against the sequence of all sectors of a backup.
use tivo_tools.Base.{
  ℕ, zero, suc, ◌+◌, ◌-◌, ◌*◌, ◌/◌, ◌≤◌, ◌<◌, ◌≡◌, refl, sym, ◌∙◌, ap, ap₂, arith,
}
use tivo_tools.Base.{List, [], ◌∷◌, ◌++◌, true, false, ltb, leb, ◌==◌}
use tivo_tools.Base.{
  Option, some, length, take, drop, min, length-drop, append-nil, take_front, take-append-drop,
  length-append, drop-drop,
}
use tivo_tools.Disk.{Disk}
use tivo_tools.Backup.Info.{BackupInfo, has_flag, bf_compressed}
use tivo_tools.Backup.Partitions.{Source}
use tivo_tools.Backup.Stream.{
  Copied, segments_loop, segments_of, copy_data, to_next, rounds, Next, next_sectors,
  backup_next_sectors, after_copy, part_segment, part_file, block_segment, main_loop, Output,
  write_next, with_written, backup_read,
}
use tivo_tools.Backup.Sectors.{
  flat, flat_append, drop-AreSectors, joined-AreSectors, length-flat-take, AreSectors, AllHold,
  joined, CopiesAs, copies, segments_loop-CopiesAs, after_copy-CopiesAs,
}

-- The data of a backup: the boot sector, and the sectors of the partitions and of the blocks.
pub record Data (source : Source) (d : Disk) (info : BackupInfo) : Type 0 where
  pub boot : List ℕ
  pub boot_size : length boot ≡ 512
  pub boot_read : source.tivo_partition_read_bootsector info.hda ≡ some boot
  pub wholes : List (List (List ℕ))
  pub held : AllHold (segments_of source d info) wholes

abbrev pub all_data :
    {source : Source} {d : Disk} {info : BackupInfo} → Data source d info → List (List ℕ)
all_data x = x.boot ∷ joined x.wholes

-- A call that gives as many of `n` sectors as are left, in their order.
abbrev pub given : BackupInfo → List (List ℕ) → ℕ → List ℕ → Next
given info left n buf =
    let t = min (length left) n in
    next_sectors t (record info { cursector = info.cursector + t })
      (flat (take t left) ++ drop (t * 512) buf)

as_given :
    (info : BackupInfo) (left : List (List ℕ)) (n : ℕ) (buf : List ℕ) (result : Copied)
    → CopiesAs left n buf result
    → to_next info result ≡ given info left n buf
unfolding to_next
as_given info left n buf _ (copies cursector sectors t buf' c e out) =
    rw (← e) (ap (next_sectors t (record info { cursector = info.cursector + t })) out)

module _ (source : Source) (d : Disk) where
  copy_data-CopiesAs :
      (info : BackupInfo) (x : Data source d info) (c n : ℕ) (buf : List ℕ)
      → 0 < n
      → n * 512 ≤ length buf
      → CopiesAs (drop c (all_data x)) n buf (copy_data source d info c n buf)
  unfolding copy_data
  copy_data-CopiesAs info x zero n buf asked room = rw x.boot_read (rw (append-nil x.boot) at first)
    where
      rest : Copied
      rest = segments_loop (segments_of source d info) 0 (n - 1) (drop 512 buf)

      first : CopiesAs (all_data x) n buf (after_copy 1 (x.boot ++ []) rest)
      first = after_copy-CopiesAs (x.boot ∷ []) (joined x.wholes) n 1 buf rest (omega arith) (
          segments_loop-CopiesAs _ _ 0 (n - 1) (drop 512 buf) x.held
            (omega (arith, length-drop 512 buf)))
  copy_data-CopiesAs info x (suc c) n buf asked room =
      rw (later, less) (segments_loop-CopiesAs _ _ c n buf x.held room)
    where
      later : (suc c == 0) ≡ false
      later = ground arith

      less : suc c - 1 ≡ c
      less = omega arith

  -- A round in the data, with fuel for it.
  pub rounds_in_data :
      (fuel : ℕ) (info : BackupInfo) (x : Data source d info) (c n : ℕ) (buf : List ℕ)
      → info.presector + c ≡ info.cursector
      → n ≤ fuel
      → n * 512 ≤ length buf
      → rounds source d fuel info n buf ≡ given info (drop c (all_data x)) n buf
  unfolding rounds
  rounds_in_data (suc fuel) info x c (suc n) buf at enough room =
      rw (in_data, here)
        (as_given info _ (suc n) buf _ (copy_data-CopiesAs info x c (suc n) buf (omega arith) room))
    where
      in_data : leb info.presector info.cursector ≡ true
      in_data = ground arith

      here : info.cursector - info.presector ≡ c
      here = omega arith
  rounds_in_data zero info x c (suc n) buf at enough room = absurd (omega arith)
  rounds_in_data fuel info x c zero buf at enough room =
      let (none_copied, stays) = at_end in rw (none_copied, stays) refl
    where
      at_end : (min (length (drop c (all_data x))) 0 ≡ 0) × (info.cursector + 0 ≡ info.cursector)
      at_end = (omega arith, omega arith)

  -- A call in the data of a backup gives the next sectors of it, as many as fit and are left, and
  -- moves `cursector` on by their number: where `c` sectors of the data have been given before, the
  -- boot sector can be read, each partition and block holds its sectors and any run of them can be
  -- read, and the buffer has room for the sectors that are asked for.
  pub next_sectors_lem :
      (info : BackupInfo) (x : Data source d info) (c n : ℕ) (buf : List ℕ)
      → info.presector + c ≡ info.cursector
      → n * 512 ≤ length buf
      → backup_next_sectors source d info n buf ≡ given info (drop c (all_data x)) n buf
  unfolding backup_next_sectors
  next_sectors_lem info x c n buf at room = rounds_in_data n info x c n buf at (omega arith) room

-- Whether a run of sectors can be read does not depend on how far a backup has come.
unfoldable pub moved :
    {source : Source} {d : Disk} (info : BackupInfo) (cursector : ℕ)
    → Data source d info
    → Data source d (record info { cursector = cursector })
unfolding segments_of part_segment part_file block_segment
moved info cursector x = record {
  boot = x.boot;
  boot_size = x.boot_size;
  boot_read = x.boot_read;
  wholes = x.wholes;
  held = x.held;
}

-- All that has been written, and where `cursector` is then.
abbrev pub ended : BackupInfo → List ℕ → ℕ → Option (List ℕ × BackupInfo)
ended info written cursector = some (written, record info { cursector = cursector })

-- An output that takes all that is written to it.
abbrev pub TakesAll : Output → Type 0
TakesAll output = (info : BackupInfo) (bytes : List ℕ) → output info bytes ≡ true

-- A call that has given some sectors, and all that has been written after it.
pub write_front :
    (output : Output) (takes : TakesAll output)
    (again : BackupInfo → List ℕ → Option (List ℕ × BackupInfo)) (info' info'' : BackupInfo) (t : ℕ)
    (front rest written : List ℕ)
    → 0 < t
    → length front ≡ t * 512
    → again info' (front ++ rest) ≡ some (written, info'')
    → write_next output again (next_sectors t info' (front ++ rest))
      ≡ some (front ++ written, info'')
unfolding write_next
write_front output takes again info' info'' zero front rest written some_sectors size e =
    absurd (omega arith)
write_front output takes again info' info'' (suc n) front rest written some_sectors size e =
    rw (takes info' (take (suc n * 512) (front ++ rest))) (
      ap (with_written _) e
      ∙ ap (λ first. some (first ++ written, info'')) (take_front front rest (suc n * 512) size))

write_given :
    (output : Output) (takes : TakesAll output)
    (again : BackupInfo → List ℕ → Option (List ℕ × BackupInfo)) (info : BackupInfo)
    (left : List (List ℕ)) (k : ℕ) (buf : List ℕ)
    → 0 < k
    → AreSectors left
    → ((t : ℕ)
        → t ≡ min (length left) k
        → 0 < t
        → again
            (record info { cursector = info.cursector + t })
            (flat (take t left) ++ drop (t * 512) buf)
          ≡ some (flat (drop t left), record info { cursector = info.cursector + length left }))
    → write_next output again (given info left k buf)
      ≡ some (flat left, record info { cursector = info.cursector + length left })
unfolding write_next
write_given output takes again info [] k buf asked h next =
    let nothing : min 0 k ≡ 0 = omega arith in rw nothing refl
write_given output takes again info (s ∷ ss) k buf asked h next =
    write_front output takes again _ _ (min (suc (length ss)) k) _ _ _ (omega arith)
      (length-flat-take (min (suc (length ss)) k) (s ∷ ss) h (omega arith))
      (next _ refl (omega arith))
    ∙ ap (λ w. some (w, record info { cursector = info.cursector + length (s ∷ ss) }))
        (sym (flat_append (take (min (suc (length ss)) k) (s ∷ ss)) _)
          ∙ ap flat (take-append-drop (min (suc (length ss)) k) (s ∷ ss)))

module _ (source : Source) (d : Disk) (deflating : BackupInfo → List ℕ → Next) where
  -- `sectors` are left of the data of a backup.
  pub main_loop-left :
      (output : Output) (takes : TakesAll output) (fuel : ℕ) (info : BackupInfo)
      (x : Data source d info) (c : ℕ) (buf : List ℕ)
      → info.presector + c ≡ info.cursector
      → has_flag info.back_flags bf_compressed ≡ false
      → 512 ≤ length buf
      → length (drop c (all_data x)) < fuel
      → main_loop source d deflating output fuel info buf
        ≡ ended info (flat (drop c (all_data x))) (info.cursector + length (drop c (all_data x)))
  unfolding main_loop backup_read write_next moved
  main_loop-left output takes zero info x c buf at plain room enough = absurd (omega arith)
  main_loop-left output takes (suc fuel) info x c buf at plain room enough =
      rw (big, plain)
        (ap (write_next output _) next
          ∙ write_given output takes _ info left (length buf / 512) buf (omega arith) sized
              (λ t e some_sectors.
                main_loop-left output takes fuel _ (moved info (info.cursector + t) x) (c + t) _
                  (omega arith) plain (room_after t e)
                  (omega (arith, length-drop c (all_data x), length-drop (c + t) (all_data x)))
                ∙ same_end t e))
    where
      big : ltb (length buf) 512 ≡ false
      big = ground arith

      next :
          backup_next_sectors source d info (length buf / 512) buf
          ≡ given info (drop c (all_data x)) (length buf / 512) buf
      next = next_sectors_lem source d info x c (length buf / 512) buf at (omega arith)

      left : List (List ℕ)
      left = drop c (all_data x)

      sized : AreSectors left
      sized = drop-AreSectors c (all_data x) (x.boot_size, joined-AreSectors _ x.wholes x.held)

      room_after :
          (t : ℕ)
          → t ≡ min (length left) (length buf / 512)
          → 512 ≤ length (flat (take t left) ++ drop (t * 512) buf)
      room_after t e = omega (
        arith,
        length-append (flat (take t left)) (drop (t * 512) buf),
        length-flat-take t left sized (omega arith),
        length-drop (t * 512) buf,
      )

      same_end :
          (t : ℕ)
          → t ≡ min (length left) (length buf / 512)
          → ended info
              (flat (drop (c + t) (all_data x)))
              (info.cursector + t + length (drop (c + t) (all_data x)))
            ≡ ended info (flat (drop t left)) (info.cursector + length left)
      same_end t e =
          ap₂ (λ l n. ended info (flat l) n) (sym (drop-drop t c (all_data x)))
            (omega (arith, length-drop c (all_data x), length-drop (c + t) (all_data x)))
