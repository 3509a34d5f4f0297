-- ===== src/Backup/Whole.antt =====
-- A whole backup, of backup/backup.c and the loop of backup/backmain.c.
use tivo_tools.Base.{
  ℕ, zero, suc, ◌+◌, ◌-◌, ◌*◌, ◌/◌, ◌≤◌, ◌<◌, ◌≡◌, refl, sym, ◌∙◌, ap, ap₂, arith,
}
use tivo_tools.Base.{List, ◌++◌, true, false, ltb, leb, ◌==◌}
use tivo_tools.Base.{
  length, take, drop, min, replicate, length-append, length-replicate, length-drop, append_assoc,
  take-append-drop,
}
use tivo_tools.Base.Memory.{store32}
use tivo_tools.Disk.{Disk}
use tivo_tools.Backup.Info.{BackupInfo, has_flag, bf_compressed}
use tivo_tools.Backup.Partitions.{Source}
use tivo_tools.Backup.Stream.{
  rounds, Next, next_sectors, after_round, head_bytes, backup_next_sectors, backup_read, main_loop,
  Output, write_next, backup_finish,
}
use tivo_tools.Backup.Sectors.{flat, flat_append, AreSectors, joined-AreSectors, length-flat-take}
use tivo_tools.Backup.Reading.{
  Data, all_data, given, rounds_in_data, moved, ended, main_loop-left, TakesAll, write_front,
}
use tivo_tools.Backup.Heading.{Fits, arrays, padded, put_header_lem, Fits_sizes}

length-head_bytes : (info : BackupInfo) → length (head_bytes info) ≡ 512
unfolding head_bytes store32
length-head_bytes info = refl

length-padded :
    (info : BackupInfo) (n : ℕ) → Fits info n → length (padded info) ≡ (info.presector - 1) * 512
length-padded info n f = omega (
  arith,
  f.counted,
  length-append (arrays info) (replicate ((info.presector - 1) * 512 - length (arrays info)) 0),
  length-replicate {A = ℕ} ((info.presector - 1) * 512 - length (arrays info)) 0,
)

module _ (source : Source) (d : Disk) where
  head_round :
      (fuel n : ℕ) (info : BackupInfo) (buf : List ℕ)
      → info.cursector ≡ 0
      → 0 < info.presector
      → rounds source d (suc fuel) info (suc n) buf
        ≡ after_round 1
            (head_bytes info)
            (rounds source d fuel (record info { cursector = 1 }) n (drop 512 buf))
  unfolding rounds
  head_round fuel n info buf e p = rw (begins, at_zero) refl
    where
      begins : leb info.presector info.cursector ≡ false
      begins = ground arith

      at_zero : (info.cursector == 0) ≡ true
      at_zero = ground arith

  arrays_round :
      (fuel n : ℕ) (info : BackupInfo) (buf : List ℕ)
      → info.cursector ≡ 1
      → Fits info (suc n)
      → rounds source d (suc fuel) info (suc n) buf
        ≡ after_round (info.presector - 1) (padded info) (
            rounds source d fuel
              (record info { cursector = info.presector })
              (suc n - (info.presector - 1))
              (drop (length (padded info)) buf))
  unfolding rounds
  arrays_round fuel n info buf e f = rw (begins, at_zero, put_header_lem info (suc n) f e, sum) refl
    where
      begins : leb info.presector info.cursector ≡ false
      begins = ground (arith, Fits_sizes info (suc n) f)

      at_zero : (info.cursector == 0) ≡ false
      at_zero = ground arith

      sum : info.cursector + (info.presector - 1) ≡ info.presector
      sum = omega (arith, Fits_sizes info (suc n) f)

  -- The call that gives the header, and as much of the data as fits.
  first_call :
      (info : BackupInfo) (x : Data source d info) (n : ℕ) (buf : List ℕ)
      → info.cursector ≡ 0
      → Fits info n
      → suc n * 512 ≤ length buf
      → backup_next_sectors source d info (suc n) buf
        ≡ after_round 1 (head_bytes info) (
            after_round (info.presector - 1) (padded info) (
              given
                (record info { cursector = info.presector })
                (all_data x)
                (n - (info.presector - 1))
                (drop (length (padded info)) (drop 512 buf))))
  unfolding backup_next_sectors moved
  first_call info x zero buf e f room = absurd (omega (arith, Fits_sizes info 0 f))
  first_call info x (suc n) buf e f room =
      head_round (suc n) (suc n) info buf e (omega (arith, Fits_sizes info (suc n) f))
      ∙ ap (after_round 1 (head_bytes info)) (
          arrays_round n n (record info { cursector = 1 }) (drop 512 buf) refl
            (record { some_parts = f.some_parts; counted = f.counted; room = f.room })
          ∙ ap (after_round (info.presector - 1) (padded info)) (
              rounds_in_data source d n (record info { cursector = info.presector })
                (moved info info.presector x) 0 _ _ (omega arith)
                (omega (arith, Fits_sizes info (suc n) f))
                (omega (
                  arith,
                  Fits_sizes info (suc n) f,
                  length-padded info (suc n) f,
                  length-drop 512 buf,
                  length-drop (length (padded info)) (drop 512 buf),
                ))))

-- The header and all data of a backup, as bytes.
abbrev pub whole : {source : Source} {d : Disk} {info : BackupInfo} → Data source d info → List ℕ
whole {info = info} x = head_bytes info ++ (padded info ++ flat (all_data x))

module _ (source : Source) (d : Disk) (deflating : BackupInfo → List ℕ → Next) where
  -- A backup ends, has written the header, the arrays of partitions and blocks filled up with zeros,
  -- and all data, and `backup_finish` agrees: it is not compressed, starts from `cursector` 0, all
  -- its data can be read, the output takes all that is written to it, `presector` and `nsectors` are what `backup_start` sets, the arrays fit in
  -- the first buffer, and the fuel is above the number of data sectors and one.
  pub main_loop-whole :
      (output : Output) (takes : TakesAll output) (fuel : ℕ) (info : BackupInfo)
      (x : Data source d info) (n : ℕ) (buf : List ℕ)
      → info.cursector ≡ 0
      → info.nsectors ≡ info.presector + length (all_data x)
      → has_flag info.back_flags bf_compressed ≡ false
      → length buf / 512 ≡ suc n
      → Fits info n
      → length (all_data x) < fuel
      → (main_loop source d deflating output (suc fuel) info buf
          ≡ ended info (whole x) info.nsectors)
        × (backup_finish (record info { cursector = info.nsectors })
            ≡ (true, record info { cursector = info.nsectors }))
  unfolding main_loop backup_read backup_finish moved after_round
  main_loop-whole output takes fuel info x n buf e size plain k f enough = (written, finished)
    where
      finished :
          backup_finish (record info { cursector = info.nsectors })
          ≡ (true, record info { cursector = info.nsectors })
      finished = rw (reached info.nsectors) refl
        where
          reached : (m : ℕ) → (m == m) ≡ true
          reached m = ground arith

      big : ltb (length buf) 512 ≡ false
      big = ground arith

      t : ℕ
      t = min (length (all_data x)) (n - (info.presector - 1))

      front : List ℕ
      front = head_bytes info ++ (padded info ++ flat (take t (all_data x)))

      rest : List ℕ
      rest = drop (t * 512) (drop (length (padded info)) (drop 512 buf))

      regrouped :
          head_bytes info ++ (padded info ++ (flat (take t (all_data x)) ++ rest)) ≡ front ++ rest
      regrouped =
          ap (λ b. head_bytes info ++ b)
            (sym (append_assoc (padded info) (flat (take t (all_data x))) rest))
          ∙ sym (append_assoc (head_bytes info) (padded info ++ flat (take t (all_data x))) rest)

      first :
          backup_next_sectors source d info (length buf / 512) buf
          ≡ next_sectors
              (info.presector + t)
              (record info { cursector = info.presector + t })
              (front ++ rest)
      first = rw k (
          first_call source d info x n buf e f (omega arith)
          ∙ ap₂ (λ m b. next_sectors m (record info { cursector = info.presector + t }) b)
              (omega (arith, Fits_sizes info n f)) regrouped)

      sized : AreSectors (all_data x)
      sized = (x.boot_size, joined-AreSectors _ x.wholes x.held)

      front_size : length front ≡ (info.presector + t) * 512
      front_size = omega (
        arith,
        length-append (head_bytes info) (padded info ++ flat (take t (all_data x))),
        length-append (padded info) (flat (take t (all_data x))),
        length-head_bytes info,
        length-padded info n f,
        length-flat-take t (all_data x) sized (omega arith),
        Fits_sizes info n f,
      )

      bytes : front ++ flat (drop t (all_data x)) ≡ whole x
      bytes =
          append_assoc (head_bytes info) (padded info ++ flat (take t (all_data x))) _
          ∙ ap (λ b. head_bytes info ++ b)
              (append_assoc (padded info) (flat (take t (all_data x))) _
                ∙ ap (λ b. padded info ++ b)
                    (sym (flat_append (take t (all_data x)) (drop t (all_data x)))
                      ∙ ap flat (take-append-drop t (all_data x))))

      written :
          main_loop source d deflating output (suc fuel) info buf
          ≡ ended info (whole x) info.nsectors
      written =
          rw (big, plain)
            (ap (write_next output _) first
              ∙ write_front output takes _ _ _ (info.presector + t) front rest _
                  (omega (arith, Fits_sizes info n f)) front_size
                  (main_loop-left source d deflating output takes fuel
                    (record info { cursector = info.presector + t })
                    (moved info (info.presector + t) x) t (front ++ rest) refl plain
                    (omega (arith, front_size, Fits_sizes info n f, length-append front rest))
                    (omega (arith, length-drop t (all_data x))))
              ∙ ap₂ (ended info) bytes (omega (arith, length-drop t (all_data x))))
