-- ===== src/Backup/Heading.antt =====
-- The header of a backup, of backup/backup.c: its arrays one after another, filled up with zeros.
use tivo_tools.Base.{
  ℕ, zero, suc, ◌+◌, ◌-◌, ◌*◌, ◌/◌, ◌%◌, ◌≤◌, ◌<◌, ◌≡◌, refl, sym, ◌∙◌, ap, arith,
}
use tivo_tools.Base.{List, [], ◌∷◌, ◌++◌, true, false, ltb, ◌&&◌, ◌||◌, Bool-cases, inl, inr, ◌⊎◌}
use tivo_tools.Base.{some, length, replicate, min, append-nil, take_all, length-append}
use tivo_tools.Base.Memory.{length-store32}
use tivo_tools.Backup.Blocks.{BackupBlock}
use tivo_tools.Backup.Info.{BackupInfo, BackupPartition}
use tivo_tools.Backup.Stream.{
  Header, put_array, put_parts, put_more, put_zeros, finish_header, put_header, part_bytes,
  block_bytes, word_bytes,
}

-- The header with its first bytes put, of `n` sectors in all.
abbrev pub put : ℕ → List ℕ → Header
put n out = record {
  sectors = n - length out / 512;
  retval = length out / 512;
  presector = length out / 512;
  curoff = length out;
  out = out;
}

put_array_lem :
    (n : ℕ) (bytes out : List ℕ)
    → length out + length bytes ≤ (n - length out / 512) * 512
    → put_array bytes (length out) (put n out) ≡ some (put n (out ++ bytes))
unfolding put_array
put_array_lem n bytes out room =
    rw
      (
        length-append out bytes,
        whole,
        fits,
        left,
        moved,
        put_size,
        at_front,
        take_all (length bytes) bytes (omega arith),
      )
      refl
  where
    whole :
        min (length out + length bytes) ((n - length out / 512) * 512) ≡ length out + length bytes
    whole = omega arith

    fits : (ltb (length out + length bytes) (length out) || ltb (length out) (length out)) ≡ false
    fits = ground arith

    left :
        n - length out / 512 - ((length out + length bytes) / 512 - length out / 512)
        ≡ n - (length out + length bytes) / 512
    left = omega arith

    moved :
        length out / 512 + ((length out + length bytes) / 512 - length out / 512)
        ≡ (length out + length bytes) / 512
    moved = omega arith

    put_size : length out + length bytes - length out ≡ length bytes
    put_size = omega arith

    at_front : length out - length out ≡ 0
    at_front = omega arith

put_more_lem :
    (n : ℕ) (bytes out : List ℕ)
    → length out + length bytes ≤ (n - length out / 512) * 512
    → 0 < length out
    → (length bytes ≡ 0) ⊎ (2 ≤ length bytes)
    → put_more bytes (length out) (some (put n out)) ≡ some (put n (out ++ bytes))
unfolding put_more
put_more_lem n [] out room some_out sized =
    rw skipped (ap (λ o. some (put n o)) (sym (append-nil out)))
  where
    skipped : (ltb 0 (n - length out / 512) && ltb (length out) (0 * length out)) ≡ false
    skipped = ground arith
put_more_lem n (b ∷ []) out room some_out sized = absurd (ground arith)
put_more_lem n (b ∷ c ∷ bytes) out room some_out sized =
    rw taken (put_array_lem n (b ∷ c ∷ bytes) out room)
  where
    more : length out + length out ≤ (length bytes + 2) * length out
    more = grind arith

    taken :
        (ltb 0 (n - length out / 512) && ltb (length out) (length (b ∷ c ∷ bytes) * length out))
        ≡ true
    taken = ground (arith, more)

pub length-part_bytes : (ps : List BackupPartition) → length (part_bytes ps) ≡ length ps * 8
unfolding part_bytes
length-part_bytes [] = omega arith
length-part_bytes (p ∷ ps) = omega (
  arith,
  length-append (word_bytes p.sectors) (p.partno ∷ p.devno ∷ 0 ∷ 0 ∷ part_bytes ps),
  length-store32 (replicate 4 0) 0 p.sectors,
  length-part_bytes ps,
)

pub length-block_bytes : (bs : List BackupBlock) → length (block_bytes bs) ≡ length bs * 8
unfolding block_bytes
length-block_bytes [] = omega arith
length-block_bytes (b ∷ bs) = omega (
  arith,
  length-append (word_bytes b.firstsector) (word_bytes b.sectors ++ block_bytes bs),
  length-append (word_bytes b.sectors) (block_bytes bs),
  length-store32 (replicate 4 0) 0 b.firstsector,
  length-store32 (replicate 4 0) 0 b.sectors,
  length-block_bytes bs,
)

put_zeros_lem :
    (presector n : ℕ) (out : List ℕ)
    → presector ≡ (length out + 511) / 512 + 1
    → presector - 1 ≤ n
    → put_zeros presector (put n out) ≡ record {
      sectors = n - (presector - 1);
      retval = presector - 1;
      presector = presector - 1;
      curoff = length out;
      out = out ++ replicate ((presector - 1) * 512 - length out) 0;
    }
unfolding put_zeros
put_zeros_lem presector n out e room = elim (Bool-cases (ltb (length out / 512) (presector - 1))) [
  | inl short ↦
      rw (some_left (ground arith), short, one (ground arith), up (ground arith), less, fill) refl
  | inr full ↦ rw (full, never, level (ground arith), no_zeros (ground arith), append-nil out) refl
]
  where
    some_left : length out / 512 < presector - 1 → ltb 0 (n - length out / 512) ≡ true
    some_left h = ground arith

    one :
        length out / 512 < presector - 1
        → min (presector - length out / 512 - 1) (n - length out / 512) ≡ 1
    one h = omega arith

    up : length out / 512 < presector - 1 → presector - 1 ≡ length out / 512 + 1
    up h = omega arith

    less : n - length out / 512 - 1 ≡ n - (length out / 512 + 1)
    less = omega arith

    fill : 1 * 512 - length out % 512 ≡ (length out / 512 + 1) * 512 - length out
    fill = omega arith

    never : (ltb 0 (n - length out / 512) && false) ≡ false
    never = ground arith

    level : presector - 1 ≤ length out / 512 → presector - 1 ≡ length out / 512
    level h = omega arith

    no_zeros : presector - 1 ≤ length out / 512 → length out / 512 * 512 - length out ≡ 0
    no_zeros h = omega arith

-- The arrays of a header, and the zeros after them.
abbrev pub arrays : BackupInfo → List ℕ
arrays info = (part_bytes info.parts ++ block_bytes info.blocks) ++ part_bytes info.mfsparts

abbrev pub padded : BackupInfo → List ℕ
padded info = arrays info ++ replicate ((info.presector - 1) * 512 - length (arrays info)) 0

-- A header as `backup_start` sizes it, with a partition, and room for it in the first buffer of `n`
-- sectors: the code asks for more than its size where the first two arrays fill sectors.
pub record Fits (info : BackupInfo) (n : ℕ) : Type 0 where
  pub some_parts : 0 < length info.parts
  pub counted : info.presector ≡ (length (arrays info) + 511) / 512 + 1
  pub room :
      length (arrays info)
      ≤ (n - length (part_bytes info.parts ++ block_bytes info.blocks) / 512) * 512

none_or_some : {n : ℕ} (k : ℕ) → n ≡ k * 8 → (n ≡ 0) ⊎ (2 ≤ n)
none_or_some zero e = inl (omega arith)
none_or_some (suc k) e = inr (omega arith)

module _ (info : BackupInfo) (n : ℕ) (f : Fits info n) where
  start_lem :
      put_parts
        (part_bytes info.parts)
        (record { sectors = n; retval = 0; presector = 0; curoff = 0; out = [] })
      ≡ some (put n (part_bytes info.parts))
  unfolding put_parts
  start_lem = rw first (
      rw whole at (
        put_array_lem n (part_bytes info.parts) [] (
          omega (
            arith,
            f.room,
            length-append (part_bytes info.parts ++ block_bytes info.blocks)
                (part_bytes info.mfsparts),
            length-append (part_bytes info.parts) (block_bytes info.blocks),
          ))))
    where
      first : ltb 0 (length (part_bytes info.parts)) ≡ true
      first = ground (arith, length-part_bytes info.parts, f.some_parts)

      whole : n - 0 ≡ n
      whole = omega arith

  pub put_header_lem :
      info.cursector ≡ 1
      → put_header info n
        ≡ some (record {
          sectors = n - (info.presector - 1);
          retval = info.presector - 1;
          presector = info.presector - 1;
          curoff = length (arrays info);
          out = padded info;
        })
  unfolding put_header
  put_header_lem e = rw at_start (
      ap (finish_header info.presector) all_put
      ∙ ap some (
          put_zeros_lem info.presector n (arrays info) f.counted
            (omega (arith, f.counted, f.room))))
    where
      at_start : info.cursector - 1 ≡ 0
      at_start = omega arith

      all_sizes :
          (length (arrays info)
            ≡ length (part_bytes info.parts ++ block_bytes info.blocks)
              + length (part_bytes info.mfsparts))
          × (length (part_bytes info.parts ++ block_bytes info.blocks)
              ≡ length (part_bytes info.parts) + length (block_bytes info.blocks))
          × (0 < length (part_bytes info.parts))
          × (length (arrays info)
              ≤ (n - length (part_bytes info.parts ++ block_bytes info.blocks) / 512) * 512)
      all_sizes = (
        length-append (part_bytes info.parts ++ block_bytes info.blocks) (part_bytes info.mfsparts),
        length-append (part_bytes info.parts) (block_bytes info.blocks),
        omega (arith, length-part_bytes info.parts, f.some_parts),
        f.room,
      )

      two_put :
          put_more (block_bytes info.blocks) (length (part_bytes info.parts)) (
            put_parts
              (part_bytes info.parts)
              (record { sectors = n; retval = 0; presector = 0; curoff = 0; out = [] }))
          ≡ some (put n (part_bytes info.parts ++ block_bytes info.blocks))
      two_put =
          ap (put_more (block_bytes info.blocks) (length (part_bytes info.parts))) start_lem
          ∙ put_more_lem n (block_bytes info.blocks) (part_bytes info.parts)
              (omega (arith, all_sizes)) (omega (arith, all_sizes))
              (none_or_some (length info.blocks) (length-block_bytes info.blocks))

      all_put :
          put_more
            (part_bytes info.mfsparts)
            (length (part_bytes info.parts) + length (block_bytes info.blocks))
            (put_more (block_bytes info.blocks) (length (part_bytes info.parts)) (
              put_parts
                (part_bytes info.parts)
                (record { sectors = n; retval = 0; presector = 0; curoff = 0; out = [] })))
          ≡ some (put n (arrays info))
      all_put =
          ap
            (put_more (part_bytes info.mfsparts)
              (length (part_bytes info.parts) + length (block_bytes info.blocks)))
            two_put
          ∙ ap
              (λ used.
                put_more (part_bytes info.mfsparts) used
                  (some (put n (part_bytes info.parts ++ block_bytes info.blocks))))
              (sym (length-append (part_bytes info.parts) (block_bytes info.blocks)))
          ∙ put_more_lem n (part_bytes info.mfsparts)
              (part_bytes info.parts ++ block_bytes info.blocks) (omega (arith, all_sizes))
              (omega (arith, all_sizes))
              (none_or_some (length info.mfsparts) (length-part_bytes info.mfsparts))

  pub Fits_sizes : (2 ≤ info.presector) × (info.presector - 1 ≤ n)
  Fits_sizes = (omega (arith, sizes), omega (arith, sizes))
    where
      sizes :
          (8 ≤ length (arrays info))
          × (info.presector ≡ (length (arrays info) + 511) / 512 + 1)
          × (length (arrays info) ≤ n * 512)
      sizes = (
        omega (
          arith,
          length-append (part_bytes info.parts ++ block_bytes info.blocks)
              (part_bytes info.mfsparts),
          length-append (part_bytes info.parts) (block_bytes info.blocks),
          length-part_bytes info.parts,
          f.some_parts,
        ),
        f.counted,
        omega (arith, f.room),
      )
