-- ===== src/Macpart/Stored.antt =====
-- A partition table of lib/macpart.c on a drive: what is written, and what is read back.
use tivo_tools.Base.{
  ℕ, zero, suc, ◌+◌, ◌^◌, ◌≤◌, ◌<◌, ◌≡◌, refl, sym, ap, ap₂, ◌∙◌, arith, ◌⊎◌, inl, inr,
}
use tivo_tools.Base.{
  List, [], ◌∷◌, Bool, true, false, ltb, leb, ◌==◌, if◌then◌else◌, length, map, replicate, take_all,
  some, All, append-nil, length-replicate, All-replicate, Bool-cases,
}
use tivo_tools.Base.Memory.{IsByte, AllBytes, field}
use tivo_tools.Disk.{Disk, ret, run, run_faulty, os_read, overlay}
use tivo_tools.ReadWrite.Swab.{length-data_swab, data_swab-data_swab}
use tivo_tools.Disk.Laws.{written, put_run_first, put_run_outside, os_read_whole, overlay_whole}
use tivo_tools.ReadWrite.{TpFile, tivo_partition_offset, tivo_partition_swab, data_swab}
use tivo_tools.ReadWrite.Transfer.{Covers, Covers-written, write_whole, length-seen}
use tivo_tools.Macpart.{
  Partition, write_entry, write_entries, read_entries, in_order, as_int, with_part,
}
use tivo_tools.Macpart.Entry.{
  IsEntry, length-write_entry, write_entry-AllBytes, write_entry-magic, write_entry-count,
  read_entry-write_entry,
}

-- A sector as it stands on the drive.
abbrev pub on_drive : TpFile → List ℕ → List ℕ
on_drive f b = if tivo_partition_swab f then data_swab b 512 else b

length-on_drive :
    (f : TpFile) (b : List ℕ) → AllBytes b → length b ≡ 512 → length (on_drive f b) ≡ 512
length-on_drive f b h l = elim (Bool-cases (tivo_partition_swab f)) [
  | inl swabbed ↦ rw swabbed (length-data_swab b 512 h (omega arith) ∙ l)
  | inr plain ↦ rw plain l
]

in_order-on_drive :
    (d : Disk) (f : TpFile) (b : List ℕ)
    → AllBytes b
    → length b ≡ 512
    → in_order d f.fd (tivo_partition_swab f) (on_drive f b) ≡ b
in_order-on_drive d f b h l = elim (Bool-cases (tivo_partition_swab f)) [
  | inl swabbed ↦ rw swabbed (data_swab-data_swab b 512 h (omega arith))
  | inr plain ↦ rw plain refl
]

module _ (f : TpFile) (count : ℕ) where
  -- The entries stand on the drive, from a sector of the table on.
  abbrev pub Stored : Disk → List Partition → ℕ → Type 0
  Stored d [] loop = Unit
  Stored d (p ∷ ps) loop =
      (d.sector f.fd (loop + tivo_partition_offset f) ≡ on_drive f (write_entry count p))
      × Stored d ps (loop + 1)

  -- A drive after entries have been written to it, from `loop` on.
  pub data Wrote (d : Disk) (ps : List Partition) (loop : ℕ) : Bool × Disk → Type 0 where
    wrote :
        (sector : ℕ → ℕ → List ℕ)
        → ((t : ℕ) → t < loop + tivo_partition_offset f → sector f.fd t ≡ d.sector f.fd t)
        → Stored (record d { sector = sector }) ps loop
        → Wrote d ps loop (true, record d { sector = sector })

  after_one :
      (d : Disk) (p : Partition) (ps : List Partition) (loop : ℕ) (b : List ℕ)
      (result : Bool × Disk)
      → length b ≡ 512
      → b ≡ on_drive f (write_entry count p)
      → Wrote (written d f.fd (loop + tivo_partition_offset f) 1 b) ps (loop + 1) result
      → Wrote d (p ∷ ps) loop result
  after_one d p ps loop b _ l e (wrote sector same stored) = wrote sector earlier (here, stored)
    where
      at : ℕ
      at = loop + tivo_partition_offset f

      earlier : (t : ℕ) → t < at → sector f.fd t ≡ d.sector f.fd t
      earlier t h = same t (omega arith) ∙ put_run_outside d.sector f.fd at 1 b f.fd t (inr (inl h))

      here : sector f.fd at ≡ on_drive f (write_entry count p)
      here =
          same at (omega arith)
          ∙ put_run_first d.sector f.fd at 0 b
          ∙ take_all 512 b (omega arith)
          ∙ e

  pub write_entries-Wrote :
      (allocated : ℕ) (ps : List Partition) (loop : ℕ) (d : Disk)
      → All IsEntry ps
      → loop + length ps ≤ allocated
      → ((i : ℕ) → i < allocated → Covers d f i 1)
      → Wrote d ps loop (write_entries f count allocated ps loop d)
  unfolding write_entries
  write_entries-Wrote allocated [] loop d h room c = elim (Bool-cases (ltb loop allocated)) [
    | inl more ↦ rw more (
        rw
          (write_whole d f loop 1 (c loop (ground arith)) (replicate 512 0) zero_bytes
            (length-replicate {A = ℕ} 512 0))
          (wrote _
            (λ t p.
              put_run_outside d.sector f.fd (loop + tivo_partition_offset f) 1 _ f.fd t
                (inr (inl p)))
            tt))
    | inr full ↦ rw full (wrote d.sector (λ t p. refl) tt)
  ]
    where
      zero_bytes : AllBytes (replicate 512 0)
      zero_bytes = All-replicate IsByte 512 0 (omega arith)
  write_entries-Wrote allocated (p ∷ ps) loop d (h, hs) room c =
      rw
        (
          inside,
          write_whole d f loop 1 (c loop (omega arith)) (write_entry count p)
              (write_entry-AllBytes count p h) (length-write_entry count p h),
        )
        (after_one d p ps loop _ _
          (length-seen d f loop 1 (c loop (omega arith)) (write_entry count p)
            (write_entry-AllBytes count p h) (length-write_entry count p h))
          refl
          (write_entries-Wrote allocated ps (loop + 1) _ hs (omega arith)
            (λ i q. Covers-written f.fd (loop + tivo_partition_offset f) 1 _ (c i q))))
    where
      inside : ltb loop allocated ≡ true
      inside = ground arith

-- A partition as it is read.
abbrev pub fresh : Partition → Partition
fresh p = record p { refs = 1 }

module _ (f : TpFile) (count : ℕ) (d : Disk) (small : count < 2 ^ 31) where
  -- The entries from `loop` on are read, up to the one that `count` says is the last.
  pub read_entries-Stored :
      (ps : List Partition) (n loop cursec maxsec : ℕ) (old : List ℕ)
      → All IsEntry ps
      → Stored f count d ps loop
      → loop + length ps ≡ count
      → length ps ≤ n
      → loop + tivo_partition_offset f ≡ cursec
      → tivo_partition_offset f ≡ 1
      → (maxsec ≡ count) ⊎ ((loop ≡ 0) × (maxsec ≡ 1))
      → 0 < count
      → length old ≤ 512
      → count < d.end_sector f.fd
      → ((t : ℕ) → d.faulty f.fd t ≡ false)
      → read_entries d f.fd (tivo_partition_swab f) n cursec maxsec old ≡ some (map fresh ps)
  unfolding read_entries as_int run run_faulty
  read_entries-Stored [] zero loop cursec maxsec old h s e n at off m p o dev ok = refl
  read_entries-Stored [] (suc n) loop cursec maxsec old h s e l at off m p o dev ok = rw past refl
    where
      past : leb cursec maxsec ≡ false
      past = ground arith
  read_entries-Stored (q ∷ ps) zero loop cursec maxsec old h s e l at off m p o dev ok =
      absurd (omega arith)
  read_entries-Stored (q ∷ ps) (suc n) loop cursec maxsec old (h, hs) (s, ss) e l at off m p o dev
        ok =
      rw (got, more, ordered, write_entry-magic count q)
        (ap₂ with_part (read_entry-write_entry count q h) (
          read_entries-Stored ps n (loop + 1) (cursec + 1) _ (write_entry count q) hs ss
            (omega arith) (omega arith) (omega arith) off (inl next_is) p
            (omega (arith, length-write_entry count q h)) dev ok))
    where
      more : leb cursec maxsec ≡ true
      more = ground arith

      healthy : run_faulty d f.fd cursec 1 ≡ false
      healthy = rw (ok cursec) refl

      stands : run d f.fd cursec 1 ≡ on_drive f (write_entry count q)
      stands = append-nil (d.sector f.fd cursec) ∙ ap (d.sector f.fd) (sym at) ∙ s

      sized : length (on_drive f (write_entry count q)) ≡ 512
      sized =
          length-on_drive f (write_entry count q) (write_entry-AllBytes count q h)
            (length-write_entry count q h)

      got : os_read d f.fd old cursec 1 ≡ (ret 512, on_drive f (write_entry count q))
      got =
          os_read_whole d f.fd cursec 1 old (omega arith) healthy
          ∙ ap (λ (b : List ℕ). (ret 512, b))
              (ap (λ b. overlay b old) stands
                ∙ overlay_whole (on_drive f (write_entry count q)) old (omega (arith, sized)))

      ordered :
          in_order d f.fd (tivo_partition_swab f) (on_drive f (write_entry count q))
          ≡ write_entry count q
      ordered =
          in_order-on_drive d f (write_entry count q) (write_entry-AllBytes count q h)
            (length-write_entry count q h)

      next_is : (if cursec == 1 then as_int (field (write_entry count q) 1) else maxsec) ≡ count
      next_is = ground (arith, write_entry-count count q (omega arith))
