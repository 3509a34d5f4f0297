-- ===== src/ReadWrite/Transfer.antt =====
-- Transfers of whole sectors of a partition: what is written is read back, through the byte
-- swapping too, and other partitions of the drive are left alone.
use tivo_tools.Base.{ℕ, ◌+◌, ◌*◌, ◌^◌, ◌≤◌, ◌<◌, ◌≡◌, ◌≢◌, refl, ap, ◌∙◌, arith}
use tivo_tools.Base.{List, false, length, ltb, ◌==◌, if◌then◌else◌, ◌⊎◌, inl, inr, Bool-cases}
use tivo_tools.Base.Memory.{AllBytes, add32}
use tivo_tools.Disk.{Disk, ret, run, run_faulty, overlay, os_write}
use tivo_tools.Disk.Laws.{os_read-written_away, written, run-written, overlay_whole}
use tivo_tools.Disk.Laws.{
  run_faulty-written, os_read_whole, os_write_whole, os_write_cases, available-le,
}
use tivo_tools.ReadWrite.{TpFile, tivo_partition_size, tivo_partition_offset}
use tivo_tools.ReadWrite.{tivo_partition_swab, tivo_partition_read, tivo_partition_write, data_swab}
use tivo_tools.ReadWrite.Swab.{data_swab-data_swab, length-data_swab}

-- The run of `n` sectors from `s` of a partition stands on its device and has no bad sector.
pub record Covers (d : Disk) (f : TpFile) (s n : ℕ) : Type 0 where
  pub some_sectors : 0 < n
  pub inside : s + n ≤ tivo_partition_size f
  pub placed : tivo_partition_offset f + tivo_partition_size f ≤ d.end_sector f.fd
  pub end_small : d.end_sector f.fd < 2 ^ 32
  pub healthy : run_faulty d f.fd (s + tivo_partition_offset f) n ≡ false

module _ (d : Disk) (f : TpFile) (s n : ℕ) (c : Covers d f s n) where
  start_of : add32 s (tivo_partition_offset f) ≡ s + tivo_partition_offset f
  start_of = omega arith

  accepted : ltb (tivo_partition_size f) (add32 s n) ≡ false
  accepted = ground arith

  counted : (n == 0) ≡ false
  counted = ground arith

  on_device : s + tivo_partition_offset f + n ≤ d.end_sector f.fd
  on_device = omega arith

  -- What stands on the drive, as the caller sees it.
  abbrev pub seen : List ℕ → List ℕ
  seen b = if tivo_partition_swab f then data_swab b (n * 512) else b

  pub read_whole :
      (old : List ℕ)
      → tivo_partition_read d f old s n
        ≡ (ret (n * 512), seen (overlay (run d f.fd (s + tivo_partition_offset f) n) old))
  unfolding tivo_partition_read
  read_whole old = rw (
    accepted,
    counted,
    start_of,
    os_read_whole d f.fd (s + tivo_partition_offset f) n old on_device c.healthy,
  )

  pub seen-seen : (buf : List ℕ) → AllBytes buf → length buf ≡ n * 512 → seen (seen buf) ≡ buf
  seen-seen buf h l = elim (Bool-cases (tivo_partition_swab f)) [
    | inl swabbed ↦ rw swabbed (data_swab-data_swab buf (n * 512) h (omega arith))
    | inr plain ↦ rw plain
  ]

  pub length-seen :
      (buf : List ℕ) → AllBytes buf → length buf ≡ n * 512 → length (seen buf) ≡ n * 512
  length-seen buf h l = elim (Bool-cases (tivo_partition_swab f)) [
    | inl swabbed ↦ rw swabbed (length-data_swab buf (n * 512) h (omega arith) ∙ l)
    | inr plain ↦ rw plain l
  ]

  -- A whole write reports all bytes, gives the caller's buffer back and lays it over the run.
  pub write_whole :
      (buf : List ℕ)
      → AllBytes buf
      → length buf ≡ n * 512
      → tivo_partition_write d f buf s n
        ≡ (ret (n * 512), buf, written d f.fd (s + tivo_partition_offset f) n (seen buf))
  unfolding tivo_partition_write
  write_whole buf h l =
      rw
        (
          accepted,
          counted,
          start_of,
          os_write_whole d f.fd (s + tivo_partition_offset f) n (seen buf) on_device c.healthy,
        )
        (ap
          (λ (b : List ℕ).
            (ret (n * 512), b, written d f.fd (s + tivo_partition_offset f) n (seen buf)))
          (seen-seen buf h l))

-- The run that a write covers stays covered.
pub Covers-written :
    {d : Disk} {f : TpFile} {s n : ℕ} (fd t m : ℕ) (buf : List ℕ)
    → Covers d f s n
    → Covers (written d fd t m buf) f s n
Covers-written {d} {f} {s} {n} fd t m buf c = record {
  some_sectors = c.some_sectors;
  inside = c.inside;
  placed = c.placed;
  end_small = c.end_small;
  healthy = run_faulty-written d fd t m buf f.fd (s + tivo_partition_offset f) n ∙ c.healthy;
}

-- Whole sectors that are written to a partition are read back as they were, whatever the buffer
-- held that they are read into: where they lie in the partition, and the partition on a device
-- that can transfer them. Both calls report all bytes, and the writer's buffer is unchanged.
pub read-write :
    (d : Disk) (f : TpFile) (s n : ℕ) (buf old : List ℕ)
    → Covers d f s n
    → AllBytes buf
    → length buf ≡ n * 512
    → length old ≤ n * 512
    → let (r, b, d') = tivo_partition_write d f buf s n in
      (r ≡ ret (n * 512)) × (b ≡ buf) × (tivo_partition_read d' f old s n ≡ (ret (n * 512), buf))
read-write d f s n buf old c h l small = rw (write_whole d f s n c buf h l) (refl, refl, again)
  where
    at : ℕ
    at = s + tivo_partition_offset f

    after : Disk
    after = written d f.fd at n (seen d f s n c buf)

    again : tivo_partition_read after f old s n ≡ (ret (n * 512), buf)
    again =
        read_whole after f s n (Covers-written f.fd at n (seen d f s n c buf) c) old
        ∙ ap (λ (b : List ℕ). (ret (n * 512), seen d f s n c b))
            (ap (λ (b : List ℕ). overlay b old)
                (run-written d f.fd at n (seen d f s n c buf) (length-seen d f s n c buf h l))
              ∙ overlay_whole (seen d f s n c buf) old
                  (omega (arith, length-seen d f s n c buf h l)))
        ∙ ap (λ (b : List ℕ). (ret (n * 512), b)) (seen-seen d f s n c buf h l)

-- Two partitions of one drive that share no sector, or partitions of different drives.
abbrev pub Disjoint : TpFile → TpFile → Type 0
Disjoint f g =
    (f.fd ≢ g.fd)
    ⊎ ((tivo_partition_offset f + tivo_partition_size f ≤ tivo_partition_offset g)
        ⊎ (tivo_partition_offset g + tivo_partition_size g ≤ tivo_partition_offset f))

-- The disk after a write is the disk before, or has sectors of the partition's run laid over.
data Wrote (d : Disk) (f : TpFile) (s n : ℕ) : Disk → Type 0 where
  nothing : Wrote d f s n d
  some_of_it :
      (m : ℕ) (b : List ℕ)
      → m ≤ n
      → s + n ≤ tivo_partition_size f
      → Wrote d f s n (written d f.fd (add32 s (tivo_partition_offset f)) m b)

write-Wrote :
    (d : Disk) (f : TpFile) (buf : List ℕ) (s n : ℕ)
    → s + n < 2 ^ 32
    → Wrote d f s n (tivo_partition_write d f buf s n).2
unfolding tivo_partition_write
write-Wrote d f buf s n h = elim (Bool-cases (ltb (tivo_partition_size f) (add32 s n))) [
  | inl out ↦ rw out nothing
  | inr inside ↦ elim (Bool-cases (n == 0)) [
    | inl none_asked ↦ rw (inside, none_asked) nothing
    | inr asked ↦
        rw (inside, asked)
          (os_write-Wrote (if tivo_partition_swab f then data_swab buf (n * 512) else buf)
            (ground arith))
  ]
]
  where
    os_write-Wrote :
        (b : List ℕ)
        → s + n ≤ tivo_partition_size f
        → Wrote d f s n (os_write d f.fd b (add32 s (tivo_partition_offset f)) n).1
    os_write-Wrote b fits = elim (os_write_cases d f.fd b (add32 s (tivo_partition_offset f)) n) [
      | inl failed ↦ rw failed nothing
      | inr went ↦ rw went (some_of_it _ b (available-le d f.fd _ n) fits)
    ]

read-Wrote :
    {d : Disk} {f : TpFile} {s n : ℕ} {d' : Disk} (g : TpFile) (old : List ℕ) (t m : ℕ)
    → Disjoint f g
    → tivo_partition_offset f + tivo_partition_size f < 2 ^ 32
    → tivo_partition_offset g + tivo_partition_size g < 2 ^ 32
    → t + m < 2 ^ 32
    → Wrote d f s n d'
    → tivo_partition_read d' g old t m ≡ tivo_partition_read d g old t m
unfolding tivo_partition_read
read-Wrote g old t m apart hf hg h nothing = refl
read-Wrote {d = d} {f = f} {s = s} g old t m apart hf hg h (some_of_it k b le fits) =
    elim (Bool-cases (ltb (tivo_partition_size g) (add32 t m))) [
      | inl out ↦ rw out
      | inr inside ↦ rw (
          os_read-written_away d f.fd (add32 s (tivo_partition_offset f)) k b g.fd old
            (add32 t (tivo_partition_offset g)) m (ground arith))
    ]

-- Whatever is written to a partition, done in full, in part or not at all, reads of a partition
-- that shares no sector with it give the same result and bytes as before, as long as partitions
-- and runs end below sector 2 ^ 32.
pub write_isolated :
    (d : Disk) (f g : TpFile) (buf : List ℕ) (s n : ℕ) (old : List ℕ) (t m : ℕ)
    → Disjoint f g
    → tivo_partition_offset f + tivo_partition_size f < 2 ^ 32
    → tivo_partition_offset g + tivo_partition_size g < 2 ^ 32
    → s + n < 2 ^ 32
    → t + m < 2 ^ 32
    → tivo_partition_read (tivo_partition_write d f buf s n).2 g old t m
      ≡ tivo_partition_read d g old t m
write_isolated d f g buf s n old t m apart hf hg hs ht =
    read-Wrote g old t m apart hf hg ht (write-Wrote d f buf s n hs)
