-- ===== src/Disk/Laws.antt =====
-- What a run of sectors reads after a write.
use tivo_tools.Base.{ℕ, zero, suc, ◌+◌, ◌*◌, ◌≤◌, ◌<◌, ◌≡◌, ◌≢◌, refl, ap, ap₂, ◌∙◌, arith}
use tivo_tools.Base.{List, [], ◌∷◌, ◌++◌, Bool, false, length, take, drop, ltb, if◌then◌else◌}
use tivo_tools.Base.{drop-drop, take-append-drop, ◌⊎◌, length-drop}
use tivo_tools.Base.{length-append, Bool-cases, inl, inr, ◌||◌}
use tivo_tools.Disk.{
  Disk, err, ret, eio, run, put_run, available, run_faulty, overlay, os_read, os_write,
}

-- A sector outside the run keeps its bytes.
pub put_run_outside :
    (old : ℕ → ℕ → List ℕ) (fd s n : ℕ) (buf : List ℕ) (f t : ℕ)
    → (f ≢ fd) ⊎ ((t < s) ⊎ (s + n ≤ t))
    → put_run old fd s n buf f t ≡ old f t
unfolding put_run
put_run_outside old fd s zero buf f t h = refl
put_run_outside old fd s (suc n) buf f t h =
    ground (arith, put_run_outside old fd (s + 1) n (drop 512 buf) f t)

-- A sector of the run holds its part of the buffer.
pub put_run_inside :
    (old : ℕ → ℕ → List ℕ) (fd s n i : ℕ) (buf : List ℕ)
    → i < n
    → put_run old fd s n buf fd (s + i) ≡ take 512 (drop (i * 512) buf)
unfolding put_run
put_run_inside old fd s zero i buf h = absurd (omega arith)
put_run_inside old fd s (suc n) zero buf h = ground (arith)
put_run_inside old fd s (suc n) (suc i) buf h = ground (
  arith,
  ap (put_run old fd (s + 1) n (drop 512 buf) fd) (omega_next s i),
  put_run_inside old fd (s + 1) n i (drop 512 buf) (omega arith),
  drop-drop (i * 512) 512 buf,
  ap (λ (k : ℕ). take 512 (drop k buf)) (omega_block i),
)
  where
    omega_next : (a b : ℕ) → a + suc b ≡ a + 1 + b
    omega_next a b = omega arith

    omega_block : (b : ℕ) → 512 + b * 512 ≡ suc b * 512
    omega_block b = omega arith

-- A run depends on its own sectors only.
pub run_ext :
    (d e : Disk) (fd s n : ℕ)
    → ((t : ℕ) → s ≤ t → t < s + n → d.sector fd t ≡ e.sector fd t)
    → run d fd s n ≡ run e fd s n
unfolding run
run_ext d e fd s zero h = refl
run_ext d e fd s (suc n) h =
    ap₂ ◌++◌ (h s (omega arith) (omega arith))
      (run_ext d e fd (s + 1) n (λ t p q. h t (omega arith) (omega arith)))

abbrev pub written : Disk → ℕ → ℕ → ℕ → List ℕ → Disk
written d fd s n buf = record d { sector = put_run d.sector fd s n buf }

pub put_run_first :
    (old : ℕ → ℕ → List ℕ) (fd s n : ℕ) (buf : List ℕ)
    → put_run old fd s (suc n) buf fd s ≡ take 512 buf
unfolding put_run
put_run_first old fd s n buf = ground arith

put_run_later :
    (old : ℕ → ℕ → List ℕ) (fd s n : ℕ) (buf : List ℕ) (t : ℕ)
    → s + 1 ≤ t
    → put_run old fd s (suc n) buf fd t ≡ put_run old fd (s + 1) n (drop 512 buf) fd t
unfolding put_run
put_run_later old fd s n buf t h = ground arith

-- A run read back is the buffer that was written.
pub run-written :
    (d : Disk) (fd s n : ℕ) (buf : List ℕ)
    → length buf ≡ n * 512
    → run (written d fd s n buf) fd s n ≡ buf
unfolding run
run-written d fd s zero [] h = refl
run-written d fd s zero (x ∷ xs) h = absurd (omega arith)
run-written d fd s (suc n) buf h =
    ap₂ ◌++◌ (put_run_first d.sector fd s n buf) (
      run_ext (written d fd s (suc n) buf) (written d fd (s + 1) n (drop 512 buf)) fd (s + 1) n
        (λ t p q. put_run_later d.sector fd s n buf t p)
      ∙ run-written d fd (s + 1) n (drop 512 buf) (omega (arith, length-drop 512 buf)))
    ∙ take-append-drop 512 buf

-- A run away from the written one reads as before.
pub run-written_away :
    (d : Disk) (fd s n : ℕ) (buf : List ℕ) (f t m : ℕ)
    → (f ≢ fd) ⊎ ((t + m ≤ s) ⊎ (s + n ≤ t))
    → run (written d fd s n buf) f t m ≡ run d f t m
run-written_away d fd s n buf f t m h =
    run_ext (written d fd s n buf) d f t m
      (λ u p q. put_run_outside d.sector fd s n buf f u (ground arith))

-- A run that lies before the end is transferred whole.
pub available_whole : (d : Disk) (fd s n : ℕ) → s + n ≤ d.end_sector fd → available d fd s n ≡ n
unfolding available
available_whole d fd s zero h = refl
available_whole d fd s (suc n) h = ground (arith, available_whole d fd (s + 1) n (omega arith))

pub overlay_whole : (xs ys : List ℕ) → length ys ≤ length xs → overlay xs ys ≡ xs
unfolding overlay
overlay_whole [] [] h = refl
overlay_whole [] (y ∷ ys) h = absurd (omega arith)
overlay_whole (x ∷ xs) [] h = ap (◌∷◌ x) (overlay_whole xs [] (omega arith))
overlay_whole (x ∷ xs) (y ∷ ys) h = ap (◌∷◌ x) (overlay_whole xs ys (omega arith))

-- A write changes what sectors hold, not where the device ends nor which sectors fail.
pub available-written :
    (d : Disk) (fd s n : ℕ) (buf : List ℕ) (f t m : ℕ)
    → available (written d fd s n buf) f t m ≡ available d f t m
unfolding available
available-written d fd s n buf f t zero = refl
available-written d fd s n buf f t (suc m) =
    ap (λ (k : ℕ). if ltb t (d.end_sector f) then k + 1 else 0)
      (available-written d fd s n buf f (t + 1) m)

pub run_faulty-written :
    (d : Disk) (fd s n : ℕ) (buf : List ℕ) (f t m : ℕ)
    → run_faulty (written d fd s n buf) f t m ≡ run_faulty d f t m
unfolding run_faulty
run_faulty-written d fd s n buf f t zero = refl
run_faulty-written d fd s n buf f t (suc m) =
    ap (λ (b : Bool). d.faulty f t || b) (run_faulty-written d fd s n buf f (t + 1) m)

-- Whole transfers of a run that lies on the device and has no bad sector.
module _ (d : Disk) (fd s n : ℕ) (buf : List ℕ) (on_device : s + n ≤ d.end_sector fd)
    (healthy : run_faulty d fd s n ≡ false) where
  pub os_read_whole : os_read d fd buf s n ≡ (ret (n * 512), overlay (run d fd s n) buf)
  unfolding os_read
  os_read_whole = rw (available_whole d fd s n on_device, healthy)

  pub os_write_whole : os_write d fd buf s n ≡ (ret (n * 512), written d fd s n buf)
  unfolding os_write
  os_write_whole = rw (available_whole d fd s n on_device, healthy)

-- A write changes the disk by the sectors that it reports, or not at all.
pub os_write_cases :
    (d : Disk) (fd : ℕ) (buf : List ℕ) (s n : ℕ)
    → (os_write d fd buf s n ≡ (err eio, d))
      ⊎ (os_write d fd buf s n
          ≡ (ret (available d fd s n * 512), written d fd s (available d fd s n) buf))
unfolding os_write
os_write_cases d fd buf s n = elim (Bool-cases (run_faulty d fd s (available d fd s n))) [
  | inl bad ↦ inl (rw bad)
  | inr fine ↦ inr (rw fine)
]

pub available-le : (d : Disk) (fd s n : ℕ) → available d fd s n ≤ n
unfolding available
available-le d fd s zero = omega arith
available-le d fd s (suc n) = ground (arith, available-le d fd (s + 1) n)

pub length-run :
    (d : Disk) (fd s n : ℕ)
    → ((t : ℕ) → length (d.sector fd t) ≡ 512)
    → length (run d fd s n) ≡ n * 512
unfolding run
length-run d fd s zero h = refl
length-run d fd s (suc n) h =
    length-append (d.sector fd s) (run d fd (s + 1) n)
    ∙ omega (arith, h s, length-run d fd (s + 1) n h)

-- A read away from a written run gives what it gave before.
pub os_read-written_away :
    (d : Disk) (fd s n : ℕ) (buf : List ℕ) (f : ℕ) (old : List ℕ) (t m : ℕ)
    → (f ≢ fd) ⊎ ((t + m ≤ s) ⊎ (s + n ≤ t))
    → os_read (written d fd s n buf) f old t m ≡ os_read d f old t m
unfolding os_read
os_read-written_away d fd s n buf f old t m h = rw (
  available-written d fd s n buf f t m,
  run_faulty-written d fd s n buf f t (available d f t m),
  run-written_away d fd s n buf f t (available d f t m) (ground (arith, available-le d f t m)),
)
