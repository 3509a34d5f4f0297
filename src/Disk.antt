-- ===== src/Disk.antt =====
-- The devices behind the file descriptors, as lib/readwrite.c uses them by `lseek64`, `read` and
-- `write` (the C library and the system call interface): sectors of 512 bytes, an end, and sectors
-- on which a transfer fails.
pub mod Laws
use tivo_tools.Base.{ℕ, zero, suc, ◌+◌, ◌*◌, List, [], ◌∷◌, ◌++◌, Bool, true, false, ◌&&◌, ◌||◌}
use tivo_tools.Base.{ltb, leb, ◌==◌, if◌then◌else◌, take, drop}

-- `errno`, where the code sets or reports it.
pub data Errno : Type 0 where
  eio eperm : Errno

-- What `int` functions of the I/O layer return: -1 with `errno`, or a count of bytes.
pub data Ret : Type 0 where
  err : Errno → Ret
  ret : ℕ → Ret

-- The caller's test `... != count`, turned round.
abbrev pub is_ret : Ret → ℕ → Bool
is_ret (err e) n = false
is_ret (ret m) n = m == n

abbrev pub is_err : Ret → Bool
is_err (err e) = true
is_err (ret n) = false

-- What a sector holds, by file descriptor; where the device ends; where a transfer fails.
pub record Disk : Type 0 where
  pub sector : ℕ → ℕ → List ℕ
  pub end_sector : ℕ → ℕ
  pub faulty : ℕ → ℕ → Bool

-- A run of sectors as bytes.
unfoldable pub run : Disk → ℕ → ℕ → ℕ → List ℕ
run d fd s zero = []
run d fd s (suc n) = d.sector fd s ++ run d fd (s + 1) n

-- Does a transfer of a run fail?
unfoldable pub run_faulty : Disk → ℕ → ℕ → ℕ → Bool
run_faulty d fd s zero = false
run_faulty d fd s (suc n) = d.faulty fd s || run_faulty d fd (s + 1) n

-- How many of `n` sectors from `s` stand before the end: a transfer stops there.
unfoldable pub available : Disk → ℕ → ℕ → ℕ → ℕ
available d fd s zero = 0
available d fd s (suc n) = if ltb s (d.end_sector fd) then available d fd (s + 1) n + 1 else 0

-- New bytes over the front of a buffer.
unfoldable pub overlay : List ℕ → List ℕ → List ℕ
overlay [] old = old
overlay (x ∷ xs) [] = x ∷ overlay xs []
overlay (x ∷ xs) (y ∷ ys) = x ∷ overlay xs ys

-- `lseek64` to a sector and `read` of whole sectors: the result and the buffer.
unfoldable pub os_read : Disk → ℕ → List ℕ → ℕ → ℕ → Ret × List ℕ
os_read d fd buf s n =
    let m = available d fd s n in
    if run_faulty d fd s m then (err eio, buf) else (ret (m * 512), overlay (run d fd s m) buf)

-- The sectors of a buffer laid over a device from sector `s` on.
unfoldable pub put_run : (ℕ → ℕ → List ℕ) → ℕ → ℕ → ℕ → List ℕ → ℕ → ℕ → List ℕ
put_run old fd s zero buf f t = old f t
put_run old fd s (suc n) buf f t =
    let rest = put_run old fd (s + 1) n (drop 512 buf) f t in
    if f == fd && t == s then take 512 buf else rest

-- `lseek64` and `write` of whole sectors.
unfoldable pub os_write : Disk → ℕ → List ℕ → ℕ → ℕ → Ret × Disk
os_write d fd buf s n =
    let m = available d fd s n in
    if run_faulty d fd s m
    then (err eio, d)
    else (ret (m * 512), record d { sector = put_run d.sector fd s m buf })
