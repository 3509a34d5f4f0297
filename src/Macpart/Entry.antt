-- ===== src/Macpart/Entry.antt =====
-- Entries of a partition table of lib/macpart.c, written and read.
use tivo_tools.Base.{ℕ, suc, ◌-◌, ◌/◌, ◌%◌, ◌≤◌, ◌≡◌, refl, ap, ◌∙◌, arith}
use tivo_tools.Base.{
  List, [], ◌∷◌, false, ◌==◌, ◌≢◌, append_assoc, ◌++◌, length, replicate, length-append,
  length-replicate, take_all, drop_front, All-append, All-replicate,
}
use tivo_tools.Base.Memory.{IsWord, IsByte, field, htonl, load32, AllBytes, word}
use tivo_tools.Text.{CString}
use tivo_tools.Mfs.{c_string}
use tivo_tools.AddPair.Listed.{NoZero}
use tivo_tools.Macpart.{
  Partition, half, mac_partition_magic, text_32, big_endian, read_entry, write_entry,
}

-- A partition that an entry can hold.
pub record IsEntry (p : Partition) : Type 0 where
  pub sectors_word : IsWord p.sectors
  pub start_word : IsWord p.start
  pub name_short : length p.name ≤ 31
  pub name_text : NoZero p.name
  pub name_bytes : AllBytes p.name
  pub type_bytes : AllBytes p.ptype
  pub type_short : length p.ptype ≤ 31
  pub type_text : NoZero p.ptype

abbrev part : ℕ → ℕ → CString → CString → Partition
part s t n y = record { sectors = s; start = t; refs = 1; name = n; ptype = y }

htonl_bytes :
    (w : ℕ)
    → IsWord w
    → htonl (word (w / 16777216 % 256) (w / 65536 % 256) (w / 256 % 256) (w % 256)) ≡ w
unfolding htonl
htonl_bytes w h = omega arith

length-text_32 : (s : CString) → length s ≤ 31 → length (text_32 s) ≡ 32
length-text_32 s h = rw (take_all 31 s h) (
    length-append s (replicate (32 - length s) 0)
    ∙ omega (arith, length-replicate {A = ℕ} (32 - length s) 0))

c_string-end : (s r : List ℕ) → NoZero s → c_string (s ++ (0 ∷ r)) ≡ s
unfolding c_string
c_string-end [] r z = refl
c_string-end (c ∷ s) r (nonzero, z) = rw (not_end nonzero) (ap (◌∷◌ c) (c_string-end s r z))
  where
    not_end : c ≢ 0 → (c == 0) ≡ false
    not_end h = ground arith

c_string-text_32 : (s rest : List ℕ) → length s ≤ 31 → NoZero s → c_string (text_32 s ++ rest) ≡ s
c_string-text_32 s rest h z =
    rw (take_all 31 s h, room)
      (ap c_string (append_assoc s (replicate (suc (31 - length s)) 0) rest)
        ∙ c_string-end s (replicate (31 - length s) 0 ++ rest) z)
  where
    room : 32 - length s ≡ suc (31 - length s)
    room = omega arith

pub write_entry-magic :
    (count : ℕ) (p : Partition) → half (write_entry count p) ≡ mac_partition_magic
unfolding write_entry
write_entry-magic count p = refl

pub write_entry-count :
    (count : ℕ) (p : Partition) → IsWord count → field (write_entry count p) 1 ≡ count
unfolding write_entry load32
write_entry-count count p h = htonl_bytes count h

-- An entry is read as it was written, with one reference.
pub read_entry-write_entry :
    (count : ℕ) (p : Partition)
    → IsEntry p
    → read_entry (write_entry count p) ≡ record p { refs = 1 }
unfolding read_entry write_entry load32
read_entry-write_entry count p e =
    entry_ext (htonl_bytes p.sectors e.sectors_word) (htonl_bytes p.start e.start_word)
      (c_string-text_32 p.name _ e.name_short e.name_text)
      (ap c_string (drop_front (text_32 p.name) _ 32 (length-text_32 p.name e.name_short))
        ∙ c_string-text_32 p.ptype _ e.type_short e.type_text)
  where
    entry_ext :
        {s s' t t' : ℕ} {n n' y y' : CString}
        → s ≡ s'
        → t ≡ t'
        → n ≡ n'
        → y ≡ y'
        → part s t n y ≡ part s' t' n' y'
    entry_ext e1 e2 e3 e4 = rw (e1, e2, e3, e4) refl

-- What stands behind the two texts.
abbrev entry_tail : ℕ → List ℕ
entry_tail w = 0 ∷ 0 ∷ 0 ∷ 0 ∷ big_endian w (big_endian 0x33 (replicate 420 0))

pub length-write_entry :
    (count : ℕ) (p : Partition) → IsEntry p → length (write_entry count p) ≡ 512
unfolding write_entry
length-write_entry count p e = omega (
  arith,
  length-append (text_32 p.name) (text_32 p.ptype ++ entry_tail p.sectors),
  length-append (text_32 p.ptype) (entry_tail p.sectors),
  length-text_32 p.name e.name_short,
  length-text_32 p.ptype e.type_short,
  length-replicate {A = ℕ} 420 0,
)

text_32-AllBytes : (s : CString) → length s ≤ 31 → AllBytes s → AllBytes (text_32 s)
text_32-AllBytes s h b = rw (take_all 31 s h) (
    All-append IsByte s (replicate (32 - length s) 0) b
      (All-replicate IsByte (32 - length s) 0 (omega arith)))

big_endian-AllBytes : (w : ℕ) (rest : List ℕ) → AllBytes rest → AllBytes (big_endian w rest)
big_endian-AllBytes w rest h = (omega arith, (omega arith, (omega arith, (omega arith, h))))

entry_tail-AllBytes : (w : ℕ) → AllBytes (entry_tail w)
entry_tail-AllBytes w = big_endian-AllBytes 0 (big_endian w (big_endian 0x33 (replicate 420 0))) (
    big_endian-AllBytes w (big_endian 0x33 (replicate 420 0))
      (big_endian-AllBytes 0x33 (replicate 420 0) (All-replicate IsByte 420 0 (omega arith))))

pub write_entry-AllBytes : (count : ℕ) (p : Partition) → IsEntry p → AllBytes (write_entry count p)
unfolding write_entry
write_entry-AllBytes count p e = (omega arith, (omega arith, (omega arith, (omega arith, words))))
  where
    words : AllBytes (
        big_endian count (
          big_endian p.start
            (big_endian p.sectors (text_32 p.name ++ (text_32 p.ptype ++ entry_tail p.sectors)))))
    words =
        big_endian-AllBytes count
          (big_endian p.start
            (big_endian p.sectors (text_32 p.name ++ (text_32 p.ptype ++ entry_tail p.sectors))))
          (big_endian-AllBytes p.start
            (big_endian p.sectors (text_32 p.name ++ (text_32 p.ptype ++ entry_tail p.sectors)))
            (big_endian-AllBytes p.sectors
              (text_32 p.name ++ (text_32 p.ptype ++ entry_tail p.sectors))
              (All-append IsByte (text_32 p.name) _
                (text_32-AllBytes p.name e.name_short e.name_bytes)
                (All-append IsByte (text_32 p.ptype) _
                  (text_32-AllBytes p.ptype e.type_short e.type_bytes)
                  (entry_tail-AllBytes p.sectors)))))
