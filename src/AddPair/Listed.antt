-- ===== src/AddPair/Listed.antt =====
-- The list of partitions in the header that a new pair of partitions leaves.
use tivo_tools.Base.{
  ℕ, zero, suc, ◌+◌, ◌*◌, ◌≤◌, ◌<◌, ◌≡◌, ◌≢◌, refl, sym, ap, ◌∙◌, arith, List, [], ◌∷◌, ◌++◌,
}
use tivo_tools.Base.{inl, inr, Bool-cases}
use tivo_tools.Base.{
  true, false, ◌==◌, if◌then◌else◌, length, length-append, drop_front, take, drop, All, All-append,
  length-take,
}
use tivo_tools.Base.Memory.{store32}
use tivo_tools.Text.{CString}
use tivo_tools.Crc.{mfs_update_crc}
use tivo_tools.Crc.Check.{check-update}
use tivo_tools.Zonemap.{MfsHandle}
use tivo_tools.Mfs.{c_string, mfs_partition_list}
use tivo_tools.AddPair.{obstacle, new_header}
use tivo_tools.Crc.{mfs_check_crc}
use tivo_tools.Format.Header
use tivo_tools.Base.{none}
use tivo_tools.Base.Memory.{set_field, htonl, length-store32}
use tivo_tools.Base.{length-drop}
use tivo_tools.Volume.{mfsvol_volume_set_size}

-- A text that a C string can hold.
abbrev pub NoZero : CString → Type 0
NoZero = All (λ c. c ≢ 0)

nonzero_test : (b : ℕ) → b ≢ 0 → (b == 0) ≡ false
nonzero_test b h = ground arith

c_string-NoZero : (d : List ℕ) → NoZero (c_string d)
unfolding c_string
c_string-NoZero [] = tt
c_string-NoZero (b ∷ r) = elim (Bool-cases (b == 0)) [
  | inl ends ↦ rw ends tt
  | inr more ↦ rw more ((λ e. absurd (ground arith)), c_string-NoZero r)
]

-- A text that ends inside the first bytes is that of those bytes.
c_string_lem :
    (k : ℕ) (d : List ℕ) → length (c_string (take k d)) < k → c_string d ≡ c_string (take k d)
unfolding c_string
c_string_lem zero d h = absurd (omega arith)
c_string_lem (suc k) [] h = refl
c_string_lem (suc k) (b ∷ r) h = elim (Bool-cases (b == 0)) [
  | inl ends ↦ rw ends
  | inr more ↦ rw more (ap (◌∷◌ b) (c_string_lem k r (shorter more h)))
]
  where
    shorter :
        (b == 0) ≡ false
        → length (if b == 0 then [] else b ∷ c_string (take k r)) < suc k
        → length (c_string (take k r)) < k
    shorter more l =
        let l' : suc (length (c_string (take k r))) < suc k = rw more at l in omega (arith, l')

c_string-take :
    (k : ℕ) (s r : List ℕ) → NoZero s → length s < k → c_string (take k (s ++ (0 ∷ r))) ≡ s
unfolding c_string
c_string-take zero s r h l = absurd (omega arith)
c_string-take (suc k) [] r h l = refl
c_string-take (suc k) (c ∷ s) r h l =
    rw (nonzero_test c h.0) (ap (◌∷◌ c) (c_string-take k s r h.1 (omega arith)))

drop-store32 : (d : List ℕ) (i w k : ℕ) → 4 * i + 4 ≤ k → drop k (store32 d i w) ≡ drop k d
unfolding store32
drop-store32 (a ∷ b ∷ c ∷ e ∷ r) zero w (suc (suc (suc (suc k)))) h = refl
drop-store32 (a ∷ b ∷ c ∷ e ∷ r) (suc i) w (suc (suc (suc (suc k)))) h =
    drop-store32 r i w k (omega arith)
drop-store32 (a ∷ b ∷ c ∷ e ∷ r) i w zero h = absurd (omega arith)
drop-store32 (a ∷ b ∷ c ∷ e ∷ r) i w (suc zero) h = absurd (omega arith)
drop-store32 (a ∷ b ∷ c ∷ e ∷ r) i w (suc (suc zero)) h = absurd (omega arith)
drop-store32 (a ∷ b ∷ c ∷ e ∷ r) i w (suc (suc (suc zero))) h = absurd (omega arith)
drop-store32 _ i w k h = refl

take-store32 : (d : List ℕ) (i w k : ℕ) → k ≤ 4 * i → take k (store32 d i w) ≡ take k d
unfolding store32
take-store32 (a ∷ b ∷ c ∷ e ∷ r) zero w zero h = refl
take-store32 (a ∷ b ∷ c ∷ e ∷ r) zero w (suc k) h = absurd (omega arith)
take-store32 (a ∷ b ∷ c ∷ e ∷ r) (suc i) w zero h = refl
take-store32 (a ∷ b ∷ c ∷ e ∷ r) (suc i) w (suc zero) h = refl
take-store32 (a ∷ b ∷ c ∷ e ∷ r) (suc i) w (suc (suc zero)) h = refl
take-store32 (a ∷ b ∷ c ∷ e ∷ r) (suc i) w (suc (suc (suc zero))) h = refl
take-store32 (a ∷ b ∷ c ∷ e ∷ r) (suc i) w (suc (suc (suc (suc k)))) h =
    ap (λ (x : List ℕ). a ∷ b ∷ c ∷ e ∷ x) (take-store32 r i w k (omega arith))
take-store32 _ i w k h = refl

take-drop : (j k n : ℕ) (d : List ℕ) → n ≡ j + k → take k (drop j d) ≡ drop j (take n d)
take-drop zero k n d h = ap (λ (m : ℕ). take m d) (omega arith)
take-drop (suc j) k zero d h = absurd (omega arith)
take-drop (suc j) zero (suc n) [] h = refl
take-drop (suc j) (suc k) (suc n) [] h = refl
take-drop (suc j) k (suc n) (x ∷ d) h = take-drop j k n d (omega arith)

take_all_lem : (n : ℕ) (xs : List ℕ) → length xs ≤ n → take n xs ≡ xs
take_all_lem zero [] h = refl
take_all_lem zero (x ∷ xs) h = absurd (omega arith)
take_all_lem (suc n) [] h = refl
take_all_lem (suc n) (x ∷ xs) h = ap (◌∷◌ x) (take_all_lem n xs (omega arith))

-- The list of a header whose text at byte 36 is written over, and then a word behind the list and one
-- in front of it.
list_of_written :
    (front s rest : List ℕ) (v w : ℕ)
    → length front ≡ 36
    → NoZero s
    → length s < 128
    → c_string (drop 36 (store32 (store32 (front ++ (s ++ (0 ∷ rest))) 41 w) 2 v)) ≡ s
list_of_written front s rest v w l h small =
    ap c_string (drop-store32 (store32 listed 41 w) 2 v 36 (omega arith))
    ∙ c_string_lem 128 (drop 36 (store32 listed 41 w)) (rw same small)
    ∙ same
  where
    listed : List ℕ
    listed = front ++ (s ++ (0 ∷ rest))

    same : c_string (take 128 (drop 36 (store32 listed 41 w))) ≡ s
    same =
        ap c_string (
          take-drop 36 128 164 (store32 listed 41 w) (omega arith)
          ∙ ap (drop 36) (take-store32 listed 41 w 164 (omega arith))
          ∙ sym (take-drop 36 128 164 listed (omega arith))
          ∙ ap (take 128) (drop_front front (s ++ (0 ∷ rest)) 36 l))
        ∙ c_string-take 128 s rest h small

-- The header that a pair of partitions leaves, where nothing stands in the way of adding it and the
-- header before has its 232 bytes: its list is the list before with both names behind it, a space
-- in front of each, and its checksum is good.
pub new_header_lists :
    (hnd : MfsHandle) (app media : CString)
    → obstacle hnd app media ≡ none
    → NoZero app
    → NoZero media
    → length hnd.vol_hdr ≡ 232
    → (mfs_partition_list (record hnd { vol_hdr = new_header hnd app media })
        ≡ mfs_partition_list hnd ++ ((32 ∷ app) ++ (32 ∷ media)))
      × (mfs_check_crc (new_header hnd app media) 232 2 ≡ true)
unfolding mfs_partition_list new_header mfs_update_crc
new_header_lists hnd app media free ha hm l = (
  rw cut (list_of_written front names _ _ _ front_36 clean (omega (arith, room, lengths))),
  check-update stamped 232 2 (omega (arith, whole)) (omega (arith, whole)),
)
  where
    before : CString
    before = c_string (drop 36 hnd.vol_hdr)

    names : CString
    names = before ++ ((32 ∷ app) ++ (32 ∷ media))

    front : List ℕ
    front = take 36 hnd.vol_hdr

    front_36 : length front ≡ 36
    front_36 = omega (arith, length-take 36 hnd.vol_hdr)

    lengths : length names ≡ length before + length app + length media + 2
    lengths =
        let whole : length names ≡ length before + suc (length (app ++ (32 ∷ media))) =
          length-append before ((32 ∷ app) ++ (32 ∷ media)) in
        let tail : length (app ++ (32 ∷ media)) ≡ length app + suc (length media) =
          length-append app (32 ∷ media) in
        omega (arith, whole, tail)

    room : length before + length app + length media + 3 < 128
    room = unfold obstacle in ground arith

    cut : take 127 names ≡ names
    cut = take_all_lem 127 names (omega (arith, room, lengths))

    clean : NoZero names
    clean =
        All-append (λ c. c ≢ 0) before ((32 ∷ app) ++ (32 ∷ media))
          (c_string-NoZero (drop 36 hnd.vol_hdr))
          (
            (λ e. absurd (omega (arith, e))),
            All-append (λ c. c ≢ 0) app (32 ∷ media) ha ((λ e. absurd (omega (arith, e))), hm),
          )

    short : List ℕ
    short = take 127 names

    tail : List ℕ
    tail = drop (36 + length short + 1) hnd.vol_hdr

    listed : List ℕ
    listed = front ++ (short ++ (0 ∷ tail))

    stamped : List ℕ
    stamped = set_field listed Header.total_sectors (mfsvol_volume_set_size hnd.vols)

    whole : length stamped ≡ 232
    whole = omega (
      arith,
      length-store32 listed Header.total_sectors (htonl (mfsvol_volume_set_size hnd.vols)),
      length-append front (short ++ (0 ∷ tail)),
      length-append short (0 ∷ tail),
      length-drop (36 + length short + 1) hnd.vol_hdr,
      length-take 127 names,
      front_36,
    )
