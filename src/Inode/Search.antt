-- ===== src/Inode/Search.antt =====
-- The search for an inode by its fsid in lib/inode.c: it ends, and it gives the inode asked for.
use tivo_tools.Base.{
  ℕ, zero, suc, ◌+◌, ◌-◌, ◌%◌, ◌^◌, ◌<◌, ◌≡◌, ◌≢◌, ◌⊎◌, inl, inr, refl, sym, ap, ◌∙◌, arith,
}
use tivo_tools.Base.{List, true, false, not, ◌&&◌, ◌==◌, Option, none, some, bit_and, Bool-cases}
use tivo_tools.Base.Memory.{add32, sub32, mul32, field}
use tivo_tools.Base.Bits.{bit_and_mask, pow_pos}
use native.Mathlib.Nat.{mod-lt, mod-eq_of_lt, mod_self}
use native.Mathlib.Decide.{dec_lt}
use tivo_tools.Disk.{Disk}
use tivo_tools.Format.Inode
use tivo_tools.Zonemap.{MfsHandle, mfs_inode_count}
use tivo_tools.Inode.{
  checked, is_chained, hash_of, following, found, endless, judge, Probe, ends, next,
}
use tivo_tools.Inode.{probe, fsid_loop, mfs_read_inode, mfs_read_inode_by_fsid}
use tivo_tools.Inode.Read.{read_inode_checked}

-- A count that is a power of two, below 2 ^ 32.
abbrev pub IsPower : ℕ → ℕ → Type 0
IsPower k count = (count ≡ 2 ^ k) × (count < 2 ^ 32)

below_mask : (k a : ℕ) → 2 ^ k < 2 ^ 32 → bit_and a (sub32 (2 ^ k) 1) ≡ a % 2 ^ k
below_mask k a h = ap (bit_and a) (minus_one (2 ^ k) h (pow_pos k)) ∙ bit_and_mask k a
  where
    minus_one : (c : ℕ) → c < 2 ^ 32 → 0 < c → sub32 c 1 ≡ c - 1
    minus_one c small pos = omega arith

hash_of-lt : (k count fsid : ℕ) → IsPower k count → hash_of count fsid < count
unfolding hash_of
hash_of-lt k count fsid (e, h) =
    rw (e, below_mask k (mul32 fsid 0x106d9) (rw e at h)) (mod-lt (mul32 fsid 0x106d9) (pow_pos k))

mod_step :
    (c a : ℕ) → a < c → ((a + 1 < c) × ((a + 1) % c ≡ a + 1)) ⊎ ((a + 1 ≡ c) × ((a + 1) % c ≡ 0))
mod_step c a h = elim (dec_lt (a + 1) c) [
  | yes less ↦ inl (less, mod-eq_of_lt less)
  | no more ↦ inr (omega arith, ap (λ (t : ℕ). t % c) (omega arith) ∙ mod_self c)
]

-- The inode after another is the next number, or 0 after the last.
pub following_cases :
    (k count a : ℕ)
    → IsPower k count
    → a < count
    → ((a + 1 < count) × (following count a ≡ a + 1)) ⊎ ((a + 1 ≡ count) × (following count a ≡ 0))
unfolding following
following_cases k count a (e, h) l =
    rw
      (
        ap (bit_and (add32 a 1)) (ap (λ (c : ℕ). sub32 c 1) e)
            ∙ below_mask k (add32 a 1) (rw e at h)
            ∙ ap (λ (c : ℕ). add32 a 1 % c) (sym e),
        no_wrap,
      )
      (mod_step count a l)
  where
    no_wrap : add32 a 1 ≡ a + 1
    no_wrap = omega arith

-- A round that goes on has not come back to the first inode.
probe_next :
    (count fsid base inode i : ℕ) (o : Option (List ℕ))
    → probe count fsid base inode o ≡ next i
    → (i ≡ following count inode) × (i ≢ base)
unfolding probe
probe_next count fsid base inode i none e = absurd cc
probe_next count fsid base inode i (some cur) e =
    elim (Bool-cases (
      not (field cur Inode.fsid == fsid)
      && (is_chained cur && not (following count inode == base)))) [
        | inl on ↦ ground arith
        | inr off ↦ absurd (stopped off)
      ]
  where
    stopped :
        (not (field cur Inode.fsid == fsid)
            && (is_chained cur && not (following count inode == base)))
          ≡ false
        → ⊥
    stopped off = cc

probe_ends :
    (count fsid base inode : ℕ) (o : Option (List ℕ)) → probe count fsid base inode o ≢ ends endless
unfolding probe judge
probe_ends count fsid base inode none e = cc
probe_ends count fsid base inode (some cur) e = ground arith

module _ (d : Disk) (hnd : MfsHandle) (fsid : ℕ) (k : ℕ) (p : IsPower k (mfs_inode_count hnd))
    (base : ℕ) (b : base < mfs_inode_count hnd) where
  -- The inode of a round that is `j` rounds after the first.
  abbrev At : ℕ → ℕ → Type 0
  At j inode = (inode ≡ base + j) ⊎ (inode + mfs_inode_count hnd ≡ base + j)

  -- The next round, before the first inode comes again.
  advance :
      (fuel j inode i : ℕ)
      → suc fuel + j ≡ mfs_inode_count hnd
      → At j inode
      → ((inode + 1 < mfs_inode_count hnd) × (i ≡ inode + 1))
        ⊎ ((inode + 1 ≡ mfs_inode_count hnd) × (i ≡ 0))
      → i ≢ base
      → (i < mfs_inode_count hnd) × (0 < fuel) × At (suc j) i
  advance fuel j inode i e (inl q) (inl (less, s)) back =
      (omega arith, omega arith, inl (omega arith))
  advance fuel j inode i e (inl q) (inr (last, s)) back =
      (omega arith, some_left, inr (omega arith))
    where
      some_left : 0 < fuel
      some_left = elim (dec_lt 0 fuel) [ yes l ↦ l | no l ↦ absurd (back (omega arith)) ]
  advance fuel j inode i e (inr q) (inl (less, s)) back =
      (omega arith, some_left, inr (omega arith))
    where
      some_left : 0 < fuel
      some_left = elim (dec_lt 0 fuel) [ yes l ↦ l | no l ↦ absurd (back (omega arith)) ]
  advance fuel j inode i e (inr q) (inr (last, s)) back = absurd (omega arith)

  step_cases :
      (inode i : ℕ)
      → inode < mfs_inode_count hnd
      → i ≡ following (mfs_inode_count hnd) inode
      → ((inode + 1 < mfs_inode_count hnd) × (i ≡ inode + 1))
        ⊎ ((inode + 1 ≡ mfs_inode_count hnd) × (i ≡ 0))
  step_cases inode i l s = elim (following_cases k (mfs_inode_count hnd) inode p l) [
    | inl (less, up) ↦ inl (less, s ∙ up)
    | inr (last, z) ↦ inr (last, s ∙ z)
  ]

  round_ends :
      (fuel j inode : ℕ)
      → suc fuel + j ≡ mfs_inode_count hnd
      → inode < mfs_inode_count hnd
      → At j inode
      → ((i : ℕ)
          → (i < mfs_inode_count hnd) × (0 < fuel) × At (suc j) i
          → fsid_loop fuel d hnd fsid base i ≢ endless)
      → (r : Probe) → probe (mfs_inode_count hnd) fsid base inode (mfs_read_inode d hnd inode).0 ≡ r
      → elim r [ ends q ↦ q | next i ↦ fsid_loop fuel d hnd fsid base i ] ≢ endless
  round_ends fuel j inode e l at_j rest (ends q) is = λ eq.
      probe_ends (mfs_inode_count hnd) fsid base inode (mfs_read_inode d hnd inode).0
        (is ∙ ap ends eq)
  round_ends fuel j inode e l at_j rest (next i) is =
      let (step, back) =
        probe_next (mfs_inode_count hnd) fsid base inode i (mfs_read_inode d hnd inode).0 is in
      rest i (advance fuel j inode i e at_j (step_cases inode i l step) back)

  fsid_loop_ends :
      (fuel j inode : ℕ)
      → fuel + j ≡ mfs_inode_count hnd
      → (inode < mfs_inode_count hnd) × (0 < fuel) × At j inode
      → fsid_loop fuel d hnd fsid base inode ≢ endless
  unfolding fsid_loop
  fsid_loop_ends zero j inode e (l, pos, at_j) = absurd (omega arith)
  fsid_loop_ends (suc fuel) j inode e (l, pos, at_j) =
      round_ends fuel j inode e l at_j (λ i. fsid_loop_ends fuel (suc j) i (omega arith)) _ refl

-- Where the number of inodes is a power of two, below 2 ^ 32, the search for an fsid ends: no more
-- rounds than inodes are made, whatever the inodes hold.
pub read_inode_by_fsid_ends :
    (d : Disk) (hnd : MfsHandle) (fsid k : ℕ)
    → IsPower k (mfs_inode_count hnd)
    → mfs_read_inode_by_fsid d hnd fsid ≢ endless
unfolding mfs_read_inode_by_fsid
read_inode_by_fsid_ends d hnd fsid k p =
    fsid_loop_ends d hnd fsid k p base below (mfs_inode_count hnd) 0 base (omega arith)
      (below, omega (arith, below), inl (omega arith))
  where
    base : ℕ
    base = hash_of (mfs_inode_count hnd) fsid

    below : base < mfs_inode_count hnd
    below = hash_of-lt k (mfs_inode_count hnd) fsid p

-- What a found inode is.
abbrev pub IsFound : Disk → MfsHandle → ℕ → List ℕ → Type 0
IsFound d hnd fsid cur =
    (field cur Inode.fsid ≡ fsid)
    × (field cur Inode.refcount ≢ 0)
    × (i : ℕ) × ((mfs_read_inode d hnd i).0 ≡ some cur)

probe_found :
    (count fsid base inode : ℕ) (o : Option (List ℕ)) (cur : List ℕ)
    → probe count fsid base inode o ≡ ends (found cur)
    → (o ≡ some cur) × (field cur Inode.fsid ≡ fsid) × (field cur Inode.refcount ≢ 0)
unfolding probe judge
probe_found count fsid base inode none cur e = absurd cc
probe_found count fsid base inode (some c) cur e = ground arith

round_found :
    (d : Disk) (hnd : MfsHandle) (fsid base fuel inode : ℕ) (cur : List ℕ)
    → ((i : ℕ) → fsid_loop fuel d hnd fsid base i ≡ found cur → IsFound d hnd fsid cur)
    → (r : Probe) → probe (mfs_inode_count hnd) fsid base inode (mfs_read_inode d hnd inode).0 ≡ r
    → elim r [ ends q ↦ q | next i ↦ fsid_loop fuel d hnd fsid base i ] ≡ found cur
    → IsFound d hnd fsid cur
round_found d hnd fsid base fuel inode cur rest (ends q) is e =
    let (o, f, r) = probe_found _ fsid base inode _ cur (is ∙ ap ends e) in (f, r, inode, o)
round_found d hnd fsid base fuel inode cur rest (next i) is e = rest i e

fsid_loop_found :
    (d : Disk) (hnd : MfsHandle) (fsid base fuel inode : ℕ) (cur : List ℕ)
    → fsid_loop fuel d hnd fsid base inode ≡ found cur
    → IsFound d hnd fsid cur
unfolding fsid_loop
fsid_loop_found d hnd fsid base zero inode cur e = absurd cc
fsid_loop_found d hnd fsid base (suc fuel) inode cur e =
    round_found d hnd fsid base fuel inode cur (λ i. fsid_loop_found d hnd fsid base fuel i cur) _
      refl e

-- The inode that the search for an fsid gives has that fsid, is in use, is what some inode number
-- reads as, and has a good checksum.
pub read_inode_by_fsid-IsFound :
    (d : Disk) (hnd : MfsHandle) (fsid : ℕ) (cur : List ℕ)
    → mfs_read_inode_by_fsid d hnd fsid ≡ found cur
    → IsFound d hnd fsid cur × (checked cur ≡ true)
unfolding mfs_read_inode_by_fsid
read_inode_by_fsid-IsFound d hnd fsid cur e = (is, (read_inode_checked d hnd is.2 cur is.3).1)
  where
    is : IsFound d hnd fsid cur
    is = fsid_loop_found d hnd fsid _ _ _ cur e
