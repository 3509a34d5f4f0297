-- ===== src/AddPair/Refused.antt =====
-- When a pair of partitions is refused, and what is then left as it was.
use tivo_tools.Base.{ℕ, ◌+◌, ◌≡◌, refl, ◌∙◌}
use tivo_tools.Base.{Bool, true, false, not, leb, ◌==◌, if◌then◌else◌, Option, none, some, length}
use tivo_tools.Text.{CString}
use tivo_tools.Disk.{Disk}
use tivo_tools.Format.Zone
use tivo_tools.Base.Memory.{field}
use tivo_tools.Volume.{mfsvol_is_writable}
use tivo_tools.Zonemap.{MfsHandle, MfsError, no_volume_space, readonly_set, maps_not_loaded}
use tivo_tools.NewZone.{last_map, default_minalloc}
use tivo_tools.Mfs.{Machine, Status, failed, mfs_partition_list}
use tivo_tools.AddPair.{obstacle, mfs_can_add_volume_pair, mfs_add_volume_pair, try_pair}

module _ (machine : Machine) (d : Disk) (hnd : MfsHandle) (app media : CString) (minalloc : ℕ) where
  add_unless : Option MfsError → Status × MfsHandle × Disk
  add_unless none = try_pair machine d hnd app media (default_minalloc minalloc)
  add_unless (some e) = (failed, record hnd { err_msg = some e }, d)

  -- One test of both functions.
  test :
      (b : Bool) (e : MfsError) (o : Option MfsError) (r : Status × MfsHandle × Disk)
      → r ≡ add_unless o
      → (if b then (failed, record hnd { err_msg = some e }, d) else r)
        ≡ add_unless (if b then some e else o)
  unfolding add_unless
  test true e o r h = refl
  test false e o r h = h

  -- Both functions make the same tests, in the same order.
  same_tests :
      mfs_add_volume_pair machine d hnd app media minalloc ≡ add_unless (obstacle hnd app media)
  unfolding mfs_add_volume_pair obstacle add_unless
  same_tests =
      test (leb 128 (length (mfs_partition_list hnd) + length app + length media + 3))
        no_volume_space _ _
        (test (not (mfsvol_is_writable hnd.vols 0)) readonly_set _ _ (
          test (length hnd.loaded_zones == 0) maps_not_loaded _ _ (
            test (not (mfsvol_is_writable hnd.vols (field (last_map hnd) Zone.sector))) readonly_set
              none _ refl)))

-- Where `mfs_can_add_volume_pair` says no, `mfs_add_volume_pair`, which has tests of its own, fails
-- in the same way: with the handle that `mfs_can_add_volume_pair` gives, and a disk that is not
-- changed.
pub can_add_refuses :
    (machine : Machine) (d : Disk) (hnd : MfsHandle) (app media : CString) (minalloc : ℕ)
    → (mfs_can_add_volume_pair hnd app media).0 ≡ false
    → mfs_add_volume_pair machine d hnd app media minalloc
      ≡ (failed, (mfs_can_add_volume_pair hnd app media).1, d)
unfolding mfs_can_add_volume_pair add_unless
can_add_refuses machine d hnd app media minalloc e =
    same_tests machine d hnd app media minalloc ∙ go (obstacle hnd app media) e
  where
    go :
        (o : Option MfsError)
        → (elim o as (λ x. Bool × MfsHandle) [
          | none ↦ (true, hnd)
          | some e ↦ (false, record hnd { err_msg = some e })
        ]).0
          ≡ false
        → add_unless machine d hnd app media minalloc o ≡ (
          failed,
          (elim o as (λ x. Bool × MfsHandle) [
            | none ↦ (true, hnd)
            | some e ↦ (false, record hnd { err_msg = some e })
          ]).1,
          d,
        )
    go none e = absurd cc
    go (some err) e = refl
