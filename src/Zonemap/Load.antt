-- ===== src/Zonemap/Load.antt =====
-- The loading of the chain of zone maps that starts in the volume header.
use tivo_tools.Base.{ℕ, zero, suc, ◌<◌, ◌≡◌, refl, sym, ap, ◌∙◌, arith}
use tivo_tools.Base.{List, [], ◌∷◌, ◌++◌, Bool, true, false, leb, if◌then◌else◌, Option, none, some}
use tivo_tools.Base.{length, inl, inr, Bool-cases}
use mathlib.Core.Path.{subst}
use mathlib.Core.List.{append_assoc, append-nil}
use tivo_tools.Format.Zone
use tivo_tools.Format.Header
use tivo_tools.Disk.{Disk}
use tivo_tools.Volume.{VolumeHandle}
use tivo_tools.Zonemap.{
  MfsHandle, MfsError, maps_of, zt_max, ZoneMapPtr, ptr_at, ends_chain, mfs_load_zone_map,
}
use tivo_tools.Zonemap.{
  link_map, Loading, done, looping, Round, stop, go_on, take_map, load_round, load_loop,
}
use tivo_tools.Zonemap.{mfs_load_zone_maps, empty_head, mfs_cleanup_zone_maps}
use tivo_tools.Zonemap.Loaded.{IsLinked, link_map-IsLinked, type_of}

-- What holds of the handle at the end of a loading, or of a round.
abbrev pub Ends : (MfsHandle → Type 0) → Loading → Type 0
Ends p (done r hnd) = p hnd
Ends p looping = Unit

abbrev EndsRound : (MfsHandle → Type 0) → Round → Type 0
EndsRound p (stop r hnd) = p hnd
EndsRound p (go_on ptr hnd) = p hnd

-- What errors and one more map keep, a loading keeps.
module _ (p : MfsHandle → Type 0)
    (on_error : (hnd : MfsHandle) (e : Option MfsError) → p hnd → p (record hnd { err_msg = e }))
    (on_link : (hnd : MfsHandle) (m : List ℕ) → p hnd → p (link_map hnd m)) where
  take_map_keeps : (hnd : MfsHandle) (o : Option (List ℕ)) → p hnd → EndsRound p (take_map hnd o)
  unfolding take_map
  take_map_keeps hnd none l = on_error hnd _ l
  take_map_keeps hnd (some m) l = elim (Bool-cases (leb zt_max (type_of m))) [
    | inl bad ↦ rw bad (on_error hnd _ l)
    | inr good ↦ rw good (on_link hnd m l)
  ]

  load_round_keeps :
      (d : Disk) (ptr : ZoneMapPtr) (hnd : MfsHandle) → p hnd → EndsRound p (load_round d ptr hnd)
  unfolding load_round
  load_round_keeps d ptr hnd l = elim (Bool-cases (ends_chain ptr)) [
    | inl ends ↦ rw ends l
    | inr more ↦ rw more (take_map_keeps hnd (mfs_load_zone_map d hnd.vols ptr) l)
  ]

  load_loop_keeps :
      (fuel : ℕ) (d : Disk) (ptr : ZoneMapPtr) (hnd : MfsHandle)
      → p hnd
      → Ends p (load_loop fuel d ptr hnd)
  unfolding load_loop
  load_loop_keeps zero d ptr hnd l = tt
  load_loop_keeps (suc fuel) d ptr hnd l =
      go (load_round d ptr hnd) (load_round_keeps d ptr hnd l) (load_loop_keeps fuel d)
    where
      go :
          (r : Round)
          → EndsRound p r
          → ((q : ZoneMapPtr) (h : MfsHandle) → p h → Ends p (load_loop fuel d q h))
          → Ends p
              (elim r as (λ x. Loading) [ stop c h ↦ done c h | go_on q h ↦ load_loop fuel d q h ])
      go (stop c h) k rec = k
      go (go_on q h) k rec = rec q h k

error-IsLinked :
    (hnd : MfsHandle) (e : Option MfsError) → IsLinked hnd → IsLinked (record hnd { err_msg = e })
unfolding maps_of
error-IsLinked hnd e l = record {
  in_range = l.in_range;
  lists = l.lists;
  sizes = l.sizes;
  frees = l.frees;
}

start_of_load : MfsHandle → MfsHandle
start_of_load hnd = record (mfs_cleanup_zone_maps hnd) { zones = λ t. empty_head }

start-IsLinked : (hnd : MfsHandle) → IsLinked (start_of_load hnd)
unfolding start_of_load mfs_cleanup_zone_maps maps_of
start-IsLinked hnd = record {
  in_range = λ t. tt;
  lists = λ t. refl;
  sizes = λ t. refl;
  frees = λ t. refl;
}

-- However the loading of the zone maps ends, in success or in an error, the lists by type and their
-- totals go with the maps that were loaded.
pub load_zone_maps-IsLinked :
    (fuel : ℕ) (d : Disk) (hnd : MfsHandle) → Ends IsLinked (mfs_load_zone_maps fuel d hnd)
unfolding mfs_load_zone_maps start_of_load
load_zone_maps-IsLinked fuel d hnd =
    load_loop_keeps IsLinked error-IsLinked link_map-IsLinked fuel d
      (ptr_at hnd.vol_hdr Header.zonemap) (start_of_load hnd) (start-IsLinked hnd)

-- The header and the volumes are those of a handle.
abbrev pub Keeps : MfsHandle → MfsHandle → Type 0
Keeps before hnd = (hnd.vol_hdr ≡ before.vol_hdr) × (hnd.vols ≡ before.vols)

pub load_zone_maps-Keeps :
    (fuel : ℕ) (d : Disk) (hnd : MfsHandle) → Ends (Keeps hnd) (mfs_load_zone_maps fuel d hnd)
unfolding mfs_load_zone_maps mfs_cleanup_zone_maps link_map
load_zone_maps-Keeps fuel d hnd =
    load_loop_keeps (Keeps hnd) (λ h e l. l) (λ h m l. l) fuel d (ptr_at hnd.vol_hdr Header.zonemap)
      _ (refl, refl)

-- The chain of zone maps that a pointer starts: each is loaded from its sectors or its backup, has a
-- known type and holds the next pointer.
pub data Chain (d : Disk) (vols : VolumeHandle) : ZoneMapPtr → List (List ℕ) → Type 0 where
  chain_end : {p : ZoneMapPtr} → ends_chain p ≡ true → Chain d vols p []
  chain_link :
      {p : ZoneMapPtr} {m : List ℕ} {ms : List (List ℕ)}
      → ends_chain p ≡ false
      → mfs_load_zone_map d vols p ≡ some m
      → type_of m < 3
      → Chain d vols (ptr_at m Zone.next) ms
      → Chain d vols p (m ∷ ms)

-- What the handle is after a chain.
pub record LoadedAll (fuel : ℕ) (d : Disk) (ptr : ZoneMapPtr) (hnd : MfsHandle) (ms : List (List ℕ))
    : Type 0 where
  pub after : MfsHandle
  pub ends : load_loop fuel d ptr hnd ≡ done (some (length after.loaded_zones)) after
  pub maps : after.loaded_zones ≡ hnd.loaded_zones ++ ms
  pub same_header : after.vol_hdr ≡ hnd.vol_hdr
  pub same_volumes : after.vols ≡ hnd.vols

round_ends :
    (d : Disk) (p : ZoneMapPtr) (hnd : MfsHandle)
    → ends_chain p ≡ true
    → load_round d p hnd ≡ stop (some (length hnd.loaded_zones)) hnd
unfolding load_round
round_ends d p hnd e = rw e

round_links :
    (d : Disk) (p : ZoneMapPtr) (hnd : MfsHandle) (m : List ℕ)
    → ends_chain p ≡ false
    → mfs_load_zone_map d hnd.vols p ≡ some m
    → type_of m < 3
    → load_round d p hnd ≡ go_on (ptr_at m Zone.next) (link_map hnd m)
unfolding load_round take_map
round_links d p hnd m e found typed =
    ap
      (λ (b : Bool).
        if b
        then stop (some (length hnd.loaded_zones)) hnd
        else take_map hnd (mfs_load_zone_map d hnd.vols p))
      e
    ∙ ap (take_map hnd) found
    ∙ ground arith

loop_stops :
    (fuel : ℕ) (d : Disk) (p : ZoneMapPtr) (hnd : MfsHandle) {r : Option ℕ} {h : MfsHandle}
    → load_round d p hnd ≡ stop r h
    → load_loop (suc fuel) d p hnd ≡ done r h
unfolding load_loop
loop_stops fuel d p hnd e = ground arith

loop_goes_on :
    (fuel : ℕ) (d : Disk) (p : ZoneMapPtr) (hnd : MfsHandle) {q : ZoneMapPtr} {h : MfsHandle}
    → load_round d p hnd ≡ go_on q h
    → load_loop (suc fuel) d p hnd ≡ load_loop fuel d q h
unfolding load_loop
loop_goes_on fuel d p hnd e = ground arith

load_loop-Chain :
    (fuel : ℕ) (d : Disk) (vols : VolumeHandle) {ptr : ZoneMapPtr} {ms : List (List ℕ)}
    (hnd : MfsHandle)
    → hnd.vols ≡ vols
    → Chain d vols ptr ms
    → length ms < fuel
    → LoadedAll fuel d ptr hnd ms
load_loop-Chain zero d vols hnd e c h = absurd (omega arith)
load_loop-Chain (suc fuel) d vols hnd e (chain_end {p = p} ends) h = record {
  after = hnd;
  ends = loop_stops fuel d p hnd (round_ends d p hnd ends);
  maps = sym (append-nil hnd.loaded_zones);
  same_header = refl;
  same_volumes = refl;
}
load_loop-Chain (suc fuel) d vols hnd e (chain_link {p = p} {m = m} {ms = ms} more found typed rest)
      h =
    linked (load_loop-Chain fuel d vols (link_map hnd m) (unfold link_map in e) rest (omega arith))
  where
    linked :
        LoadedAll fuel d (ptr_at m Zone.next) (link_map hnd m) ms
        → LoadedAll (suc fuel) d p hnd (m ∷ ms)
    linked r = record {
      after = r.after;
      ends =
          loop_goes_on fuel d p hnd (
            round_links d p hnd m more
              (ap (λ (v : VolumeHandle). mfs_load_zone_map d v p) e ∙ found) typed)
          ∙ r.ends;
      maps = r.maps ∙ unfold link_map in append_assoc hnd.loaded_zones (m ∷ []) ms;
      same_header = unfold link_map in r.same_header;
      same_volumes = unfold link_map in r.same_volumes;
    }

-- A chain of zone maps is loaded to its end, given fuel for its maps and the end: the result is their
-- number, the handle holds them in the order of the chain, each in the list of its type and counted
-- in its totals, and the header and the volumes are unchanged.
pub load_zone_maps-Chain :
    (fuel : ℕ) (d : Disk) (hnd : MfsHandle) (ms : List (List ℕ))
    → Chain d hnd.vols (ptr_at hnd.vol_hdr Header.zonemap) ms
    → length ms < fuel
    → (hnd' : MfsHandle) × (mfs_load_zone_maps fuel d hnd ≡ done (some (length ms)) hnd')
      × (hnd'.loaded_zones ≡ ms)
      × IsLinked hnd'
      × (hnd'.vol_hdr ≡ hnd.vol_hdr)
      × (hnd'.vols ≡ hnd.vols)
unfolding mfs_load_zone_maps start_of_load mfs_cleanup_zone_maps
load_zone_maps-Chain fuel d hnd ms c h = (
  r.after,
  result,
  r.maps,
  subst (Ends IsLinked) result (load_zone_maps-IsLinked fuel d hnd),
  r.same_header,
  r.same_volumes,
)
  where
    r : LoadedAll fuel d (ptr_at hnd.vol_hdr Header.zonemap) (start_of_load hnd) ms
    r = load_loop-Chain fuel d hnd.vols (start_of_load hnd) refl c h

    result : mfs_load_zone_maps fuel d hnd ≡ done (some (length ms)) r.after
    result = r.ends ∙ ap (λ (l : List (List ℕ)). done (some (length l)) r.after) r.maps
