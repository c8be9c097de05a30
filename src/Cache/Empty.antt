-- ===== src/Cache/Empty.antt =====
-- The constructor and `clear` of flat_lru_cache.hpp: an empty cache.
use gdal_warp_bindings.Base.{
  ℕ, zero, suc, ◌≡◌, refl, ap, ◌∙◌, List, ◌∷◌, some, replicate, ◌==◌, if◌then◌else◌, arith,
}
use gdal_warp_bindings.Gdal.{Gdal}
use gdal_warp_bindings.World.{World}
use gdal_warp_bindings.Dataset.{LockedDataset, empty_dataset, close, lock_for_deletion}
use gdal_warp_bindings.Dataset.Moves.{move_assign_lem, destroy_null}
use gdal_warp_bindings.Cache.{
  Slot, Cache, empty_slot, clear_slot, clear_slots, clear, new_cache, create_cache, cache_size,
  copy_cache,
}
use gdal_warp_bindings.Cache.Uses.{uses, IsSized, Bounded}

module _ (gdal : Gdal) where
  clear_slot_empty : (w : World gdal.G) → clear_slot gdal empty_slot w ≡ (empty_slot, w)
  unfolding clear_slot lock_for_deletion close
  clear_slot_empty w =
      let held : LockedDataset = record empty_dataset { mutex = some w.tid } in
      rw
        (
          clear_slot,
          move_assign_lem gdal held empty_dataset w refl refl,
          destroy_null gdal empty_dataset w refl,
        )
        refl

  clear_slots_empty :
      (n : ℕ) (w : World gdal.G)
      → clear_slots gdal (replicate n empty_slot) w ≡ (replicate n empty_slot, w)
  unfolding clear_slots
  clear_slots_empty zero w = refl
  clear_slots_empty (suc n) w =
      ap
        (λ (r : Slot × World gdal.G).
          let q = clear_slots gdal (replicate n empty_slot) r.1 in (r.0 ∷ q.0, q.1))
        (clear_slot_empty w)
      ∙ ap (λ (q : List Slot × World gdal.G). (empty_slot ∷ q.0, q.1)) (clear_slots_empty n w)

  pub create_cache_new : (n : ℕ) (w : World gdal.G) → create_cache gdal n w ≡ (new_cache n, w)
  unfolding create_cache clear new_cache
  create_cache_new n w = rw (create_cache, clear, clear_slots_empty n w) (ground arith)

-- What a copy is.
abbrev pub copied : Cache → Cache
copied c = record {
  slots = replicate c.capacity empty_slot;
  time = c.time;
  capacity = c.capacity;
  size = if c.capacity == 0 then c.size else 0;
}

copy_size : (c : Cache) → cache_size (copied c) ≡ 0
unfolding cache_size
copy_size c = ground arith

module _ (gdal : Gdal) where
  -- A copy holds nothing, whatever was in the original, and has its capacity and its clock.
  pub copy_cache_empty :
      (c : Cache) (w : World gdal.G)
      → (copy_cache gdal c w ≡ (copied c, w)) × (cache_size (copy_cache gdal c w).0 ≡ 0)
  unfolding copy_cache clear cache_size
  copy_cache_empty c w =
      let e = clear_slots_empty gdal c.capacity w in
      let same : copy_cache gdal c w ≡ (copied c, w) = rw (copy_cache, clear, e) refl in
      (same, ap (λ r. cache_size r.0) same ∙ copy_size c)

pub uses-new_cache : (n : ℕ) → Bounded (uses (new_cache n).slots)
unfolding new_cache
uses-new_cache zero = tt
uses-new_cache (suc n) = (omega arith, uses-new_cache n)

pub new_cache-IsSized : (n : ℕ) → IsSized (new_cache n)
unfolding new_cache
new_cache-IsSized zero = refl
new_cache-IsSized (suc n) = ap suc (new_cache-IsSized n)
