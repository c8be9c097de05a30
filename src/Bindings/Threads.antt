-- ===== src/Bindings/Threads.antt =====
-- Several threads on one cache: the calls of bindings.cpp interleave between the two locked parts of
-- `get` in flat_lru_cache.hpp, the queries on the datasets, and `dec`.
pub mod Counts
use gdal_warp_bindings.Base.{
  true, ℕ, ◌+◌, ◌≡◌, List, [], ◌∷◌, ◌++◌, some, get_elem?, update, String,
}
use gdal_warp_bindings.Types.{UriOptions, uri_options_hash}
use gdal_warp_bindings.Gdal.{Gdal}
use gdal_warp_bindings.World.{World}
use gdal_warp_bindings.Dataset.{dec, inc}
use gdal_warp_bindings.Dataset.Queries.Protocol.{Query, perform}
use gdal_warp_bindings.Cache.{
  tick, holds, Slot, Cache, update_value, find_all, insert_one, new_cache,
}

-- The cache with the pointers that the calls of all threads hold, as indices of slots.
pub record Shared : Type 0 where
  pub cache : Cache
  pub held : List ℕ

-- The part of `get` under the lock for reading.
unfoldable pub after_finds : (String → ℕ) → UriOptions → Shared → Shared
after_finds string_hash key s =
    let r = find_all (uri_options_hash string_hash key) key 0 s.cache.time s.cache.slots in
    record { cache = record s.cache { slots = r.0; time = r.2 }; held = s.held ++ r.1 }

-- One hit of that part, in slot `j`: several threads may be in it at once, and their hits interleave.
unfoldable pub after_finds_one : ℕ → Shared → Shared
after_finds_one j s =
    let time = tick s.cache.time in
    record {
      cache = record s.cache {
        slots =
            update (λ slot. record slot { value = inc slot.value; atime = time }) j s.cache.slots;
        time = time;
      };
      held = s.held ++ j ∷ [];
    }

-- A round of its part under the lock for writing.
unfoldable pub after_inserts :
    (gdal : Gdal) → (String → ℕ) → UriOptions → World gdal.G → Shared → Shared
after_inserts gdal string_hash key w s =
    let r = insert_one gdal (uri_options_hash string_hash key) key s.cache s.held w in
    record { cache = r.0.1; held = r.0.0 }

-- A query on the dataset in slot `b`.
unfoldable pub after_queries :
    (gdal : Gdal) {A : Type 0} → Query gdal A → ℕ → Slot → A → World gdal.G → Shared → Shared
after_queries gdal q b slot memory w s = record s {
  cache = record s.cache {
    slots = update (update_value (λ _. (perform gdal q slot.value memory w).0.1)) b s.cache.slots;
  };
}

-- `dec` on a pointer that a call holds, with the pointers before and after it.
unfoldable pub after_releases : List ℕ → ℕ → List ℕ → Shared → Shared
after_releases pre b post s = record {
  cache = record s.cache { slots = update (update_value dec) b s.cache.slots };
  held = pre ++ post;
}

-- One step of some thread.
pub data Step (gdal : Gdal) (string_hash : String → ℕ) (s : Shared) : Shared → Type 1 where
  finds : (key : UriOptions) → Step gdal string_hash s (after_finds string_hash key s)
  finds_one :
      (key : UriOptions) (j : ℕ) (slot : Slot)
      → get_elem? s.cache.slots j ≡ some slot
      → holds (uri_options_hash string_hash key) key slot ≡ true
      → Step gdal string_hash s (after_finds_one j s)
  inserts :
      (key : UriOptions) (w : World gdal.G)
      → Step gdal string_hash s (after_inserts gdal string_hash key w s)
  queries :
      {A : Type 0} (q : Query gdal A) (b : ℕ) (slot : Slot) (memory : A) (w : World gdal.G)
      → get_elem? s.cache.slots b ≡ some slot
      → Step gdal string_hash s (after_queries gdal q b slot memory w s)
  releases :
      (pre : List ℕ) (b : ℕ) (post : List ℕ)
      → s.held ≡ pre ++ b ∷ post
      → Step gdal string_hash s (after_releases pre b post s)

-- What a cache of some capacity can become.
pub data Reachable (gdal : Gdal) (string_hash : String → ℕ) (capacity : ℕ) : Shared → Type 1 where
  start : Reachable gdal string_hash capacity (record { cache = new_cache capacity; held = [] })
  next :
      {s t : Shared}
      → Reachable gdal string_hash capacity s
      → Step gdal string_hash s t
      → Reachable gdal string_hash capacity t
