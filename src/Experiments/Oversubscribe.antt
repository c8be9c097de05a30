-- ===== src/Experiments/Oversubscribe.antt =====
-- src/experiments/thread/oversubscribe.cpp: threads that ask for tokens of more files than the cache
-- holds, make five queries on each without a limit on the attempts, and note the results.
pub mod Notes
use gdal_warp_bindings.Base.{
  ℕ, zero, suc, ◌+◌, ◌%◌, String, List, [], ◌∷◌, Option, none, some, ℤ, pos, negsuc, get_elem?,
  ltb_ℤ, if◌then◌else◌,
}
use gdal_warp_bindings.Errno.{Outcome, returns, exits, faults}
use gdal_warp_bindings.Gdal.{Gdal}
use gdal_warp_bindings.Dataset.{int_mod}
use gdal_warp_bindings.Tokens.{LruCache, Tokens}
use gdal_warp_bindings.Bindings.{Surroundings}
use gdal_warp_bindings.Jni.{N, ◌>>=◌, ◌>>◌, pure, fault}
use gdal_warp_bindings.Experiments.Random.{Random}
use gdal_warp_bindings.Experiments.Arguments.{steps}
use gdal_warp_bindings.Experiments.Patterns.{
  State, draw, ask_for_token, pattern_options, ask_crs_wkt, ask_crs_proj4, ask_band_nodata,
  ask_width_height, ask_data,
}

abbrev pub good_uris : List String
good_uris =
    "/tmp/A.tif" ∷ "/tmp/B.tif" ∷ "/tmp/C.tif" ∷ "/tmp/D.tif" ∷ "/tmp/E.tif" ∷ "/tmp/F.tif"
    ∷ "/tmp/G.tif" ∷ "/tmp/H.tif" ∷ "/tmp/I.tif" ∷ []

-- ATTEMPTS and COPIES
abbrev pub oversubscribe_attempts : ℤ
oversubscribe_attempts = pos 0

abbrev pub oversubscribe_copies : ℤ
oversubscribe_copies = negsuc 7

-- `good`, `bad` and `touched`, each an `int` that is added to atomically, modulo 2 ** 32.
pub record Statistics : Type 0 where
  pub good : ℕ
  pub bad : ℕ
  pub touched : ℕ

-- NOTE on the result of a call.
unfoldable pub note : ℤ → Statistics → Statistics
note (pos zero) st = record st { bad = (st.bad + 1) % int_mod }
note (pos (suc n)) st = record st {
  touched = (st.touched + suc n) % int_mod;
  good = (st.good + 1) % int_mod;
}
note (negsuc n) st = record st { bad = (st.bad + 1) % int_mod }

-- The notes of all threads, in the order in which they were made.
unfoldable pub note_all : List ℤ → Statistics → Statistics
note_all [] st = st
note_all (code ∷ codes) st = note_all codes (note code st)

module _ (gdal : Gdal) (lru : LruCache) (draws : ℕ → ℕ) (string_hash : String → ℕ)
    (random : Random) where
  open lru use {C}

  -- A reader with the statistics.
  pub record Noting : Type 0 where
    pub client : State gdal lru draws string_hash random
    pub statistics : Statistics

  unfoldable pub noted : N (State gdal lru draws string_hash random) ℤ → N Noting (Unit {0})
  noted call s = elim (call s.client) [
    | none ↦ none
    | some exits ↦ some exits
    | some faults ↦ some faults
    | some (returns (temp, client)) ↦
        some (returns (tt, record { client = client; statistics = note temp s.statistics }))
  ]

  unfoldable pub silently :
      {A : Type 0} → N (State gdal lru draws string_hash random) A → N Noting A
  silently call s = elim (call s.client) [
    | none ↦ none
    | some exits ↦ some exits
    | some faults ↦ some faults
    | some (returns (a, client)) ↦ some (returns (a, record s { client = client }))
  ]

  -- `good_uris[dist(g) % 9]`
  unfoldable pub pick_uri : ℕ → N Noting String
  pick_uri d = elim (get_elem? good_uris (d % 9)) [ none ↦ fault | some uri ↦ pure uri ]

  unfoldable pub oversubscribe_round : (Tokens C → ℕ) → ℕ → (ℕ → Surroundings) → N Noting (Unit {0})
  oversubscribe_round token_fuel fuel env = do
    d ← silently (draw gdal lru draws string_hash random 1000)
    uri ← pick_uri d
    token ←
        silently (ask_for_token gdal lru draws string_hash random token_fuel (uri, pattern_options))
    noted (
        ask_crs_wkt gdal lru draws string_hash random fuel env oversubscribe_attempts
          oversubscribe_copies token)
    noted (
        ask_crs_proj4 gdal lru draws string_hash random fuel env oversubscribe_attempts
          oversubscribe_copies token)
    noted (
        ask_band_nodata gdal lru draws string_hash random fuel env oversubscribe_attempts
          oversubscribe_copies token)
    noted (
        ask_width_height gdal lru draws string_hash random fuel env oversubscribe_attempts
          oversubscribe_copies token)
    noted (
        ask_data gdal lru draws string_hash random fuel env oversubscribe_attempts
          oversubscribe_copies token)

  unfoldable pub oversubscribe_rounds :
      (Tokens C → ℕ) → ℕ → (ℕ → ℕ → Surroundings) → ℕ → N Noting (Unit {0})
  oversubscribe_rounds token_fuel fuel env zero = pure tt
  oversubscribe_rounds token_fuel fuel env (suc n) = do
    oversubscribe_round token_fuel fuel (env n)
    oversubscribe_rounds token_fuel fuel env n

  unfoldable pub oversubscribe_reader :
      (Tokens C → ℕ) → ℕ → (ℕ → ℕ → Surroundings) → ℤ → N Noting (Unit {0})
  oversubscribe_reader token_fuel fuel env lg_steps s = elim (steps lg_steps) [
    | exits ↦ some exits
    | faults ↦ some faults
    | returns n ↦ oversubscribe_rounds token_fuel fuel env n s
  ]
