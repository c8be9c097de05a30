-- ===== src/Bindings/Entries/Answers.antt =====
-- The entry points of bindings.cpp answer for the pair of the token.
use gdal_warp_bindings.Base.{ℕ, suc, ◌+◌, ◌≡◌, refl, ap, ◌∙◌, String, List, some, ℤ, pos}
use gdal_warp_bindings.Types.{UriOptions}
use gdal_warp_bindings.Errno.{returns}
use gdal_warp_bindings.Gdal.{Gdal, Bytes}
use gdal_warp_bindings.Dataset.Queries.{Op, Which}
use gdal_warp_bindings.Dataset.Queries.Protocol.{Query, perform, perform-keeps, get_pixels-keeps}
use gdal_warp_bindings.Dataset.Queries.Band.{get_pixels}
use gdal_warp_bindings.Tokens.{LruCache, Tokens, query_token}
use gdal_warp_bindings.Cache.Uses.{uses, IsSized}
use gdal_warp_bindings.Cache.Found.{Roomy}
use gdal_warp_bindings.Bindings.{Budget, Surroundings, Run, doit}
use gdal_warp_bindings.Bindings.Owned.{KeepsDataset}
use gdal_warp_bindings.Bindings.Answers.{Ends, doit_answers}
use gdal_warp_bindings.Bindings.Entries.{Library, Left, leave, entry, by_default, get_data}
use gdal_warp_bindings.Bindings.Entries.Calls.{call_entry, call_entry-by_default}
use gdal_warp_bindings.Bindings.Entries.Known.{entry_ended}

module _ (gdal : Gdal) (lru : LruCache) (draws : ℕ → ℕ) (string_hash : String → ℕ) where
  open gdal use {G}
  open lru use {C}

  -- What an entry point leaves is what DOIT leaves, with an answer or without one.
  abbrev pub AnswersOrFails :
      {S : Type 0}
      → Op G S
      → ℕ
      → Budget
      → Surroundings
      → UriOptions
      → S
      → Library G C
      → Left G C S
      → Type 0
  AnswersOrFails {S} op n budget env key memory lib left =
      (r : Run G S) × (doit gdal string_hash op (n + 3) budget env (some key) lib.cache memory
          lib.world
        ≡ some (left.0, r))
      × (left.1 ≡ r.memory)
      × (left.2.cache ≡ r.cache)
      × (left.2.world ≡ r.world)
      × Ends gdal string_hash op budget env key n lib.cache memory lib.world left.0 r

  entry_answers :
      {S : Type 0} (op : Op G S) (keeps : KeepsDataset op) (n : ℕ) (env : Surroundings) (token : ℕ)
      (copies : ℤ) (nanos : ℕ) (memory : S) (lib : Library G C) (key : UriOptions)
      (tokens : Tokens C)
      → query_token lru draws lib.world.tid token lib.tokens ≡ returns (some key, tokens)
      → IsSized lib.cache
      → Roomy (uses lib.cache.slots)
      → let budget : Budget = record { attempts = pos (suc n); copies = copies; nanos = nanos } in
        (left : Left G C S) × (entry gdal lru draws string_hash op
            (n + 3)
            env
            token
            budget
            memory
            lib
          ≡ some (returns left))
        × AnswersOrFails op n budget env key memory lib left
  unfolding leave
  entry_answers op keeps n env token copies nanos memory lib key tokens asked sized roomy =
      let budget : Budget = record { attempts = pos (suc n); copies = copies; nanos = nanos } in
      let (code, r, did, how) =
        doit_answers gdal string_hash op keeps budget env key n lib.cache memory lib.world refl
          sized roomy in
      (
        leave gdal lru draws string_hash tokens lib (code, r),
        entry_ended gdal lru draws string_hash op (n + 3) env token budget memory lib (some key)
            tokens (code, r) asked did,
        (r, did, refl, refl, refl, how),
      )

  -- Let a token stand for a pair, the attempts be `n + 1`, the dataset cache have as many slots as
  -- its capacity says, and none be in use 2 ** 32 - 1 times. Then a query of an entry point other
  -- than `get_data` returns, with the code, the memory of the caller, the cache and the world that
  -- DOIT leaves for that very pair. Either a query was successful: then the code is the number of
  -- datasets touched if that was within the first `n` attempts, and -ATTEMPTS_EXCEEDED otherwise; and
  -- the memory and the world are what it left, on a dataset with that pair, whose handles were in the
  -- cache for the pair before the call or were opened for it by the constructor. Or none was: then
  -- the code is -CPLE_FileIO, -CPLE_OpenFailed, or the last one of the queries, with
  -- -ATTEMPTS_EXCEEDED for DATASET_LOCKED.
  pub call_entry_answers :
      {S : Type 0} (q : Query gdal S) (n : ℕ) (env : Surroundings) (token : ℕ) (copies : ℤ)
      (memory : S) (lib : Library G C) (key : UriOptions) (tokens : Tokens C)
      → query_token lru draws lib.world.tid token lib.tokens ≡ returns (some key, tokens)
      → IsSized lib.cache
      → Roomy (uses lib.cache.slots)
      → (left : Left G C S) × (call_entry gdal lru draws string_hash q
            (n + 3)
            env
            token
            (pos (suc n))
            copies
            memory
            lib
          ≡ some (returns left))
        × AnswersOrFails
            (perform gdal q)
            n
            (record { attempts = pos (suc n); copies = copies; nanos = lib.default_nanos })
            env
            key
            memory
            lib
            left
  unfolding by_default
  call_entry_answers q n env token copies memory lib key tokens asked sized roomy =
      let (left, returned, how) =
        entry_answers (perform gdal q) (perform-keeps gdal q) n env token copies lib.default_nanos
          memory lib key tokens asked sized roomy in
      (
        left,
        ap (λ f. f (n + 3) env token (pos (suc n)) copies memory lib)
              (call_entry-by_default gdal lru draws string_hash q)
            ∙ returned,
        how,
      )

  -- `get_data` does so too, with its own time limit.
  pub get_data_answers :
      (d : Which) (src dst : List ℤ) (band type : ℤ) (n nanos : ℕ) (env : Surroundings) (token : ℕ)
      (copies : ℤ) (memory : Bytes) (lib : Library G C) (key : UriOptions) (tokens : Tokens C)
      → query_token lru draws lib.world.tid token lib.tokens ≡ returns (some key, tokens)
      → IsSized lib.cache
      → Roomy (uses lib.cache.slots)
      → (left : Left G C Bytes) × (get_data gdal lru draws string_hash nanos d src dst band type
            (n + 3)
            env
            token
            (pos (suc n))
            copies
            memory
            lib
          ≡ some (returns left))
        × AnswersOrFails
            (get_pixels gdal d src dst band type)
            n
            (record { attempts = pos (suc n); copies = copies; nanos = nanos })
            env
            key
            memory
            lib
            left
  unfolding get_data
  get_data_answers d src dst band type n nanos env token copies memory lib key tokens asked sized
        roomy =
      entry_answers (get_pixels gdal d src dst band type)
        (get_pixels-keeps gdal d src dst band type) n env token copies nanos memory lib key tokens
        asked sized roomy
