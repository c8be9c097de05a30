-- ===== src/Bindings/Session.antt =====
-- A first call of the interface of bindings.cpp: `init`, then `get_token`, then a query on the token.
use gdal_warp_bindings.Base.{
  ℕ, suc, ◌+◌, ◌<◌, ◌≡◌, ◌≢◌, refl, subst, Option, arith, String, [], none, some, false, ℤ, pos,
}
use gdal_warp_bindings.Types.{UriOptions}
use gdal_warp_bindings.Errno.{Environment, Outcome, returns}
use gdal_warp_bindings.Gdal.{Gdal}
use gdal_warp_bindings.Dataset.Queries.Protocol.{Query, perform}
use gdal_warp_bindings.Tokens.{LruCache, LruLaws, Tokens, first_token, bad_token, get_token}
use gdal_warp_bindings.Tokens.Fresh.{is_taken, find_token_total, issued, queried_issued}
use gdal_warp_bindings.Cache.{Cache, new_cache}
use gdal_warp_bindings.Bindings.{Budget, Surroundings}
use gdal_warp_bindings.Bindings.Entries.{Library, Left}
use gdal_warp_bindings.Bindings.Entries.Calls.{call_entry}
use gdal_warp_bindings.Cache.Found.{Roomy-new_cache}
use gdal_warp_bindings.Bindings.Entries.Answers.{AnswersOrFails, call_entry_answers}
use gdal_warp_bindings.Bindings.Entries.Known.{Balanced, call_entry-Balanced}
use gdal_warp_bindings.Bindings.Process.{Settings, Process, Drivers, value_or, max_tokens, thread}
use gdal_warp_bindings.Cache.Empty.{uses-new_cache, new_cache-IsSized}
use gdal_warp_bindings.Bindings.Process.Ready.{IsReady}

-- The library that a thread sees after `init`.
abbrev pub session : {G C : Type 0} → Environment → ℕ → Cache → Tokens C → Process G C → Library G C
session environment tid cache tokens p = record {
  cache = cache;
  tokens = tokens;
  default_nanos = p.default_nanos;
  world = thread environment tid [] p;
}

module _ (gdal : Gdal) (drivers : Drivers gdal.G) (lru : LruCache) (draws : ℕ → ℕ)
    (string_hash : String → ℕ) where
  open gdal use {G}
  open lru use {C}

  -- A call leaves one state only.
  same_left :
      {S : Type 0} (left left' : Left G C S) {o : Option (Outcome (Left G C S))}
      → o ≡ some (returns left)
      → o ≡ some (returns left')
      → left' ≡ left
  same_left left left' e e' = ground arith

  -- After `init`, if one of the next random numbers is a free token, `get_token` returns a token
  -- for any pair. A query of an entry point other than `get_data` on that token with `n + 1` attempts
  -- then returns, and leaves no slot of the cache in use and the token lock free. Its code, the memory
  -- of the caller, the cache and the world are what DOIT leaves for that very pair. Either a query was
  -- successful: then the code is the number of datasets touched if that was within the first `n`
  -- attempts, and -ATTEMPTS_EXCEEDED otherwise; and the memory and the world are what it left, on a
  -- dataset with that pair, whose handles the constructor opened for it, or which the new cache held
  -- for it. Or none was: then the code is -CPLE_FileIO, -CPLE_OpenFailed, or the last one of the
  -- queries, with -ATTEMPTS_EXCEEDED for DATASET_LOCKED.
  pub first_call :
      (laws : LruLaws lru) (environment : Environment) (settings : Settings) (tid size fuel m : ℕ)
      (p : Process G C) (key : UriOptions) {S : Type 0} (q : Query gdal S) (n : ℕ)
      (env : Surroundings) (copies : ℤ) (memory : S)
      → IsReady gdal drivers lru draws settings size p
      → is_taken lru draws (lru.create max_tokens) (draws (p.tokens.drawn + m)) ≡ false
      → m + 1 < fuel
      → let cache = new_cache (value_or size settings.num_datasets) in
        (token : ℕ) × (tokens : Tokens C) × (get_token lru draws fuel tid key p.tokens
          ≡ some (returns (token, tokens)))
        × (left : Left G C S) × (call_entry gdal lru draws string_hash q
              (n + 3)
              env
              token
              (pos (suc n))
              copies
              memory
              (session environment tid cache tokens p)
            ≡ some (returns left))
        × Balanced gdal lru draws string_hash (session environment tid cache tokens p) left
        × AnswersOrFails gdal lru draws string_hash
            (perform gdal q)
            n
            (record { attempts = pos (suc n); copies = copies; nanos = p.default_nanos })
            env
            key
            memory
            (session environment tid cache tokens p)
            left
  first_call laws environment settings tid size fuel m p key q n env copies memory ready free
        enough =
      let size' = value_or size settings.num_datasets in
      let cache = new_cache size' in
      let c = lru.create max_tokens in
      let (token, drawn, found, fresh) =
        find_token_total lru draws fuel m c first_token p.tokens.drawn free enough in
      let good : token ≢ bad_token = ground arith in
      let new : lru.contains c token ≡ false = ground arith in
      let room : 0 < laws.capacity c = omega (arith, (laws.created max_tokens).1) in
      let tokens : Tokens C = record {
        cache = some (lru.insert c token key);
        mutex = none;
        drawn = drawn;
      } in
      let lib = session environment tid cache tokens p in
      let budget : Budget = record {
        attempts = pos (suc n);
        copies = copies;
        nanos = p.default_nanos;
      } in
      let (left, returned, balanced) =
        call_entry-Balanced gdal lru draws string_hash q n env token copies memory lib
          (lru.insert c token key) refl refl (uses-new_cache size') (new_cache-IsSized size') in
      let asked = queried_issued lru draws laws tid token c key drawn good room new in
      let (left', returned', how) =
        call_entry_answers gdal lru draws string_hash q n env token copies memory lib key _ asked
          (new_cache-IsSized size') (Roomy-new_cache size') in
      (
        token,
        tokens,
        issued lru draws fuel tid key p.tokens c token drawn ready.tokens ready.unlocked found,
        left,
        returned,
        balanced,
        subst
            (AnswersOrFails gdal lru draws string_hash (perform gdal q) n budget env key memory lib)
            (same_left left left' returned returned') how,
      )
