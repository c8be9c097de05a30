-- ===== src/Bindings/Entries/Known.antt =====
-- The entry points of bindings.cpp on tokens of tokens.cpp.
use gdal_warp_bindings.Base.{
  ℕ, zero, suc, ◌+◌, ◌≡◌, refl, ap, ◌⊎◌, inl, inr, ◌∙◌, String, List, Option, none, some, ℤ, pos,
  arith,
}
use gdal_warp_bindings.Types.{UriOptions}
use gdal_warp_bindings.Errno.{returns}
use gdal_warp_bindings.Gdal.{Gdal, Bytes}
use gdal_warp_bindings.World.{World}
use gdal_warp_bindings.Dataset.Queries.{Op, Which}
use gdal_warp_bindings.Dataset.Queries.Protocol.{Query, perform, perform-keeps, get_pixels-keeps}
use gdal_warp_bindings.Dataset.Queries.Band.{get_pixels}
use gdal_warp_bindings.Tokens.{LruCache, LruLaws, Tokens, bad_token, lookup, query_token}
use gdal_warp_bindings.Tokens.Fresh.{queried_live, unqueried}
use gdal_warp_bindings.Cache.{Cache}
use gdal_warp_bindings.Cache.Uses.{uses, IsSized, Bounded}
use gdal_warp_bindings.Bindings.{Budget, Surroundings, Run, doit, open_failed, start_run}
use gdal_warp_bindings.Bindings.Balance.{KeepsUse, doit_balanced}
use gdal_warp_bindings.Bindings.Entries.{Library, Left, leave, entry, by_default, get_data}
use gdal_warp_bindings.Bindings.Entries.Calls.{call_entry, call_entry-by_default}

module _ (gdal : Gdal) (lru : LruCache) (draws : ℕ → ℕ) (string_hash : String → ℕ) where
  open gdal use {G}
  open lru use {C}

  -- `query_token` on a live state returns, and leaves it live.
  record Answered (token : ℕ) (ts : Tokens C) (tid : ℕ) : Type 0 where
    found : Option UriOptions
    after : Tokens C
    returned : query_token lru draws tid token ts ≡ returns (found, after)
    content : C
    live : after.cache ≡ some content
    unlocked : after.mutex ≡ none

  answered :
      (token : ℕ) (ts : Tokens C) (tid : ℕ) (c : C)
      → ts.cache ≡ some c
      → ts.mutex ≡ none
      → Answered token ts tid
  answered zero ts tid c live unlocked = record {
    found = none;
    after = ts;
    returned = unqueried lru draws tid ts;
    content = c;
    live = live;
    unlocked = unlocked;
  }
  answered (suc token) ts tid c live unlocked = record {
    found = (lru.get c (suc token)).0;
    after = record { cache = some (lru.get c (suc token)).1; mutex = none; drawn = ts.drawn };
    returned =
        queried_live lru draws tid (suc token) ts c live unlocked (λ z. absurd (omega arith));
    content = (lru.get c (suc token)).1;
    live = refl;
    unlocked = refl;
  }

  -- An entry point, once `query_token` has returned and DOIT has ended.
  pub entry_ended :
      {S : Type 0} (op : Op G S) (fuel : ℕ) (env : Surroundings) (token : ℕ) (budget : Budget)
      (memory : S) (lib : Library G C) (found : Option UriOptions) (tokens : Tokens C)
      (ended : ℤ × Run G S)
      → query_token lru draws lib.world.tid token lib.tokens ≡ returns (found, tokens)
      → doit gdal string_hash op fuel budget env found lib.cache memory lib.world ≡ some ended
      → entry gdal lru draws string_hash op fuel env token budget memory lib
        ≡ some (returns (leave gdal lru draws string_hash tokens lib ended))
  unfolding entry
  entry_ended op fuel env token budget memory lib found tokens ended asked did =
      rw (entry, asked, did) refl

  -- What an entry point leaves as it was: the use counts of the slots, the size of the cache, a live
  -- token cache, and its lock, which is free.
  pub record Balanced {S : Type 0} (lib : Library G C) (left : Left G C S) : Type 0 where
    pub counts : uses left.2.cache.slots ≡ uses lib.cache.slots
    pub sized : IsSized left.2.cache
    pub content : C
    pub live : left.2.tokens.cache ≡ some content
    pub unlocked : left.2.tokens.mutex ≡ none

  entry-Balanced :
      {S : Type 0} (op : Op G S) (keeps : KeepsUse op) (n : ℕ) (env : Surroundings) (token : ℕ)
      (copies : ℤ) (nanos : ℕ) (memory : S) (lib : Library G C) (c : C)
      → lib.tokens.cache ≡ some c
      → lib.tokens.mutex ≡ none
      → Bounded (uses lib.cache.slots)
      → IsSized lib.cache
      → (left : Left G C S) × (entry gdal lru draws string_hash op
            (n + 3)
            env
            token
            (record { attempts = pos (suc n); copies = copies; nanos = nanos })
            memory
            lib
          ≡ some (returns left))
        × Balanced lib left
  unfolding leave
  entry-Balanced op keeps n env token copies nanos memory lib c live unlocked bound sized =
      let budget : Budget = record { attempts = pos (suc n); copies = copies; nanos = nanos } in
      let a = answered token lib.tokens lib.world.tid c live unlocked in
      let (code, r, ended, same, sized') =
        doit_balanced gdal string_hash op keeps budget env n a.found lib.cache memory lib.world refl
          bound sized in
      (
        leave gdal lru draws string_hash a.after lib (code, r),
        entry_ended op (n + 3) env token budget memory lib a.found a.after (code, r) a.returned
            ended,
        record {
          counts = same;
          sized = sized';
          content = a.content;
          live = a.live;
          unlocked = a.unlocked;
        },
      )

  -- Let the token cache be live with its lock free, the dataset cache have as many slots as its
  -- capacity says, and the attempts be positive. Then every query that an entry point other than
  -- `get_data` makes returns, on whatever token. On every path out of it, the errors included, each
  -- slot of the cache is as often in use as before, the cache has its size, and the token cache is live
  -- with its lock free.
  pub call_entry-Balanced :
      {S : Type 0} (q : Query gdal S) (n : ℕ) (env : Surroundings) (token : ℕ) (copies : ℤ)
      (memory : S) (lib : Library G C) (c : C)
      → lib.tokens.cache ≡ some c
      → lib.tokens.mutex ≡ none
      → Bounded (uses lib.cache.slots)
      → IsSized lib.cache
      → (left : Left G C S) × (call_entry gdal lru draws string_hash q
            (n + 3)
            env
            token
            (pos (suc n))
            copies
            memory
            lib
          ≡ some (returns left))
        × Balanced lib left
  unfolding by_default
  call_entry-Balanced q n env token copies memory lib c live unlocked bound sized =
      let keeps : KeepsUse (perform gdal q) =
        λ ds s w. ap (λ d. d.use_count) (perform-keeps gdal q ds s w) in
      let (left, returned, balanced) =
        entry-Balanced (perform gdal q) keeps n env token copies lib.default_nanos memory lib c live
          unlocked bound sized in
      (
        left,
        ap (λ f. f (n + 3) env token (pos (suc n)) copies memory lib)
              (call_entry-by_default gdal lru draws string_hash q)
            ∙ returned,
        balanced,
      )

  -- Let the token cache be live with its lock free, the dataset cache have as many slots as its
  -- capacity says, and the attempts be positive. Then `get_data` returns, on whatever token and
  -- with whatever time limit. On every path out of it, the errors included, each slot of the cache
  -- is as often in use as before, the cache has its size, and the token cache is live with its lock free.
  pub get_data-Balanced :
      (d : Which) (src dst : List ℤ) (band type : ℤ) (n nanos : ℕ) (env : Surroundings) (token : ℕ)
      (copies : ℤ) (memory : Bytes) (lib : Library G C) (c : C)
      → lib.tokens.cache ≡ some c
      → lib.tokens.mutex ≡ none
      → Bounded (uses lib.cache.slots)
      → IsSized lib.cache
      → (left : Left G C Bytes) × (get_data gdal lru draws string_hash nanos d src dst band type
            (n + 3)
            env
            token
            (pos (suc n))
            copies
            memory
            lib
          ≡ some (returns left))
        × Balanced lib left
  unfolding get_data
  get_data-Balanced d src dst band type n nanos env token copies memory lib c live unlocked bound
        sized =
      entry-Balanced (get_pixels gdal d src dst band type)
        (λ ds s w. ap (λ d. d.use_count) (get_pixels-keeps gdal d src dst band type ds s w)) n env
        token copies nanos memory lib c live unlocked bound sized

  -- What DOIT does without a pair.
  doit_unknown :
      {S : Type 0} (op : Op G S) (fuel : ℕ) (env : Surroundings) (budget : Budget) (memory : S)
      (cache : Cache) (w : World G)
      → doit gdal string_hash op fuel budget env none cache memory w
        ≡ some (open_failed, start_run cache memory w)
  unfolding doit
  doit_unknown op fuel env budget memory cache w = refl

  module _ (laws : LruLaws lru) where
    answered_unknown :
        (token : ℕ) (ts : Tokens C) (tid : ℕ) (c : C) (live : ts.cache ≡ some c)
        (unlocked : ts.mutex ≡ none)
        → (token ≡ bad_token) ⊎ (lookup token (laws.entries c) ≡ none)
        → (answered token ts tid c live unlocked).found ≡ none
    unfolding answered
    answered_unknown zero ts tid c live unlocked unknown = refl
    answered_unknown (suc token) ts tid c live unlocked (inl bad) = absurd (omega arith)
    answered_unknown (suc token) ts tid c live unlocked (inr absent) =
        (laws.got c (suc token)).0 ∙ absent

    -- Let the token cache be live with its lock free. On a token that stands for no pair, and on 0,
    -- every query of an entry point other than `get_data` returns -CPLE_OpenFailed, whatever the
    -- budget is, and changes neither the memory of the caller, nor the dataset cache, nor GDAL's
    -- state and the errors.
    pub call_entry_unknown :
        {S : Type 0} (q : Query gdal S) (fuel : ℕ) (env : Surroundings) (token : ℕ)
        (attempts copies : ℤ) (memory : S) (lib : Library G C) (c : C)
        → lib.tokens.cache ≡ some c
        → lib.tokens.mutex ≡ none
        → (token ≡ bad_token) ⊎ (lookup token (laws.entries c) ≡ none)
        → (tokens : Tokens C) × (call_entry gdal lru draws string_hash q fuel env token attempts
              copies memory lib
            ≡ some (returns (open_failed, memory, record lib { tokens = tokens })))
    unfolding by_default leave
    call_entry_unknown q fuel env token attempts copies memory lib c live unlocked unknown =
        let budget : Budget = record {
          attempts = attempts;
          copies = copies;
          nanos = lib.default_nanos;
        } in
        let a = answered token lib.tokens lib.world.tid c live unlocked in
        let nothing : a.found ≡ none =
          answered_unknown token lib.tokens lib.world.tid c live unlocked unknown in
        let asked = a.returned ∙ ap (λ f. returns (f, a.after)) nothing in
        (
          a.after,
          ap (λ f. f fuel env token attempts copies memory lib)
                (call_entry-by_default gdal lru draws string_hash q)
              ∙ entry_ended (perform gdal q) fuel env token budget memory lib none a.after
                  (open_failed, start_run lib.cache memory lib.world) asked
                  (doit_unknown (perform gdal q) fuel env budget memory lib.cache lib.world),
        )
