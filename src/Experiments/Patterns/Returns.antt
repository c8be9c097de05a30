-- ===== src/Experiments/Patterns/Returns.antt =====
-- The reader of pattern.cpp makes all its rounds, and leaves the library as it can be used further.
use gdal_warp_bindings.Base.{
  ℕ, zero, suc, ◌+◌, ◌<◌, ◌^◌, ◌≡◌, refl, sym, subst, ◌∙◌, String, Option, none, some, true, false,
  pos, ltb, arith,
}
use gdal_warp_bindings.Types.{UriOptions}
use gdal_warp_bindings.Errno.{Outcome, returns}
use gdal_warp_bindings.Gdal.{Gdal}
use gdal_warp_bindings.Dataset.Queries.Protocol as Protocol
use gdal_warp_bindings.Tokens.{LruCache, Tokens, first_token}
use gdal_warp_bindings.Tokens.Fresh.{is_taken, find_token_total, issued}
use gdal_warp_bindings.Cache.Uses.{uses, Bounded}
use gdal_warp_bindings.Bindings.{Surroundings}
use gdal_warp_bindings.Bindings.Entries.{Library, Left}
use gdal_warp_bindings.Bindings.Entries.Calls.{call_entry}
use gdal_warp_bindings.Bindings.Entries.Known.{Balanced, call_entry-Balanced, get_data-Balanced}
use gdal_warp_bindings.Jni.{N, ◌>>=◌, pure}
use gdal_warp_bindings.Jni.Returns.{IsLive}
use gdal_warp_bindings.Experiments.Random.{Random}
use gdal_warp_bindings.Experiments.Arguments.{steps}
use gdal_warp_bindings.Experiments.Patterns.{
  State, draw, ask_for_token, choose, on_memory, dataset_of, buffer_size, pattern_src_window,
  pattern_dst_window, ask_crs_wkt, ask_crs_proj4, ask_band_nodata, ask_width_height, ask_data,
  pattern_attempts, pattern_copies, pattern_round, pattern_rounds, pattern_reader, bad_uri,
  pattern_options,
}

-- The fuel of DOIT that is enough for ATTEMPTS, `1 << 20`.
abbrev pub pattern_fuel : ℕ
pattern_fuel = 1048578

module _ (gdal : Gdal) (lru : LruCache) (draws : ℕ → ℕ) (string_hash : String → ℕ)
    (random : Random) where
  open gdal use {G, Double}
  open lru use {C}
  open random use {Generator}

  abbrev S : Type 0
  S = State gdal lru draws string_hash random

  -- The library is live after a call, and the slots of the cache are as often in use as before.
  pub record Keeps (s s' : S) : Type 0 where
    pub live : IsLive gdal lru draws string_hash s'.lib
    pub counts : uses s'.lib.cache.slots ≡ uses s.lib.cache.slots

  -- A step that returns and keeps the library.
  abbrev pub Returns : {A : Type 0} → S → N S A → Type 0
  Returns {A} s m = (a : A) × (s' : S) × (m s ≡ some (returns (a, s'))) × Keeps s s'

  -- A step that does so from each state of a live library.
  pub record Safe {A : Type 0} (m : N S A) : Type 0 where
    pub run : (s : S) → IsLive gdal lru draws string_hash s.lib → Returns s m

  after :
      {A B : Type 0} {m : N S A} {f : A → N S B} → Safe m → ((a : A) → Safe (f a)) → Safe (m >>= f)
  after safe h = record {
    run = λ s ok.
        let (a, s1, e, k) = safe.run s ok in
        let (b, s2, e', k') = (h a).run s1 k.live in
        (b, s2, rw (e, ◌>>=◌) e', record { live = k'.live; counts = k'.counts ∙ k.counts });
  }

  pure-Returns : {A : Type 0} (a : A) → Safe (pure a)
  pure-Returns a = record { run = λ s live. (a, s, refl, record { live = live; counts = refl }) }

  draw-Returns : (n : ℕ) → Safe (draw gdal lru draws string_hash random n)
  unfolding draw
  draw-Returns n = record { run = λ s live. (_, _, refl, record { live = live; counts = refl }) }

  still_live :
      {M : Type 0} (lib : Library G C) (left : Left G C M)
      → IsLive gdal lru draws string_hash lib
      → Balanced gdal lru draws string_hash lib left
      → IsLive gdal lru draws string_hash left.2
  still_live lib left ok b = record {
    content = b.content;
    live = b.live;
    unlocked = b.unlocked;
    bounded = subst Bounded (sym b.counts) ok.bounded;
    sized = b.sized;
  }

  on_memory-Returns :
      {M : Type 0} (read : S → M) (write : S → M → S)
      (f : M → Library G C → Option (Outcome (Left G C M))) (s : S)
      → IsLive gdal lru draws string_hash s.lib
      → (left : Left G C M) × (f (read s) s.lib ≡ some (returns left))
        × Balanced gdal lru draws string_hash s.lib left
      → Returns s (on_memory gdal lru draws string_hash random read write f)
  unfolding on_memory
  on_memory-Returns read write f s ok (left, e, b) = (
    left.0,
    record (write s left.1) { lib = left.2 },
    rw (on_memory, e) refl,
    record { live = still_live s.lib left ok b; counts = b.counts },
  )

  module _ (token_fuel : Tokens C → ℕ)
      (enough : (ts : Tokens C) (c : C)
        → ts.cache ≡ some c
        → (m : ℕ) × (is_taken lru draws c (draws (ts.drawn + m)) ≡ false)
          × (m + 1 < token_fuel ts)) where
    ask_for_token-Returns :
        (key : UriOptions) (s : S)
        → IsLive gdal lru draws string_hash s.lib
        → Returns s (ask_for_token gdal lru draws string_hash random token_fuel key)
    unfolding ask_for_token
    ask_for_token-Returns key s ok =
        let ts = s.lib.tokens in
        let (m, free, more) = enough ts ok.content ok.live in
        let (token, drawn, found, fresh) =
          find_token_total lru draws (token_fuel ts) m ok.content first_token ts.drawn free more in
        let after_it : Tokens C = record {
          cache = some (lru.insert ok.content token key);
          mutex = none;
          drawn = drawn;
        } in
        let e =
          issued lru draws (token_fuel ts) s.lib.world.tid key ts ok.content token drawn ok.live
            ok.unlocked found in
        (
          token,
          record s { lib = record s.lib { tokens = after_it } },
          rw (e, ask_for_token) refl,
          record {
            live = record {
              content = lru.insert ok.content token key;
              live = refl;
              unlocked = refl;
              bounded = ok.bounded;
              sized = ok.sized;
            };
            counts = refl;
          },
        )

    choose-Returns :
        (argv1 : String) (d : ℕ)
        → Safe (choose gdal lru draws string_hash random token_fuel argv1 d)
    unfolding choose
    choose-Returns argv1 zero = pure-Returns 1
    choose-Returns argv1 (suc zero) = record {
      run = λ s ok. ask_for_token-Returns (bad_uri, pattern_options) s ok;
    }
    choose-Returns argv1 (suc (suc d)) = record {
      run = λ s ok. ask_for_token-Returns (argv1, pattern_options) s ok;
    }

    -- The five calls, of which four are queries by `entry`.
    query-Returns :
        {M : Type 0} (q : Protocol.Query gdal M) (read : S → M) (write : S → M → S)
        (env : Surroundings) (token : ℕ)
        → Safe (
            on_memory gdal lru draws string_hash random read write (
              call_entry gdal lru draws string_hash q pattern_fuel env token pattern_attempts
                pattern_copies))
    query-Returns q read write env token = record {
      run = λ s ok. on_memory-Returns read write _ s ok (
          call_entry-Balanced gdal lru draws string_hash q 1048575 env token pattern_copies (read s)
            s.lib ok.content ok.live ok.unlocked ok.bounded ok.sized);
    }

    ask_crs_wkt-Returns :
        (env : ℕ → Surroundings) (token : ℕ)
        → Safe (
            ask_crs_wkt gdal lru draws string_hash random pattern_fuel env pattern_attempts
              pattern_copies token)
    unfolding ask_crs_wkt call_entry
    ask_crs_wkt-Returns env token =
        query-Returns (Protocol.crs_wkt (dataset_of token) buffer_size) (λ s. s.buf)
          (λ s b. record s { buf = b }) (env 0) token

    ask_crs_proj4-Returns :
        (env : ℕ → Surroundings) (token : ℕ)
        → Safe (
            ask_crs_proj4 gdal lru draws string_hash random pattern_fuel env pattern_attempts
              pattern_copies token)
    unfolding ask_crs_proj4 call_entry
    ask_crs_proj4-Returns env token =
        query-Returns (Protocol.crs_proj4 (dataset_of token) buffer_size) (λ s. s.buf)
          (λ s b. record s { buf = b }) (env 1) token

    ask_band_nodata-Returns :
        (env : ℕ → Surroundings) (token : ℕ)
        → Safe (
            ask_band_nodata gdal lru draws string_hash random pattern_fuel env pattern_attempts
              pattern_copies token)
    unfolding ask_band_nodata call_entry
    ask_band_nodata-Returns env token =
        query-Returns (Protocol.band_nodata (dataset_of token) (pos 1))
          (λ s. record { value = s.transform; success = s.scratch1 })
          (λ s m. record s { transform = m.value; scratch1 = m.success }) (env 2) token

    ask_width_height-Returns :
        (env : ℕ → Surroundings) (token : ℕ)
        → Safe (
            ask_width_height gdal lru draws string_hash random pattern_fuel env pattern_attempts
              pattern_copies token)
    unfolding ask_width_height call_entry
    ask_width_height-Returns env token =
        query-Returns (Protocol.width_height (dataset_of token)) (λ s. (s.scratch1, s.scratch2))
          (λ s m. record s { scratch1 = m.0; scratch2 = m.1 }) (env 3) token

    ask_data-Returns :
        (env : ℕ → Surroundings) (token : ℕ)
        → Safe (
            ask_data gdal lru draws string_hash random pattern_fuel env pattern_attempts
              pattern_copies token)
    unfolding ask_data
    ask_data-Returns env token = record {
      run = λ s ok. on_memory-Returns _ _ _ s ok (
          get_data-Balanced gdal lru draws string_hash (dataset_of token) pattern_src_window
            pattern_dst_window (pos 1) (pos 1) 1048575 0 (env 4) token pattern_copies s.buf s.lib
            ok.content ok.live ok.unlocked ok.bounded ok.sized);
    }

    pattern_round-Returns :
        (env : ℕ → Surroundings) (argv1 : String)
        → Safe (pattern_round gdal lru draws string_hash random token_fuel pattern_fuel env argv1)
    unfolding pattern_round
    pattern_round-Returns env argv1 = after (draw-Returns 1000) λ d.
        after (choose-Returns argv1 d) λ token. after (ask_crs_wkt-Returns env token) λ _.
          after (ask_crs_proj4-Returns env token) λ _.
            after (ask_band_nodata-Returns env token) λ _.
              after (ask_width_height-Returns env token)
                λ _. after (ask_data-Returns env token) λ _. pure-Returns tt

    pattern_rounds-Returns :
        (env : ℕ → ℕ → Surroundings) (argv1 : String) (n : ℕ)
        → Safe
            (pattern_rounds gdal lru draws string_hash random token_fuel pattern_fuel env argv1 n)
    unfolding pattern_rounds
    pattern_rounds-Returns env argv1 zero = pure-Returns tt
    pattern_rounds-Returns env argv1 (suc n) =
        after (pattern_round-Returns (env n) argv1) λ _. pattern_rounds-Returns env argv1 n

    -- Let the library be live, and let `get_token` always have enough fuel to draw a free token. With
    -- `lg_steps` from 0 to 30 a reader of pattern.cpp makes all its rounds and returns, whatever it
    -- draws and whatever GDAL answers. The library is live after that, and each slot of its cache is
    -- as often in use as before.
    pub pattern_reader_returns :
        (env : ℕ → ℕ → Surroundings) (argv1 : String) (lg_steps : ℕ) (s : S)
        → lg_steps < 31
        → IsLive gdal lru draws string_hash s.lib
        → (s' : S) × (pattern_reader gdal lru draws string_hash random token_fuel pattern_fuel env
              argv1
              (pos lg_steps)
              s
            ≡ some (returns (tt, s')))
          × Keeps s s'
    unfolding pattern_reader steps
    pattern_reader_returns env argv1 lg_steps s few ok =
        let in_range : ltb lg_steps 31 ≡ true = ground arith in
        let (_, s', e, kept) = (pattern_rounds-Returns env argv1 (2 ^ lg_steps)).run s ok in
        (s', rw (in_range, pattern_reader) e, kept)
