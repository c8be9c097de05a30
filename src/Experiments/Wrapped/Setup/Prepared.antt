-- ===== src/Experiments/Wrapped/Setup/Prepared.antt =====
-- What wrapthread.cpp has when its threads start: a table of the right hashes, a token for the file,
-- and an empty cache.
use gdal_warp_bindings.Base.{
  ℕ, ◌+◌, ◌*◌, ◌^◌, ◌<◌, ◌≡◌, ◌≢◌, refl, String, some, false, ◌&&◌, pos, get_elem?, arith,
}
use gdal_warp_bindings.Errno.{Environment, returns}
use gdal_warp_bindings.Gdal.{Gdal, Bytes}
use gdal_warp_bindings.Tokens.{LruCache, LruLaws, Tokens, first_token, bad_token, query_token}
use gdal_warp_bindings.Tokens.Fresh.{is_taken, find_token_total, issued, queried_issued}
use gdal_warp_bindings.Cache.{new_cache}
use gdal_warp_bindings.Bindings.Process.{Settings, Process, Drivers, value_or, max_tokens}
use gdal_warp_bindings.Bindings.Process.Ready.{IsFresh, IsReady, init_first}
use gdal_warp_bindings.Experiments.Tiles.{tiles, c_string}
use gdal_warp_bindings.Experiments.Tiles.Table.{Shows, expected_results_table}
use gdal_warp_bindings.Experiments.Wrapped.Setup.{
  Started, actual_options, measure, expect, take_token, open_library, with_library, start_main,
}

module _ (gdal : Gdal) (hash : Bytes → ℕ) (drivers : Drivers gdal.G) (lru : LruCache)
    (draws : ℕ → ℕ) where
  open gdal use {G}
  open lru use {C}

  -- Some of the next random numbers is a free token for an empty cache, and the fuel is enough.
  abbrev pub Draws : ℕ → Type 0
  Draws fuel =
      (from : ℕ)
      → (m : ℕ) × (is_taken lru draws (lru.create max_tokens) (draws (from + m)) ≡ false)
        × (m + 1 < fuel)

  -- What a reader relies on: the table holds the hash of each tile, the token stands for the file with
  -- its options, and the cache is empty with room for `size` datasets.
  pub record IsPrepared (tid size : ℕ) (argv1 : String) (pixels : ℕ → ℕ → Bytes) (x y : ℕ)
      (s : Started G C) : Type 0 where
    pub wide : s.x ≡ pos x
    pub high : s.y ≡ pos y
    pub table :
        (i j : ℕ)
        → i < x
        → j < y
        → get_elem? s.expected (i + j * x) ≡ some (hash (c_string (pixels i j)))
    pub tokens : Tokens C
    pub asked :
        query_token lru draws tid s.token s.process.tokens
        ≡ returns (some (argv1, actual_options), tokens)
    pub cached : s.process.cache ≡ some (new_cache size)

  -- The token that `get_token` gives right after `init`.
  taken :
      (laws : LruLaws lru) (settings : Settings) (fuel tid size : ℕ) (argv1 : String)
      (p : Process G C)
      → IsReady gdal drivers lru draws settings size p
      → Draws fuel
      → (token : ℕ) × (tokens tokens' : Tokens C) × (take_token gdal hash drivers lru draws fuel tid
            argv1 p
          ≡ some (returns (token, record p { tokens = tokens })))
        × (query_token lru draws tid token tokens ≡ returns (some (argv1, actual_options), tokens'))
  unfolding take_token
  taken laws settings fuel tid size argv1 p ready draw =
      let c = lru.create max_tokens in
      let (m, free, more) = draw p.tokens.drawn in
      let (token, drawn, found, fresh) =
        find_token_total lru draws fuel m c first_token p.tokens.drawn free more in
      let good : token ≢ bad_token = ground arith in
      let new : lru.contains c token ≡ false = ground arith in
      let room : 0 < laws.capacity c = omega (arith, (laws.created max_tokens).1) in
      let e =
        issued lru draws fuel tid (argv1, actual_options) p.tokens c token drawn ready.tokens
          ready.unlocked found in
      (
        token,
        _,
        _,
        rw (e, take_token) refl,
        queried_issued lru draws laws tid token c (argv1, actual_options) drawn good room new,
      )

  open_library_first :
      (laws : LruLaws lru) (environment : Environment) (settings : Settings) (fuel tid : ℕ)
      (argv1 : String) (p : Process G C)
      → IsFresh gdal drivers lru draws p
      → (settings.sigterm_dump && settings.sigaction_fails) ≡ false
      → Draws fuel
      → (token : ℕ) × (p' : Process G C) × (tokens : Tokens C) × (open_library gdal hash drivers lru
            draws environment settings fuel tid argv1 p
          ≡ some (returns (token, p')))
        × (query_token lru draws tid token p'.tokens
            ≡ returns (some (argv1, actual_options), tokens))
        × (p'.cache ≡ some (new_cache (value_or 256 settings.num_datasets)))
  unfolding open_library
  open_library_first laws environment settings fuel tid argv1 p fresh works draw =
      let (p1, e1, ready) =
        init_first gdal drivers lru draws environment settings tid 256 p fresh works in
      let (token, tokens, tokens', e2, asked) =
        taken laws settings fuel tid 256 argv1 p1 ready draw in
      (token, record p1 { tokens = tokens }, tokens', rw (e1, open_library) e2, asked, ready.cached)

  -- Let the process be fresh, and `sigaction` not fail where it is called. Let the first dataset be
  -- `x + 1` tiles wide and `y + 1` tiles high, as `tiles` counts them, with `x * y` in the range of
  -- `int`, let GDAL read the same pixels of each tile every time, and let `get_token` have enough fuel
  -- to draw a free token. Then `main` of wrapthread.cpp comes to its threads: the table holds the hash
  -- of each tile at the tile's place, a query of the token finds the file with its options, and the
  -- cache is empty and as large as GDALWARP_NUM_DATASETS or 256.
  pub start_main_prepares :
      (laws : LruLaws lru) (environment : Environment) (settings : Settings) (fuel tid : ℕ)
      (argv1 : String) (dataset source : ℕ) (p : Process G C) (pixels : ℕ → ℕ → Bytes) (x y : ℕ)
      → IsFresh gdal drivers lru draws p
      → (settings.sigterm_dump && settings.sigaction_fails) ≡ false
      → tiles (measure gdal hash dataset p.gdal).1 ≡ pos x
      → tiles (measure gdal hash dataset p.gdal).2 ≡ pos y
      → x * y < 2 ^ 31
      → Shows gdal hash (measure gdal hash dataset p.gdal).0 pixels x y
      → Draws fuel
      → (s : Started G C) × (start_main gdal hash drivers lru draws environment settings fuel tid
            argv1 dataset source p
          ≡ some (returns s))
        × IsPrepared tid (value_or 256 settings.num_datasets) argv1 pixels x y s
  unfolding start_main expect with_library
  start_main_prepares laws environment settings fuel tid argv1 dataset source p pixels x y fresh
        works wide high fits shows draw =
      let (band, width, height, g1) = measure gdal hash dataset p.gdal in
      let (table, g2, e1, _, holds) =
        expected_results_table gdal hash band pixels width height x y g1 wide high fits shows in
      let g3 = (gdal.close source (gdal.close dataset g2).2).2 in
      let (token, p', tokens, e2, asked, cached) =
        open_library_first laws environment settings fuel tid argv1 (record p { gdal = g3 })
          (record {
            no_cache = fresh.no_cache;
            no_handler = fresh.no_handler;
            no_nanos = fresh.no_nanos;
          })
          works draw in
      (
        record { expected = table; x = tiles width; y = tiles height; token = token; process = p' },
        rw (e1, e2, start_main, expect) refl,
        record {
          wide = wide;
          high = high;
          table = holds;
          tokens = tokens;
          asked = asked;
          cached = cached;
        },
      )
