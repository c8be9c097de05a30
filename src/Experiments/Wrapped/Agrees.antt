-- ===== src/Experiments/Wrapped/Agrees.antt =====
-- A round of wrapthread.cpp's reader: what the library answers agrees with the table.
use gdal_warp_bindings.Base.{
  ℕ, ◌+◌, ◌*◌, ◌<◌, ◌≡◌, refl, sym, ap, ◌∙◌, String, List, some, true, pos, ◌==◌, ltb_ℤ, get_elem?,
  arith,
}
use gdal_warp_bindings.Types.{UriOptions}
use gdal_warp_bindings.Errno.{returns}
use gdal_warp_bindings.Gdal.{Gdal, Bytes}
use gdal_warp_bindings.World.{World}
use gdal_warp_bindings.Dataset.{LockedDataset}
use gdal_warp_bindings.Dataset.Queries.{warped_index, attempt_successful}
use gdal_warp_bindings.Dataset.Queries.Band.{get_pixels}
use gdal_warp_bindings.Dataset.Queries.Protocol.{get_pixels-keeps}
use gdal_warp_bindings.Tokens.{LruCache, Tokens, query_token}
use gdal_warp_bindings.Cache.Uses.{uses, IsSized}
use gdal_warp_bindings.Cache.{Cache}
use gdal_warp_bindings.Cache.Found.{Roomy}
use gdal_warp_bindings.Cache.Origins.{Stems}
use gdal_warp_bindings.Bindings.{Budget, Surroundings, start_run}
use gdal_warp_bindings.Bindings.Result.{done_after}
use gdal_warp_bindings.Bindings.AtOnce.{doit_at_once}
use gdal_warp_bindings.Bindings.Entries.{Left, leave, get_data}
use gdal_warp_bindings.Bindings.Entries.Known.{entry_ended}
use gdal_warp_bindings.Experiments.Random.{Random, InRange}
use gdal_warp_bindings.Experiments.Tiles.{c_string, read_window, tile_size, gdt_byte}
use gdal_warp_bindings.Experiments.Wrapped.{
  Wrapped, wrapthread_copies, check_pixels, get_tile, wrap_round,
}

-- The arguments `attempts`, `nanos` and COPIES.
abbrev pub wrapthread_budget : Budget
wrapthread_budget = record { attempts = pos 0; copies = wrapthread_copies; nanos = 0 }

module _ (gdal : Gdal) (lru : LruCache) (draws : ℕ → ℕ) (string_hash : String → ℕ) (random : Random)
    (hash : Bytes → ℕ) (pixels : ℕ → ℕ → Bytes) (key : UriOptions) where
  open gdal use {G}
  open lru use {C}
  open random use {Generator}

  -- The datasets of the pair, with handles that a cache holds for it or that the constructor opens for
  -- it, show these pixels, whenever they can be read.
  pub record Displays (c : Cache) : Type 0 where
    pub displayed :
        (ds : LockedDataset) (s : Bytes) (w : World G) (i j : ℕ)
        → ds.uri_options ≡ key
        → Stems gdal key c.slots ds.source ds.warped
        → let r =
            get_pixels gdal warped_index (read_window i j) tile_size (pos 1) gdt_byte ds s w in
          r.0.0 ≡ attempt_successful → r.0.2 ≡ pixels i j

  checked :
      (table : List ℕ) (at : ℕ) (generator : Generator) (left : Left G C Bytes) (n : ℕ)
      (bytes : Bytes)
      → left.0 ≡ pos n
      → 0 < n
      → left.1 ≡ bytes
      → get_elem? table at ≡ some (hash (c_string bytes))
      → check_pixels gdal lru draws string_hash random hash table at generator left
        ≡ returns (tt, record { lib = left.2; generator = generator })
  unfolding check_pixels
  checked table at generator left n bytes is some_n same there =
      let good : ltb_ℤ (pos 0) (pos n) ≡ true = ground arith in
      let equal : (hash (c_string bytes) == hash (c_string bytes)) ≡ true = ground arith in
      rw (check_pixels, is, good, there, same, equal) refl

  -- Let the token stand for the pair, let the dataset cache have as many slots as its capacity says,
  -- none of them in use 2 ** 32 - 1 times, and let the first attempt at reading a tile succeed. Let the
  -- table hold the hashes of the pixels that the datasets of this pair show: those whose handles the
  -- cache holds for it, and those whose handles the constructor opens for it; the datasets of other
  -- pairs may show others. Then a round of a reader returns: `get_data` is positive, and what it read
  -- has the hash that was expected.
  pub wrap_round_returns :
      (env : Surroundings) (token : ℕ) (tokens : Tokens C) (table : List ℕ) (x y : ℕ)
      (buffer : Bytes) (s : Wrapped G C Generator)
      → InRange random
      → 0 < x
      → 0 < y
      → query_token lru draws s.lib.world.tid token s.lib.tokens ≡ returns (some key, tokens)
      → IsSized s.lib.cache
      → Roomy (uses s.lib.cache.slots)
      → ((i j : ℕ)
          → i < x
          → j < y
          → done_after gdal string_hash
              (get_pixels gdal warped_index (read_window i j) tile_size (pos 1) gdt_byte)
              wrapthread_budget
              env
              key
              1
              (start_run s.lib.cache buffer s.lib.world)
            ≡ true)
      → Displays s.lib.cache
      → ((i j : ℕ)
          → i < x
          → j < y
          → get_elem? table (i + j * x) ≡ some (hash (c_string (pixels i j))))
      → (s' : Wrapped G C Generator) × (wrap_round gdal lru draws string_hash random hash 2 env
            token table x y buffer s
          ≡ some (returns (tt, s')))
  unfolding wrap_round get_tile get_data leave
  wrap_round_returns env token tokens table x y buffer s range wide high asked sized roomy first
        shows expected =
      let (i, generator) = random.uniform x s.generator in
      let (j, generator') = random.uniform y generator in
      let h = range.below x s.generator wide in
      let k = range.below y generator high in
      let op = get_pixels gdal warped_index (read_window i j) tile_size (pos 1) gdt_byte in
      let (code, r, did, is, touched, answer) =
        doit_at_once gdal string_hash op wrapthread_budget env key
          (get_pixels-keeps gdal warped_index (read_window i j) tile_size (pos 1) gdt_byte)
          s.lib.cache buffer s.lib.world refl refl sized roomy (first i j h k) in
      let got =
        entry_ended gdal lru draws string_hash op 2 env token wrapthread_budget buffer s.lib
          (some key) tokens (code, r) asked did in
      let seen : r.memory ≡ pixels i j =
        sym answer.written
        ∙ shows.displayed answer.dataset answer.before answer.world i j answer.own answer.origin
            answer.successful in
      let left : Left G C Bytes = leave gdal lru draws string_hash tokens s.lib (code, r) in
      (
        record { lib = left.2; generator = generator' },
        rw (wrap_round, get_tile, got)
            (ap some (
              checked table (i + j * x) generator' left r.touched (pixels i j) is touched seen
                (expected i j h k))),
      )
