-- ===== src/Experiments/Wrapped/Main.antt =====
-- `main` of wrapthread.cpp up to the first check of a reader.
use gdal_warp_bindings.Base.{ℕ, ◌*◌, ◌^◌, ◌<◌, ◌≡◌, String, [], some, true, false, ◌&&◌, pos}
use gdal_warp_bindings.Errno.{Environment, returns}
use gdal_warp_bindings.Gdal.{Gdal, Bytes}
use gdal_warp_bindings.Dataset.Queries.{warped_index}
use gdal_warp_bindings.Dataset.Queries.Band.{get_pixels}
use gdal_warp_bindings.Tokens.{LruCache, LruLaws}
use gdal_warp_bindings.Cache.{new_cache}
use gdal_warp_bindings.Cache.Empty.{new_cache-IsSized}
use gdal_warp_bindings.Cache.Found.{Roomy-new_cache}
use gdal_warp_bindings.Bindings.{Surroundings, start_run}
use gdal_warp_bindings.Bindings.Result.{done_after}
use gdal_warp_bindings.Bindings.Session.{session}
use gdal_warp_bindings.Bindings.Process.{Settings, Process, Drivers, value_or, thread}
use gdal_warp_bindings.Bindings.Process.Ready.{IsFresh}
use gdal_warp_bindings.Experiments.Random.{Random, InRange}
use gdal_warp_bindings.Experiments.Tiles.{tiles, read_window, tile_size, gdt_byte}
use gdal_warp_bindings.Experiments.Tiles.Table.{Shows}
use gdal_warp_bindings.Experiments.Wrapped.{Wrapped, wrap_round}
use gdal_warp_bindings.Experiments.Wrapped.Agrees.{wrapthread_budget, Displays, wrap_round_returns}
use gdal_warp_bindings.Experiments.Wrapped.Setup.{Started, actual_options, measure, start_main}
use gdal_warp_bindings.Experiments.Wrapped.Setup.Prepared.{Draws, start_main_prepares}

module _ (gdal : Gdal) (drivers : Drivers gdal.G) (lru : LruCache) (draws : ℕ → ℕ)
    (string_hash : String → ℕ) (random : Random) (hash : Bytes → ℕ) (pixels : ℕ → ℕ → Bytes) where
  open gdal use {G}
  open lru use {C}
  open random use {Generator}

  -- Let the process be fresh, and `sigaction` not fail where it is called. Let the first dataset be
  -- `x + 1` tiles wide and `y + 1` tiles high, as `tiles` counts them, with `x` and `y` positive and
  -- `x * y` in the range of `int`; let GDAL read the same pixels of each tile every time, from this
  -- dataset and from those whose handles the constructor opens for the file with its options, or the
  -- new cache holds for it, while other datasets may show others; let `get_token` have
  -- enough fuel to draw a free token; and let a first attempt at a tile with an empty cache succeed,
  -- whatever state GDAL is in. Then `main` of wrapthread.cpp comes to its threads with an empty cache,
  -- as large as GDALWARP_NUM_DATASETS or 256, and the first round of `reader` in that thread returns:
  -- what it reads through the library by the token has the hash that GDAL's plain answer got in the
  -- table.
  pub main_first_round :
      (laws : LruLaws lru) (environment : Environment) (settings : Settings) (fuel tid : ℕ)
      (argv1 : String) (dataset source : ℕ) (p : Process G C) (x y : ℕ) (env : Surroundings)
      (buffer : Bytes) (generator : Generator)
      → IsFresh gdal drivers lru draws p
      → (settings.sigterm_dump && settings.sigaction_fails) ≡ false
      → tiles (measure gdal hash dataset p.gdal).1 ≡ pos x
      → tiles (measure gdal hash dataset p.gdal).2 ≡ pos y
      → 0 < x
      → 0 < y
      → x * y < 2 ^ 31
      → Shows gdal hash (measure gdal hash dataset p.gdal).0 pixels x y
      → Draws gdal hash drivers lru draws fuel
      → InRange random
      → ((i j : ℕ) (q : Process G C)
          → i < x
          → j < y
          → done_after gdal string_hash
              (get_pixels gdal warped_index (read_window i j) tile_size (pos 1) gdt_byte)
              wrapthread_budget
              env
              (argv1, actual_options)
              1
              (start_run
                (new_cache (value_or 256 settings.num_datasets))
                buffer
                (thread environment tid [] q))
            ≡ true)
      → Displays gdal lru draws string_hash random hash pixels
          (argv1, actual_options)
          (new_cache (value_or 256 settings.num_datasets))
      → (s : Started G C) × (s' : Wrapped G C Generator) × (start_main gdal hash drivers lru draws
            environment settings fuel tid argv1 dataset source p
          ≡ some (returns s))
        × (s.process.cache ≡ some (new_cache (value_or 256 settings.num_datasets)))
        × (wrap_round gdal lru draws string_hash random hash 2 env s.token s.expected x y buffer
              (record {
                lib =
                    session environment tid
                      (new_cache (value_or 256 settings.num_datasets))
                      s.process.tokens
                      s.process;
                generator = generator;
              })
            ≡ some (returns (tt, s')))
  main_first_round laws environment settings fuel tid argv1 dataset source p x y env buffer
        generator fresh works wide high some_x some_y fits shows draw range first displays =
      let (s, e, prepared) =
        start_main_prepares gdal hash drivers lru draws laws environment settings fuel tid argv1
          dataset source p pixels x y fresh works wide high fits shows draw in
      let size = value_or 256 settings.num_datasets in
      let cache = new_cache size in
      let start : Wrapped G C Generator = record {
        lib = session environment tid cache s.process.tokens s.process;
        generator = generator;
      } in
      let (s', done) =
        wrap_round_returns gdal lru draws string_hash random hash pixels (argv1, actual_options) env
          s.token prepared.tokens s.expected x y buffer start range some_x some_y prepared.asked
          (new_cache-IsSized size) (Roomy-new_cache size) (λ i j h k. first i j s.process h k)
          displays prepared.table in
      (s, s', e, prepared.cached, done)
