-- ===== src/Experiments/Wrapped/Setup.antt =====
-- `main` of wrapthread.cpp, from the first dataset to the token, before it starts threads.
pub mod Prepared
use gdal_warp_bindings.Base.{ℕ, String, List, [], ◌∷◌, Option, none, some, ℤ, pos}
use gdal_warp_bindings.Types.{Options}
use gdal_warp_bindings.Errno.{Environment, Outcome, returns, exits, faults, ◌>>=◌}
use gdal_warp_bindings.Gdal.{Gdal, Handle, Bytes}
use gdal_warp_bindings.Tokens.{LruCache, Tokens, get_token}
use gdal_warp_bindings.Bindings.Process.{Settings, Process, Drivers, init}
use gdal_warp_bindings.Experiments.Tiles.{tiles, expected_results}

abbrev pub actual_options : Options
actual_options = "-tap" ∷ "-tr" ∷ "5" ∷ "7" ∷ "-r" ∷ "bilinear" ∷ "-t_srs" ∷ "epsg:3857" ∷ []

-- The variables `expected`, `x`, `y` and `token`, with the process.
pub record Started (G C : Type 0) : Type 0 where
  pub expected : List ℕ
  pub x : ℤ
  pub y : ℤ
  pub token : ℕ
  pub process : Process G C

module _ (gdal : Gdal) (hash : Bytes → ℕ) where
  open gdal use {G}

  -- The band and the numbers of tiles.
  unfoldable pub measure : ℕ → G → Handle × ℤ × ℤ × G
  measure dataset g =
      let band = gdal.get_raster_band (some dataset) (pos 1) g in
      let width = gdal.get_raster_x_size (some dataset) band.2 in
      let height = gdal.get_raster_y_size (some dataset) width.2 in
      (band.0, width.0, height.0, height.2)

  -- The table, and after it both datasets closed.
  unfoldable pub expect : ℕ → ℕ → G → Outcome (List ℕ × ℤ × ℤ × G)
  unfolding measure
  expect dataset source g =
      let (band, width, height, g1) = measure dataset g in
      expected_results gdal hash band width height g1 >>= λ (table, g2).
      returns (table, tiles width, tiles height, (gdal.close source (gdal.close dataset g2).2).2)

  module _ (drivers : Drivers gdal.G) (lru : LruCache) (draws : ℕ → ℕ) where
    open lru use {C}

    -- `token = get_token(argv[1], actual_options)`
    unfoldable pub take_token : ℕ → ℕ → String → Process G C → Option (Outcome (ℕ × Process G C))
    take_token fuel tid argv1 p =
        elim (get_token lru draws fuel tid (argv1, actual_options) p.tokens) [
          | none ↦ none
          | some exits ↦ some exits
          | some faults ↦ some faults
          | some (returns (token, tokens)) ↦ some (returns (token, record p { tokens = tokens }))
        ]

    -- `init(1 << 8)` and the token.
    unfoldable pub open_library :
        Environment → Settings → ℕ → ℕ → String → Process G C → Option (Outcome (ℕ × Process G C))
    unfolding take_token
    open_library environment settings fuel tid argv1 p =
        elim (init gdal drivers lru draws environment settings tid 256 p) [
          | exits ↦ some exits
          | faults ↦ some faults
          | returns p' ↦ take_token fuel tid argv1 p'
        ]

    unfoldable pub with_library :
        List ℕ × ℤ × ℤ × G → Option (Outcome (ℕ × Process G C)) → Option (Outcome (Started G C))
    with_library (expected, x, y, g) none = none
    with_library (expected, x, y, g) (some exits) = some exits
    with_library (expected, x, y, g) (some faults) = some faults
    with_library (expected, x, y, g) (some (returns (token, process))) =
        some
          (returns (record { expected = expected; x = x; y = y; token = token; process = process }))

    unfoldable pub start_main :
        Environment
        → Settings
        → ℕ
        → ℕ
        → String
        → ℕ
        → ℕ
        → Process G C
        → Option (Outcome (Started G C))
    unfolding expect open_library with_library
    start_main environment settings fuel tid argv1 dataset source p =
        elim (expect dataset source p.gdal) [
          | exits ↦ some exits
          | faults ↦ some faults
          | returns (expected, x, y, g) ↦
              with_library (expected, x, y, g)
                (open_library environment settings fuel tid argv1 (record p { gdal = g }))
        ]
