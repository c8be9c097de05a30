-- ===== src/Dataset/Queries/Band.antt =====
-- src/locked_dataset.hpp, the queries of one band.
use gdal_warp_bindings.Base.{
  ℕ, zero, suc, ◌+◌, ◌-◌, List, Bool, true, false, ℤ, pos, negsuc, ltb, set, if◌then◌else◌,
}
use gdal_warp_bindings.Errno.Strings.{CplErr, ce_none}
use gdal_warp_bindings.Gdal.{Gdal, Handle, Bytes}
use gdal_warp_bindings.World.{M, run, ◌>>=◌, pure}
use gdal_warp_bindings.Dataset.{LockedDataset}
use gdal_warp_bindings.Dataset.Queries.{Which, handle, Op, with_lock}

unfoldable pub is_ce_none : CplErr → Bool
is_ce_none ce_none = true
is_ce_none _ = false

-- TRUE or FALSE, as GDAL writes it to an `int`.
unfoldable pub flag : Bool → ℤ
flag true = pos 1
flag false = pos 0

-- A value with the flag that says whether it means anything.
pub record Flagged (A : Type 0) : Type 0 where
  pub value : A
  pub success : ℤ

pub record MinMax (A : Type 0) : Type 0 where
  pub minimum : A
  pub maximum : A
  pub success : ℤ

-- The arrays of `get_overview_widths_heights`.
pub record Sizes : Type 0 where
  pub widths : List ℤ
  pub heights : List ℤ

unfoldable pub noop : {G : Type 0} → Op G (Unit {0})
noop = with_lock (λ ds s. pure (true, s))

module _ (gdal : Gdal) where
  open gdal use {G, Double, get_raster_band}

  unfoldable pub get_block_size : Which → ℤ → Op G (ℤ × ℤ)
  get_block_size dataset band_number = with_lock λ ds s. do
    band ← run (get_raster_band (handle dataset ds) band_number)
    size ← run (gdal.get_block_size band)
    pure (true, size)

  unfoldable pub get_histogram : Which → ℤ → Double → Double → ℤ → Bool → Bool → Op G (List ℕ)
  get_histogram dataset band_number lower upper num_buckets include_out_of_range approx_ok =
      with_lock λ ds s. do
        bandh ← run (get_raster_band (handle dataset ds) band_number)
        (retval, hist) ← run (
            gdal.get_raster_histogram_ex bandh lower upper num_buckets include_out_of_range
              approx_ok)
        pure (is_ce_none retval, hist)

  unfoldable pub get_offset : Which → ℤ → Op G (Flagged Double)
  get_offset dataset band_number = with_lock λ ds s. do
    bandh ← run (get_raster_band (handle dataset ds) band_number)
    (offset, success) ← run (gdal.get_raster_offset bandh)
    pure (true, record { value = offset; success = flag success })

  unfoldable pub get_scale : Which → ℤ → Op G (Flagged Double)
  get_scale dataset band_number = with_lock λ ds s. do
    bandh ← run (get_raster_band (handle dataset ds) band_number)
    (scale, success) ← run (gdal.get_raster_scale bandh)
    pure (true, record { value = scale; success = flag success })

  unfoldable pub get_color_interpretation : Which → ℤ → Op G ℤ
  get_color_interpretation dataset band_number = with_lock λ ds s. do
    bandh ← run (get_raster_band (handle dataset ds) band_number)
    color_interp ← run (gdal.get_raster_color_interpretation bandh)
    pure (true, color_interp)

  -- The first loop of `get_overview_widths_heights`, with the rounds left.
  unfoldable pub read_sizes : ℕ → ℕ → Handle → Sizes → M G Sizes
  read_sizes zero i band s = pure s
  read_sizes (suc n) i band s = do
    overview ← run (gdal.get_overview band i)
    width ← run (gdal.get_raster_band_x_size overview)
    height ← run (gdal.get_raster_band_y_size overview)
    read_sizes n (i + 1) band
        (record { widths = set s.widths i width; heights = set s.heights i height })

  -- The second loop.
  unfoldable pub blank_sizes : ℕ → ℕ → Sizes → Sizes
  blank_sizes zero i s = s
  blank_sizes (suc n) i s =
      blank_sizes n (i + 1)
        (record { widths = set s.widths i (negsuc 0); heights = set s.heights i (negsuc 0) })

  unfoldable pub get_overview_widths_heights : Which → ℤ → ℕ → Op G Sizes
  get_overview_widths_heights dataset band_number max_length = with_lock λ ds s. do
    band ← run (get_raster_band (handle dataset ds) band_number)
    overview_count ← run (gdal.get_overview_count band)
    read ←
        read_sizes (if ltb overview_count max_length then overview_count else max_length) 0 band s
    pure (true, blank_sizes (max_length - overview_count) overview_count read)

  unfoldable pub get_band_nodata : Which → ℤ → Op G (Flagged Double)
  get_band_nodata dataset band_number = with_lock λ ds s. do
    bandh ← run (get_raster_band (handle dataset ds) band_number)
    (nodata, success) ← run (gdal.get_raster_no_data_value bandh)
    pure (true, record { value = nodata; success = flag success })

  unfoldable pub get_band_data_type : Which → ℤ → Op G ℤ
  get_band_data_type dataset band_number = with_lock λ ds s. do
    bandh ← run (get_raster_band (handle dataset ds) band_number)
    data_type ← run (gdal.get_raster_data_type bandh)
    pure (true, data_type)

  -- The branch of `get_band_max_min` for exact values.
  unfoldable pub exact_min_max : Handle → MinMax Double → M G (MinMax Double)
  exact_min_max band s = do
    (low, found) ← run (gdal.get_raster_minimum band)
    if found
        then (do
          (high, success) ← run (gdal.get_raster_maximum band)
          pure (record { minimum = low; maximum = high; success = flag success }))
        else pure (record s { minimum = low; success = flag found })

  unfoldable pub approximate_min_max : Handle → M G (MinMax Double)
  approximate_min_max band = do
    (low, high) ← run (gdal.compute_raster_min_max band)
    pure (record { minimum = low; maximum = high; success = flag true })

  unfoldable pub get_band_max_min : Which → ℤ → Bool → Op G (MinMax Double)
  get_band_max_min dataset band_number approx_okay = with_lock λ ds s. do
    band ← run (get_raster_band (handle dataset ds) band_number)
    minmax ← (if approx_okay then approximate_min_max band else exact_min_max band s)
    pure (true, minmax)

  unfoldable pub read_pixels :
      List ℤ → List ℤ → ℤ → Handle → LockedDataset → Bytes → M G (Bool × Bytes)
  read_pixels src_window dst_window type band ds s = do
    (retval, pixels) ← run (gdal.raster_io band src_window dst_window type)
    pure (is_ce_none retval, pixels)

  -- Here the band is looked up before TRYLOCK.
  unfoldable pub get_pixels : Which → List ℤ → List ℤ → ℤ → ℤ → Op G Bytes
  get_pixels dataset src_window dst_window band_number type ds s = do
    band ← run (get_raster_band (handle dataset ds) band_number)
    with_lock (read_pixels src_window dst_window type band) ds s
