-- ===== src/Jni/Scalars.antt =====
-- src/com_azavea_gdal_GDALWarp.c: the queries whose results are numbers or the bytes of one array.
use gdal_warp_bindings.Base.{
  ℕ, String, List, [], ◌∷◌, Bool, ℤ, pos, length, set, ltb, if◌then◌else◌,
}
use gdal_warp_bindings.Gdal.{Gdal}
use gdal_warp_bindings.Tokens.{LruCache}
use gdal_warp_bindings.Bindings.{Surroundings}
use gdal_warp_bindings.Bindings.Entries
use gdal_warp_bindings.Jni.{
  Native, N, ◌>>=◌, ◌>>◌, pure, first, which, overwrite, get_int_elements, get_long_elements,
  get_double_elements, get_byte_elements, release_int_elements, release_long_elements,
  release_double_elements, release_byte_elements, enter, fault,
}

-- The first two elements, through a pointer to the first.
unfoldable pub first_two : {S A : Type 0} → List A → N S (A × A)
first_two (x ∷ y ∷ xs) = pure (x, y)
first_two _ = fault

-- An array of too few elements, which the operation would write past, faults here at once.
unfoldable pub wants : {S A : Type 0} → ℕ → List A → N S (Unit {0})
wants n xs = if ltb (length xs) n then fault else pure tt

module _ (gdal : Gdal) (lru : LruCache) (draws : ℕ → ℕ) (string_hash : String → ℕ) (fuel : ℕ)
    (env : Surroundings) where
  open gdal use {G, Double}
  open lru use {C}

  -- A native function that returns a `jint`.
  abbrev pub J : Type 0
  J = N (Native G C Double) ℤ

  unfoldable pub noop : ℕ → ℤ → ℤ → J
  noop token dataset attempts = do
    (retval, nothing) ←
        enter gdal lru draws string_hash fuel env (Entries.noop gdal lru draws string_hash) token
          attempts tt
    pure retval

  unfoldable pub get_block_size : ℕ → ℤ → ℤ → ℤ → ℕ → ℕ → J
  get_block_size token dataset attempts band_number _width _height = do
    width ← get_int_elements _width
    height ← get_int_elements _height
    d ← which dataset
    w ← first width
    h ← first height
    (retval, (w', h')) ←
        enter gdal lru draws string_hash fuel env
          (Entries.get_block_size gdal lru draws string_hash d band_number) token attempts (w, h)
    release_int_elements _width (set width 0 w')
    release_int_elements _height (set height 0 h')
    pure retval

  unfoldable pub get_histogram : ℕ → ℤ → ℤ → ℤ → Double → Double → ℕ → Bool → Bool → J
  get_histogram token dataset attempts band_number lower upper _hist include_out_of_range
        approx_ok =
      do
        hist ← get_long_elements _hist
        d ← which dataset
        (retval, hist') ←
            enter gdal lru draws string_hash fuel env
              (Entries.get_histogram gdal lru draws string_hash d band_number lower upper
                (pos (length hist)) include_out_of_range approx_ok)
              token attempts hist
        release_long_elements _hist (overwrite hist hist')
        pure retval

  unfoldable pub get_offset : ℕ → ℤ → ℤ → ℤ → ℕ → ℕ → J
  get_offset token dataset attempts band_number _offset _success = do
    offset ← get_double_elements _offset
    success ← get_int_elements _success
    d ← which dataset
    o ← first offset
    s ← first success
    (retval, r) ←
        enter gdal lru draws string_hash fuel env
          (Entries.get_offset gdal lru draws string_hash d band_number) token attempts
          (record { value = o; success = s })
    release_int_elements _success (set success 0 r.success)
    release_double_elements _offset (set offset 0 r.value)
    pure retval

  unfoldable pub get_scale : ℕ → ℤ → ℤ → ℤ → ℕ → ℕ → J
  get_scale token dataset attempts band_number _scale _success = do
    scale ← get_double_elements _scale
    success ← get_int_elements _success
    d ← which dataset
    c ← first scale
    s ← first success
    (retval, r) ←
        enter gdal lru draws string_hash fuel env
          (Entries.get_scale gdal lru draws string_hash d band_number) token attempts
          (record { value = c; success = s })
    release_int_elements _success (set success 0 r.success)
    release_double_elements _scale (set scale 0 r.value)
    pure retval

  unfoldable pub get_color_interpretation : ℕ → ℤ → ℤ → ℤ → ℕ → J
  get_color_interpretation token dataset attempts band_number _color_interp = do
    color_interp ← get_int_elements _color_interp
    d ← which dataset
    c ← first color_interp
    (retval, c') ←
        enter gdal lru draws string_hash fuel env
          (Entries.get_color_interpretation gdal lru draws string_hash d band_number) token attempts
          c
    release_int_elements _color_interp (set color_interp 0 c')
    pure retval

  unfoldable pub get_overview_widths_heights : ℕ → ℤ → ℤ → ℤ → ℕ → ℕ → J
  get_overview_widths_heights token dataset attempts band_number _widths _heights = do
    widths ← get_int_elements _widths
    heights ← get_int_elements _heights
    d ← which dataset
    (retval, r) ←
        enter gdal lru draws string_hash fuel env
          (Entries.get_overview_widths_heights gdal lru draws string_hash d band_number
            (if ltb (length widths) (length heights) then length widths else length heights))
          token attempts (record { widths = widths; heights = heights })
    release_int_elements _heights r.heights
    release_int_elements _widths r.widths
    pure retval

  unfoldable pub get_crs_proj4 : ℕ → ℤ → ℤ → ℕ → J
  get_crs_proj4 token dataset attempts _crs = do
    crs ← get_byte_elements _crs
    d ← which dataset
    (retval, crs') ←
        enter gdal lru draws string_hash fuel env
          (Entries.get_crs_proj4 gdal lru draws string_hash d (length crs)) token attempts crs
    release_byte_elements _crs crs'
    pure retval

  unfoldable pub get_crs_wkt : ℕ → ℤ → ℤ → ℕ → J
  get_crs_wkt token dataset attempts _crs = do
    crs ← get_byte_elements _crs
    d ← which dataset
    (retval, crs') ←
        enter gdal lru draws string_hash fuel env
          (Entries.get_crs_wkt gdal lru draws string_hash d (length crs)) token attempts crs
    release_byte_elements _crs crs'
    pure retval

  unfoldable pub get_band_nodata : ℕ → ℤ → ℤ → ℤ → ℕ → ℕ → J
  get_band_nodata token dataset attempts band _nodata _success = do
    nodata ← get_double_elements _nodata
    success ← get_int_elements _success
    d ← which dataset
    n ← first nodata
    s ← first success
    (retval, r) ←
        enter gdal lru draws string_hash fuel env
          (Entries.get_band_nodata gdal lru draws string_hash d band) token attempts
          (record { value = n; success = s })
    release_int_elements _success (set success 0 r.success)
    release_double_elements _nodata (set nodata 0 r.value)
    pure retval

  unfoldable pub get_band_min_max : ℕ → ℤ → ℤ → ℤ → Bool → ℕ → ℕ → J
  get_band_min_max token dataset attempts band approx_okay _minmax _success = do
    minmax ← get_double_elements _minmax
    success ← get_int_elements _success
    d ← which dataset
    (low, high) ← first_two minmax
    s ← first success
    (retval, r) ←
        enter gdal lru draws string_hash fuel env
          (Entries.get_band_min_max gdal lru draws string_hash d band approx_okay) token attempts
          (record { minimum = low; maximum = high; success = s })
    release_int_elements _success (set success 0 r.success)
    release_double_elements _minmax (overwrite minmax (r.minimum ∷ r.maximum ∷ []))
    pure retval

  unfoldable pub get_band_data_type : ℕ → ℤ → ℤ → ℤ → ℕ → J
  get_band_data_type token dataset attempts band _data_type = do
    data_type ← get_int_elements _data_type
    d ← which dataset
    t ← first data_type
    (retval, t') ←
        enter gdal lru draws string_hash fuel env
          (Entries.get_band_data_type gdal lru draws string_hash d band) token attempts t
    release_int_elements _data_type (set data_type 0 t')
    pure retval

  unfoldable pub get_band_count : ℕ → ℤ → ℤ → ℕ → J
  get_band_count token dataset attempts _band_count = do
    band_count ← get_int_elements _band_count
    d ← which dataset
    n ← first band_count
    (retval, n') ←
        enter gdal lru draws string_hash fuel env
          (Entries.get_band_count gdal lru draws string_hash d) token attempts n
    release_int_elements _band_count (set band_count 0 n')
    pure retval

  unfoldable pub get_width_height : ℕ → ℤ → ℤ → ℕ → J
  get_width_height token dataset attempts _width_height = do
    width_height ← get_int_elements _width_height
    d ← which dataset
    (width, height) ← first_two width_height
    (retval, (width', height')) ←
        enter gdal lru draws string_hash fuel env
          (Entries.get_width_height gdal lru draws string_hash d) token attempts (width, height)
    release_int_elements _width_height (overwrite width_height (width' ∷ height' ∷ []))
    pure retval

  unfoldable pub get_transform : ℕ → ℤ → ℤ → ℕ → J
  get_transform token dataset attempts _transform = do
    transform ← get_double_elements _transform
    d ← which dataset
    wants 6 transform
    (retval, transform') ←
        enter gdal lru draws string_hash fuel env
          (Entries.get_transform gdal lru draws string_hash d) token attempts transform
    release_double_elements _transform (overwrite transform transform')
    pure retval
