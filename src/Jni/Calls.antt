-- ===== src/Jni/Calls.antt =====
-- The native functions of com_azavea_gdal_GDALWarp.c with number results, by their queries.
use gdal_warp_bindings.Base.{ℕ, ◌≤◌, length, String, Bool, ℤ, pos}
use gdal_warp_bindings.Gdal.{Gdal}
use gdal_warp_bindings.Dataset.Queries.{Which, source_index, warped_index}
use gdal_warp_bindings.Tokens.{LruCache}
use gdal_warp_bindings.Bindings.{Surroundings}
use gdal_warp_bindings.Jni.{Jvm}
use gdal_warp_bindings.Jni.Scalars.{
  J, noop, get_block_size, get_histogram, get_offset, get_scale, get_color_interpretation,
  get_overview_widths_heights, get_crs_proj4, get_crs_wkt, get_band_nodata, get_band_min_max,
  get_band_data_type, get_band_count, get_width_height, get_transform,
}

-- The number of a dataset in Java.
abbrev pub number : Which → ℤ
number source_index = pos 0
number warped_index = pos 1

module _ (gdal : Gdal) (lru : LruCache) (draws : ℕ → ℕ) (string_hash : String → ℕ) where
  open gdal use {G, Double}
  open lru use {C}

  -- The queries other than the three of metadata, with the references of their arrays.
  pub data JavaQuery : Type 0 where
    java_noop : JavaQuery
    java_block_size : ℤ → ℕ → ℕ → JavaQuery
    java_histogram : ℤ → Double → Double → ℕ → Bool → Bool → JavaQuery
    java_offset java_scale java_band_nodata : ℤ → ℕ → ℕ → JavaQuery
    java_color_interpretation java_band_data_type : ℤ → ℕ → JavaQuery
    java_overview_widths_heights : ℤ → ℕ → ℕ → JavaQuery
    java_crs_proj4 java_crs_wkt java_band_count java_width_height java_transform : ℕ → JavaQuery
    java_band_min_max : ℤ → Bool → ℕ → ℕ → JavaQuery

  module _ (fuel : ℕ) (env : Surroundings) (token : ℕ) (dataset attempts : ℤ) where
    unfoldable pub call_java : JavaQuery → J gdal lru draws string_hash fuel env
    call_java java_noop = noop gdal lru draws string_hash fuel env token dataset attempts
    call_java (java_block_size b w h) =
        get_block_size gdal lru draws string_hash fuel env token dataset attempts b w h
    call_java (java_histogram b lo hi h out approx) =
        get_histogram gdal lru draws string_hash fuel env token dataset attempts b lo hi h out
          approx
    call_java (java_offset b o s) =
        get_offset gdal lru draws string_hash fuel env token dataset attempts b o s
    call_java (java_scale b c s) =
        get_scale gdal lru draws string_hash fuel env token dataset attempts b c s
    call_java (java_band_nodata b o s) =
        get_band_nodata gdal lru draws string_hash fuel env token dataset attempts b o s
    call_java (java_color_interpretation b c) =
        get_color_interpretation gdal lru draws string_hash fuel env token dataset attempts b c
    call_java (java_band_data_type b t) =
        get_band_data_type gdal lru draws string_hash fuel env token dataset attempts b t
    call_java (java_overview_widths_heights b w h) =
        get_overview_widths_heights gdal lru draws string_hash fuel env token dataset attempts b w h
    call_java (java_crs_proj4 c) =
        get_crs_proj4 gdal lru draws string_hash fuel env token dataset attempts c
    call_java (java_crs_wkt c) =
        get_crs_wkt gdal lru draws string_hash fuel env token dataset attempts c
    call_java (java_band_count n) =
        get_band_count gdal lru draws string_hash fuel env token dataset attempts n
    call_java (java_width_height w) =
        get_width_height gdal lru draws string_hash fuel env token dataset attempts w
    call_java (java_transform t) =
        get_transform gdal lru draws string_hash fuel env token dataset attempts t
    call_java (java_band_min_max b approx m s) =
        get_band_min_max gdal lru draws string_hash fuel env token dataset attempts b approx m s

  -- The arrays have as many elements as the operation writes.
  abbrev pub Fits : Jvm Double → JavaQuery → Type 0
  Fits jvm java_noop = Unit {0}
  Fits jvm (java_block_size b w h) = (1 ≤ length (jvm.ints w)) × (1 ≤ length (jvm.ints h))
  Fits jvm (java_histogram b lo hi h out approx) = Unit {0}
  Fits jvm (java_offset b o s) = (1 ≤ length (jvm.doubles o)) × (1 ≤ length (jvm.ints s))
  Fits jvm (java_scale b o s) = (1 ≤ length (jvm.doubles o)) × (1 ≤ length (jvm.ints s))
  Fits jvm (java_band_nodata b o s) = (1 ≤ length (jvm.doubles o)) × (1 ≤ length (jvm.ints s))
  Fits jvm (java_color_interpretation b c) = 1 ≤ length (jvm.ints c)
  Fits jvm (java_band_data_type b c) = 1 ≤ length (jvm.ints c)
  Fits jvm (java_overview_widths_heights b w h) = Unit {0}
  Fits jvm (java_crs_proj4 c) = Unit {0}
  Fits jvm (java_crs_wkt c) = Unit {0}
  Fits jvm (java_band_count c) = 1 ≤ length (jvm.ints c)
  Fits jvm (java_width_height c) = 2 ≤ length (jvm.ints c)
  Fits jvm (java_transform t) = 6 ≤ length (jvm.doubles t)
  Fits jvm (java_band_min_max b approx m s) =
      (2 ≤ length (jvm.doubles m)) × (1 ≤ length (jvm.ints s))
