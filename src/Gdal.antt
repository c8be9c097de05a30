-- ===== src/Gdal.antt =====
-- GDAL, which is not part of the repository: the functions of its C interface that
-- src/locked_dataset.hpp and src/com_azavea_gdal_GDALWarp.c call, as parameters. A handle is a number, a null pointer is `none`, and a
-- C string is the list of its bytes.
use gdal_warp_bindings.Base.{ℕ, String, List, Option, ℤ, Bool}
use gdal_warp_bindings.Errno.{Report}
use gdal_warp_bindings.Errno.Strings.{CplErr}

-- A call takes GDAL's state to its result, to the errors that it hands to the installed handler, in
-- order, and to the new state. CE_Fatal ends the process inside the call, so a call that returns has
-- handed over no such error.
abbrev pub Call : Type 0 → Type 0 → Type 0
Call G A = G → A × List Report × G

abbrev pub Handle : Type 0
Handle = Option ℕ

abbrev pub Bytes : Type 0
Bytes = List ℕ

pub record Gdal : Type 1 where
  pub G : Type 0
  pub Double : Type 0
  -- GDALWarpAppOptionsNew, GDALWarpAppOptionsFree, GDALOpen, GDALWarp with one source, GDALClose
  pub warp_app_options_new : List String → Call G Handle
  pub warp_app_options_free : ℕ → Call G (Unit {0})
  pub open_read_only : String → Call G Handle
  pub warp : ℕ → ℕ → Call G Handle
  pub close : ℕ → Call G (Unit {0})
  -- of a dataset
  pub get_raster_band : Handle → ℤ → Call G Handle
  pub get_raster_count : Handle → Call G ℤ
  pub get_geo_transform : Handle → Call G (List Double)
  pub get_raster_x_size : Handle → Call G ℤ
  pub get_raster_y_size : Handle → Call G ℤ
  pub get_projection_ref : Handle → Call G Bytes
  -- OSRNewSpatialReference, OSRExportToProj4 and the two releases, on the text of a projection
  pub export_to_proj4 : Bytes → Call G Bytes
  -- of a band
  pub get_block_size : Handle → Call G (ℤ × ℤ)
  pub get_raster_histogram_ex :
      Handle → Double → Double → ℤ → Bool → Bool → Call G (CplErr × List ℕ)
  pub get_raster_offset : Handle → Call G (Double × Bool)
  pub get_raster_scale : Handle → Call G (Double × Bool)
  pub get_raster_color_interpretation : Handle → Call G ℤ
  pub get_overview_count : Handle → Call G ℕ
  pub get_overview : Handle → ℕ → Call G Handle
  pub get_raster_band_x_size : Handle → Call G ℤ
  pub get_raster_band_y_size : Handle → Call G ℤ
  pub get_raster_no_data_value : Handle → Call G (Double × Bool)
  pub get_raster_data_type : Handle → Call G ℤ
  pub compute_raster_min_max : Handle → Call G (Double × Double)
  pub get_raster_minimum : Handle → Call G (Double × Bool)
  pub get_raster_maximum : Handle → Call G (Double × Bool)
  -- GDALRasterIO for reading: the source window, the destination window, the type
  pub raster_io : Handle → List ℤ → List ℤ → ℤ → Call G (CplErr × Bytes)
  -- of a dataset or a band
  pub get_metadata_domain_list : Handle → Call G (Option (List Bytes))
  pub get_metadata : Handle → Bytes → Call G (Option (List Bytes))
  pub get_metadata_item : Handle → Bytes → Bytes → Call G (Option Bytes)
  -- GDALVersionInfo, and CPLSetConfigOption
  pub version_info : String → Call G Bytes
  pub set_config_option : String → String → Call G (Unit {0})
