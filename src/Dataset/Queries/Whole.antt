-- ===== src/Dataset/Queries/Whole.antt =====
-- src/locked_dataset.hpp, the queries of a whole dataset.
use gdal_warp_bindings.Base.{ℕ, zero, suc, List, [], ◌∷◌, true, ℤ}
use gdal_warp_bindings.Gdal.{Gdal, Bytes}
use gdal_warp_bindings.World.{run, ◌>>=◌, pure}
use gdal_warp_bindings.Dataset.Queries.{Which, handle, Op, with_lock}

-- C's `strncpy`: at most `n` bytes of the text, and zeros up to `n`. The text has no zero byte.
unfoldable pub strncpy : Bytes → Bytes → ℕ → Bytes
strncpy [] src n = []
strncpy (d ∷ dst) src zero = d ∷ dst
strncpy (d ∷ dst) [] (suc n) = 0 ∷ strncpy dst [] n
strncpy (d ∷ dst) (c ∷ src) (suc n) = c ∷ strncpy dst src n

module _ (gdal : Gdal) where
  open gdal use {G, Double}

  unfoldable pub get_crs_proj4 : Which → ℕ → Op G Bytes
  get_crs_proj4 dataset max_size = with_lock λ ds crs. do
    wkt ← run (gdal.get_projection_ref (handle dataset ds))
    result ← run (gdal.export_to_proj4 wkt)
    pure (true, strncpy crs result max_size)

  unfoldable pub get_crs_wkt : Which → ℕ → Op G Bytes
  get_crs_wkt dataset max_size = with_lock λ ds crs. do
    wkt ← run (gdal.get_projection_ref (handle dataset ds))
    pure (true, strncpy crs wkt max_size)

  unfoldable pub get_band_count : Which → Op G ℤ
  get_band_count dataset = with_lock λ ds s. do
    band_count ← run (gdal.get_raster_count (handle dataset ds))
    pure (true, band_count)

  unfoldable pub get_transform : Which → Op G (List Double)
  get_transform dataset = with_lock λ ds s. do
    transform ← run (gdal.get_geo_transform (handle dataset ds))
    pure (true, transform)

  unfoldable pub get_width_height : Which → Op G (ℤ × ℤ)
  get_width_height dataset = with_lock λ ds s. do
    width ← run (gdal.get_raster_x_size (handle dataset ds))
    height ← run (gdal.get_raster_y_size (handle dataset ds))
    pure (true, (width, height))
