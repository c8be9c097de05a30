-- ===== src/Bindings/Entries/Calls.antt =====
-- The entry points of bindings.cpp by the queries of locked_dataset.hpp that they make.
use gdal_warp_bindings.Base.{ℕ, ◌≡◌, refl, String}
use gdal_warp_bindings.Gdal.{Gdal}
use gdal_warp_bindings.Dataset.Queries.Protocol as Protocol
use gdal_warp_bindings.Dataset.Queries.Protocol.{Query, perform, perform-keeps, get_pixels-keeps}
use gdal_warp_bindings.Tokens.{LruCache}
use gdal_warp_bindings.Bindings.Entries
use gdal_warp_bindings.Bindings.Entries.{Library, Left, leave, entry, by_default, get_data, Entry}

module _ (gdal : Gdal) (lru : LruCache) (draws : ℕ → ℕ) (string_hash : String → ℕ) where
  open gdal use {G}
  open lru use {C}

  -- The entry point of a query.
  unfoldable pub call_entry : {S : Type 0} → Query gdal S → Entry gdal lru draws string_hash S
  call_entry Protocol.noop = Entries.noop gdal lru draws string_hash
  call_entry (Protocol.block_size d n) = Entries.get_block_size gdal lru draws string_hash d n
  call_entry (Protocol.histogram d n lo hi k out approx) =
      Entries.get_histogram gdal lru draws string_hash d n lo hi k out approx
  call_entry (Protocol.offset d n) = Entries.get_offset gdal lru draws string_hash d n
  call_entry (Protocol.scale d n) = Entries.get_scale gdal lru draws string_hash d n
  call_entry (Protocol.color_interpretation d n) =
      Entries.get_color_interpretation gdal lru draws string_hash d n
  call_entry (Protocol.overview_widths_heights d n max) =
      Entries.get_overview_widths_heights gdal lru draws string_hash d n max
  call_entry (Protocol.band_nodata d n) = Entries.get_band_nodata gdal lru draws string_hash d n
  call_entry (Protocol.band_data_type d n) =
      Entries.get_band_data_type gdal lru draws string_hash d n
  call_entry (Protocol.band_max_min d n approx) =
      Entries.get_band_min_max gdal lru draws string_hash d n approx
  call_entry (Protocol.crs_proj4 d size) = Entries.get_crs_proj4 gdal lru draws string_hash d size
  call_entry (Protocol.crs_wkt d size) = Entries.get_crs_wkt gdal lru draws string_hash d size
  call_entry (Protocol.band_count d) = Entries.get_band_count gdal lru draws string_hash d
  call_entry (Protocol.transform d) = Entries.get_transform gdal lru draws string_hash d
  call_entry (Protocol.width_height d) = Entries.get_width_height gdal lru draws string_hash d
  call_entry (Protocol.metadata_domain_list d n) =
      Entries.get_metadata_domain_list gdal lru draws string_hash d n
  call_entry (Protocol.metadata d n domain) =
      Entries.get_metadata gdal lru draws string_hash d n domain
  call_entry (Protocol.metadata_item d n key domain) =
      Entries.get_metadata_item gdal lru draws string_hash d n key domain

  pub call_entry-by_default :
      {S : Type 0} (q : Query gdal S)
      → call_entry q ≡ by_default gdal lru draws string_hash (perform gdal q)
  unfolding call_entry perform Entries.noop Entries.get_block_size Entries.get_histogram
      Entries.get_offset Entries.get_scale Entries.get_color_interpretation
      Entries.get_overview_widths_heights Entries.get_band_nodata Entries.get_band_data_type
      Entries.get_band_min_max Entries.get_crs_proj4 Entries.get_crs_wkt Entries.get_band_count
      Entries.get_transform Entries.get_width_height Entries.get_metadata_domain_list
      Entries.get_metadata Entries.get_metadata_item
  call_entry-by_default Protocol.noop = refl
  call_entry-by_default (Protocol.block_size d n) = refl
  call_entry-by_default (Protocol.histogram d n lo hi k out approx) = refl
  call_entry-by_default (Protocol.offset d n) = refl
  call_entry-by_default (Protocol.scale d n) = refl
  call_entry-by_default (Protocol.color_interpretation d n) = refl
  call_entry-by_default (Protocol.overview_widths_heights d n max) = refl
  call_entry-by_default (Protocol.band_nodata d n) = refl
  call_entry-by_default (Protocol.band_data_type d n) = refl
  call_entry-by_default (Protocol.band_max_min d n approx) = refl
  call_entry-by_default (Protocol.crs_proj4 d size) = refl
  call_entry-by_default (Protocol.crs_wkt d size) = refl
  call_entry-by_default (Protocol.band_count d) = refl
  call_entry-by_default (Protocol.transform d) = refl
  call_entry-by_default (Protocol.width_height d) = refl
  call_entry-by_default (Protocol.metadata_domain_list d n) = refl
  call_entry-by_default (Protocol.metadata d n domain) = refl
  call_entry-by_default (Protocol.metadata_item d n key domain) = refl
