-- ===== src/Bindings/Entries.antt =====
-- src/bindings.cpp, the entry points that query a dataset: each calls DOIT with one operation of
-- src/locked_dataset.hpp. The memory behind the return-location arguments is passed in and out.
pub mod Calls
pub mod Known
pub mod Answers
use gdal_warp_bindings.Base.{ℕ, String, List, Option, none, some, Bool, ℤ}
use gdal_warp_bindings.Errno.{Outcome, returns, exits, faults}
use gdal_warp_bindings.Gdal.{Gdal, Bytes}
use gdal_warp_bindings.World.{World}
use gdal_warp_bindings.Dataset.Queries.{Which, Op}
use gdal_warp_bindings.Dataset.Queries.Band
use gdal_warp_bindings.Dataset.Queries.Band.{Flagged, MinMax, Sizes}
use gdal_warp_bindings.Dataset.Queries.Whole
use gdal_warp_bindings.Dataset.Queries.Metadata
use gdal_warp_bindings.Tokens.{LruCache, Tokens, query_token}
use gdal_warp_bindings.Cache.{Cache}
use gdal_warp_bindings.Bindings.{Budget, Surroundings, Run, doit}

-- The state of the library between `init` and `deinit`, with the world of the calling thread.
pub record Library (G C : Type 0) : Type 0 where
  pub cache : Cache
  pub tokens : Tokens C
  pub default_nanos : ℕ
  pub world : World G

-- What an entry point leaves: its result, the memory and the library.
abbrev pub Left : Type 0 → Type 0 → Type 0 → Type 0
Left G C S = ℤ × S × Library G C

module _ (gdal : Gdal) (lru : LruCache) (draws : ℕ → ℕ) (string_hash : String → ℕ) where
  open gdal use {G, Double}
  open lru use {C}

  -- The library after DOIT.
  unfoldable pub leave : {S : Type 0} → Tokens C → Library G C → ℤ × Run G S → Left G C S
  leave tokens lib (code, r) =
      (code, r.memory, record lib { cache = r.cache; tokens = tokens; world = r.world })

  -- DOIT with its call of `query_token`; `none` means that the fuel ran out.
  unfoldable pub entry :
      {S : Type 0}
      → Op G S
      → ℕ
      → Surroundings
      → ℕ
      → Budget
      → S
      → Library G C
      → Option (Outcome (Left G C S))
  entry op fuel env token budget memory lib =
      elim (query_token lru draws lib.world.tid token lib.tokens) [
        | exits ↦ some exits
        | faults ↦ some faults
        | returns (found, tokens) ↦
            elim (doit gdal string_hash op fuel budget env found lib.cache memory lib.world) [
              | none ↦ none
              | some ended ↦ some (returns (leave tokens lib ended))
            ]
      ]

  -- An entry point: the fuel, the surroundings, `token`, `attempts`, `copies`.
  abbrev pub Entry : Type 0 → Type 0
  Entry S = ℕ → Surroundings → ℕ → ℤ → ℤ → S → Library G C → Option (Outcome (Left G C S))

  -- With `nanos = default_nanos`.
  unfoldable pub by_default : {S : Type 0} → Op G S → Entry S
  unfolding entry
  by_default op fuel env token attempts copies memory lib =
      entry op fuel env token
        (record { attempts = attempts; copies = copies; nanos = lib.default_nanos }) memory lib

  unfoldable pub noop : Entry (Unit {0})
  noop = by_default Band.noop

  unfoldable pub get_block_size : Which → ℤ → Entry (ℤ × ℤ)
  get_block_size dataset band_number = by_default (Band.get_block_size gdal dataset band_number)

  unfoldable pub get_histogram : Which → ℤ → Double → Double → ℤ → Bool → Bool → Entry (List ℕ)
  get_histogram dataset band_number lower upper num_buckets include_out_of_range approx_ok =
      by_default (
        Band.get_histogram gdal dataset band_number lower upper num_buckets include_out_of_range
          approx_ok)

  unfoldable pub get_offset : Which → ℤ → Entry (Flagged Double)
  get_offset dataset band_number = by_default (Band.get_offset gdal dataset band_number)

  unfoldable pub get_scale : Which → ℤ → Entry (Flagged Double)
  get_scale dataset band_number = by_default (Band.get_scale gdal dataset band_number)

  unfoldable pub get_color_interpretation : Which → ℤ → Entry ℤ
  get_color_interpretation dataset band_number =
      by_default (Band.get_color_interpretation gdal dataset band_number)

  unfoldable pub get_metadata_domain_list : Which → ℤ → Entry (Option (List Bytes))
  get_metadata_domain_list dataset band_number =
      by_default (Metadata.get_metadata_domain_list gdal dataset band_number)

  unfoldable pub get_metadata : Which → ℤ → Bytes → Entry (Option (List Bytes))
  get_metadata dataset band_number domain =
      by_default (Metadata.get_metadata gdal dataset band_number domain)

  unfoldable pub get_metadata_item : Which → ℤ → Bytes → Bytes → Entry (Option Bytes)
  get_metadata_item dataset band_number key domain =
      by_default (Metadata.get_metadata_item gdal dataset band_number key domain)

  unfoldable pub get_overview_widths_heights : Which → ℤ → ℕ → Entry Sizes
  get_overview_widths_heights dataset band_number max_length =
      by_default (Band.get_overview_widths_heights gdal dataset band_number max_length)

  unfoldable pub get_crs_proj4 : Which → ℕ → Entry Bytes
  get_crs_proj4 dataset max_size = by_default (Whole.get_crs_proj4 gdal dataset max_size)

  unfoldable pub get_crs_wkt : Which → ℕ → Entry Bytes
  get_crs_wkt dataset max_size = by_default (Whole.get_crs_wkt gdal dataset max_size)

  unfoldable pub get_band_nodata : Which → ℤ → Entry (Flagged Double)
  get_band_nodata dataset band_number = by_default (Band.get_band_nodata gdal dataset band_number)

  unfoldable pub get_band_min_max : Which → ℤ → Bool → Entry (MinMax Double)
  get_band_min_max dataset band_number approx_okay =
      by_default (Band.get_band_max_min gdal dataset band_number approx_okay)

  unfoldable pub get_band_data_type : Which → ℤ → Entry ℤ
  get_band_data_type dataset band_number =
      by_default (Band.get_band_data_type gdal dataset band_number)

  unfoldable pub get_band_count : Which → Entry ℤ
  get_band_count dataset = by_default (Whole.get_band_count gdal dataset)

  unfoldable pub get_width_height : Which → Entry (ℤ × ℤ)
  get_width_height dataset = by_default (Whole.get_width_height gdal dataset)

  -- On Linux, with the `nanos` of the caller, which comes first here.
  unfoldable pub get_data : ℕ → Which → List ℤ → List ℤ → ℤ → ℤ → Entry Bytes
  unfolding entry
  get_data nanos dataset src_window dst_window band_number type fuel env token attempts copies =
      entry (Band.get_pixels gdal dataset src_window dst_window band_number type) fuel env token
        (record { attempts = attempts; copies = copies; nanos = nanos })

  unfoldable pub get_transform : Which → Entry (List Double)
  get_transform dataset = by_default (Whole.get_transform gdal dataset)
