-- ===== src/Dataset/Queries/Protocol.antt =====
-- How the queries of locked_dataset.hpp use the mutex, and the codes that they return.
use gdal_warp_bindings.Base.{
  ℕ, ◌≡◌, refl, inl, inr, List, Option, none, some, Bool, ℤ, arith, ap, Option-cases,
}
use gdal_warp_bindings.Gdal.{Gdal, Bytes}
use gdal_warp_bindings.World.{World, M, run}
use gdal_warp_bindings.Dataset.{LockedDataset}
use gdal_warp_bindings.Dataset.Queries.Band.{
  Flagged, MinMax, Sizes, noop as noop_op, get_block_size, get_histogram, get_offset, get_scale,
  get_color_interpretation, get_overview_widths_heights, get_band_nodata, get_band_data_type,
  get_band_max_min, read_pixels, get_pixels,
}
use gdal_warp_bindings.Dataset.Queries.Whole.{
  get_crs_proj4, get_crs_wkt, get_band_count, get_transform, get_width_height,
}
use gdal_warp_bindings.Dataset.Queries.Metadata.{
  get_metadata_domain_list, get_metadata, get_metadata_item,
}
use gdal_warp_bindings.Dataset.Queries.{Which, handle, Op, dataset_locked, answer, with_lock}

-- The queries that take the mutex before anything else: all of them but `get_pixels`.
pub data Query (gdal : Gdal) : Type 0 → Type 1 where
  noop : Query gdal (Unit {0})
  block_size : Which → ℤ → Query gdal (ℤ × ℤ)
  histogram : Which → ℤ → gdal.Double → gdal.Double → ℤ → Bool → Bool → Query gdal (List ℕ)
  offset : Which → ℤ → Query gdal (Flagged gdal.Double)
  scale : Which → ℤ → Query gdal (Flagged gdal.Double)
  color_interpretation : Which → ℤ → Query gdal ℤ
  overview_widths_heights : Which → ℤ → ℕ → Query gdal Sizes
  band_nodata : Which → ℤ → Query gdal (Flagged gdal.Double)
  band_data_type : Which → ℤ → Query gdal ℤ
  band_max_min : Which → ℤ → Bool → Query gdal (MinMax gdal.Double)
  crs_proj4 : Which → ℕ → Query gdal Bytes
  crs_wkt : Which → ℕ → Query gdal Bytes
  band_count : Which → Query gdal ℤ
  transform : Which → Query gdal (List gdal.Double)
  width_height : Which → Query gdal (ℤ × ℤ)
  metadata_domain_list : Which → ℤ → Query gdal (Option (List Bytes))
  metadata : Which → ℤ → Bytes → Query gdal (Option (List Bytes))
  metadata_item : Which → ℤ → Bytes → Bytes → Query gdal (Option Bytes)

unfoldable pub perform : (gdal : Gdal) {S : Type 0} → Query gdal S → Op gdal.G S
perform gdal noop = noop_op
perform gdal (block_size d n) = get_block_size gdal d n
perform gdal (histogram d n lo hi k out approx) = get_histogram gdal d n lo hi k out approx
perform gdal (offset d n) = get_offset gdal d n
perform gdal (scale d n) = get_scale gdal d n
perform gdal (color_interpretation d n) = get_color_interpretation gdal d n
perform gdal (overview_widths_heights d n max) = get_overview_widths_heights gdal d n max
perform gdal (band_nodata d n) = get_band_nodata gdal d n
perform gdal (band_data_type d n) = get_band_data_type gdal d n
perform gdal (band_max_min d n approx) = get_band_max_min gdal d n approx
perform gdal (crs_proj4 d size) = get_crs_proj4 gdal d size
perform gdal (crs_wkt d size) = get_crs_wkt gdal d size
perform gdal (band_count d) = get_band_count gdal d
perform gdal (transform d) = get_transform gdal d
perform gdal (width_height d) = get_width_height gdal d
perform gdal (metadata_domain_list d n) = get_metadata_domain_list gdal d n
perform gdal (metadata d n domain) = get_metadata gdal d n domain
perform gdal (metadata_item d n key domain) = get_metadata_item gdal d n key domain

-- What the mutex makes of a call: a busy dataset answers DATASET_LOCKED and nothing happens; a free
-- one is free and unchanged again after the call.
pub record IsGuarded {G S : Type 0} (op : Op G S) : Type 0 where
  pub busy :
      (ds : LockedDataset) (s : S) (w : World G) (holder : ℕ)
      → ds.mutex ≡ some holder
      → op ds s w ≡ ((dataset_locked, ds, s), w)
  pub free : (ds : LockedDataset) (s : S) (w : World G) → ds.mutex ≡ none → (op ds s w).0.1 ≡ ds

pub with_lock_free :
    {G S : Type 0} (body : LockedDataset → S → M G (Bool × S)) (ds : LockedDataset) (s : S)
    (w : World G)
    → ds.mutex ≡ none
    → let r = body ds s w in
      let a = answer r.0.0 r.1 in with_lock body ds s w ≡ ((a.0, ds, r.0.1), a.1)
unfolding with_lock
with_lock_free body ds s w open_mutex = ground arith

with_lock_busy :
    {G S : Type 0} (body : LockedDataset → S → M G (Bool × S)) (ds : LockedDataset) (s : S)
    (w : World G) (holder : ℕ)
    → ds.mutex ≡ some holder
    → with_lock body ds s w ≡ ((dataset_locked, ds, s), w)
unfolding with_lock
with_lock_busy body ds s w holder held = ground arith

with_lock-IsGuarded :
    {G S : Type 0} (body : LockedDataset → S → M G (Bool × S)) → IsGuarded (with_lock body)
with_lock-IsGuarded body = record {
  busy = with_lock_busy body;
  free = λ ds s w open_mutex. rw (with_lock_free body ds s w open_mutex) refl;
}

perform-IsGuarded : (gdal : Gdal) {S : Type 0} (q : Query gdal S) → IsGuarded (perform gdal q)
unfolding perform noop_op get_block_size get_histogram get_offset get_scale get_color_interpretation
    get_overview_widths_heights get_band_nodata get_band_data_type get_band_max_min get_crs_proj4
    get_crs_wkt get_band_count get_transform get_width_height get_metadata_domain_list get_metadata
    get_metadata_item
perform-IsGuarded gdal noop = with_lock-IsGuarded _
perform-IsGuarded gdal (block_size d n) = with_lock-IsGuarded _
perform-IsGuarded gdal (histogram d n lo hi k out approx) = with_lock-IsGuarded _
perform-IsGuarded gdal (offset d n) = with_lock-IsGuarded _
perform-IsGuarded gdal (scale d n) = with_lock-IsGuarded _
perform-IsGuarded gdal (color_interpretation d n) = with_lock-IsGuarded _
perform-IsGuarded gdal (overview_widths_heights d n max) = with_lock-IsGuarded _
perform-IsGuarded gdal (band_nodata d n) = with_lock-IsGuarded _
perform-IsGuarded gdal (band_data_type d n) = with_lock-IsGuarded _
perform-IsGuarded gdal (band_max_min d n approx) = with_lock-IsGuarded _
perform-IsGuarded gdal (crs_proj4 d size) = with_lock-IsGuarded _
perform-IsGuarded gdal (crs_wkt d size) = with_lock-IsGuarded _
perform-IsGuarded gdal (band_count d) = with_lock-IsGuarded _
perform-IsGuarded gdal (transform d) = with_lock-IsGuarded _
perform-IsGuarded gdal (width_height d) = with_lock-IsGuarded _
perform-IsGuarded gdal (metadata_domain_list d n) = with_lock-IsGuarded _
perform-IsGuarded gdal (metadata d n domain) = with_lock-IsGuarded _
perform-IsGuarded gdal (metadata_item d n key domain) = with_lock-IsGuarded _

-- On a dataset whose mutex anyone holds, a query but `get_pixels` returns DATASET_LOCKED, and changes
-- neither the dataset, nor the memory of the caller, nor GDAL's state and the errors.
pub perform_busy :
    (gdal : Gdal) {S : Type 0} (q : Query gdal S) (ds : LockedDataset) (s : S) (w : World gdal.G)
    (holder : ℕ)
    → ds.mutex ≡ some holder
    → perform gdal q ds s w ≡ ((dataset_locked, ds, s), w)
perform_busy gdal q = (perform-IsGuarded gdal q).busy

IsGuarded-keeps :
    {G S : Type 0} {op : Op G S}
    → IsGuarded op
    → (ds : LockedDataset) (s : S) (w : World G) → (op ds s w).0.1 ≡ ds
IsGuarded-keeps guarded ds s w = elim (Option-cases ds.mutex) [
  | inl open_mutex ↦ guarded.free ds s w open_mutex
  | inr (holder, held) ↦ ap (λ r. r.0.1) (guarded.busy ds s w holder held)
]

-- A query gives the dataset back as it found it.
pub perform-keeps :
    (gdal : Gdal) {S : Type 0} (q : Query gdal S) (ds : LockedDataset) (s : S) (w : World gdal.G)
    → (perform gdal q ds s w).0.1 ≡ ds
perform-keeps gdal q = IsGuarded-keeps (perform-IsGuarded gdal q)

-- `get_pixels` looks up the band in GDAL also where it then finds the dataset busy.
pub get_pixels_busy :
    (gdal : Gdal) (d : Which) (src dst : List ℤ) (n type : ℤ) (ds : LockedDataset) (s : Bytes)
    (w : World gdal.G) (holder : ℕ)
    → ds.mutex ≡ some holder
    → get_pixels gdal d src dst n type ds s w
      ≡ ((dataset_locked, ds, s), (run (gdal.get_raster_band (handle d ds) n) w).1)
unfolding get_pixels
get_pixels_busy gdal d src dst n type ds s w holder held =
    let band = run (gdal.get_raster_band (handle d ds) n) w in
    with_lock_busy (read_pixels gdal src dst type band.0) ds s band.1 holder held

-- It too gives the dataset back as it found it.
pub get_pixels-keeps :
    (gdal : Gdal) (d : Which) (src dst : List ℤ) (n type : ℤ) (ds : LockedDataset) (s : Bytes)
    (w : World gdal.G)
    → (get_pixels gdal d src dst n type ds s w).0.1 ≡ ds
unfolding get_pixels
get_pixels-keeps gdal d src dst n type ds s w =
    let band = run (gdal.get_raster_band (handle d ds) n) w in
    IsGuarded-keeps (with_lock-IsGuarded (read_pixels gdal src dst type band.0)) ds s band.1
