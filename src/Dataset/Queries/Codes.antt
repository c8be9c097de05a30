-- ===== src/Dataset/Queries/Codes.antt =====
-- When a query of locked_dataset.hpp says SUCCESS and when FAILURE, and what code that gives.
use gdal_warp_bindings.Base.{
  ℕ, ◌≡◌, refl, inl, inr, ◌⊎◌, Bool, Option, none, some, true, false, ◌||◌, ◌==◌, ℤ, pos, eq_ℤ,
  neg_ℤ, if◌then◌else◌, Bool-cases, Option-cases,
}
use mathlib.Core.Path.{fun_ext}
use gdal_warp_bindings.Errno.Map.{Entry, find}
use gdal_warp_bindings.Errno.{take_errno}
use gdal_warp_bindings.Errno.Strings.{CplErr, ce_none}
use gdal_warp_bindings.Gdal.{Gdal}
use gdal_warp_bindings.World.{World, M, run, last_errno}
use gdal_warp_bindings.Dataset.{LockedDataset}
use gdal_warp_bindings.Dataset.Queries.{
  Op, handle, attempt_successful, object_null, failure_code, answer, with_lock,
}
use gdal_warp_bindings.Dataset.Queries.Band.{
  noop as noop_op, is_ce_none, get_block_size, get_histogram, get_offset, get_scale,
  get_color_interpretation, get_overview_widths_heights, get_band_nodata, get_band_data_type,
  get_band_max_min,
}
use gdal_warp_bindings.Dataset.Queries.Whole.{
  get_crs_proj4, get_crs_wkt, get_band_count, get_transform, get_width_height,
}
use gdal_warp_bindings.Dataset.Queries.Metadata.{
  is_some, last_errno_timestamp, metadata_owner, get_metadata_domain_list, get_metadata,
  get_metadata_item,
}
use gdal_warp_bindings.Dataset.Queries.Protocol.{Query, perform, perform-keeps, with_lock_free}
use gdal_warp_bindings.Dataset.Queries.Protocol

-- The time stamp of the thread's last error, and its number.
abbrev timestamp : Option Entry → ℕ
timestamp none = 0
timestamp (some (n, t)) = t

abbrev pub code_of : Option Entry → ℤ
code_of none = object_null
code_of (some (n, t)) = if eq_ℤ n (pos 0) then object_null else neg_ℤ n

abbrev pub stamp : {G : Type 0} → World G → ℕ
stamp w = timestamp (find w.tid w.errors)

-- The world where a query finds that it has failed, and `none` where it has not.
abbrev unless_ok : {G : Type 0} → CplErr → World G → Option (World G)
unless_ok ce_none w = none
unless_ok _ w = some w

abbrev unless_there : {G A : Type 0} → Option A → World G → Option (World G)
unless_there none w = some w
unless_there (some a) w = none

-- A null pointer is a failure where an error was noted meanwhile.
abbrev unless_quiet : {G A : Type 0} → World G → Option A → World G → Option (World G)
unless_quiet before none w = if stamp before == stamp w then none else some w
unless_quiet before (some a) w = none

abbrev pub failing :
    (gdal : Gdal) {S : Type 0} → Query gdal S → LockedDataset → World gdal.G → Option (World gdal.G)
failing gdal (Protocol.histogram d n lo hi k out approx) ds w =
    let (band, w1) = run (gdal.get_raster_band (handle d ds) n) w in
    let ((retval, hist), w2) = run (gdal.get_raster_histogram_ex band lo hi k out approx) w1 in
    unless_ok retval w2
failing gdal (Protocol.metadata_domain_list d n) ds w =
    let (owner, w1) = metadata_owner gdal d n ds w in
    let (list, w2) = run (gdal.get_metadata_domain_list owner) w1 in unless_quiet w list w2
failing gdal (Protocol.metadata d n domain) ds w =
    let (owner, w1) = metadata_owner gdal d n ds w in
    let (list, w2) = run (gdal.get_metadata owner domain) w1 in unless_quiet w list w2
failing gdal (Protocol.metadata_item d n key domain) ds w =
    let (owner, w1) = metadata_owner gdal d n ds w in
    let (value, w2) = run (gdal.get_metadata_item owner key domain) w1 in unless_there value w2
failing gdal _ ds w = none

-- The code, and the errors that are left.
abbrev pub Answers : {G : Type 0} → Option (World G) → ℤ → World G → Type 0
Answers none code w = code ≡ attempt_successful
Answers (some failed) code w =
    (code ≡ code_of (find failed.tid failed.errors))
    × (w ≡ record failed { errors = (take_errno failed.tid failed.errors).1 })

failed-Answers : {G : Type 0} (w : World G) → Answers (some w) (answer false w).0 (answer false w).1
unfolding answer failure_code last_errno take_errno
failed-Answers w = elim (Option-cases (find w.tid w.errors)) [
  | inl nothing ↦ rw (nothing, answer, take_errno) (refl, refl)
  | inr (entry, noted) ↦ rw (noted, answer, take_errno) (refl, refl)
]

-- A test that goes with where a query fails.
abbrev Tells : {G : Type 0} → Bool → World G → Option (World G) → Type 0
Tells fine w failed = ((fine ≡ true) × (failed ≡ none)) ⊎ ((fine ≡ false) × (failed ≡ some w))

Tells-ok : {G : Type 0} (e : CplErr) (w : World G) → Tells (is_ce_none e) w (unless_ok e w)
unfolding is_ce_none
Tells-ok ce_none w = inl (refl, refl)
Tells-ok _ w = inr (refl, refl)

Tells-there : {G A : Type 0} (o : Option A) (w : World G) → Tells (is_some o) w (unless_there o w)
Tells-there none w = inr (refl, refl)
Tells-there (some a) w = inl (refl, refl)

Tells-quiet :
    {G A : Type 0} (before w : World G) (o : Option A)
    → Tells (is_some o || stamp before == stamp w) w (unless_quiet before o w)
Tells-quiet before w none = elim (Bool-cases (stamp before == stamp w)) [
  | inl same ↦ rw same (inl (refl, refl))
  | inr moved ↦ rw moved (inr (refl, refl))
]
Tells-quiet before w (some a) = inl (refl, refl)

timestamp_stamp : {G : Type 0} (w : World G) → last_errno_timestamp w ≡ (stamp w, w)
unfolding last_errno_timestamp
timestamp_stamp w = elim (Option-cases (find w.tid w.errors)) [
  | inl nothing ↦ rw (nothing, last_errno_timestamp) refl
  | inr ((n, t), noted) ↦ rw (noted, last_errno_timestamp) refl
]

timestamps : {G : Type 0} → last_errno_timestamp {G = G} ≡ (λ w. (stamp w, w))
timestamps = fun_ext timestamp_stamp

-- The code of an operation on a free dataset goes with where it fails.
record IsCoded {G S : Type 0} (op : Op G S) (failed : LockedDataset → World G → Option (World G))
    : Type 0 where
  coded :
      (ds : LockedDataset) (s : S) (w : World G)
      → ds.mutex ≡ none
      → Answers (failed ds w) (op ds s w).0.0 (op ds s w).1

with_lock-Answers :
    {G S : Type 0} (body : LockedDataset → S → M G (Bool × S)) (ds : LockedDataset) (s : S)
    (w : World G) (failed : Option (World G))
    → ds.mutex ≡ none
    → Tells (body ds s w).0.0 (body ds s w).1 failed
    → Answers failed (with_lock body ds s w).0.0 (with_lock body ds s w).1
unfolding answer
with_lock-Answers body ds s w failed open_mutex (inl (fine, e)) =
    rw (with_lock_free body ds s w open_mutex, fine, e, answer) refl
with_lock-Answers body ds s w failed open_mutex (inr (bad, e)) =
    rw (with_lock_free body ds s w open_mutex, bad, e) (failed-Answers (body ds s w).1)

with_lock-IsCoded :
    {G S : Type 0} (body : LockedDataset → S → M G (Bool × S))
    (failed : LockedDataset → World G → Option (World G))
    → ((ds : LockedDataset) (s : S) (w : World G)
        → Tells (body ds s w).0.0 (body ds s w).1 (failed ds w))
    → IsCoded (with_lock body) failed
with_lock-IsCoded body failed tells = record {
  coded =
      λ ds s w open_mutex. with_lock-Answers body ds s w (failed ds w) open_mutex (tells ds s w);
}

perform-IsCoded :
    (gdal : Gdal) {S : Type 0} (q : Query gdal S) → IsCoded (perform gdal q) (failing gdal q)
unfolding perform noop_op get_block_size get_histogram get_offset get_scale get_color_interpretation
    get_overview_widths_heights get_band_nodata get_band_data_type get_band_max_min get_crs_proj4
    get_crs_wkt get_band_count get_transform get_width_height get_metadata_domain_list get_metadata
    get_metadata_item
perform-IsCoded gdal (Protocol.histogram d n lo hi k out approx) =
    with_lock-IsCoded _ _ (λ ds s w. Tells-ok _ _)
perform-IsCoded gdal (Protocol.metadata_domain_list d n) =
    with_lock-IsCoded _ _ (λ ds s w. rw timestamps (Tells-quiet w _ _))
perform-IsCoded gdal (Protocol.metadata d n domain) =
    with_lock-IsCoded _ _ (λ ds s w. rw timestamps (Tells-quiet w _ _))
perform-IsCoded gdal (Protocol.metadata_item d n key domain) =
    with_lock-IsCoded _ _ (λ ds s w. Tells-there _ _)
perform-IsCoded gdal Protocol.noop = with_lock-IsCoded _ _ (λ ds s w. inl (refl, refl))
perform-IsCoded gdal (Protocol.block_size d n) = with_lock-IsCoded _ _ (λ ds s w. inl (refl, refl))
perform-IsCoded gdal (Protocol.offset d n) = with_lock-IsCoded _ _ (λ ds s w. inl (refl, refl))
perform-IsCoded gdal (Protocol.scale d n) = with_lock-IsCoded _ _ (λ ds s w. inl (refl, refl))
perform-IsCoded gdal (Protocol.color_interpretation d n) =
    with_lock-IsCoded _ _ (λ ds s w. inl (refl, refl))
perform-IsCoded gdal (Protocol.overview_widths_heights d n max) =
    with_lock-IsCoded _ _ (λ ds s w. inl (refl, refl))
perform-IsCoded gdal (Protocol.band_nodata d n) = with_lock-IsCoded _ _ (λ ds s w. inl (refl, refl))
perform-IsCoded gdal (Protocol.band_data_type d n) =
    with_lock-IsCoded _ _ (λ ds s w. inl (refl, refl))
perform-IsCoded gdal (Protocol.band_max_min d n approx) =
    with_lock-IsCoded _ _ (λ ds s w. inl (refl, refl))
perform-IsCoded gdal (Protocol.crs_proj4 d size) =
    with_lock-IsCoded _ _ (λ ds s w. inl (refl, refl))
perform-IsCoded gdal (Protocol.crs_wkt d size) = with_lock-IsCoded _ _ (λ ds s w. inl (refl, refl))
perform-IsCoded gdal (Protocol.band_count d) = with_lock-IsCoded _ _ (λ ds s w. inl (refl, refl))
perform-IsCoded gdal (Protocol.transform d) = with_lock-IsCoded _ _ (λ ds s w. inl (refl, refl))
perform-IsCoded gdal (Protocol.width_height d) = with_lock-IsCoded _ _ (λ ds s w. inl (refl, refl))

-- On a dataset whose mutex is free, a query but `get_pixels` leaves the dataset as it was, the mutex
-- free again. It fails exactly where GDALGetRasterHistogramEx does not return CE_None; where an item
-- of metadata is not there; and where the list of metadata or of their domains is not there and the
-- time stamp of the thread's last error has moved meanwhile. A query that does not fail returns
-- ATTEMPT_SUCCESSFUL. One that fails returns the negated number of the thread's last error as it then
-- stands, or -CPLE_ObjectNull where there is none, and takes that error out of the map.
pub perform_free :
    (gdal : Gdal) {S : Type 0} (q : Query gdal S) (ds : LockedDataset) (s : S) (w : World gdal.G)
    → ds.mutex ≡ none
    → ((perform gdal q ds s w).0.1 ≡ ds)
      × Answers (failing gdal q ds w) (perform gdal q ds s w).0.0 (perform gdal q ds s w).1
perform_free gdal q ds s w open_mutex =
    (perform-keeps gdal q ds s w, (perform-IsCoded gdal q).coded ds s w open_mutex)
