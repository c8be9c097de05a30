-- ===== src/Dataset/Queries/Metadata.antt =====
-- src/locked_dataset.hpp, the queries of metadata. A missing result is an error only if the thread's
-- time stamp of its last error has moved.
use gdal_warp_bindings.Base.{
  ℕ, List, Option, none, some, Bool, true, false, ◌||◌, ℤ, pos, eq_ℤ, ◌==◌, if◌then◌else◌,
}
use gdal_warp_bindings.Errno.Map.{find}
use gdal_warp_bindings.Gdal.{Gdal, Handle, Bytes}
use gdal_warp_bindings.World.{M, run, ◌>>=◌, pure}
use gdal_warp_bindings.Dataset.{LockedDataset}
use gdal_warp_bindings.Dataset.Queries.{Which, handle, Op, with_lock}

abbrev pub is_some {ℓ} : {A : Type ℓ} → Option A → Bool
is_some none = false
is_some (some a) = true

-- `get_last_errno_timestamp` on the live map.
unfoldable pub last_errno_timestamp : {G : Type 0} → M G ℕ
last_errno_timestamp w = elim (find w.tid w.errors) [
  | none ↦ (0, w)
  | some (_, timestamp) ↦ (timestamp, w)
]

module _ (gdal : Gdal) where
  open gdal use {G, get_raster_band}

  -- The dataset for number 0, and a band otherwise.
  unfoldable pub metadata_owner : Which → ℤ → LockedDataset → M G Handle
  unfolding handle
  metadata_owner dataset band_number ds =
      if eq_ℤ band_number (pos 0)
      then pure (handle dataset ds)
      else run (get_raster_band (handle dataset ds) band_number)

  unfoldable pub get_metadata_domain_list : Which → ℤ → Op G (Option (List Bytes))
  get_metadata_domain_list dataset band_number = with_lock λ ds s. do
    time_before ← last_errno_timestamp
    owner ← metadata_owner dataset band_number ds
    domain_list ← run (gdal.get_metadata_domain_list owner)
    time_after ← last_errno_timestamp
    pure (is_some domain_list || time_before == time_after, domain_list)

  unfoldable pub get_metadata : Which → ℤ → Bytes → Op G (Option (List Bytes))
  get_metadata dataset band_number domain = with_lock λ ds s. do
    time_before ← last_errno_timestamp
    owner ← metadata_owner dataset band_number ds
    list ← run (gdal.get_metadata owner domain)
    time_after ← last_errno_timestamp
    pure (is_some list || time_before == time_after, list)

  unfoldable pub get_metadata_item : Which → ℤ → Bytes → Bytes → Op G (Option Bytes)
  get_metadata_item dataset band_number key domain = with_lock λ ds s. do
    owner ← metadata_owner dataset band_number ds
    value ← run (gdal.get_metadata_item owner key domain)
    pure (is_some value, value)
