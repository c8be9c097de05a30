-- ===== src/Dataset/Queries.antt =====
-- src/locked_dataset.hpp, the queries: the macros TRYLOCK, UNLOCK, SUCCESS and FAILURE.
pub mod Band
pub mod Whole
pub mod Metadata
pub mod Protocol
pub mod Codes
use gdal_warp_bindings.Base.{ℕ, ◌≡◌, Bool, true, false, ℤ, pos, negsuc, neg_ℤ, eq_ℤ, if◌then◌else◌}
use gdal_warp_bindings.Mutex.{trylock, unlock}
use gdal_warp_bindings.Gdal.{Handle}
use gdal_warp_bindings.World.{World, M, last_errno, ◌>>=◌, ◌>>◌, pure}
use gdal_warp_bindings.Dataset.{LockedDataset}

-- The largest and the least `int`.
abbrev pub attempt_successful : ℤ
attempt_successful = pos 2147483647

abbrev pub dataset_locked : ℤ
dataset_locked = negsuc 2147483647

-- -CPLE_ObjectNull
abbrev pub object_null : ℤ
object_null = negsuc 9

-- The index into `m_datasets`: SOURCE or WARPED. Any other number reads outside of the array.
pub data Which : Type 0 where
  source_index warped_index : Which

unfoldable pub handle : Which → LockedDataset → Handle
handle source_index ds = ds.source
handle warped_index ds = ds.warped

-- An operation on a locked dataset, with the memory `S` behind its return-location arguments. It
-- returns the code, the dataset and the memory.
abbrev pub Op : Type 0 → Type 0 → Type 0
Op G S = LockedDataset → S → M G (ℤ × LockedDataset × S)

unfoldable pub failure_code : ℤ → ℤ
failure_code retval = if eq_ℤ retval (pos 0) then object_null else neg_ℤ retval

module _ {G : Type 0} where
  -- FAILURE
  unfoldable pub failure : M G ℤ
  unfolding failure_code
  failure = do retval ← last_errno; pure (failure_code retval)

  -- SUCCESS or FAILURE
  unfoldable pub answer : Bool → M G ℤ
  unfolding failure
  answer true = pure attempt_successful
  answer false = failure

  -- What stands between TRYLOCK and UNLOCK gives the memory and whether SUCCESS or FAILURE follows.
  unfoldable pub with_lock : {S : Type 0} → (LockedDataset → S → M G (Bool × S)) → Op G S
  unfolding answer
  with_lock body ds s w =
      let locked = trylock w.tid ds.mutex in
      if locked.0
      then (do
        (fine, s') ← body ds s
        code ← answer fine
        pure (code, record ds { mutex = unlock w.tid locked.1 }, s'))
          w
      else ((dataset_locked, ds, s), w)
