-- ===== src/Dataset/Deletion.antt =====
-- `lock_for_deletion` and `unlock_for_nondeletion` of locked_dataset.hpp.
use gdal_warp_bindings.Base.{ℕ, ◌≡◌, none, some, Bool, true, false, ◌==◌, arith, if◌then◌else◌}
use gdal_warp_bindings.Dataset.{LockedDataset, lock_for_deletion, unlock_for_nondeletion}

-- Nobody holds the mutex and nobody uses the dataset.
unfoldable pub deletable : LockedDataset → Bool
deletable ds = elim ds.mutex [ none ↦ ds.use_count == 0 | some holder ↦ false ]

-- It says "true" for a deletable dataset only, which the thread then holds, and leaves any other as
-- it was.
pub lock_for_deletion_lem :
    (tid : ℕ) (ds : LockedDataset)
    → lock_for_deletion tid ds
      ≡ (if deletable ds then (true, record ds { mutex = some tid }) else (false, ds))
unfolding lock_for_deletion deletable
lock_for_deletion_lem tid ds = ground arith

pub lock_for_deletion-true :
    (tid : ℕ) (ds : LockedDataset)
    → deletable ds ≡ true
    → lock_for_deletion tid ds ≡ (true, record ds { mutex = some tid })
lock_for_deletion-true tid ds h = rw (lock_for_deletion_lem tid ds, h)

pub lock_for_deletion-false :
    (tid : ℕ) (ds : LockedDataset) → deletable ds ≡ false → lock_for_deletion tid ds ≡ (false, ds)
lock_for_deletion-false tid ds h = rw (lock_for_deletion_lem tid ds, h)

-- Unlocking takes it back.
pub unlock-lock_for_deletion :
    (tid : ℕ) (ds : LockedDataset)
    → deletable ds ≡ true
    → unlock_for_nondeletion tid (record ds { mutex = some tid }) ≡ ds
unfolding unlock_for_nondeletion deletable
unlock-lock_for_deletion tid ds h = ground arith

pub deletable-free :
    (ds : LockedDataset) → deletable ds ≡ true → (ds.mutex ≡ none) × (ds.use_count ≡ 0)
unfolding deletable
deletable-free ds h = ground arith
