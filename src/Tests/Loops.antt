-- ===== src/Tests/Loops.antt =====
-- Runs on the small GDAL: a call without a limit on its attempts, and steps of threads.
use gdal_warp_bindings.Base.{
  ℕ, ◌<◌, ◌≡◌, refl, sym, subst, ◌%◌, List, [], ◌∷◌, length, get_elem?, arith, some, pos, negsuc,
}
use gdal_warp_bindings.Types.{uri_options_hash, options_hash, options_hash_from}
use gdal_warp_bindings.World.{report_all, run}
use gdal_warp_bindings.Dataset.{
  empty_dataset, int_mod, valid, inc, lock_for_deletion, output_format_configured, warp_options,
  close, open_with_options, open_missing, open_dataset, construct, destroy, move_assign,
}
use gdal_warp_bindings.Cache.{
  unlock_best, visit, scan_round, scan_from, scan, replace, insert, insert_one, Slot, new_cache,
}
use gdal_warp_bindings.Dataset.Queries.Band.{noop as noop_op}
use gdal_warp_bindings.Bindings.{Budget}
use gdal_warp_bindings.Bindings.Threads.{Shared, after_inserts, inserts, Reachable, start, next}
use gdal_warp_bindings.Bindings.Threads.Counts.{occurrences, use_count_exact, insert_keeps_held}
use gdal_warp_bindings.Tests.Mock.{mock, string_hash}
use gdal_warp_bindings.Tests.Data.{key, unwarped_key, world}

abbrev no_limit : Budget
no_limit = record { attempts = pos 0; copies = pos 1; nanos = 0 }

abbrev shared : Shared
shared = after_inserts mock string_hash key world (record { cache = new_cache 2; held = [] })

shared-Reachable : Reachable mock string_hash 2 shared
shared-Reachable = next start (inserts key world)

abbrev stored_slot : Slot
stored_slot = record {
  tag = uri_options_hash string_hash key;
  atime = 1;
  value = record empty_dataset {
    source = some 0;
    warped = some 1;
    uri_options = key;
    use_count = 1;
  };
}

shared_slot : (get_elem? shared.cache.slots 0 ≡ some stored_slot) × (shared.held ≡ 0 ∷ [])
unfolding after_inserts new_cache uri_options_hash insert_one insert scan scan_from scan_round visit
    lock_for_deletion unlock_best replace close construct destroy inc move_assign open_dataset
    open_missing open_with_options output_format_configured valid warp_options options_hash
    options_hash_from report_all run
shared_slot = (refl, refl)

use_count_exact_example : stored_slot.value.use_count ≡ occurrences 0 shared.held % int_mod
use_count_exact_example =
    use_count_exact mock string_hash 2 shared 0 stored_slot shared-Reachable shared_slot.0

held_once : (0 < occurrences 0 shared.held) × (length shared.held < int_mod)
unfolding occurrences
held_once = (
  subst (λ l. 0 < occurrences 0 l) (sym shared_slot.1) (omega arith),
  subst (λ (l : List ℕ). length l < int_mod) (sym shared_slot.1) (omega arith),
)

insert_keeps_held_example :
    get_elem? (insert mock 5 unwarped_key shared.cache world).0.1.slots 0 ≡ some stored_slot
insert_keeps_held_example =
    insert_keeps_held mock string_hash 2 shared 0 stored_slot 5 unwarped_key world shared-Reachable
      shared_slot.0 held_once.0 held_once.1

abbrev negative : Budget
negative = record { attempts = negsuc 0; copies = pos 1; nanos = 0 }
