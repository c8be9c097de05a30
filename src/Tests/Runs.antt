-- ===== src/Tests/Runs.antt =====
-- The theorems on the calls and on the cache of datasets, applied.
use gdal_warp_bindings.Base.{
  ℕ, ◌≡◌, inr, refl, [], ◌∷◌, none, some, true, false, ℤ, pos, get_elem?, arith,
}
use gdal_warp_bindings.Errno.{returns}
use gdal_warp_bindings.World.{World, run, report_all}
use gdal_warp_bindings.Dataset.{
  valid, construct, open_dataset, open_missing, open_with_options, warp_options,
}
use gdal_warp_bindings.Dataset.Queries.{warped_index}
use gdal_warp_bindings.Dataset.Queries.Band.{noop as noop_op}
use gdal_warp_bindings.Dataset.Queries.Protocol.{block_size}
use gdal_warp_bindings.Dataset.Deletion.{deletable}
use gdal_warp_bindings.Cache.{insert, get}
use gdal_warp_bindings.Cache.Insert.{Inserted, insert-Inserted}
use gdal_warp_bindings.Cache.Pins.{Pinned, get-Pinned}
use gdal_warp_bindings.Cache.Eviction.{
  candidates, insert_keeps_busy, insert_again, insert_exhausted,
}
use gdal_warp_bindings.Tokens.{Tokens, Entries}
use gdal_warp_bindings.Bindings.{open_failed}
use gdal_warp_bindings.Bindings.Entries.{Left}
use gdal_warp_bindings.Bindings.Entries.Calls.{call_entry}
use gdal_warp_bindings.Bindings.Entries.Known.{Balanced, call_entry-Balanced, call_entry_unknown}
use gdal_warp_bindings.Tests.Mock.{mock, boost, boost_laws, draws, string_hash}
use gdal_warp_bindings.Tests.Data.{
  key, missing_key, world, two_slots, used_slot, used_cache, library, surroundings,
}

call_entry-Balanced_example :
    (left : Left ℕ (ℕ × Entries) (ℤ × ℤ)) × (call_entry mock boost draws string_hash
        (block_size warped_index (pos 1))
        5
        surroundings
        33
        (pos 3)
        (pos 1)
        (pos 0, pos 0)
        library
      ≡ some (returns left))
    × Balanced mock boost draws string_hash library left
call_entry-Balanced_example =
    call_entry-Balanced mock boost draws string_hash (block_size warped_index (pos 1)) 2
      surroundings 33 (pos 1) (pos 0, pos 0) library (4, (33, key) ∷ []) refl refl
      (omega arith, (omega arith, tt)) refl

call_entry_unknown_example :
    (tokens : Tokens (ℕ × Entries)) × (call_entry mock boost draws string_hash
        (block_size warped_index (pos 1))
        5
        surroundings
        8
        (pos 3)
        (pos 1)
        (pos 0, pos 0)
        library
      ≡ some (returns (open_failed, (pos 0, pos 0), record library { tokens = tokens })))
call_entry_unknown_example =
    call_entry_unknown mock boost draws string_hash boost_laws (block_size warped_index (pos 1)) 5
      surroundings 8 (pos 3) (pos 1) (pos 0, pos 0) library (4, (33, key) ∷ []) refl refl (inr refl)

insert-Inserted_example : Inserted mock 5 key two_slots world (insert mock 5 key two_slots world)
insert-Inserted_example = insert-Inserted mock 5 key two_slots world refl

get-Pinned_example :
    let r = get mock string_hash true key (pos 1) two_slots world in Pinned two_slots r.0.1 r.0.0
get-Pinned_example = get-Pinned mock string_hash true key (pos 1) two_slots world refl

insert_keeps_busy_example :
    get_elem? (insert mock 5 key used_cache world).0.1.slots 0 ≡ some used_slot
unfolding deletable
insert_keeps_busy_example = insert_keeps_busy mock 5 key used_cache world 0 used_slot refl refl refl

-- GDAL cannot open the file at all.
missing_fails : (v : World ℕ) → valid (construct mock missing_key v).0 ≡ false
unfolding valid construct open_dataset open_missing open_with_options warp_options run report_all
missing_fails v = refl

insert_exhausted_example :
    let d = (insert_again mock 2 6 missing_key two_slots world).0 in
    insert mock 5 key d world ≡ ((none, d), world)
unfolding candidates deletable
insert_exhausted_example =
    insert_exhausted mock 2 6 5 missing_key key two_slots world world missing_fails refl
      (omega arith)
