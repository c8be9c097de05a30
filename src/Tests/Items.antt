-- ===== src/Tests/Items.antt =====
-- An item of metadata that is there, through all layers.
use gdal_warp_bindings.Base.{
  ℕ, ◌+◌, ◌<◌, ◌≤◌, ◌≡◌, ◌⊎◌, refl, [], ◌∷◌, none, some, ℤ, pos, length, arith,
}
use gdal_warp_bindings.Types.{uri_options_hash, options_hash, options_hash_from}
use gdal_warp_bindings.Errno.{returns}
use gdal_warp_bindings.World.{report_all, run}
use gdal_warp_bindings.Dataset.{
  matches, valid, inc, dec, lock_for_deletion, output_format_configured, warp_options, close,
  open_with_options, open_missing, open_dataset, construct, destroy, move_assign,
}
use gdal_warp_bindings.Dataset.Queries.{with_lock, answer}
use gdal_warp_bindings.Cache.{
  holds, find_all, unlock_best, visit, scan_round, scan_from, scan, hard_copies, soft_copies,
  missing, replace, insert, insert_one, insert_many, get,
}
use gdal_warp_bindings.Bindings.{release, call, call_if_there, try_one, try_all, fetch, doit}
use gdal_warp_bindings.Gdal.{Gdal}
use gdal_warp_bindings.Tokens.{Entries, query_token}
use gdal_warp_bindings.Dataset.Queries.{source_index, handle}
use gdal_warp_bindings.Dataset.Queries.Protocol.{metadata_item}
use gdal_warp_bindings.Dataset.Queries.Metadata.{
  metadata_owner, get_metadata_item as get_metadata_item_op,
}
use gdal_warp_bindings.Bindings.{doit, attempt_loop, goes_on, final_code, timed_out}
use gdal_warp_bindings.Bindings.Entries
use gdal_warp_bindings.Bindings.Entries.{Library}
use gdal_warp_bindings.Bindings.Entries.Calls.{call_entry}
use gdal_warp_bindings.Jni.{Native, copies, app_defined}
use gdal_warp_bindings.Jni.Texts
use gdal_warp_bindings.Jni.Texts.Java.{until_zero, trim, read_text}
use gdal_warp_bindings.Jni.Texts.Items.{get_metadata_item_found}
use gdal_warp_bindings.Tests.Mock.{mock, boost, draws, string_hash}
use gdal_warp_bindings.Tests.Data.{library, surroundings}
use gdal_warp_bindings.Tests.Java.{java, utf_chars}

-- A GDAL whose datasets have an item "AB".
abbrev with_item : Gdal
with_item = record mock { get_metadata_item = λ h k d g. (some (65 ∷ 66 ∷ []), [], g) }

item_found :
    (lib : Library ℕ (ℕ × Entries)) × (call_entry with_item boost draws string_hash
        (metadata_item source_index (pos 0) (65 ∷ []) (65 ∷ []))
        5
        surroundings
        33
        (pos 3)
        copies
        none
        library
      ≡ some (returns (pos 1, some (65 ∷ 66 ∷ []), lib)))
unfolding call_entry Entries.get_metadata_item Entries.by_default Entries.entry Entries.leave
    query_token doit attempt_loop goes_on timed_out final_code metadata_owner get_metadata_item_op
    handle try_all fetch get insert_many find_all holds uri_options_hash insert_one insert scan
    scan_from scan_round visit lock_for_deletion unlock_best replace call call_if_there release
    try_one hard_copies missing soft_copies close construct dec destroy inc matches move_assign
    open_dataset open_missing open_with_options output_format_configured valid warp_options
    options_hash options_hash_from report_all run with_lock answer
item_found = (_, refl)

get_metadata_item_found_example :
    (code : ℤ) × (s' : Native ℕ (ℕ × Entries) ℕ) × (Texts.get_metadata_item with_item boost draws
        string_hash utf_chars 5 surroundings 33
        (pos 0)
        (pos 3)
        (pos 0)
        1
        2
        3
        java
      ≡ some (returns (code, s')))
    × (s'.jvm.acquired + 0 ≡ 0 + s'.jvm.released)
    × (((length {A = ℕ} (65 ∷ 66 ∷ []) + 1 < 5)
          × (code ≡ pos 1)
          × (until_zero (s'.jvm.bytes 3) ≡ 65 ∷ 66 ∷ [])
          × (read_text (s'.jvm.bytes 3) ≡ trim (65 ∷ 66 ∷ [])))
        ⊎ ((5 ≤ length {A = ℕ} (65 ∷ 66 ∷ []) + 1)
            × (code ≡ app_defined)
            × (s'.jvm.bytes 3 ≡ 1 ∷ 2 ∷ 3 ∷ 4 ∷ 5 ∷ [])))
get_metadata_item_found_example =
    get_metadata_item_found with_item boost draws string_hash utf_chars 5 surroundings 33
      source_index (pos 3) (pos 0) 1 2 3 java 1 (65 ∷ 66 ∷ []) item_found.0 item_found.1
      (omega arith, (omega arith, tt))
