-- ===== src/Tests/Setup.antt =====
-- `main` of wrapthread.cpp on the GDAL with two rasters.
use gdal_warp_bindings.Base.{ℕ, zero, suc, ◌<◌, ◌≡◌, refl, [], ◌∷◌, some, true, pos, arith}
use gdal_warp_bindings.Types.{uri_options_hash, options_hash, options_hash_from}
use gdal_warp_bindings.Errno.{returns}
use gdal_warp_bindings.World.{report_all, run}
use gdal_warp_bindings.Dataset.{
  matches, valid, inc, dec, lock_for_deletion, output_format_configured, warp_options, close,
  open_with_options, open_missing, open_dataset, construct, destroy, move_assign,
}
use gdal_warp_bindings.Dataset.Queries.{with_lock, answer, handle, warped_index}
use gdal_warp_bindings.Dataset.Queries.Band.{get_pixels, read_pixels, is_ce_none}
use gdal_warp_bindings.Tokens.{Entries}
use gdal_warp_bindings.Cache.{
  new_cache, holds, find_all, unlock_best, visit, scan_round, scan_from, scan, hard_copies,
  soft_copies, missing, replace, insert, insert_one, insert_many, get,
}
use gdal_warp_bindings.Bindings.{release, call, call_if_there, try_one, try_all, fetch, start_run}
use gdal_warp_bindings.Bindings.Attempts.{after_attempts}
use gdal_warp_bindings.Bindings.Result.{done_after}
use gdal_warp_bindings.Bindings.Session.{session}
use gdal_warp_bindings.Bindings.Process.{Process, thread}
use gdal_warp_bindings.Experiments.Tiles.{read_window, tile_size, gdt_byte, tiles}
use gdal_warp_bindings.Experiments.Wrapped.{Wrapped, wrap_round}
use gdal_warp_bindings.Experiments.Wrapped.Agrees.{wrapthread_budget}
use gdal_warp_bindings.Experiments.Wrapped.Setup.{Started, actual_options, measure, start_main}
use gdal_warp_bindings.Experiments.Wrapped.Setup.Prepared.{Draws}
use gdal_warp_bindings.Experiments.Wrapped.Main.{main_first_round}
use gdal_warp_bindings.Tests.Mock.{boost, boost_laws, draws, string_hash}
use gdal_warp_bindings.Tests.Data.{environment, surroundings}
use gdal_warp_bindings.Tests.Parts.{settings, drivers, fresh_process}
use gdal_warp_bindings.Tests.Experiments.{random, random-InRange, byte_hash, sevens}
use gdal_warp_bindings.Experiments.Tiles.Table.{Shows}
use gdal_warp_bindings.Tests.Wrapped.{two_rasters, displays, NoOptions, elsewhere}

wide : tiles (measure two_rasters byte_hash 1 0).1 ≡ pos 1
unfolding measure tiles
wide = refl

high : tiles (measure two_rasters byte_hash 1 0).2 ≡ pos 2
unfolding measure tiles
high = refl

free_draws : Draws two_rasters byte_hash drivers boost draws 3
free_draws from = (1, ground arith, omega arith)

opens_at_once :
    (i j : ℕ) (q : Process ℕ (ℕ × Entries))
    → i < 1
    → j < 2
    → done_after two_rasters string_hash
        (get_pixels two_rasters warped_index (read_window i j) tile_size (pos 1) gdt_byte)
        wrapthread_budget
        surroundings
        ("a.tif", actual_options)
        1
        (start_run (new_cache 8) [] (thread environment 1 [] q))
      ≡ true
unfolding after_attempts try_all fetch get insert_many find_all holds uri_options_hash insert_one
    insert scan scan_from scan_round visit lock_for_deletion unlock_best replace call call_if_there
    release try_one hard_copies missing soft_copies close construct dec destroy inc matches
    move_assign open_dataset open_missing open_with_options output_format_configured valid
    warp_options options_hash options_hash_from report_all run get_pixels read_pixels handle
    with_lock answer is_ce_none new_cache
opens_at_once i j q h k = refl

new_cache-NoOptions : (n : ℕ) → NoOptions (new_cache n).slots
unfolding new_cache
new_cache-NoOptions zero = tt
new_cache-NoOptions (suc n) = (refl, new_cache-NoOptions n)

shows_one : Shows two_rasters byte_hash (measure two_rasters byte_hash 1 0).0 sevens 1 2
unfolding measure
shows_one = record { shown = λ i j g h k. refl }

main_first_round_example :
    (s : Started ℕ (ℕ × Entries)) × (s' : Wrapped ℕ (ℕ × Entries) ℕ) × (start_main two_rasters
        byte_hash drivers boost draws environment settings 3 1 "a.tif" 1 0 fresh_process
      ≡ some (returns s))
    × (s.process.cache ≡ some (new_cache 8))
    × (wrap_round two_rasters boost draws string_hash random byte_hash 2 surroundings s.token
          s.expected 1 2 []
          (record {
            lib = session environment 1 (new_cache 8) s.process.tokens s.process;
            generator = 0;
          })
        ≡ some (returns (tt, s')))
main_first_round_example =
    main_first_round two_rasters drivers boost draws string_hash random byte_hash sevens boost_laws
      environment settings 3 1 "a.tif" 1 0 fresh_process 1 2 surroundings [] 0
      (record { no_cache = refl; no_handler = refl; no_nanos = refl }) refl wide high (omega arith)
      (omega arith) (omega arith) shows_one free_draws random-InRange opens_at_once
      (displays actual_options (new_cache 8) (
        elsewhere ("-tr" ∷ "5" ∷ "7" ∷ "-r" ∷ "bilinear" ∷ "-t_srs" ∷ "epsg:3857" ∷ []) "-tap"
          (new_cache 8).slots (new_cache-NoOptions 8)))
