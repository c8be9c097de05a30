-- ===== src/Tests/Answers.antt =====
-- Answers of the small GDAL, and the teardown of a library whose GDAL complains.
use gdal_warp_bindings.Base.{ℕ, ◌≡◌, ◌≢◌, refl, List, [], ◌∷◌, some, none, true, ℤ, pos, arith}
use gdal_warp_bindings.Errno.{Report, returns, faults}
use gdal_warp_bindings.Gdal.{Gdal}
use gdal_warp_bindings.Dataset.Queries.{source_index}
use gdal_warp_bindings.Dataset.Queries.Protocol.{block_size, perform}
use gdal_warp_bindings.Tokens.{Entries, Tokens, query_token}
use gdal_warp_bindings.Cache.{get}
use gdal_warp_bindings.Cache.Found.{AllServe, get-AllServe}
use gdal_warp_bindings.Bindings.Process.{Process, Drivers, other_handler, deinit}
use gdal_warp_bindings.Bindings.Process.Teardown.{Complains, deinit_faults}
use gdal_warp_bindings.Bindings.Entries.{Left}
use gdal_warp_bindings.Bindings.Entries.Calls.{call_entry}
use gdal_warp_bindings.Bindings.Entries.Answers.{AnswersOrFails, call_entry_answers}
use gdal_warp_bindings.Tests.Mock.{mock, boost, draws, string_hash, failed_to_open}
use gdal_warp_bindings.Tests.Data.{
  key, world, environment, library, surroundings, used_cache, used_slot,
}

abbrev pub after_query : Tokens (ℕ × Entries)
after_query = record { cache = some (4, (33, key) ∷ []); mutex = none; drawn = 0 }

pub asked : query_token boost draws 1 33 library.tokens ≡ returns (some key, after_query)
unfolding query_token
asked = refl

call_entry_answers_example :
    (left : Left ℕ (ℕ × Entries) (ℤ × ℤ)) × (call_entry mock boost draws string_hash
        (block_size source_index (pos 1))
        4
        surroundings
        33
        (pos 2)
        (pos 1)
        (pos 0, pos 0)
        library
      ≡ some (returns left))
    × AnswersOrFails mock boost draws string_hash
        (perform mock (block_size source_index (pos 1)))
        1
        (record { attempts = pos 2; copies = pos 1; nanos = 0 })
        surroundings
        key
        (pos 0, pos 0)
        library
        left
call_entry_answers_example =
    call_entry_answers mock boost draws string_hash (block_size source_index (pos 1)) 1 surroundings
      33 (pos 1) (pos 0, pos 0) library key after_query asked refl (omega arith, (omega arith, tt))

get-AllServe_example :
    let r = get mock string_hash true key (pos 2) used_cache world in AllServe key r.0.1.slots r.0.0
get-AllServe_example =
    get-AllServe mock string_hash true key (pos 2) used_cache world refl
      (omega arith, (omega arith, tt))

-- A GDAL that reports an error when it closes a dataset.
abbrev complaining : Gdal
complaining = record mock { close = λ h g. (tt, failed_to_open ∷ [], g) }

abbrev drivers : Drivers ℕ
drivers = record { all_register = λ g. (tt, [], g); destroy_driver_manager = λ g. (tt, [], g) }

abbrev used_process : Process ℕ (ℕ × Entries)
used_process = record {
  cache = some used_cache;
  tokens = after_query;
  errno = record { cache = some []; reported = 0; lines = [] };
  gdal = 2;
  error_handler = true;
  default_nanos = 0;
  handler_installed = true;
  sigterm = other_handler 0;
  sa_old = other_handler 0;
}

never_empty : (r : Report) (rs : List Report) → (r ∷ rs) ≢ []
never_empty r rs e = ground arith

complains : Complains complaining used_slot.value
complains = record {
  source = 0;
  warped = 1;
  has_source = refl;
  has_warped = refl;
  reports = λ g e. never_empty failed_to_open [] e;
}

deinit_faults_example : deinit complaining drivers boost draws environment 1 used_process ≡ faults
deinit_faults_example =
    deinit_faults complaining drivers boost draws environment 1 used_process used_cache 0 used_slot
      refl refl refl complains
