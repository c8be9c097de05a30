-- ===== src/Tests/Parts.antt =====
-- The theorems on tokens, errors, datasets and setup, applied.
use mathlib.Core.List.{Permᴰ}
use gdal_warp_bindings.Base.{
  ℕ, ◌+◌, ◌<◌, ◌≡◌, ◌≢◌, refl, [], ◌∷◌, none, some, true, false, ℤ, pos, arith,
}
use gdal_warp_bindings.Types.{size_mod, uri_options_hash}
use gdal_warp_bindings.Types.Hash.{uri_options_hash-perm}
use gdal_warp_bindings.Errno.{Errno, returns}
use gdal_warp_bindings.World.{run, report_all}
use gdal_warp_bindings.Dataset.{
  LockedDataset, empty_dataset, construct, destroy, open_dataset, open_missing, open_with_options,
  warp_options, output_format_configured, valid,
}
use gdal_warp_bindings.Dataset.Lifecycle.{leaked, destroy-construct_handles}
use gdal_warp_bindings.Dataset.Queries.{source_index}
use gdal_warp_bindings.Dataset.Queries.Protocol.{block_size, perform}
use gdal_warp_bindings.Dataset.Queries.Codes.{failing, Answers, perform_free}
use gdal_warp_bindings.Tokens.{
  Tokens, Entries, bad_token, get_token, query_token, find_token, issue,
}
use gdal_warp_bindings.Tokens.Fresh.{value_of, get_token_fresh}
use gdal_warp_bindings.Tokens.Retention.{
  issues, queries, after_call, after_calls, query_token_retained,
}
use gdal_warp_bindings.Cache.{new_cache}
use gdal_warp_bindings.Bindings.Entries.{Left}
use gdal_warp_bindings.Bindings.Entries.Calls.{call_entry}
use gdal_warp_bindings.Bindings.Entries.Known.{Balanced}
use gdal_warp_bindings.Bindings.Entries.Answers.{AnswersOrFails}
use gdal_warp_bindings.Bindings.Session.{session, first_call}
use gdal_warp_bindings.Bindings.Process.{Settings, Process, Drivers, other_handler, init}
use gdal_warp_bindings.Bindings.Process.Ready.{initial_nanos, IsReady, IsFresh, init_first}
use gdal_warp_bindings.Tests.Mock.{mock, mock_laws, boost, boost_laws, draws, string_hash}
use gdal_warp_bindings.Tests.Data.{key, unwarped_key, environment, world, one_token, surroundings}

get_token_fresh_example :
    (token : ℕ) × (ts' : Tokens (ℕ × Entries)) × (get_token boost draws 3 1 unwarped_key one_token
      ≡ some (returns (token, ts')))
    × (token ≢ bad_token)
    × (boost.contains (4, (33, key) ∷ []) token ≡ false)
    × (value_of boost draws (query_token boost draws 1 token ts') ≡ returns (some unwarped_key))
get_token_fresh_example =
    get_token_fresh boost draws boost_laws 3 1 1 unwarped_key one_token (4, (33, key) ∷ []) refl
      refl (omega arith) refl (omega arith)

-- Two calls on other tokens leave token 33 with its pair.
query_token_retained_example :
    value_of boost draws (
      query_token boost draws 1 33
        (record { cache = some (4, (1, unwarped_key) ∷ (33, key) ∷ []); mutex = none; drawn = 2 }))
    ≡ returns (some key)
unfolding after_calls after_call get_token query_token find_token issue
query_token_retained_example =
    query_token_retained boost draws 5 1 boost_laws 33 4 key (issues unwarped_key ∷ queries 0 ∷ [])
      one_token
      (record { cache = some (4, (1, unwarped_key) ∷ (33, key) ∷ []); mutex = none; drawn = 2 })
      (4, (33, key) ∷ []) (λ z. absurd (omega arith)) refl refl refl refl (omega arith) refl

-- The option "-bad" makes GDALWarp fail.
destroy-construct_handles_example :
    let c = construct mock unwarped_key world in
    (destroy mock c.0 c.1).1.gdal ≡ 0 + leaked mock mock_laws c.0
destroy-construct_handles_example = destroy-construct_handles mock mock_laws unwarped_key world

leaks_one : leaked mock mock_laws (construct mock unwarped_key world).0 ≡ 1
unfolding construct open_dataset open_missing open_with_options warp_options
    output_format_configured run report_all valid
leaks_one = refl

abbrev busy_dataset : LockedDataset
busy_dataset = record empty_dataset { source = some 0; warped = some 1; mutex = some 9 }

perform_free_example :
    let query = block_size source_index (pos 1) in
    ((perform mock query empty_dataset (pos 0, pos 0) world).0.1 ≡ empty_dataset)
    × Answers
        (failing mock query empty_dataset world)
        (perform mock query empty_dataset (pos 0, pos 0) world).0.0
        (perform mock query empty_dataset (pos 0, pos 0) world).1
perform_free_example =
    perform_free mock (block_size source_index (pos 1)) empty_dataset (pos 0, pos 0) world refl

abbrev errno : Errno
errno = record { cache = some []; reported = 0; lines = [] }

uri_options_hash-perm_example :
    (uri_options_hash string_hash ("a.tif", "-of" ∷ "VRT" ∷ [])
      ≡ uri_options_hash string_hash ("a.tif", "VRT" ∷ "-of" ∷ []))
    × (uri_options_hash string_hash ("a.tif", "-of" ∷ "VRT" ∷ []) < size_mod)
uri_options_hash-perm_example =
    uri_options_hash-perm string_hash "a.tif" ("-of" ∷ "VRT" ∷ []) ("VRT" ∷ "-of" ∷ [])
      ∣ Permᴰ.swap refl refl ∣₁

abbrev lhs : LockedDataset
lhs = record empty_dataset { source = some 0; warped = some 1; mutex = some 1 }

abbrev rhs : LockedDataset
rhs = record empty_dataset { source = some 2; warped = some 3; uri_options = key }

abbrev pub fresh_process : Process ℕ (ℕ × Entries)
fresh_process = record {
  cache = none;
  tokens = record { cache = none; mutex = none; drawn = 0 };
  errno = record { cache = none; reported = 0; lines = [] };
  gdal = 0;
  error_handler = false;
  default_nanos = 0;
  handler_installed = false;
  sigterm = other_handler 0;
  sa_old = other_handler 0;
}

abbrev pub settings : Settings
settings = record {
  nanos = none;
  num_datasets = some 8;
  sigterm_dump = true;
  sigaction_fails = false;
}

abbrev pub drivers : Drivers ℕ
drivers = record { all_register = λ g. (tt, [], g); destroy_driver_manager = λ g. (tt, [], g) }

pub fresh_process-IsFresh : IsFresh mock drivers boost draws fresh_process
fresh_process-IsFresh = record { no_cache = refl; no_handler = refl; no_nanos = refl }

init_first_example :
    (p' : Process ℕ (ℕ × Entries)) × (init mock drivers boost draws environment settings 1 64
        fresh_process
      ≡ returns p')
    × IsReady mock drivers boost draws settings 64 p'
init_first_example =
    init_first mock drivers boost draws environment settings 1 64 fresh_process
      fresh_process-IsFresh refl

abbrev ready_process : Process ℕ (ℕ × Entries)
ready_process = record fresh_process {
  cache = some (new_cache 8);
  tokens = record { cache = some (655360, []); mutex = none; drawn = 0 };
  errno = errno;
  error_handler = true;
  default_nanos = 250000000;
  handler_installed = true;
}

ready_process-IsReady : IsReady mock drivers boost draws settings 64 ready_process
unfolding initial_nanos
ready_process-IsReady = record {
  cached = refl;
  tokens = refl;
  unlocked = refl;
  errors = refl;
  handler = refl;
  nanos = refl;
}

first_call_example :
    (token : ℕ) × (tokens : Tokens (ℕ × Entries)) × (get_token boost draws 3 1 key
        ready_process.tokens
      ≡ some (returns (token, tokens)))
    × (left : Left ℕ (ℕ × Entries) (ℤ × ℤ)) × (call_entry mock boost draws string_hash
          (block_size source_index (pos 1))
          4
          surroundings
          token
          (pos 2)
          (pos 1)
          (pos 0, pos 0)
          (session environment 1 (new_cache 8) tokens ready_process)
        ≡ some (returns left))
    × Balanced mock boost draws string_hash
        (session environment 1 (new_cache 8) tokens ready_process)
        left
    × AnswersOrFails mock boost draws string_hash
        (perform mock (block_size source_index (pos 1)))
        1
        (record { attempts = pos 2; copies = pos 1; nanos = 250000000 })
        surroundings
        key
        (pos 0, pos 0)
        (session environment 1 (new_cache 8) tokens ready_process)
        left
first_call_example =
    first_call mock drivers boost draws string_hash boost_laws environment settings 1 64 3 1
      ready_process key (block_size source_index (pos 1)) 1 surroundings (pos 1) (pos 0, pos 0)
      ready_process-IsReady refl (omega arith)
