-- ===== src/Tests/Data.antt =====
-- The data of the concrete runs.
use gdal_warp_bindings.Base.{ℕ, [], ◌∷◌, none, some, true, pos}
use gdal_warp_bindings.Types.{UriOptions}
use gdal_warp_bindings.Errno.{Environment}
use gdal_warp_bindings.World.{World}
use gdal_warp_bindings.Dataset.{empty_dataset}
use gdal_warp_bindings.Cache.{Slot, Cache, empty_slot}
use gdal_warp_bindings.Tokens.{Tokens, Entries}
use gdal_warp_bindings.Bindings.{Budget, Surroundings}
use gdal_warp_bindings.Bindings.Entries.{Library}

abbrev pub key : UriOptions
key = ("a.tif", "-tr" ∷ "30" ∷ [])

abbrev pub missing_key : UriOptions
missing_key = ("missing.tif", [])

abbrev pub unwarped_key : UriOptions
unwarped_key = ("a.tif", "-bad" ∷ [])

abbrev pub environment : Environment
environment = record { max_error_reports = some (pos 2); nonansi_messages = true }

abbrev pub world : World ℕ
world = record {
  tid = 1;
  environment = environment;
  gdal = 0;
  errors = [];
  reported = 0;
  lines = [];
}

abbrev pub two_slots : Cache
two_slots = record { slots = empty_slot ∷ empty_slot ∷ []; time = 0; capacity = 2; size = 0 }

-- A slot of a dataset that is open and in use.
abbrev pub used_slot : Slot
used_slot = record {
  tag = 5;
  atime = 1;
  value = record empty_dataset {
    source = some 0;
    warped = some 1;
    uri_options = key;
    use_count = 1;
  };
}

abbrev pub used_cache : Cache
used_cache = record { slots = used_slot ∷ empty_slot ∷ []; time = 1; capacity = 2; size = 1 }

abbrev pub one_token : Tokens (ℕ × Entries)
one_token = record { cache = some (4, (33, key) ∷ []); mutex = none; drawn = 0 }

abbrev pub library : Library ℕ (ℕ × Entries)
library = record { cache = two_slots; tokens = one_token; default_nanos = 0; world = world }

abbrev pub surroundings : Surroundings
surroundings = record { clock = λ n. n; writable = λ n. true }

abbrev pub budget : Budget
budget = record { attempts = pos 3; copies = pos 1; nanos = 0 }
