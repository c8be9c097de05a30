-- ===== src/Tests/Wrapped.antt =====
-- A round of wrapthread.cpp's reader on the small GDAL.
use text.Mathlib.Text.{◌==◌ as str_eq}
use gdal_warp_bindings.Base.{
  subst, String, ◌==◌, if◌then◌else◌, ℕ, zero, suc, ◌+◌, ◌*◌, ◌<◌, ◌≡◌, refl, sym, ap, ◌∙◌, inl,
  inr, List, [], ◌∷◌, none, some, true, pos, replicate, ◌≤◌, get_elem?, Option-cases, arith,
}
use gdal_warp_bindings.Types.{Options, uri_options_hash, options_hash, options_hash_from}
use gdal_warp_bindings.Errno.{returns}
use gdal_warp_bindings.Gdal.{Gdal, Handle, Call}
use gdal_warp_bindings.Errno.Strings.{ce_none}
use gdal_warp_bindings.World.{World}
use gdal_warp_bindings.Cache.{Slot, Cache, empty_slot}
use gdal_warp_bindings.Dataset.{empty_dataset}
use gdal_warp_bindings.Bindings.Entries.{Library}
use gdal_warp_bindings.Bindings.Threads.Counts.{occurrences}
use gdal_warp_bindings.World.{report_all, run}
use gdal_warp_bindings.Dataset.{
  matches, valid, inc, dec, lock_for_deletion, output_format_configured, warp_options, close,
  open_with_options, open_missing, open_dataset, construct, destroy, move_assign,
}
use gdal_warp_bindings.Dataset.Queries.{
  with_lock, answer, handle, warped_index, attempt_successful, dataset_locked,
}
use gdal_warp_bindings.Dataset.Queries.Band.{get_pixels, read_pixels, is_ce_none}
use gdal_warp_bindings.Dataset.Queries.Protocol.{get_pixels_busy}
use gdal_warp_bindings.Tokens.{Entries}
use gdal_warp_bindings.Cache.{
  holds, find_all, unlock_best, visit, scan_round, scan_from, scan, hard_copies, soft_copies,
  missing, replace, insert, insert_one, insert_many, get,
}
use gdal_warp_bindings.Bindings.{release, call, call_if_there, try_one, try_all, fetch, start_run}
use gdal_warp_bindings.Bindings.Attempts.{after_attempts}
use gdal_warp_bindings.Bindings.Result.{done_after}
use gdal_warp_bindings.Experiments.Tiles.{c_string, read_window, tile_size, gdt_byte}
use gdal_warp_bindings.Experiments.Wrapped.{Wrapped, wrap_round}
use gdal_warp_bindings.Experiments.Wrapped.Agrees.{wrapthread_budget, Displays, wrap_round_returns}
use gdal_warp_bindings.Experiments.Wrapped.Leakers.{starting, ended, leaker_turns, leak}
use gdal_warp_bindings.Experiments.Wrapped.Leakers.Ended.{Awake, handles_held, leak_ends}
use gdal_warp_bindings.Tests.Mock.{mock, mock_laws, boost, draws, string_hash}
use gdal_warp_bindings.Tests.Data.{key, library, world, surroundings}
use gdal_warp_bindings.Tests.Answers.{after_query, asked}
use gdal_warp_bindings.Tests.Experiments.{random, random-InRange, byte_hash, sevens}

locked_unsuccessful : dataset_locked ≡ attempt_successful → ⊥
locked_unsuccessful e = ground arith

abbrev handle_or_zero : Handle → ℕ
handle_or_zero none = 0
handle_or_zero (some h) = h

-- A GDAL with two rasters: the file "a.tif" has handle 1 and shows sevens, every other file has
-- handle 0 and shows nines.
abbrev pub two_rasters : Gdal
two_rasters = record mock {
  warp_app_options_new = λ os g. (some 2, [], g);
  open_read_only = λ uri g. (some (if str_eq uri "a.tif" then 1 else 0), [], g + 1);
  warp = λ s o g. (some s, [], g + 1);
  raster_io =
      λ h src dst type g. ((ce_none, if handle_or_zero h == 1 then 7 ∷ [] else 9 ∷ []), [], g);
}

opens_raster :
    (options : Options) (w : World ℕ)
    → (construct two_rasters ("a.tif", options) w).0.warped ≡ some 1
unfolding construct open_dataset open_missing open_with_options output_format_configured
    warp_options report_all run
opens_raster options w = refl

-- A cache that holds nothing for the file shows its pixels.
pub displays :
    (options : Options) (c : Cache)
    → ((b : ℕ) (s : Slot)
        → get_elem? c.slots b ≡ some s
        → s.value.uri_options ≡ ("a.tif", options)
        → s.value.warped ≡ some 1)
    → Displays two_rasters boost draws string_hash random byte_hash sevens ("a.tif", options) c
unfolding get_pixels with_lock read_pixels run report_all handle is_ce_none answer
displays options c holds_one = record {
  displayed = λ ds s w i j own stems good.
      let one : ds.warped ≡ some 1 = elim stems [
        | inl (b, slot, there, label, source, warped) ↦ sym warped ∙ holds_one b slot there label
        | inr (w0, source, warped) ↦ sym warped ∙ opens_raster options w0
      ] in
      elim (Option-cases ds.mutex) [
        | inl free ↦ rw (free, one, get_pixels, with_lock) refl
        | inr (holder, held) ↦ absurd (
            locked_unsuccessful (
              sym (
                ap (λ r. r.0.0)
                  (get_pixels_busy two_rasters warped_index (read_window i j) tile_size (pos 1)
                    gdt_byte ds s w holder held))
              ∙ good))
      ];
}

-- One slot holds a dataset of another file.
abbrev two_files : Cache
two_files = record {
  slots =
      record {
        tag = 5;
        atime = 1;
        value = record empty_dataset {
          source = some 0;
          warped = some 0;
          uri_options = ("b.tif", []);
        };
      }
      ∷ empty_slot
      ∷ [];
  time = 1;
  capacity = 2;
  size = 1;
}

abbrev two_files_library : Library ℕ (ℕ × Entries)
two_files_library = record library { cache = two_files }

-- The pairs of these slots have no options, so that they are not those of a file with some.
abbrev pub NoOptions : List Slot → Type 0
NoOptions [] = Unit {0}
NoOptions (s ∷ slots) = (s.value.uri_options.1 ≡ []) × NoOptions slots

cons_empty : (o : String) (options : Options) → o ∷ options ≡ [] → ⊥
cons_empty o options e = ground arith

pub elsewhere :
    (options : Options) (o : String) (slots : List Slot)
    → NoOptions slots
    → (b : ℕ) (s : Slot) → get_elem? slots b ≡ some s
    → s.value.uri_options ≡ ("a.tif", o ∷ options)
    → s.value.warped ≡ some 1
elsewhere options o [] bare b s there own = absurd (cc)
elsewhere options o (t ∷ slots) (here, bare) zero s there own =
    let e : t ≡ s = ground arith in
    let same : s.value.uri_options.1 ≡ o ∷ options = ap (λ k. k.1) own in
    let empty : s.value.uri_options.1 ≡ [] =
      subst (λ (t : Slot). t.value.uri_options.1 ≡ []) e here in
    absurd (cons_empty o options (sym same ∙ empty))
elsewhere options o (t ∷ slots) (here, bare) (suc b) s there own =
    elsewhere options o slots bare b s there own

first :
    (i j : ℕ)
    → i < 1
    → j < 2
    → done_after two_rasters string_hash
        (get_pixels two_rasters warped_index (read_window i j) tile_size (pos 1) gdt_byte)
        wrapthread_budget
        surroundings
        key
        1
        (start_run two_files [] world)
      ≡ true
unfolding after_attempts try_all fetch get insert_many find_all holds uri_options_hash insert_one
    insert scan scan_from scan_round visit lock_for_deletion unlock_best replace call call_if_there
    release try_one hard_copies missing soft_copies close construct dec destroy inc matches
    move_assign open_dataset open_missing open_with_options output_format_configured valid
    warp_options options_hash options_hash_from report_all run get_pixels read_pixels handle
    with_lock answer is_ce_none
first i j h k = refl

table_holds :
    (i j : ℕ)
    → i < 1
    → j < 2
    → get_elem? (2 ∷ 2 ∷ []) (i + j * 1) ≡ some (byte_hash (c_string (sevens i j)))
unfolding c_string
table_holds zero zero h k = refl
table_holds zero (suc zero) h k = refl
table_holds zero (suc (suc j)) h k = absurd (omega arith)
table_holds (suc i) j h k = absurd (omega arith)

wrap_round_returns_example :
    (s' : Wrapped ℕ (ℕ × Entries) ℕ) × (wrap_round two_rasters boost draws string_hash random
        byte_hash 2 surroundings 33
        (2 ∷ 2 ∷ [])
        1
        2
        []
        (record { lib = two_files_library; generator = 0 })
      ≡ some (returns (tt, s')))
wrap_round_returns_example =
    wrap_round_returns two_rasters boost draws string_hash random byte_hash sevens key surroundings
      33 after_query (2 ∷ 2 ∷ []) 1 2 [] (record { lib = two_files_library; generator = 0 })
      random-InRange (omega arith) (omega arith) asked refl (omega arith, (omega arith, tt)) first
      (displays ("-tr" ∷ "30" ∷ []) two_files
        (elsewhere ("30" ∷ []) "-tr" two_files.slots (refl, (refl, tt))))
      table_holds

-- GDAL refuses to warp a null source.
abbrev warp_null : ℕ → Call ℕ Handle
warp_null o g = (none, [], g)

-- Two leakers, of which one starts late.
abbrev joining : List ℕ
joining = 1 ∷ 0 ∷ 1 ∷ 0 ∷ 1 ∷ 0 ∷ 1 ∷ []

enough : (t : ℕ) → t < 2 → 3 ≤ occurrences t joining
unfolding occurrences
enough zero h = omega arith
enough (suc zero) h = omega arith
enough (suc (suc t)) h = absurd (omega arith)

leak_ends_example :
    let r = leak mock warp_null "a.tif" 2 (0 ∷ 0 ∷ 0 ∷ []) joining 2 0 in
    Awake (leaker_turns mock warp_null "a.tif" 2 true (0 ∷ 0 ∷ 0 ∷ []) (replicate 2 starting, 0)).0
    × ((t : ℕ)
        → t < 2
        → (source dataset : Handle) × (get_elem? r.0 t ≡ some (ended source dataset)))
    × (r.1 ≡ 0 + handles_held r.0)
leak_ends_example =
    leak_ends mock warp_null "a.tif" 2 mock_laws (λ o g. omega arith) (0 ∷ 0 ∷ 0 ∷ []) joining 2 0
      enough

leaks_four : (leak mock warp_null "a.tif" 2 (0 ∷ 0 ∷ 0 ∷ []) joining 2 0).1 ≡ 4
unfolding leak
leaks_four = refl
