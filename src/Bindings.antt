-- ===== src/Bindings.antt =====
-- src/bindings.cpp: the macros TRY and DOIT, through which every entry point makes its attempts.
pub mod Loop
pub mod Balance
pub mod Owned
pub mod Answers
pub mod AtOnce
pub mod Attempts
pub mod Result
pub mod Unlimited
pub mod Session
pub mod Threads
pub mod Entries
pub mod Process
use gdal_warp_bindings.Base.{
  ℕ, zero, suc, ◌+◌, ◌-◌, ◌%◌, String, List, [], ◌∷◌, Option, none, some, Bool, true, false, not,
  ◌&&◌, ◌||◌, ℤ, pos, negsuc, eq_ℤ, ltb_ℤ, leb_ℤ, ltb, get_elem?, update, if◌then◌else◌,
}
use gdal_warp_bindings.Types.{UriOptions, size_mod}
use gdal_warp_bindings.Gdal.{Gdal}
use gdal_warp_bindings.World.{World}
use gdal_warp_bindings.Dataset.{dec}
use gdal_warp_bindings.Dataset.Queries.{Op, attempt_successful, dataset_locked}
use gdal_warp_bindings.Cache.{Slot, Cache, update_value, get}

-- -CPLE_FileIO, -CPLE_OpenFailed and -ATTEMPTS_EXCEEDED
abbrev pub file_io : ℤ
file_io = negsuc 2

abbrev pub open_failed : ℤ
open_failed = negsuc 3

abbrev pub attempts_exceeded : ℤ
attempts_exceeded = negsuc 99

-- The arguments of an entry point that DOIT reads.
pub record Budget : Type 0 where
  pub attempts : ℤ
  pub copies : ℤ
  pub nanos : ℕ

-- What the rest of the process decides: the `n`-th reading of `get_nanos`, and whether the cache
-- could be locked for writing without waiting in attempt `n`.
pub record Surroundings : Type 0 where
  pub clock : ℕ → ℕ
  pub writable : ℕ → Bool

-- The variables of DOIT, with what the operations change: `memory` is what is behind the
-- return-location arguments. `touched` and the count of attempts stay below the range of `int`.
pub record Run (G S : Type 0) : Type 0 where
  pub cache : Cache
  pub memory : S
  pub world : World G
  pub touched : ℕ
  pub code : ℤ
  pub done : Bool

-- `ld->dec();`
unfoldable pub release : {G S : Type 0} → ℕ → Run G S → Run G S
release b r = record r {
  cache = record r.cache { slots = update (update_value dec) b r.cache.slots };
}

module _ {G S : Type 0} (op : Op G S) where
  -- `++touched; code = ld->fn; if (...) done = true;` on the dataset in slot `b`.
  unfoldable pub call : ℕ → Slot → Run G S → Run G S
  call b slot r =
      let o = op slot.value r.memory r.world in
      record {
        cache = record r.cache { slots = update (update_value (λ _. o.0.1)) b r.cache.slots };
        memory = o.0.2;
        world = o.1;
        touched = r.touched + 1;
        code = o.0.0;
        done = eq_ℤ o.0.0 attempt_successful && not (eq_ℤ o.0.0 dataset_locked);
      }

  unfoldable pub call_if_there : ℕ → Run G S → Run G S
  call_if_there b r = elim (get_elem? r.cache.slots b) [ none ↦ r | some slot ↦ call b slot r ]

  unfoldable pub try_one : ℕ → Run G S → Run G S
  try_one b r = release b (if r.done then r else call_if_there b r)

  -- TRY
  unfoldable pub try_all : List ℕ → Run G S → Run G S
  try_all [] r = r
  try_all (b ∷ list) r = try_all list (try_one b r)

-- `now - then > nanos` in `uint64_t`, for a budget that is not 0.
unfoldable pub timed_out : Budget → Surroundings → ℕ → Bool
timed_out budget env i =
    ltb 0 budget.nanos
    && ltb budget.nanos ((env.clock (suc i) + size_mod - env.clock 0 % size_mod) % size_mod)

-- `(i < attempts || attempts <= 0) && !done`
unfoldable pub goes_on : {G S : Type 0} → Budget → ℕ → Run G S → Bool
goes_on budget i r = (ltb_ℤ (pos i) budget.attempts || leb_ℤ budget.attempts (pos 0)) && not r.done

-- What DOIT returns after its loop.
unfoldable pub final_code : {G S : Type 0} → Budget → ℕ → Run G S → ℤ
final_code budget i r =
    if eq_ℤ r.code attempt_successful
      && (ltb_ℤ (pos i) budget.attempts || (ltb 0 i && eq_ℤ budget.attempts (pos 0)))
    then pos r.touched
    else (if eq_ℤ r.code attempt_successful || eq_ℤ r.code dataset_locked
        then attempts_exceeded
        else r.code)

-- The variables as DOIT declares them.
abbrev pub start_run : {G S : Type 0} → Cache → S → World G → Run G S
start_run cache memory w = record {
  cache = cache;
  memory = memory;
  world = w;
  touched = 0;
  code = pos 0;
  done = false;
}

module _ (gdal : Gdal) (string_hash : String → ℕ) {S : Type 0} (op : Op gdal.G S) where
  -- `cache->get(uri_options, copies)`
  unfoldable pub fetch :
      Budget → Surroundings → UriOptions → ℕ → Run gdal.G S → List ℕ × Run gdal.G S
  fetch budget env key i r =
      let found = get gdal string_hash (env.writable i) key budget.copies r.cache r.world in
      (found.0.0, record r { cache = found.0.1; world = found.1 })

  -- The loop of DOIT from attempt `i`, on fuel; `none` means that the fuel ran out.
  unfoldable pub attempt_loop :
      ℕ → Budget → Surroundings → UriOptions → ℕ → Run gdal.G S → Option (ℤ × Run gdal.G S)
  attempt_loop zero budget env key i r = none
  attempt_loop (suc fuel) budget env key i r = elim (goes_on budget i r) [
    | false ↦ some (final_code budget i r, r)
    | true ↦ elim (timed_out budget env i) [
      | true ↦ some (file_io, r)
      | false ↦ elim (fetch budget env key i r).0 [
        | [] ↦ some (open_failed, (fetch budget env key i r).1)
        | b ∷ list ↦
            attempt_loop fuel budget env key (i + 1)
              (try_all op (b ∷ list) (fetch budget env key i r).1)
      ]
    ]
  ]

  -- DOIT: `found` is the result of `query_token(token)`.
  unfoldable pub doit :
      ℕ
      → Budget
      → Surroundings
      → Option UriOptions
      → Cache
      → S
      → World gdal.G
      → Option (ℤ × Run gdal.G S)
  doit fuel budget env found cache memory w = elim found [
    | none ↦ some (open_failed, start_run cache memory w)
    | some key ↦ attempt_loop fuel budget env key 0 (start_run cache memory w)
  ]
