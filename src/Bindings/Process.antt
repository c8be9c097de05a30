-- ===== src/Bindings/Process.antt =====
-- src/bindings.cpp: the setup and the teardown of the library, as on Linux.
pub mod Ready
pub mod Teardown
use gdal_warp_bindings.Base.{
  ℕ, List, [], ◌∷◌, Option, none, some, Bool, true, false, ◌&&◌, not, ◌==◌, if◌then◌else◌,
}
use gdal_warp_bindings.Errno.{
  Errno, Environment, Outcome, returns, exits, faults, ◌>>=◌, errno_init, errno_deinit,
}
use gdal_warp_bindings.Errno.Map.{ErrnoMap}
use gdal_warp_bindings.Gdal.{Gdal, Call}
use gdal_warp_bindings.World.{World, M, run, ◌>>◌, pure}
use gdal_warp_bindings.Dataset.{destroy}
use gdal_warp_bindings.Cache.{Slot, Cache, create_cache}
use gdal_warp_bindings.Tokens.{LruCache, Tokens, token_init, token_deinit}

-- The variables of the environment: the number that `sscanf` reads from GDALWARP_DEFAULT_NANOS and
-- GDALWARP_NUM_DATASETS, if they are set to one; whether GDALWARP_SIGTERM_DUMP is set; and whether
-- `sigaction` fails.
pub record Settings : Type 0 where
  pub nanos : Option ℕ
  pub num_datasets : Option ℕ
  pub sigterm_dump : Bool
  pub sigaction_fails : Bool

-- What SIGTERM does: the handler of this library, or another one by its number.
pub data Disposition : Type 0 where
  sigterm_handler : Disposition
  other_handler : ℕ → Disposition

-- The static variables, with `error_handler` for whether GDAL calls `put_last_errno`.
pub record Process (G C : Type 0) : Type 0 where
  pub cache : Option Cache
  pub tokens : Tokens C
  pub errno : Errno
  pub gdal : G
  pub error_handler : Bool
  pub default_nanos : ℕ
  pub handler_installed : Bool
  pub sigterm : Disposition
  pub sa_old : Disposition

-- What GDAL does for the process: GDALAllRegister and GDALDestroyDriverManager.
pub record Drivers (G : Type 0) : Type 0 where
  pub all_register : Call G (Unit {0})
  pub destroy_driver_manager : Call G (Unit {0})

abbrev pub is_empty : ErrnoMap → Bool
is_empty [] = true
is_empty (e ∷ es) = false

abbrev pub value_or : ℕ → Option ℕ → ℕ
value_or d none = d
value_or d (some n) = n

-- 640 * (1 << 10)
abbrev pub max_tokens : ℕ
max_tokens = 655360

module _ {G C : Type 0} where
  -- A thread of the process, over some map of errors.
  abbrev pub thread : Environment → ℕ → ErrnoMap → Process G C → World G
  thread environment tid errors p = record {
    tid = tid;
    environment = environment;
    gdal = p.gdal;
    errors = errors;
    reported = p.errno.reported;
    lines = p.errno.lines;
  }

  -- A step that runs between `errno_deinit` and `errno_init`. A report puts an entry into the map and
  -- nothing in these steps takes one out, so that the map is empty after a step without a report. A
  -- report faults in `put_last_errno`, where that is installed.
  unfoldable pub unmapped :
      {A : Type 0} → Environment → ℕ → M G A → Process G C → Outcome (Process G C)
  unmapped environment tid step p =
      let w = (step (thread environment tid [] p)).1 in
      if p.error_handler && not (is_empty w.errors)
      then faults
      else returns (record p { gdal = w.gdal })

  -- `env_init`, with the size.
  unfoldable pub env_init : Settings → ℕ → Process G C → Outcome (ℕ × Process G C)
  env_init settings size p =
      let nanos = value_or p.default_nanos settings.nanos in
      let size' = value_or size settings.num_datasets in
      if settings.sigterm_dump
      then (if settings.sigaction_fails
          then exits
          else returns (
            size',
            record p {
              default_nanos = if nanos == 0 then 250000000 else nanos;
              handler_installed = true;
              sigterm = sigterm_handler;
              sa_old = p.sigterm;
            },
          ))
      else returns (size', record p { default_nanos = nanos })

  unfoldable pub env_deinit : Process G C → Process G C
  env_deinit p = if p.handler_installed then record p { sigterm = p.sa_old } else p

module _ (gdal : Gdal) (drivers : Drivers gdal.G) (lru : LruCache) (draws : ℕ → ℕ) where
  open gdal use {G}
  open lru use {C}

  -- The destructor of the vector of values.
  unfoldable pub destroy_slots : List Slot → M G (Unit {0})
  destroy_slots [] = pure tt
  destroy_slots (slot ∷ slots) = do destroy gdal slot.value; destroy_slots slots

  -- `cache_init`, by a thread with an empty map of errors.
  unfoldable pub cache_init : Environment → ℕ → ℕ → Process G C → Process G C
  cache_init environment tid size p =
      let made = create_cache gdal size (thread environment tid [] p) in
      record p {
        cache = some made.0;
        gdal = made.1.gdal;
        errno = record {
          cache = some made.1.errors;
          reported = made.1.reported;
          lines = made.1.lines;
        };
      }

  unfoldable pub cache_deinit : Environment → ℕ → Process G C → Outcome (Process G C)
  unfolding destroy_slots unmapped
  cache_deinit environment tid p = elim p.cache [
    | none ↦ returns p
    | some c ↦ unmapped environment tid (destroy_slots c.slots) (record p { cache = none })
  ]

  unfoldable pub deinit : Environment → ℕ → Process G C → Outcome (Process G C)
  unfolding env_deinit cache_deinit token_deinit errno_deinit
  deinit environment tid p =
      cache_deinit environment tid (env_deinit (record p { errno = errno_deinit p.errno }))
      >>= λ p1.
          unmapped environment tid (run drivers.destroy_driver_manager)
            (record p1 { tokens = token_deinit lru draws p1.tokens })

  -- `fini`, which runs when the library is unloaded, with GDALDestroy.
  unfoldable pub fini : Call G (Unit {0}) → Environment → ℕ → Process G C → Outcome (Process G C)
  unfolding deinit
  fini destroy environment tid p =
      deinit environment tid p >>= unmapped environment tid (run destroy)

  -- The steps of `init` after `deinit` and GDALAllRegister.
  unfoldable pub set_up : Environment → Settings → ℕ → ℕ → Process G C → Outcome (Process G C)
  unfolding cache_init
  set_up environment settings tid size p =
      env_init settings size (record p { errno = errno_init p.errno; error_handler = true })
      >>= λ (size', p1).
          let p2 = cache_init environment tid size' p1 in
          returns (record p2 { tokens = token_init lru draws max_tokens p2.tokens })

  unfoldable pub init : Environment → Settings → ℕ → ℕ → Process G C → Outcome (Process G C)
  unfolding deinit set_up
  init environment settings tid size p =
      deinit environment tid p
      >>= (λ p1. unmapped environment tid (run drivers.all_register) p1)
      >>= (λ p2. set_up environment settings tid size p2)
