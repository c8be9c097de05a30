-- ===== src/Bindings/Process/Ready.antt =====
-- The state that `init` of bindings.cpp sets up.
use gdal_warp_bindings.Base.{
  inl, inr, ℕ, ◌≡◌, refl, ap, ◌∙◌, [], none, some, true, false, ◌&&◌, ◌==◌, if◌then◌else◌, arith,
  Bool-cases,
}
use gdal_warp_bindings.Errno.{Environment, Outcome, returns, ◌>>=◌, errno_init, errno_deinit}
use gdal_warp_bindings.Gdal.{Gdal}
use gdal_warp_bindings.World.{M}
use gdal_warp_bindings.Cache.{new_cache}
use gdal_warp_bindings.Tokens.{LruCache, token_init, token_deinit}
use gdal_warp_bindings.World.{run}
use gdal_warp_bindings.Bindings.Process.{
  Settings, sigterm_handler, Process, Drivers, value_or, max_tokens, unmapped, cache_deinit,
  env_deinit, env_init, cache_init, set_up, init, deinit, thread,
}
use gdal_warp_bindings.Cache.Empty.{create_cache_new}

-- The time budget of entry points that have no argument for it.
unfoldable pub initial_nanos : Settings → ℕ
initial_nanos settings =
    let nanos = value_or 0 settings.nanos in
    if settings.sigterm_dump && nanos == 0 then 250000000 else nanos

module _ (gdal : Gdal) (drivers : Drivers gdal.G) (lru : LruCache) (draws : ℕ → ℕ) where
  open gdal use {G}
  open lru use {C}

  -- The state after `init` with room for `size` datasets.
  pub record IsReady (settings : Settings) (size : ℕ) (p : Process G C) : Type 0 where
    pub cached : p.cache ≡ some (new_cache (value_or size settings.num_datasets))
    pub tokens : p.tokens.cache ≡ some (lru.create max_tokens)
    pub unlocked : p.tokens.mutex ≡ none
    pub errors : p.errno.cache ≡ some []
    pub handler : p.error_handler ≡ true
    pub nanos : p.default_nanos ≡ initial_nanos settings

  -- A process that has not called `init` yet.
  pub record IsFresh (p : Process G C) : Type 0 where
    pub no_cache : p.cache ≡ none
    pub no_handler : p.error_handler ≡ false
    pub no_nanos : p.default_nanos ≡ 0

  -- A step that comes back with a process that satisfies `P`.
  abbrev Gives : (Process G C → Type 0) → Outcome (Process G C) → Type 0
  Gives P o = (p : Process G C) × (o ≡ returns p) × P p

  then-Gives :
      {P Q : Process G C → Type 0} (o : Outcome (Process G C))
      (f : Process G C → Outcome (Process G C))
      → Gives P o
      → ((p : Process G C) → P p → Gives Q (f p))
      → Gives Q (o >>= f)
  then-Gives o f (p, e, holds) g =
      let (p', e', holds') = g p holds in (p', ap (λ x. x >>= f) e ∙ e', holds')

  unmapped-IsFresh :
      {A : Type 0} (environment : Environment) (tid : ℕ) (step : M G A) (p : Process G C)
      → IsFresh p
      → Gives IsFresh (unmapped environment tid step p)
  unfolding unmapped
  unmapped-IsFresh environment tid step p fresh = (
    record p { gdal = (step (thread environment tid [] p)).1.gdal },
    rw (fresh.no_handler, unmapped) refl,
    record { no_cache = fresh.no_cache; no_handler = fresh.no_handler; no_nanos = fresh.no_nanos },
  )

  cache_deinit-IsFresh :
      (environment : Environment) (tid : ℕ) (p : Process G C)
      → IsFresh p
      → Gives IsFresh (cache_deinit gdal drivers lru draws environment tid p)
  unfolding cache_deinit
  cache_deinit-IsFresh environment tid p fresh = (p, simp (fresh.no_cache, cache_deinit), fresh)

  env_deinit-IsFresh : (p : Process G C) → IsFresh p → IsFresh (env_deinit p)
  unfolding env_deinit
  env_deinit-IsFresh p fresh = elim (Bool-cases p.handler_installed) [
    | inl installed ↦
        rw (installed, env_deinit)
          (record {
            no_cache = fresh.no_cache;
            no_handler = fresh.no_handler;
            no_nanos = fresh.no_nanos;
          })
    | inr absent ↦
        rw (absent, env_deinit)
          (record {
            no_cache = fresh.no_cache;
            no_handler = fresh.no_handler;
            no_nanos = fresh.no_nanos;
          })
  ]

  deinit-IsFresh :
      (environment : Environment) (tid : ℕ) (p : Process G C)
      → IsFresh p
      → Gives IsFresh (deinit gdal drivers lru draws environment tid p)
  unfolding deinit
  deinit-IsFresh environment tid p fresh =
      then-Gives _ _
        (cache_deinit-IsFresh environment tid _ (
          env_deinit-IsFresh (record p { errno = errno_deinit p.errno })
            (record {
              no_cache = fresh.no_cache;
              no_handler = fresh.no_handler;
              no_nanos = fresh.no_nanos;
            })))
        (λ p1 fresh1.
          unmapped-IsFresh environment tid (run drivers.destroy_driver_manager)
            (record p1 { tokens = token_deinit lru draws p1.tokens })
            (record {
              no_cache = fresh1.no_cache;
              no_handler = fresh1.no_handler;
              no_nanos = fresh1.no_nanos;
            }))

  cache_init_new :
      (environment : Environment) (tid size : ℕ) (p : Process G C)
      → cache_init gdal drivers lru draws environment tid size p
        ≡ record p { cache = some (new_cache size); errno = record p.errno { cache = some [] } }
  unfolding cache_init
  cache_init_new environment tid size p = rw (cache_init, create_cache_new gdal size) refl

  -- What `env_init` decides and what it leaves alone.
  record Configured (settings : Settings) (size : ℕ) (q : Process G C) : Type 0 where
    after : Process G C
    returned : env_init settings size q ≡ returns (value_or size settings.num_datasets, after)
    nanos : after.default_nanos ≡ initial_nanos settings
    handler : after.error_handler ≡ q.error_handler

  env_init-Configured :
      (settings : Settings) (size : ℕ) (q : Process G C)
      → q.default_nanos ≡ 0
      → (settings.sigterm_dump && settings.sigaction_fails) ≡ false
      → Configured settings size q
  unfolding env_init initial_nanos
  env_init-Configured settings size q no_nanos works = elim (Bool-cases settings.sigterm_dump) [
    | inl dump ↦
        let fine : settings.sigaction_fails ≡ false = ground arith in
        let nanos = value_or q.default_nanos settings.nanos in
        record {
          after = record q {
            default_nanos = if nanos == 0 then 250000000 else nanos;
            handler_installed = true;
            sigterm = sigterm_handler;
            sa_old = q.sigterm;
          };
          returned = rw (dump, fine, env_init) refl;
          nanos = rw (dump, no_nanos, initial_nanos) refl;
          handler = refl;
        }
    | inr quiet ↦ record {
      after = record q { default_nanos = value_or q.default_nanos settings.nanos };
      returned = rw (quiet, env_init) refl;
      nanos = rw (quiet, no_nanos, initial_nanos) refl;
      handler = refl;
    }
  ]

  set_up-IsReady :
      (environment : Environment) (settings : Settings) (tid size : ℕ) (p : Process G C)
      → IsFresh p
      → (settings.sigterm_dump && settings.sigaction_fails) ≡ false
      → Gives
          (IsReady settings size)
          (set_up gdal drivers lru draws environment settings tid size p)
  unfolding set_up token_init errno_init
  set_up-IsReady environment settings tid size p fresh works =
      let q : Process G C = record p { errno = errno_init p.errno; error_handler = true } in
      let conf = env_init-Configured settings size q fresh.no_nanos works in
      let size' = value_or size settings.num_datasets in
      let p1 = conf.after in
      let finish : Process G C → Process G C =
        λ p2. record p2 { tokens = token_init lru draws max_tokens p2.tokens } in
      let p2 : Process G C = record p1 {
        cache = some (new_cache size');
        errno = record p1.errno { cache = some [] };
      } in
      (
        finish p2,
        ap
              (λ (o : Outcome (ℕ × Process G C)). o >>= λ r.
                returns (finish (cache_init gdal drivers lru draws environment tid r.0 r.1)))
              conf.returned
            ∙ ap (λ x. returns (finish x)) (cache_init_new environment tid size' p1),
        record {
          cached = refl;
          tokens = refl;
          unlocked = refl;
          errors = refl;
          handler = conf.handler;
          nanos = conf.nanos;
        },
      )

  -- `init` on a process that has not called it yet returns, unless it has to install the SIGTERM
  -- handler and `sigaction` fails. Then the dataset cache is empty and as large as
  -- GDALWARP_NUM_DATASETS or the argument says, the token cache is empty with room for 655360 tokens,
  -- the token lock is free, no error is recorded, and GDAL reports to the library.
  pub init_first :
      (environment : Environment) (settings : Settings) (tid size : ℕ) (p : Process G C)
      → IsFresh p
      → (settings.sigterm_dump && settings.sigaction_fails) ≡ false
      → (p' : Process G C) × (init gdal drivers lru draws environment settings tid size p
          ≡ returns p')
        × IsReady settings size p'
  unfolding init
  init_first environment settings tid size p fresh works =
      then-Gives _ _
        (then-Gives _ _ (deinit-IsFresh environment tid p fresh)
          (λ p1. unmapped-IsFresh environment tid (run drivers.all_register) p1))
        (λ p2 fresh2. set_up-IsReady environment settings tid size p2 fresh2 works)
