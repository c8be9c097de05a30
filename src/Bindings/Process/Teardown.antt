-- ===== src/Bindings/Process/Teardown.antt =====
-- `deinit` of bindings.cpp frees the map of errors before it closes the datasets of the cache.
use gdal_warp_bindings.Base.{
  ℕ, ◌≡◌, ◌≢◌, refl, ◌∙◌, inl, inr, List, [], ◌∷◌, none, some, true, false, ℤ, Bool-cases,
  get_elem?, zero, suc, subst, Option-cases, ◌==◌, arith,
}
use gdal_warp_bindings.Errno.{Environment, Report, faults, errno_deinit}
use gdal_warp_bindings.Errno.Map.{ErrnoMap, put}
use gdal_warp_bindings.Gdal.{Gdal, Call}
use gdal_warp_bindings.World.{World, M, run, report, report_all}
use gdal_warp_bindings.Dataset.{LockedDataset, close, destroy}
use gdal_warp_bindings.Cache.{Slot, Cache}
use gdal_warp_bindings.Tokens.{LruCache}
use gdal_warp_bindings.Bindings.Process.{
  Process, Drivers, destroy_slots, cache_deinit, deinit, env_deinit, unmapped, thread, is_empty,
}

-- Some thread has an error.
abbrev Reported : ErrnoMap → Type 0
Reported [] = ⊥
Reported (e ∷ m) = Unit {0}

not_empty : (m : ErrnoMap) → Reported m → is_empty m ≡ false
not_empty [] h = elim h [ ]
not_empty (e ∷ m) h = refl

put-Reported : (tid : ℕ) (v : ℤ × ℕ) (m : ErrnoMap) → Reported (put tid v m)
unfolding put
put-Reported tid v [] = tt
put-Reported tid v ((t, x) ∷ m) = elim (Bool-cases (t == tid)) [
  | inl same ↦ rw (same, put) tt
  | inr other ↦ rw (other, put) tt
]

module _ {G : Type 0} where
  report_all-keeps :
      (rs : List Report) (w : World G) → Reported w.errors → Reported (report_all rs w).errors
  unfolding report_all report
  report_all-keeps [] w h = h
  report_all-keeps (r ∷ rs) w h = report_all-keeps rs (report r w) (put-Reported _ _ w.errors)

  run-keeps :
      {A : Type 0} (call : Call G A) (w : World G)
      → Reported w.errors
      → Reported (run call w).1.errors
  unfolding run
  run-keeps call w h = report_all-keeps (call w.gdal).1 (record w { gdal = (call w.gdal).2 }) h

  report_all-Reported :
      (rs : List Report) (w : World G) → rs ≢ [] → Reported (report_all rs w).errors
  unfolding report_all report
  report_all-Reported [] w some_report = absurd (some_report refl)
  report_all-Reported (r ∷ rs) w some_report =
      report_all-keeps rs (report r w) (put-Reported _ _ w.errors)

  run-Reported :
      {A : Type 0} (call : Call G A) (w : World G)
      → (call w.gdal).1 ≢ []
      → Reported (run call w).1.errors
  unfolding run
  run-Reported call w some_report =
      report_all-Reported (call w.gdal).1 (record w { gdal = (call w.gdal).2 }) some_report

module _ (gdal : Gdal) where
  open gdal use {G}

  destroy-keeps :
      (ds : LockedDataset) (w : World G) → Reported w.errors → Reported (destroy gdal ds w).1.errors
  unfolding destroy close
  destroy-keeps ds w h = elim (Option-cases ds.warped) [
    | inl nothing ↦ rw (nothing, destroy, close) h
    | inr (warped, e) ↦ elim (Option-cases ds.source) [
      | inl nothing ↦ rw (e, nothing, destroy, close) h
      | inr (source, e') ↦
          rw (e, e', destroy, close)
            (run-keeps (gdal.close source) (run (gdal.close warped) w).1
              (run-keeps (gdal.close warped) w h))
    ]
  ]

  -- An open dataset whose source reports an error when it is closed.
  pub record Complains (ds : LockedDataset) : Type 0 where
    pub source : ℕ
    pub warped : ℕ
    pub has_source : ds.source ≡ some source
    pub has_warped : ds.warped ≡ some warped
    pub reports : (g : G) → (gdal.close source g).1 ≢ []

  destroy-Reported :
      (ds : LockedDataset) (w : World G) → Complains ds → Reported (destroy gdal ds w).1.errors
  unfolding destroy close
  destroy-Reported ds w c =
      let w1 = (run (gdal.close c.warped) w).1 in
      rw (c.has_warped, c.has_source, destroy, close)
        (run-Reported (gdal.close c.source) w1 (c.reports w1.gdal))

  module _ (drivers : Drivers G) (lru : LruCache) (draws : ℕ → ℕ) where
    open lru use {C}

    destroy_slots-keeps :
        (slots : List Slot) (w : World G)
        → Reported w.errors
        → Reported (destroy_slots gdal drivers lru draws slots w).1.errors
    unfolding destroy_slots
    destroy_slots-keeps [] w h = h
    destroy_slots-keeps (slot ∷ slots) w h =
        destroy_slots-keeps slots (destroy gdal slot.value w).1 (destroy-keeps slot.value w h)

    destroy_slots-Reported :
        (slots : List Slot) (i : ℕ) (slot : Slot) (w : World G)
        → get_elem? slots i ≡ some slot
        → Complains slot.value
        → Reported (destroy_slots gdal drivers lru draws slots w).1.errors
    unfolding destroy_slots
    destroy_slots-Reported [] i slot w there c = cc
    destroy_slots-Reported (s ∷ slots) zero slot w there c =
        let same : slot ≡ s = ground arith in
        destroy_slots-keeps slots (destroy gdal s.value w).1
          (destroy-Reported s.value w (subst (λ x. Complains x.value) same c))
    destroy_slots-Reported (s ∷ slots) (suc i) slot w there c =
        destroy_slots-Reported slots i slot (destroy gdal s.value w).1 there c

    unmapped-faults :
        {A : Type 0} (environment : Environment) (tid : ℕ) (step : M G A) (p : Process G C)
        → p.error_handler ≡ true
        → Reported (step (thread environment tid [] p)).1.errors
        → unmapped environment tid step p ≡ faults
    unfolding unmapped
    unmapped-faults environment tid step p installed h =
        rw (installed, not_empty (step (thread environment tid [] p)).1.errors h, unmapped) refl

    env_deinit-keeps :
        (p : Process G C)
        → ((env_deinit p).cache ≡ p.cache) × ((env_deinit p).error_handler ≡ p.error_handler)
    unfolding env_deinit
    env_deinit-keeps p = elim (Bool-cases p.handler_installed) [
      | inl installed ↦ rw (installed, env_deinit) (refl, refl)
      | inr absent ↦ rw (absent, env_deinit) (refl, refl)
    ]

    cache_deinit_faults :
        (environment : Environment) (tid : ℕ) (p : Process G C) (c : Cache) (i : ℕ) (slot : Slot)
        → p.error_handler ≡ true
        → p.cache ≡ some c
        → get_elem? c.slots i ≡ some slot
        → Complains slot.value
        → cache_deinit gdal drivers lru draws environment tid p ≡ faults
    unfolding cache_deinit
    cache_deinit_faults environment tid p c i slot installed cached there complains =
        let q : Process G C = record p { cache = none } in
        rw (cached, cache_deinit)
          (unmapped-faults environment tid (destroy_slots gdal drivers lru draws c.slots) q
            installed
            (destroy_slots-Reported c.slots i slot (thread environment tid [] q) there complains))

    -- With GDAL's handler installed, and a dataset in the cache of which GDAL reports an error when
    -- it closes the source, `deinit` follows the null pointer of the map of errors that it has freed.
    pub deinit_faults :
        (environment : Environment) (tid : ℕ) (p : Process G C) (c : Cache) (i : ℕ) (slot : Slot)
        → p.error_handler ≡ true
        → p.cache ≡ some c
        → get_elem? c.slots i ≡ some slot
        → Complains slot.value
        → deinit gdal drivers lru draws environment tid p ≡ faults
    unfolding deinit
    deinit_faults environment tid p c i slot installed cached there complains =
        let p' : Process G C = record p { errno = errno_deinit p.errno } in
        let (same, same') = env_deinit-keeps p' in
        rw
          (
            deinit,
            cache_deinit_faults environment tid (env_deinit p') c i slot (same' ∙ installed)
                (same ∙ cached) there complains,
          )
          refl
