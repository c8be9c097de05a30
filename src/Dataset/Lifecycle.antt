-- ===== src/Dataset/Lifecycle.antt =====
-- Construction, destruction and moves of locked_dataset.hpp: what state they leave, and what becomes
-- of GDAL's handles.
use gdal_warp_bindings.Base.{
  String, ℕ, ◌+◌, ◌-◌, ◌≡◌, refl, inl, inr, none, some, arith, ap, ◌∙◌, Option-cases, if◌then◌else◌,
}
use gdal_warp_bindings.Types.{Options, UriOptions}
use gdal_warp_bindings.Mutex.{unlock}
use gdal_warp_bindings.Gdal.{Gdal, Handle}
use gdal_warp_bindings.World.{World, run, run-tid, run-gdal, run-result}
use gdal_warp_bindings.Dataset.{
  LockedDataset, empty_dataset, valid, close, open_with_options, open_missing, construct, destroy,
  warp_options,
}

abbrev pub count_handle : Handle → ℕ
count_handle none = 0
count_handle (some h) = 1

-- How many dataset handles GDAL has open: GDALOpen and GDALWarp open one if they return one,
-- GDALClose closes one, and the options are no datasets.
pub record HandleLaws (gdal : Gdal) : Type 0 where
  pub handles : gdal.G → ℕ
  pub options_new : (os : _) (g : gdal.G) → handles (gdal.warp_app_options_new os g).2 ≡ handles g
  pub options_free : (o : ℕ) (g : gdal.G) → handles (gdal.warp_app_options_free o g).2 ≡ handles g
  pub opened :
      (u : _) (g : gdal.G)
      → handles (gdal.open_read_only u g).2 ≡ handles g + count_handle (gdal.open_read_only u g).0
  pub warped :
      (s o : ℕ) (g : gdal.G)
      → handles (gdal.warp s o g).2 ≡ handles g + count_handle (gdal.warp s o g).0
  pub closed : (h : ℕ) (g : gdal.G) → handles (gdal.close h g).2 ≡ handles g - 1

-- How a constructed object can look: usable and unlocked; without a source, and locked by the thread
-- for good; or with a source alone, where GDALWarp failed, and unlocked.
pub data Constructed (tid : ℕ) (key : UriOptions) (ds : LockedDataset) : Type 0 where
  opened :
      (s w : ℕ)
      → ds ≡ record empty_dataset { source = some s; warped = some w; uri_options = key }
      → Constructed tid key ds
  unopened :
      ds ≡ record empty_dataset { uri_options = key; mutex = some tid } → Constructed tid key ds
  unwarped :
      (s : ℕ)
      → ds ≡ record empty_dataset { source = some s; uri_options = key }
      → Constructed tid key ds

abbrev held : ℕ → UriOptions → LockedDataset
held tid key = record empty_dataset { uri_options = key; mutex = some tid }

warped-Constructed :
    (tid s : ℕ) (key : UriOptions) (warped : Handle)
    → Constructed tid key
        (record empty_dataset { source = some s; warped = warped; uri_options = key })
warped-Constructed tid s key none = unwarped s refl
warped-Constructed tid s key (some h) = opened s h refl

unlock_same : (tid holder : ℕ) → tid ≡ holder → unlock tid (some holder) ≡ none
unlock_same tid holder h = ground arith

module _ (gdal : Gdal) where
  open_with_options-Constructed :
      (tid : ℕ) (key : UriOptions) (o : ℕ) (w : World gdal.G)
      → w.tid ≡ tid
      → Constructed tid key (open_with_options gdal (held tid key) o w).0
  unfolding open_with_options
  open_with_options-Constructed tid key o w same =
      elim (Option-cases (run (gdal.open_read_only key.0) w).0) [
        | inl failed ↦ rw (failed, open_with_options) (unopened refl)
        | inr (s, done) ↦
            rw (done, open_with_options, unlock_same w.tid tid same)
              (warped-Constructed tid s key _)
      ]

  open_missing-Constructed :
      (key : UriOptions) (w : World gdal.G)
      → Constructed w.tid key (open_missing gdal (held w.tid key) w).0
  unfolding open_missing
  open_missing-Constructed key w =
      let new = gdal.warp_app_options_new (warp_options key.1) in
      elim (Option-cases (run new w).0) [
        | inl failed ↦ rw (failed, open_missing) (unopened refl)
        | inr (o, done) ↦
            rw (done, open_missing)
              (open_with_options-Constructed w.tid key o (run new w).1 (run-tid new w))
      ]

  -- A fresh object has its mutex free and nothing open.
  construct-open_missing :
      (key : UriOptions) (w : World gdal.G)
      → construct gdal key w ≡ open_missing gdal (held w.tid key) w
  unfolding construct
  construct-open_missing key w = refl

  -- A constructed object is usable and unlocked, or has no source and stays locked by its thread, or
  -- has a source only and is unlocked; it is never in use.
  pub construct-Constructed :
      (key : UriOptions) (w : World gdal.G) → Constructed w.tid key (construct gdal key w).0
  construct-Constructed key w = rw (construct-open_missing key w) (open_missing-Constructed key w)

  module _ (laws : HandleLaws gdal) where
    open laws use {handles}

    abbrev open_handles : World gdal.G → ℕ
    open_handles w = handles w.gdal

    run_closed :
        (h : ℕ) (w : World gdal.G) → open_handles (run (gdal.close h) w).1 ≡ open_handles w - 1
    run_closed h w = ap handles (run-gdal (gdal.close h) w) ∙ laws.closed h w.gdal

    run_freed :
        (o : ℕ) (w : World gdal.G)
        → open_handles (run (gdal.warp_app_options_free o) w).1 ≡ open_handles w
    run_freed o w =
        ap handles (run-gdal (gdal.warp_app_options_free o) w) ∙ laws.options_free o w.gdal

    run_warped :
        (s o : ℕ) (w : World gdal.G)
        → open_handles (run (gdal.warp s o) w).1
          ≡ open_handles w + count_handle (run (gdal.warp s o) w).0
    run_warped s o w = omega (
      arith,
      ap handles (run-gdal (gdal.warp s o) w),
      laws.warped s o w.gdal,
      ap count_handle (run-result (gdal.warp s o) w),
    )

    run_opened :
        (u : String) (w : World gdal.G)
        → open_handles (run (gdal.open_read_only u) w).1
          ≡ open_handles w + count_handle (run (gdal.open_read_only u) w).0
    run_opened u w = omega (
      arith,
      ap handles (run-gdal (gdal.open_read_only u) w),
      laws.opened u w.gdal,
      ap count_handle (run-result (gdal.open_read_only u) w),
    )

    run_made :
        (os : Options) (w : World gdal.G)
        → open_handles (run (gdal.warp_app_options_new os) w).1 ≡ open_handles w
    run_made os w =
        ap handles (run-gdal (gdal.warp_app_options_new os) w) ∙ laws.options_new os w.gdal

    -- What a result of `open` says of GDAL's handles.
    abbrev Accounts : World gdal.G → LockedDataset × World gdal.G → Type 0
    Accounts w r =
        open_handles r.1 ≡ open_handles w + count_handle r.0.source + count_handle r.0.warped

    open_with_options_handles :
        (ds : LockedDataset) (o : ℕ) (w : World gdal.G) → Accounts w (open_with_options gdal ds o w)
    unfolding open_with_options
    open_with_options_handles ds o w =
        let opening = gdal.open_read_only ds.uri_options.0 in
        let w1 = (run opening w).1 in
        elim (Option-cases (run opening w).0) [
          | inl failed ↦
              rw (failed, open_with_options)
                (omega
                  (arith, run_freed o w1, run_opened ds.uri_options.0 w, ap count_handle failed))
          | inr (s, done) ↦
              rw (done, open_with_options)
                (omega (
                  arith,
                  run_freed o (run (gdal.warp s o) w1).1,
                  run_warped s o w1,
                  run_opened ds.uri_options.0 w,
                  ap count_handle done,
                ))
        ]

    open_missing_handles :
        (ds : LockedDataset) (w : World gdal.G) → Accounts w (open_missing gdal ds w)
    unfolding open_missing
    open_missing_handles ds w =
        let os = warp_options ds.uri_options.1 in
        let new = gdal.warp_app_options_new os in
        elim (Option-cases (run new w).0) [
          | inl failed ↦ rw (failed, open_missing) (omega (arith, run_made os w))
          | inr (o, done) ↦
              rw (done, open_missing)
                (omega (arith, run_made os w, open_with_options_handles ds o (run new w).1))
        ]

    -- A construction opens the handles that the object holds, and no other.
    pub construct_handles :
        (key : UriOptions) (w : World gdal.G) → Accounts w (construct gdal key w)
    construct_handles key w =
        rw (construct-open_missing key w) (open_missing_handles (held w.tid key) w)

    -- `close` closes both handles, or nothing.
    pub close_handles :
        (ds : LockedDataset) (w : World gdal.G)
        → open_handles (close gdal ds w).1
          ≡ (if valid ds then open_handles w - 2 else open_handles w)
    unfolding close
    close_handles ds w = elim (Option-cases ds.warped) [
      | inl gone ↦ rw (gone, close, valid) (ground arith)
      | inr (h, there) ↦ elim (Option-cases ds.source) [
        | inl gone ↦ rw (there, gone, close, valid)
        | inr (s, here) ↦
            rw (there, here, close, valid)
              (omega (arith, run_closed h w, run_closed s (run (gdal.close h) w).1))
      ]
    ]

    -- The handle that nothing closes: a source whose warped dataset is missing.
    abbrev pub leaked : LockedDataset → ℕ
    leaked ds = if valid ds then 0 else count_handle ds.source

    destroyed :
        (ds : LockedDataset) (w : World gdal.G) → (destroy gdal ds w).1 ≡ (close gdal ds w).1
    unfolding destroy
    destroyed ds w = refl

    leaks :
        (tid : ℕ) (key : UriOptions) (ds : LockedDataset) (w w1 : World gdal.G)
        → Constructed tid key ds
        → Accounts w (ds, w1)
        → open_handles (close gdal ds w1).1 ≡ open_handles w + leaked ds
    unfolding valid
    leaks tid key ds w w1 (opened s h e) a =
        rw (close_handles ds w1, e)
          (omega (arith, ap (λ d. count_handle d.source) e, ap (λ d. count_handle d.warped) e))
    leaks tid key ds w w1 (unopened e) a =
        rw (close_handles ds w1, e)
          (omega (arith, ap (λ d. count_handle d.source) e, ap (λ d. count_handle d.warped) e))
    leaks tid key ds w w1 (unwarped s e) a =
        rw (close_handles ds w1, e)
          (omega (arith, ap (λ d. count_handle d.source) e, ap (λ d. count_handle d.warped) e))

    -- For a GDAL that counts its handles: constructing an object and destroying it gives every
    -- handle back, but for one case. Where GDALOpen succeeded and GDALWarp failed, the source stays
    -- open.
    pub destroy-construct_handles :
        (key : UriOptions) (w : World gdal.G)
        → let c = construct gdal key w in
          open_handles (destroy gdal c.0 c.1).1 ≡ open_handles w + leaked c.0
    destroy-construct_handles key w =
        let c = construct gdal key w in
        rw (destroyed c.0 c.1)
          (leaks w.tid key c.0 w c.1 (construct-Constructed key w) (construct_handles key w))
