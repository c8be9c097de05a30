-- ===== src/Dataset/Moves.antt =====
-- What the calls of locked_dataset.hpp that open, close and move leave alone, and the object that a
-- move assignment makes.
use gdal_warp_bindings.Base.{[], ℕ, ◌≡◌, refl, ap, ◌∙◌, inl, inr, none, some, arith, Option-cases}
use gdal_warp_bindings.Types.{UriOptions}
use gdal_warp_bindings.Gdal.{Gdal}
use gdal_warp_bindings.World.{World, run, run-tid}
use gdal_warp_bindings.Dataset.{
  LockedDataset, empty_dataset, close, open_with_options, open_missing, construct, destroy,
  move_assign, warp_options,
}

module _ (gdal : Gdal) where
  open_with_options-tid :
      (ds : LockedDataset) (o : ℕ) (w : World gdal.G)
      → (open_with_options gdal ds o w).1.tid ≡ w.tid
  unfolding open_with_options
  open_with_options-tid ds o w =
      let opening = gdal.open_read_only ds.uri_options.0 in
      let w1 = (run opening w).1 in
      elim (Option-cases (run opening w).0) [
        | inl failed ↦
            rw (failed, open_with_options)
              (run-tid (gdal.warp_app_options_free o) w1 ∙ run-tid opening w)
        | inr (s, done) ↦
            rw (done, open_with_options)
              (run-tid (gdal.warp_app_options_free o) (run (gdal.warp s o) w1).1
                ∙ run-tid (gdal.warp s o) w1
                ∙ run-tid opening w)
      ]

  open_missing-tid :
      (ds : LockedDataset) (w : World gdal.G) → (open_missing gdal ds w).1.tid ≡ w.tid
  unfolding open_missing
  open_missing-tid ds w =
      let new = gdal.warp_app_options_new (warp_options ds.uri_options.1) in
      elim (Option-cases (run new w).0) [
        | inl failed ↦ rw (failed, open_missing) (run-tid new w)
        | inr (o, done) ↦
            rw (done, open_missing) (open_with_options-tid ds o (run new w).1 ∙ run-tid new w)
      ]

  pub construct-tid : (key : UriOptions) (w : World gdal.G) → (construct gdal key w).1.tid ≡ w.tid
  unfolding construct
  construct-tid key w =
      open_missing-tid (record empty_dataset { uri_options = key; mutex = some w.tid }) w

  -- `close` touches the handles only.
  pub close-result :
      (ds : LockedDataset) (w : World gdal.G)
      → (close gdal ds w).0
        ≡ record ds { source = (close gdal ds w).0.source; warped = (close gdal ds w).0.warped }
  unfolding close
  close-result ds w = elim (Option-cases ds.warped) [
    | inl gone ↦ rw (gone, close)
    | inr (h, there) ↦ elim (Option-cases ds.source) [
      | inl gone ↦ rw (there, gone, close)
      | inr (s, here) ↦ rw (there, here, close)
    ]
  ]

  pub close-tid : (ds : LockedDataset) (w : World gdal.G) → (close gdal ds w).1.tid ≡ w.tid
  unfolding close
  close-tid ds w = elim (Option-cases ds.warped) [
    | inl gone ↦ rw (gone, close)
    | inr (h, there) ↦ elim (Option-cases ds.source) [
      | inl gone ↦ rw (there, gone, close)
      | inr (s, here) ↦
          rw (there, here, close)
            (run-tid (gdal.close s) (run (gdal.close h) w).1 ∙ run-tid (gdal.close h) w)
    ]
  ]

  -- Nothing is left to close in an object that was moved from.
  pub destroy_null :
      (ds : LockedDataset) (w : World gdal.G) → ds.warped ≡ none → destroy gdal ds w ≡ (tt, w)
  unfolding destroy
  destroy_null ds w gone = rw (gone, close)

  pub destroy-close :
      (ds : LockedDataset) (w : World gdal.G) → destroy gdal ds w ≡ (tt, (close gdal ds w).1)
  unfolding destroy
  destroy-close ds w = refl

  -- Assigning to an unused object that the thread has locked closes its handles, gives it those of
  -- the other object, and unlocks it.
  pub move_assign_lem :
      (lhs rhs : LockedDataset) (w : World gdal.G)
      → lhs.mutex ≡ some w.tid
      → lhs.use_count ≡ 0
      → move_assign gdal lhs rhs w ≡ (
        (
          record empty_dataset {
            source = rhs.source;
            warped = rhs.warped;
            uri_options = rhs.uri_options;
          },
          record rhs { source = none; warped = none; uri_options = ("", []) },
        ),
        (close gdal lhs w).1,
      )
  unfolding move_assign
  move_assign_lem lhs rhs w locked unused =
      let closed = (close gdal lhs w).0 in
      let m : closed.mutex ≡ some w.tid = ap (λ d. d.mutex) (close-result lhs w) ∙ locked in
      let u : closed.use_count ≡ 0 = ap (λ d. d.use_count) (close-result lhs w) ∙ unused in
      ground arith
