-- ===== src/Bindings/AtOnce.antt =====
-- DOIT of bindings.cpp without a limit, where the first attempt succeeds.
use mathlib.Core.Bool.{false≢true}
use gdal_warp_bindings.Base.{
  ℕ, zero, suc, ◌+◌, ◌<◌, ◌≡◌, refl, sym, ap, ◌∙◌, inl, inr, List, [], some, true, false, String, ℤ,
  pos, Bool-cases, arith,
}
use gdal_warp_bindings.Types.{UriOptions}
use gdal_warp_bindings.Gdal.{Gdal}
use gdal_warp_bindings.World.{World}
use gdal_warp_bindings.Dataset.Queries.{Op}
use gdal_warp_bindings.Cache.{Cache}
use gdal_warp_bindings.Cache.Uses.{uses, IsSized}
use gdal_warp_bindings.Cache.Found.{Roomy}
use gdal_warp_bindings.Cache.Origins.{Stems}
use gdal_warp_bindings.Bindings.{
  Budget, Surroundings, Run, goes_on, timed_out, fetch, try_all, attempt_loop, doit, start_run,
}
use gdal_warp_bindings.Bindings.Loop.{finished, gave_up, starved, loop-Ended}
use gdal_warp_bindings.Bindings.Attempts.{
  Tracked, after_attempts, after_attempts-done, attempted-Tracked, fetch-done, goes_on-more,
}
use gdal_warp_bindings.Bindings.Result.{done_after, start_run-Honest, after_zero}
use gdal_warp_bindings.Bindings.Unlimited.{doit_unlimited}
use gdal_warp_bindings.Bindings.Owned.{KeepsDataset, IsAnswer}
use gdal_warp_bindings.Bindings.Answers.{loop-Answered, start_run-Holds}

module _ (gdal : Gdal) (string_hash : String → ℕ) {S : Type 0} (op : Op gdal.G S) (budget : Budget)
    (env : Surroundings) (key : UriOptions) where
  always_on :
      (i : ℕ) (r : Run gdal.G S)
      → budget.attempts ≡ pos 0
      → r.done ≡ false
      → goes_on budget i r ≡ true
  unfolding goes_on
  always_on i r e more = rw (e, more, goes_on) (ground arith)

  never_late : (i : ℕ) → budget.nanos ≡ 0 → timed_out budget env i ≡ false
  unfolding timed_out
  never_late i e = rw (e, timed_out) refl

  -- An attempt that finds no dataset has no success.
  starved-done :
      (r0 : Run gdal.G S)
      → r0.done ≡ false
      → (fetch gdal string_hash op budget env key 0 r0).0 ≡ []
      → done_after gdal string_hash op budget env key 1 r0 ≡ false
  unfolding after_attempts try_all
  starved-done r0 more nothing =
      let f = fetch gdal string_hash op budget env key 0 r0 in
      ap (λ (l : List ℕ). (try_all op l f.1).done) nothing
      ∙ fetch-done gdal string_hash op budget env key 0 r0
      ∙ more

  module _ (r0 : Run gdal.G S) (first : done_after gdal string_hash op budget env key 1 r0 ≡ true)
      (unlimited : budget.attempts ≡ pos 0) (patient : budget.nanos ≡ 0) where
    -- The loop cannot end without a success.
    not_starved :
        (i : ℕ) (s : Run gdal.G S)
        → Tracked gdal string_hash op budget env key r0 i s
        → s.done ≡ false
        → (fetch gdal string_hash op budget env key i s).0 ≡ []
        → ⊥
    not_starved zero s t more nothing =
        let here : s ≡ r0 = t.here ∙ sym (after_zero gdal string_hash op budget env key r0) in
        false≢true (
          sym (
            starved-done r0 (ap (λ (x : Run gdal.G S). x.done) (sym here) ∙ more) (
              ap (λ (x : Run gdal.G S). (fetch gdal string_hash op budget env key 0 x).0) (sym here)
              ∙ nothing))
          ∙ first)
    not_starved (suc i) s t more nothing =
        let e : i + 1 ≡ suc i = omega arith in
        false≢true (
          sym more
          ∙ ap (λ (x : Run gdal.G S). x.done) t.here
          ∙ ap (λ j. done_after gdal string_hash op budget env key j r0) (sym e)
          ∙ after_attempts-done gdal string_hash op budget env key 1 i r0 first)

    ends_done :
        (fuel : ℕ) (code : ℤ) (r : Run gdal.G S)
        → Tracked gdal string_hash op budget env key r0 0 r0
        → attempt_loop gdal string_hash op fuel budget env key 0 r0 ≡ some (code, r)
        → r.done ≡ false
        → ⊥
    ends_done fuel code r start e more =
        elim (loop-Ended gdal string_hash op budget env key
          (Tracked gdal string_hash op budget env key r0)
          (λ i s t go on_time.
            attempted-Tracked gdal string_hash op budget env key r0 i s t
              (goes_on-more budget i s go))
          fuel 0 r0 code r start e) [
            | finished i t stop c ↦ false≢true (sym stop ∙ always_on i r unlimited more)
            | gave_up i t go late c ↦ false≢true (sym (never_late i patient) ∙ late)
            | starved i s t go nothing same c ↦
                not_starved i s t (goes_on-more budget i s go) nothing
          ]

  -- Without a limit on the attempts or the time, a call of which the first attempt succeeds returns a
  -- positive number, and an answer of a dataset of the pair, with handles that were in the cache for
  -- it or were opened for it.
  pub doit_at_once :
      (keeps : KeepsDataset op) (c : Cache) (memory : S) (w : World gdal.G)
      → budget.attempts ≡ pos 0
      → budget.nanos ≡ 0
      → IsSized c
      → Roomy (uses c.slots)
      → done_after gdal string_hash op budget env key 1 (start_run c memory w) ≡ true
      → (code : ℤ) × (r : Run gdal.G S) × (doit gdal string_hash op 2 budget env
            (some key)
            c
            memory
            w
          ≡ some (code, r))
        × (code ≡ pos r.touched)
        × (0 < r.touched)
        × IsAnswer op key (Stems gdal key c.slots) r.memory r.world
  unfolding doit
  doit_at_once keeps c memory w unlimited patient sized roomy first =
      let r0 = start_run c memory w in
      let start : Tracked gdal string_hash op budget env key r0 0 r0 = record {
        here = after_zero gdal string_hash op budget env key r0;
        honest = start_run-Honest gdal string_hash op budget env key c memory w;
        before = λ k z. absurd (omega arith);
      } in
      let (code, r, ended, how) =
        doit_unlimited gdal string_hash op budget env key 1 c memory w unlimited first in
      elim how [
        | inl (more, _) ↦ absurd (ends_done r0 first unlimited patient 2 code r start ended more)
        | inr (is, touched) ↦ (
          code,
          r,
          ended,
          is,
          touched,
          elim (Bool-cases r.done) [
            | inl d ↦
                loop-Answered gdal string_hash op keeps budget env key c.slots 2 (uses c.slots) r0
                  code r roomy
                  (start_run-Holds gdal string_hash op keeps budget env key c.slots c memory w refl
                    sized)
                  ended d
            | inr more ↦ absurd (ends_done r0 first unlimited patient 2 code r start ended more)
          ],
        )
      ]
