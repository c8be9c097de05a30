-- ===== src/Bindings/Unlimited.antt =====
-- DOIT of bindings.cpp with `attempts = 0`, which sets no limit.
use mathlib.Core.Bool.{false≢true}
use gdal_warp_bindings.Base.{
  ℕ, zero, suc, ◌+◌, ◌<◌, ◌≤◌, ◌≡◌, ◌≢◌, sym, ap, ◌∙◌, ◌⊎◌, inl, inr, some, true, false, String, ℤ,
  pos, ltb_ℤ, eq_ℤ, ltb, ◌||◌, ◌&&◌, Bool-cases, if◌then◌else◌, arith,
}
use gdal_warp_bindings.Types.{UriOptions}
use gdal_warp_bindings.Gdal.{Gdal}
use gdal_warp_bindings.World.{World}
use gdal_warp_bindings.Cache.{Cache}
use gdal_warp_bindings.Dataset.Queries.{Op}
use gdal_warp_bindings.Bindings.Loop.{attempted, finish, give_up, starve, again, loop_step}
use gdal_warp_bindings.Bindings.Attempts.{Tracked, attempted-Tracked, goes_on-more, final_code_done}
use gdal_warp_bindings.Bindings.Result.{
  done_after, done_ends, IsFailure, IsFailure-ends, start_run-Honest, after_zero,
}
use gdal_warp_bindings.Bindings.{
  Budget, Surroundings, Run, fetch, attempt_loop, doit, start_run, attempts_exceeded,
}

module _ (gdal : Gdal) (string_hash : String → ℕ) {S : Type 0} (op : Op gdal.G S) (budget : Budget)
    (env : Surroundings) (key : UriOptions) where
  -- The loop from attempt `i` with the state that `Tracked` says ends, if attempt `n` is to succeed.
  loop_reaches :
      (fuel n i : ℕ) (r0 r : Run gdal.G S)
      → Tracked gdal string_hash op budget env key r0 i r
      → done_after gdal string_hash op budget env key n r0 ≡ true
      → i ≤ n
      → n < fuel + i
      → (code : ℤ) × (r' : Run gdal.G S) × (attempt_loop gdal string_hash op fuel budget env key i r
          ≡ some (code, r'))
  loop_reaches zero n i r0 r t d below enough = absurd (omega arith)
  loop_reaches (suc fuel) n i r0 r t d below enough =
      elim (loop_step gdal string_hash op budget env key fuel i r) [
        | finish stop s ↦ (_, r, s)
        | give_up go over s ↦ (_, r, s)
        | starve go nothing s ↦ (_, (fetch gdal string_hash op budget env key i r).1, s)
        | again go on_time s ↦
            let more = goes_on-more budget i r go in
            let early : i ≢ n = λ same. false≢true (
              sym more
              ∙ ap (λ (x : Run gdal.G S). x.done) t.here
              ∙ ap (λ j. done_after gdal string_hash op budget env key j r0) same
              ∙ d) in
            let below' : i + 1 ≤ n = ground arith in
            let (code, r', ended) =
              loop_reaches fuel n (i + 1) r0 (attempted gdal string_hash op budget env key i r)
                (attempted-Tracked gdal string_hash op budget env key r0 i r t more) d below'
                (omega arith) in
            (code, r', s ∙ ended)
      ]

  -- A success is not there before the first attempt.
  not_at_once :
      (i : ℕ) (c : Cache) (memory : S) (w : World gdal.G) (r : Run gdal.G S)
      → Tracked gdal string_hash op budget env key (start_run c memory w) i r
      → r.done ≡ true
      → 0 < i
  not_at_once zero c memory w r t d = absurd (
      false≢true (
        ap (λ (x : Run gdal.G S). x.done)
          (after_zero gdal string_hash op budget env key (start_run c memory w))
        ∙ sym (ap (λ (x : Run gdal.G S). x.done) t.here)
        ∙ d))
  not_at_once (suc i) c memory w r t d = omega arith

  -- What the end of DOIT makes of a success after `i` rounds.
  abbrev verdict : ℕ → Run gdal.G S → ℤ
  verdict i r =
      if ltb_ℤ (pos i) budget.attempts || (ltb 0 i && eq_ℤ budget.attempts (pos 0))
      then pos r.touched
      else attempts_exceeded

  -- A call of which attempt `n` would succeed: it ends, without a success or with the verdict on one.
  doit_reaches :
      (n : ℕ) (c : Cache) (memory : S) (w : World gdal.G)
      → done_after gdal string_hash op budget env key n (start_run c memory w) ≡ true
      → (code : ℤ) × (r : Run gdal.G S) × (doit gdal string_hash op
            (n + 1)
            budget
            env
            (some key)
            c
            memory
            w
          ≡ some (code, r))
        × (((r.done ≡ false) × IsFailure gdal string_hash op budget env key code r)
            ⊎ ((i : ℕ) × (0 < i) × (code ≡ verdict i r) × (0 < r.touched)))
  unfolding doit
  doit_reaches n c memory w d =
      let r0 = start_run c memory w in
      let h = start_run-Honest gdal string_hash op budget env key c memory w in
      let t0 : Tracked gdal string_hash op budget env key r0 0 r0 = record {
        here = after_zero gdal string_hash op budget env key r0;
        honest = h;
        before = λ k z. absurd (omega arith);
      } in
      let (code, r, ended) = loop_reaches (n + 1) n 0 r0 r0 t0 d (omega arith) (omega arith) in
      (
        code,
        r,
        ended,
        elim (Bool-cases r.done) [
          | inr more ↦ inl (
            more,
            IsFailure-ends gdal string_hash op budget env key (n + 1) r0 code r h ended more,
          )
          | inl success ↦
              let (i, t, stop, is) =
                done_ends gdal string_hash op budget env key (n + 1) r0 code r h ended success in
              inr (
                i,
                not_at_once i c memory w r t success,
                is ∙ final_code_done budget i r t.honest success,
                t.honest.touches success,
              )
        ],
      )

  pub doit_unlimited :
      (n : ℕ) (c : Cache) (memory : S) (w : World gdal.G)
      → budget.attempts ≡ pos 0
      → done_after gdal string_hash op budget env key n (start_run c memory w) ≡ true
      → (code : ℤ) × (r : Run gdal.G S) × (doit gdal string_hash op
            (n + 1)
            budget
            env
            (some key)
            c
            memory
            w
          ≡ some (code, r))
        × (((r.done ≡ false) × IsFailure gdal string_hash op budget env key code r)
            ⊎ ((code ≡ pos r.touched) × (0 < r.touched)))
  doit_unlimited n c memory w e d =
      let (code, r, ended, how) = doit_reaches n c memory w d in
      (
        code,
        r,
        ended,
        elim how [
          | inl failed ↦ inl failed
          | inr (i, late, is, touched) ↦
              let counted : verdict i r ≡ pos r.touched = ground arith in
              inr (is ∙ counted, touched)
        ],
      )
