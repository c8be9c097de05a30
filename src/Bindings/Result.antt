-- ===== src/Bindings/Result.antt =====
-- What DOIT of bindings.cpp returns when an operation has succeeded.
use mathlib.Core.Bool.{false≢true}
use native.Mathlib.Decide.{dec_lt}
use gdal_warp_bindings.Base.{
  ◌-◌, ltb_ℤ, ltb, ◌||◌, ◌&&◌, ℕ, zero, suc, ◌+◌, ◌<◌, ◌≡◌, refl, sym, ◌∙◌, ap, ◌⊎◌, inl, inr,
  Option, some, Bool, true, false, String, ℤ, pos, eq_ℤ, arith, Bool-cases, if◌then◌else◌,
}
use gdal_warp_bindings.Types.{UriOptions}
use gdal_warp_bindings.Gdal.{Gdal}
use gdal_warp_bindings.Cache.{Cache}
use gdal_warp_bindings.World.{World}
use gdal_warp_bindings.Dataset.Queries.{Op, attempt_successful, dataset_locked}
use gdal_warp_bindings.Bindings.Loop.{finished, gave_up, starved, loop-Ended, loop_total}
use gdal_warp_bindings.Bindings.{
  Budget, Surroundings, Run, goes_on, final_code, attempt_loop, doit, attempts_exceeded, file_io,
  open_failed, start_run,
}
use gdal_warp_bindings.Bindings.Attempts.{
  Honest, Tracked, after_attempts, after_attempts-done, attempted-Tracked, fetch-done, goes_on-more,
  final_code_done,
}

module _ (gdal : Gdal) (string_hash : String → ℕ) {S : Type 0} (op : Op gdal.G S) (budget : Budget)
    (env : Surroundings) (key : UriOptions) where
  abbrev pub loop : ℕ → Run gdal.G S → Option (ℤ × Run gdal.G S)
  loop fuel = attempt_loop gdal string_hash op fuel budget env key 0

  pub after_zero : (r0 : Run gdal.G S) → r0 ≡ after_attempts gdal string_hash op budget env key 0 r0
  unfolding after_attempts
  after_zero r0 = refl

  -- A loop that ends with a success ends by its test.
  pub done_ends :
      (fuel : ℕ) (r0 : Run gdal.G S) (code : ℤ) (r : Run gdal.G S)
      → Honest r0
      → loop fuel r0 ≡ some (code, r)
      → r.done ≡ true
      → (i : ℕ) × Tracked gdal string_hash op budget env key r0 i r
        × (goes_on budget i r ≡ false)
        × (code ≡ final_code budget i r)
  done_ends fuel r0 code r h e d =
      elim (loop-Ended gdal string_hash op budget env key
        (Tracked gdal string_hash op budget env key r0)
        (λ i s t go on_time.
          attempted-Tracked gdal string_hash op budget env key r0 i s t
            (goes_on-more budget i s go))
        fuel 0 r0 code r
        (record { here = after_zero r0; honest = h; before = λ k z. absurd (omega arith) }) e) [
          | finished i t stop c ↦ (i, t, stop, c)
          | gave_up i t go over c ↦ absurd (false≢true (sym (goes_on-more budget i r go) ∙ d))
          | starved i s t go nothing same c ↦ absurd (
              false≢true (
                sym (goes_on-more budget i s go)
                ∙ sym (fetch-done gdal string_hash op budget env key i s)
                ∙ ap (λ (x : Run gdal.G S). x.done) (sym same)
                ∙ d))
        ]

  abbrev pub done_after : ℕ → Run gdal.G S → Bool
  done_after n r0 = (after_attempts gdal string_hash op budget env key n r0).done

  in_time :
      (n i : ℕ) (r0 r : Run gdal.G S)
      → Tracked gdal string_hash op budget env key r0 i r
      → done_after n r0 ≡ true
      → i < suc n
  in_time n zero r0 r t d = omega arith
  in_time n (suc k) r0 r t d = elim (dec_lt k n) [
    | yes below ↦ omega arith
    | no above ↦
        let e : k - n + n ≡ k = omega arith in
        let late = after_attempts-done gdal string_hash op budget env key n (k - n) r0 d in
        absurd (false≢true (sym (t.before k refl) ∙ sym (ap (λ j. done_after j r0) e) ∙ late))
  ]

  too_late :
      (n i : ℕ) (r0 r : Run gdal.G S)
      → Tracked gdal string_hash op budget env key r0 i r
      → r.done ≡ true
      → done_after n r0 ≡ false
      → n < i
  too_late n i r0 r t d more = elim (dec_lt n i) [
    | yes above ↦ above
    | no below ↦
        let e : n - i + i ≡ n = omega arith in
        let d' : done_after i r0 ≡ true = sym (ap (λ (x : Run gdal.G S). x.done) t.here) ∙ d in
        let early = after_attempts-done gdal string_hash op budget env key i (n - i) r0 d' in
        absurd (false≢true (sym more ∙ sym (ap (λ j. done_after j r0) e) ∙ early))
  ]

  reported :
      (n i : ℕ) (r0 r : Run gdal.G S)
      → budget.attempts ≡ pos (suc n)
      → Tracked gdal string_hash op budget env key r0 i r
      → r.done ≡ true
      → (if ltb_ℤ (pos i) budget.attempts || (ltb 0 i && eq_ℤ budget.attempts (pos 0))
          then pos r.touched
          else attempts_exceeded)
        ≡ (if done_after n r0 then pos r.touched else attempts_exceeded)
  reported n i r0 r e t d = elim (Bool-cases (done_after n r0)) [
    | inl early ↦ let lt = in_time n i r0 r t early in rw early (ground arith)
    | inr more ↦ let gt = too_late n i r0 r t d more in rw more (ground arith)
  ]

  pub start_run-Honest :
      (c : Cache) (memory : S) (w : World gdal.G) → Honest (start_run {S = S} c memory w)
  start_run-Honest c memory w = record { same = refl; touches = λ z. cc }

  -- What DOIT returns where no operation has succeeded.
  abbrev pub IsFailure : ℤ → Run gdal.G S → Type 0
  IsFailure code r =
      (code ≡ file_io)
      ⊎ ((code ≡ open_failed)
          ⊎ (code ≡ (if eq_ℤ r.code dataset_locked then attempts_exceeded else r.code)))

  pub final_code_more :
      (i : ℕ) (r : Run gdal.G S)
      → Honest r
      → r.done ≡ false
      → final_code budget i r ≡ (if eq_ℤ r.code dataset_locked then attempts_exceeded else r.code)
  unfolding final_code
  final_code_more i r h more =
      let failed : eq_ℤ r.code attempt_successful ≡ false = sym h.same ∙ more in
      rw (failed, final_code) refl

  pub IsFailure-ends :
      (fuel : ℕ) (r0 : Run gdal.G S) (code : ℤ) (r : Run gdal.G S)
      → Honest r0
      → loop fuel r0 ≡ some (code, r)
      → r.done ≡ false
      → IsFailure code r
  IsFailure-ends fuel r0 code r h e more =
      elim (loop-Ended gdal string_hash op budget env key
        (Tracked gdal string_hash op budget env key r0)
        (λ i s t go on_time.
          attempted-Tracked gdal string_hash op budget env key r0 i s t
            (goes_on-more budget i s go))
        fuel 0 r0 code r
        (record { here = after_zero r0; honest = h; before = λ k z. absurd (omega arith) }) e) [
          | finished i t stop c ↦ inr (inr (c ∙ final_code_more i r t.honest more))
          | gave_up i t go over c ↦ inl c
          | starved i s t go nothing same c ↦ inr (inl c)
        ]

  pub doit_success :
      (n : ℕ) (c : Cache) (memory : S) (w : World gdal.G)
      → budget.attempts ≡ pos (suc n)
      → (code : ℤ) × (r : Run gdal.G S) × (doit gdal string_hash op
            (n + 3)
            budget
            env
            (some key)
            c
            memory
            w
          ≡ some (code, r))
        × (((r.done ≡ false) × IsFailure code r)
            ⊎ ((code ≡ (
                  if done_after n (start_run c memory w) then pos r.touched else attempts_exceeded))
                × (0 < r.touched)))
  unfolding doit
  doit_success n c memory w e =
      let r0 = start_run c memory w in
      let h = start_run-Honest c memory w in
      let (code, r, ended) =
        loop_total gdal string_hash op budget env key (n + 3) n 0 r0 e (omega arith)
          (omega arith) in
      (
        code,
        r,
        ended,
        elim (Bool-cases r.done) [
          | inr more ↦ inl (more, IsFailure-ends (n + 3) r0 code r h ended more)
          | inl d ↦
              let (i, t, stop, is) = done_ends (n + 3) r0 code r h ended d in
              inr (
                is ∙ final_code_done budget i r t.honest d ∙ reported n i r0 r e t d,
                t.honest.touches d,
              )
        ],
      )
