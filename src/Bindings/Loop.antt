-- ===== src/Bindings/Loop.antt =====
-- The loop of DOIT in bindings.cpp, step by step: an invariant rule that says how it ends, and that
-- it ends within its attempts.
use gdal_warp_bindings.Base.{
  ℕ, zero, suc, ◌+◌, ◌<◌, ◌≤◌, ◌≡◌, refl, sym, ◌∙◌, subst, ◌⊎◌, inl, inr, List, [], ◌∷◌, Option,
  none, some, true, false, String, ℤ, pos, arith, Bool-cases,
}
use gdal_warp_bindings.Types.{UriOptions}
use gdal_warp_bindings.Gdal.{Gdal}
use gdal_warp_bindings.Dataset.Queries.{Op}
use gdal_warp_bindings.Bindings.{
  Budget, Surroundings, Run, try_all, goes_on, timed_out, final_code, fetch, attempt_loop, file_io,
  open_failed,
}

List-cases : (l : List ℕ) → (l ≡ []) ⊎ ((b : ℕ) × (rest : List ℕ) × (l ≡ b ∷ rest))
List-cases [] = inl refl
List-cases (b ∷ rest) = inr (b, rest, refl)

module _ (gdal : Gdal) (string_hash : String → ℕ) {S : Type 0} (op : Op gdal.G S) (budget : Budget)
    (env : Surroundings) (key : UriOptions) where
  -- The run after one more attempt.
  abbrev pub attempted : ℕ → Run gdal.G S → Run gdal.G S
  attempted i r = let f = fetch gdal string_hash op budget env key i r in try_all op f.0 f.1

  abbrev pub loop : ℕ → ℕ → Run gdal.G S → Option (ℤ × Run gdal.G S)
  loop fuel = attempt_loop gdal string_hash op fuel budget env key

  loop_zero : (i : ℕ) (r : Run gdal.G S) → loop 0 i r ≡ none
  unfolding attempt_loop
  loop_zero i r = refl

  -- What one round of the loop does.
  pub data LoopStep (fuel i : ℕ) (r : Run gdal.G S) : Type 0 where
    finish :
        goes_on budget i r ≡ false
        → loop (suc fuel) i r ≡ some (final_code budget i r, r)
        → LoopStep fuel i r
    give_up :
        goes_on budget i r ≡ true
        → timed_out budget env i ≡ true
        → loop (suc fuel) i r ≡ some (file_io, r)
        → LoopStep fuel i r
    starve :
        goes_on budget i r ≡ true
        → (fetch gdal string_hash op budget env key i r).0 ≡ []
        → loop (suc fuel) i r ≡ some (open_failed, (fetch gdal string_hash op budget env key i r).1)
        → LoopStep fuel i r
    again :
        goes_on budget i r ≡ true
        → timed_out budget env i ≡ false
        → loop (suc fuel) i r ≡ loop fuel (i + 1) (attempted i r)
        → LoopStep fuel i r

  pub loop_step : (fuel i : ℕ) (r : Run gdal.G S) → LoopStep fuel i r
  unfolding attempt_loop
  loop_step fuel i r =
      let f = fetch gdal string_hash op budget env key i r in
      elim (Bool-cases (goes_on budget i r)) [
        | inr stop ↦ finish stop (rw (stop, attempt_loop))
        | inl go ↦ elim (Bool-cases (timed_out budget env i)) [
          | inl over ↦ give_up go over (rw (go, over, attempt_loop))
          | inr on_time ↦ elim (List-cases f.0) [
            | inl none_found ↦ starve go none_found (rw (go, on_time, none_found, attempt_loop))
            | inr (b, rest, found) ↦ again go on_time (
                subst (λ (l : List ℕ). loop (suc fuel) i r ≡ loop fuel (i + 1) (try_all op l f.1))
                  (sym found) (rw (go, on_time, found, attempt_loop)))
          ]
        ]
      ]

  -- How a loop with the invariant `P` can end.
  pub data Ended (P : ℕ → Run gdal.G S → Type 0) (code : ℤ) (r : Run gdal.G S) : Type 0 where
    finished :
        (i : ℕ) → P i r → goes_on budget i r ≡ false → code ≡ final_code budget i r → Ended P code r
    gave_up :
        (i : ℕ)
        → P i r
        → goes_on budget i r ≡ true
        → timed_out budget env i ≡ true
        → code ≡ file_io
        → Ended P code r
    starved :
        (i : ℕ) (r0 : Run gdal.G S)
        → P i r0
        → goes_on budget i r0 ≡ true
        → (fetch gdal string_hash op budget env key i r0).0 ≡ []
        → r ≡ (fetch gdal string_hash op budget env key i r0).1
        → code ≡ open_failed
        → Ended P code r

  Ended-by :
      (P : ℕ → Run gdal.G S → Type 0) (c code : ℤ) (r r' : Run gdal.G S)
      {o : Option (ℤ × Run gdal.G S)}
      → o ≡ some (c, r)
      → o ≡ some (code, r')
      → Ended P c r
      → Ended P code r'
  Ended-by P c code r r' e e' ended =
      let same_code : c ≡ code = ground arith in
      let same_run : r ≡ r' = ground arith in
      subst (λ k. Ended P k r') same_code (subst (Ended P c) same_run ended)

  module _ (P : ℕ → Run gdal.G S → Type 0)
      (keep : (i : ℕ) (r : Run gdal.G S)
        → P i r
        → goes_on budget i r ≡ true
        → timed_out budget env i ≡ false
        → P (i + 1) (attempted i r)) where
    pub loop-Ended :
        (fuel i : ℕ) (r : Run gdal.G S) (code : ℤ) (r' : Run gdal.G S)
        → P i r
        → loop fuel i r ≡ some (code, r')
        → Ended P code r'
    loop-Ended zero i r code r' p e = cc (loop_zero i r)
    loop-Ended (suc fuel) i r code r' p e = elim (loop_step fuel i r) [
      | finish stop s ↦ Ended-by P _ code r r' s e (finished i p stop refl)
      | give_up go over s ↦ Ended-by P _ code r r' s e (gave_up i p go over refl)
      | starve go nothing s ↦
          Ended-by P _ code (fetch gdal string_hash op budget env key i r).1 r' s e
            (starved i r p go nothing refl refl)
      | again go on_time s ↦
          loop-Ended fuel (i + 1) (attempted i r) code r' (keep i r p go on_time) (sym s ∙ e)
    ]

  goes_on-lt :
      (n i : ℕ) (r : Run gdal.G S)
      → budget.attempts ≡ pos (suc n)
      → goes_on budget i r ≡ true
      → i < suc n
  unfolding goes_on
  goes_on-lt n i r e go = ground arith

  -- With a positive number of attempts, that many rounds are enough.
  pub loop_total :
      (fuel n i : ℕ) (r : Run gdal.G S)
      → budget.attempts ≡ pos (suc n)
      → suc n < fuel + i
      → i ≤ suc n
      → (code : ℤ) × (r' : Run gdal.G S) × (loop fuel i r ≡ some (code, r'))
  loop_total zero n i r e enough below = absurd (omega arith)
  loop_total (suc fuel) n i r e enough below = elim (loop_step fuel i r) [
    | finish stop s ↦ (_, r, s)
    | give_up go over s ↦ (_, r, s)
    | starve go nothing s ↦ (_, (fetch gdal string_hash op budget env key i r).1, s)
    | again go on_time s ↦
        let (code, r', done) =
          loop_total fuel n (i + 1) (attempted i r) e (omega arith)
            (omega (arith, goes_on-lt n i r e go)) in
        (code, r', s ∙ done)
  ]
