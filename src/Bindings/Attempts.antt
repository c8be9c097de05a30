-- ===== src/Bindings/Attempts.antt =====
-- The attempts of DOIT in bindings.cpp: what an attempt says of its success, and the state after some.
use gdal_warp_bindings.Base.{
  ltb_ℤ, ltb, ◌||◌, not, ◌&&◌, ℕ, zero, suc, ◌+◌, ◌<◌, ◌≡◌, refl, sym, ◌∙◌, ap, inl, inr, List, [],
  ◌∷◌, true, false, String, ℤ, pos, negsuc, eq_ℤ, get_elem?, arith, Bool-cases, Option-cases,
  if◌then◌else◌,
}
use gdal_warp_bindings.Types.{UriOptions}
use gdal_warp_bindings.Gdal.{Gdal}
use gdal_warp_bindings.Dataset.Queries.{Op, attempt_successful, dataset_locked}
use gdal_warp_bindings.Bindings.Balance.{try_one_done, try_one_more}
use gdal_warp_bindings.Bindings.Loop.{attempted}
use gdal_warp_bindings.Bindings.{
  Budget, Surroundings, Run, call, call_if_there, release, try_one, try_all, goes_on, final_code,
  fetch, attempts_exceeded,
}

-- `done` tells whether the last code is ATTEMPT_SUCCESSFUL, and then something was touched.
pub record Honest {G S : Type 0} (r : Run G S) : Type 0 where
  pub same : r.done ≡ eq_ℤ r.code attempt_successful
  pub touches : r.done ≡ true → 0 < r.touched

success_not_locked :
    (code : ℤ)
    → (eq_ℤ code attempt_successful && not (eq_ℤ code dataset_locked))
      ≡ eq_ℤ code attempt_successful
success_not_locked (pos n) = ground arith
success_not_locked (negsuc n) = ground arith

module _ {G S : Type 0} (op : Op G S) where
  call_if_there-Honest : (b : ℕ) (r : Run G S) → Honest r → Honest (call_if_there op b r)
  unfolding call_if_there call
  call_if_there-Honest b r h = elim (Option-cases (get_elem? r.cache.slots b)) [
    | inl nothing ↦ rw (nothing, call_if_there) h
    | inr (slot, there) ↦
        rw (there, call_if_there)
          (record {
            same = success_not_locked (op slot.value r.memory r.world).0.0;
            touches = λ _. omega arith;
          })
  ]

  release-Honest : (b : ℕ) (r : Run G S) → Honest r → Honest (release b r)
  unfolding release
  release-Honest b r h = record { same = h.same; touches = h.touches }

  release-done : (b : ℕ) (r : Run G S) → (release b r).done ≡ r.done
  unfolding release
  release-done b r = refl

  try_one-Honest : (b : ℕ) (r : Run G S) → Honest r → Honest (try_one op b r)
  try_one-Honest b r h = elim (Bool-cases r.done) [
    | inl done ↦ rw (try_one_done op b r done) (release-Honest b r h)
    | inr more ↦
        rw (try_one_more op b r more)
          (release-Honest b (call_if_there op b r) (call_if_there-Honest b r h))
  ]

  pub try_all-Honest : (list : List ℕ) (r : Run G S) → Honest r → Honest (try_all op list r)
  unfolding try_all
  try_all-Honest [] r h = h
  try_all-Honest (b ∷ list) r h = try_all-Honest list (try_one op b r) (try_one-Honest b r h)

  try_all-done : (list : List ℕ) (r : Run G S) → r.done ≡ true → (try_all op list r).done ≡ true
  unfolding try_all
  try_all-done [] r d = d
  try_all-done (b ∷ list) r d =
      try_all-done list (try_one op b r)
        (ap (λ s. s.done) (try_one_done op b r d) ∙ release-done b r ∙ d)

module _ (gdal : Gdal) (string_hash : String → ℕ) {S : Type 0} (op : Op gdal.G S) (budget : Budget)
    (env : Surroundings) (key : UriOptions) where
  -- The state after `i` attempts, as if no test had stopped them.
  unfoldable pub after_attempts : ℕ → Run gdal.G S → Run gdal.G S
  after_attempts zero r = r
  after_attempts (suc i) r = attempted gdal string_hash op budget env key i (after_attempts i r)

  pub fetch-done :
      (i : ℕ) (r : Run gdal.G S) → (fetch gdal string_hash op budget env key i r).1.done ≡ r.done
  unfolding fetch
  fetch-done i r = refl

  pub fetch-Honest :
      (i : ℕ) (r : Run gdal.G S)
      → Honest r
      → Honest (fetch gdal string_hash op budget env key i r).1
  unfolding fetch
  fetch-Honest i r h = record { same = h.same; touches = h.touches }

  attempted-done :
      (i : ℕ) (r : Run gdal.G S)
      → r.done ≡ true
      → (attempted gdal string_hash op budget env key i r).done ≡ true
  attempted-done i r d = try_all-done op _ _ (fetch-done i r ∙ d)

  pub after_attempts-done :
      (i k : ℕ) (r : Run gdal.G S)
      → (after_attempts i r).done ≡ true
      → (after_attempts (k + i) r).done ≡ true
  unfolding after_attempts
  after_attempts-done i zero r d = let e : zero + i ≡ i = omega arith in rw e d
  after_attempts-done i (suc k) r d =
      let e : suc k + i ≡ suc (k + i) = omega arith in
      rw (e, after_attempts) (attempted-done (k + i) _ (after_attempts-done i k r d))

  -- The invariant of the loop: `r` is the state after `i` attempts, and no earlier one was done.
  pub record Tracked (r0 : Run gdal.G S) (i : ℕ) (r : Run gdal.G S) : Type 0 where
    pub here : r ≡ after_attempts i r0
    pub honest : Honest r
    pub before : (k : ℕ) → i ≡ suc k → (after_attempts k r0).done ≡ false

  pub attempted-Tracked :
      (r0 : Run gdal.G S) (i : ℕ) (r : Run gdal.G S)
      → Tracked r0 i r
      → r.done ≡ false
      → Tracked r0 (i + 1) (attempted gdal string_hash op budget env key i r)
  unfolding after_attempts
  attempted-Tracked r0 i r t more =
      let e : i + 1 ≡ suc i = omega arith in
      rw e (record {
        here = ap (attempted gdal string_hash op budget env key i) t.here;
        honest = try_all-Honest op _ _ (fetch-Honest i r t.honest);
        before = λ k same.
            let e' : k ≡ i = omega arith in
            ap (λ j. (after_attempts j r0).done) e'
            ∙ ap (λ (s : Run gdal.G S). s.done) (sym t.here)
            ∙ more;
      })

pub goes_on-more :
    {G S : Type 0} (budget : Budget) (i : ℕ) (r : Run G S)
    → goes_on budget i r ≡ true
    → r.done ≡ false
unfolding goes_on
goes_on-more budget i r go = ground arith

-- What the end of DOIT makes of a success in attempt `i`.
pub final_code_done :
    {G S : Type 0} (budget : Budget) (i : ℕ) (r : Run G S)
    → Honest r
    → r.done ≡ true
    → final_code budget i r ≡ (
        if ltb_ℤ (pos i) budget.attempts || (ltb 0 i && eq_ℤ budget.attempts (pos 0))
        then pos r.touched
        else attempts_exceeded)
unfolding final_code
final_code_done budget i r h d =
    let success : eq_ℤ r.code attempt_successful ≡ true = sym h.same ∙ d in rw (success, final_code)
