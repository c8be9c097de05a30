-- ===== src/Bindings/Answers.antt =====
-- Where DOIT of bindings.cpp has a success, what is behind the caller's arguments was written by an
-- operation on a dataset of the pair that the token stands for.
use mathlib.Core.Bool.{false≢true}
use gdal_warp_bindings.Base.{
  ℕ, suc, ◌+◌, ◌≡◌, refl, sym, ap, subst, ◌∙◌, ◌⊎◌, inl, inr, List, [], ◌∷◌, some, true, false,
  String, ℤ, pos, Bool-cases, if◌then◌else◌, arith,
}
use gdal_warp_bindings.Types.{UriOptions}
use gdal_warp_bindings.Gdal.{Gdal, Handle}
use gdal_warp_bindings.World.{World}
use gdal_warp_bindings.Dataset.Queries.{Op}
use gdal_warp_bindings.Cache.{Slot, Cache}
use gdal_warp_bindings.Cache.Origins.{Stems, Rooted, get-Rooted, Rooted-start}
use gdal_warp_bindings.Dataset.{construct}
use gdal_warp_bindings.Cache.Uses.{uses, IsSized, Bounded}
use gdal_warp_bindings.Cache.Found.{Roomy, get-AllServe}
use gdal_warp_bindings.Bindings.{
  Budget, Surroundings, Run, fetch, attempt_loop, doit, start_run, attempts_exceeded,
}
use gdal_warp_bindings.Bindings.Loop.{attempted, finished, gave_up, starved, loop-Ended}
use gdal_warp_bindings.Bindings.Result.{
  done_after, doit_success, IsFailure, IsFailure-ends, start_run-Honest,
}
use gdal_warp_bindings.Bindings.Balance.{KeepsUse, Counts, attempt-Counts}
use gdal_warp_bindings.Bindings.Attempts.{
  Honest, try_all-Honest, fetch-Honest, fetch-done, goes_on-more,
}
use gdal_warp_bindings.Bindings.Owned.{
  KeepsDataset, IsAnswer, AllOwn, AllServe-AllOwn, Answered, try_all-Answered, try_all-Rooted,
}

Roomy-Bounded : (us : List ℕ) → Roomy us → Bounded us
Roomy-Bounded [] roomy = tt
Roomy-Bounded (u ∷ us) (room, roomy) = (omega arith, Roomy-Bounded us roomy)

module _ (gdal : Gdal) (string_hash : String → ℕ) {S : Type 0} (op : Op gdal.G S)
    (keeps : KeepsDataset op) (budget : Budget) (env : Surroundings) (key : UriOptions)
    (slots : List Slot) where
  abbrev pub From : Handle → Handle → Type 0
  From = Stems gdal key slots

  -- The invariant of the loop that begins with the slots `slots`, with the use counts `us`.
  pub record Holds (us : List ℕ) (r : Run gdal.G S) : Type 0 where
    answered : Answered op keeps key From r
    rooted : Rooted key From r.cache.slots
    honest : Honest r
    counts : Counts us r

  keeps_use : KeepsUse op
  keeps_use ds s w = ap (λ d. d.use_count) (keeps ds s w)

  fetch-AllOwn :
      (i : ℕ) (us : List ℕ) (r : Run gdal.G S)
      → Roomy us
      → Counts us r
      → let f = fetch gdal string_hash op budget env key i r in AllOwn key f.1.cache.slots f.0
  unfolding fetch
  fetch-AllOwn i us r roomy v = AllServe-AllOwn key _ _ (
      get-AllServe gdal string_hash (env.writable i) key budget.copies r.cache r.world v.sized
        (subst Roomy (sym v.counts) roomy))

  opens : (w : World gdal.G) → From (construct gdal key w).0.source (construct gdal key w).0.warped
  opens w = inr (w, refl, refl)

  fetch-Rooted :
      (i : ℕ) (us : List ℕ) (r : Run gdal.G S)
      → Counts us r
      → Rooted key From r.cache.slots
      → Rooted key From (fetch gdal string_hash op budget env key i r).1.cache.slots
  unfolding fetch
  fetch-Rooted i us r v roots =
      get-Rooted key From gdal string_hash (env.writable i) budget.copies r.cache r.world opens
        v.sized roots

  attempted-Holds :
      (i : ℕ) (us : List ℕ) (r : Run gdal.G S)
      → Roomy us
      → r.done ≡ false
      → Holds us r
      → Holds us (attempted gdal string_hash op budget env key i r)
  attempted-Holds i us r roomy more h =
      let f = fetch gdal string_hash op budget env key i r in
      record {
        answered =
            try_all-Answered op keeps key From f.0 f.1 (fetch-AllOwn i us r roomy h.counts)
              (fetch-Rooted i us r h.counts h.rooted)
              (λ d. absurd (
                false≢true
                  (sym more ∙ sym (fetch-done gdal string_hash op budget env key i r) ∙ d)));
        rooted = try_all-Rooted op keeps key From f.0 f.1 (fetch-Rooted i us r h.counts h.rooted);
        honest =
            try_all-Honest op f.0 f.1
              (fetch-Honest gdal string_hash op budget env key i r h.honest);
        counts =
            attempt-Counts gdal string_hash op keeps_use budget env key i us r
              (Roomy-Bounded us roomy) h.counts;
      }

  pub start_run-Holds :
      (c : Cache) (memory : S) (w : World gdal.G)
      → c.slots ≡ slots
      → IsSized c
      → Holds (uses c.slots) (start_run c memory w)
  start_run-Holds c memory w e sized = record {
    answered = λ d. absurd (false≢true d);
    rooted = subst (Rooted key From) (sym e) (Rooted-start gdal key slots);
    honest = start_run-Honest gdal string_hash op budget env key c memory w;
    counts = record { counts = refl; sized = sized };
  }

  pub loop-Answered :
      (fuel : ℕ) (us : List ℕ) (r0 : Run gdal.G S) (code : ℤ) (r : Run gdal.G S)
      → Roomy us
      → Holds us r0
      → attempt_loop gdal string_hash op fuel budget env key 0 r0 ≡ some (code, r)
      → Answered op keeps key From r
  loop-Answered fuel us r0 code r roomy start ended d =
      elim (loop-Ended gdal string_hash op budget env key (λ _ r. Holds us r)
        (λ i s h go on_time. attempted-Holds i us s roomy (goes_on-more budget i s go) h) fuel 0 r0
        code r start ended) [
          | finished i h stop c ↦ h.answered d
          | gave_up i h go over c ↦ absurd (false≢true (sym (goes_on-more budget i r go) ∙ d))
          | starved i s h go nothing same c ↦ absurd (
              false≢true (
                sym (goes_on-more budget i s go)
                ∙ sym (fetch-done gdal string_hash op budget env key i s)
                ∙ ap (λ (x : Run gdal.G S). x.done) (sym same)
                ∙ d))
        ]

module _ (gdal : Gdal) (string_hash : String → ℕ) {S : Type 0} (op : Op gdal.G S) (budget : Budget)
    (env : Surroundings) (key : UriOptions) where
  -- How a call ends: with an answer, or without one.
  abbrev pub Ends : ℕ → Cache → S → World gdal.G → ℤ → Run gdal.G S → Type 0
  Ends n c memory w code r =
      ((r.done ≡ true)
        × (code ≡ (
            if done_after gdal string_hash op budget env key n (start_run c memory w)
            then pos r.touched
            else attempts_exceeded))
        × IsAnswer op key (Stems gdal key c.slots) r.memory r.world)
      ⊎ ((r.done ≡ false) × IsFailure gdal string_hash op budget env key code r)

module _ (gdal : Gdal) (string_hash : String → ℕ) {S : Type 0} (op : Op gdal.G S)
    (keeps : KeepsDataset op) (budget : Budget) (env : Surroundings) (key : UriOptions) where
  -- In a cache with as many slots as its capacity says, none of them in use 2 ** 32 - 1 times, a
  -- call on a known token with a positive number of attempts ends. Either it has a success, and then
  -- the memory of the caller and the world are what a successful operation has left, on a dataset of
  -- the pair that the token stands for, whose handles were in the cache for that pair at the start or
  -- were opened for it by the constructor; or it has none, and returns -CPLE_FileIO, -CPLE_OpenFailed or the last code, with
  -- -ATTEMPTS_EXCEEDED for DATASET_LOCKED.
  pub doit_answers :
      (n : ℕ) (c : Cache) (memory : S) (w : World gdal.G)
      → budget.attempts ≡ pos (suc n)
      → IsSized c
      → Roomy (uses c.slots)
      → (code : ℤ) × (r : Run gdal.G S) × (doit gdal string_hash op
            (n + 3)
            budget
            env
            (some key)
            c
            memory
            w
          ≡ some (code, r))
        × Ends gdal string_hash op budget env key n c memory w code r
  unfolding doit
  doit_answers n c memory w e sized roomy =
      let us = uses c.slots in
      let r0 = start_run c memory w in
      let honest = start_run-Honest gdal string_hash op budget env key c memory w in
      let start =
        start_run-Holds gdal string_hash op keeps budget env key c.slots c memory w refl sized in
      let (code, r, ended, how) = doit_success gdal string_hash op budget env key n c memory w e in
      (
        code,
        r,
        ended,
        elim (Bool-cases r.done) [
          | inl d ↦ elim how [
            | inl (more, _) ↦ absurd (false≢true (sym more ∙ d))
            | inr (is, _) ↦ inl (
              d,
              is,
              loop-Answered gdal string_hash op keeps budget env key c.slots (n + 3) us r0 code r
                  roomy start ended d,
            )
          ]
          | inr more ↦ inr (
            more,
            IsFailure-ends gdal string_hash op budget env key (n + 3) r0 code r honest ended more,
          )
        ],
      )
