-- ===== src/Bindings/Balance.antt =====
-- Whatever way DOIT of bindings.cpp ends, it has given back every use that `get` took, and with a
-- positive number of attempts it does end.
use gdal_warp_bindings.Base.{
  ℕ, suc, ◌+◌, ◌≡◌, refl, sym, ap, subst, ◌∙◌, inl, inr, List, [], ◌∷◌, Option, none, some, true,
  false, String, ℤ, pos, get_elem?, update, length-update, Bool-cases, Option-cases, arith,
  if◌then◌else◌,
}
use gdal_warp_bindings.Types.{UriOptions}
use gdal_warp_bindings.Gdal.{Gdal}
use gdal_warp_bindings.World.{World}
use gdal_warp_bindings.Dataset.{LockedDataset, dec}
use gdal_warp_bindings.Dataset.Queries.{Op}
use gdal_warp_bindings.Cache.{Cache, update_value}
use gdal_warp_bindings.Cache.Uses.{
  uses, IsSized, minus_one, lower_all, raise_all, Bounded, map-update_at, uses-update_there,
  lower_all-raise_all,
}
use gdal_warp_bindings.Cache.Pins.{get-Pinned}
use gdal_warp_bindings.Bindings.Loop.{finished, gave_up, starved, loop-Ended, loop_total}
use gdal_warp_bindings.Bindings.{
  start_run, open_failed, Budget, Surroundings, Run, call, call_if_there, release, try_one, try_all,
  fetch, attempt_loop, doit,
}

-- An operation that leaves the use count of its dataset alone.
abbrev pub KeepsUse : {G S : Type 0} → Op G S → Type 0
KeepsUse {G} {S} op =
    (ds : LockedDataset) (s : S) (w : World G) → (op ds s w).0.1.use_count ≡ ds.use_count

abbrev pub slot_uses : {G S : Type 0} → Run G S → List ℕ
slot_uses r = uses r.cache.slots

-- The counts `us`, in a cache of its full size.
pub record Counts {G S : Type 0} (us : List ℕ) (r : Run G S) : Type 0 where
  pub counts : slot_uses r ≡ us
  pub sized : IsSized r.cache

module _ {G S : Type 0} (op : Op G S) where
  pub try_one_done : (b : ℕ) (r : Run G S) → r.done ≡ true → try_one op b r ≡ release b r
  unfolding try_one
  try_one_done b r done = ap (λ d. release b (if d then r else call_if_there op b r)) done

  pub try_one_more :
      (b : ℕ) (r : Run G S) → r.done ≡ false → try_one op b r ≡ release b (call_if_there op b r)
  unfolding try_one
  try_one_more b r more = ap (λ d. release b (if d then r else call_if_there op b r)) more

module _ {G S : Type 0} (op : Op G S) (keeps : KeepsUse op) where
  call_if_there-Counts :
      (b : ℕ) (us : List ℕ) (r : Run G S) → Counts us r → Counts us (call_if_there op b r)
  unfolding call_if_there call
  call_if_there-Counts b us r v = elim (Option-cases (get_elem? r.cache.slots b)) [
    | inl nothing ↦ rw (nothing, call_if_there) v
    | inr (slot, there) ↦
        rw (there, call_if_there)
          (record {
            counts =
                uses-update_there _ b r.cache.slots there (keeps slot.value r.memory r.world)
                ∙ v.counts;
            sized = length-update _ b r.cache.slots ∙ v.sized;
          })
  ]

  release-Counts :
      (b : ℕ) (us : List ℕ) (r : Run G S)
      → Counts us r
      → Counts (update minus_one b us) (release b r)
  unfolding release dec
  release-Counts b us r v = record {
    counts =
        map-update_at (update_value dec) minus_one b r.cache.slots (λ s. refl)
        ∙ ap (update minus_one b) v.counts;
    sized = length-update (update_value dec) b r.cache.slots ∙ v.sized;
  }

  try_one-Counts :
      (b : ℕ) (us : List ℕ) (r : Run G S)
      → Counts us r
      → Counts (update minus_one b us) (try_one op b r)
  try_one-Counts b us r v = elim (Bool-cases r.done) [
    | inl done ↦ rw (try_one_done op b r done) (release-Counts b us r v)
    | inr more ↦
        rw (try_one_more op b r more)
          (release-Counts b us (call_if_there op b r) (call_if_there-Counts b us r v))
  ]

  -- TRY gives back one use for each pointer in its list.
  pub try_all-Counts :
      (list us : List ℕ) (r : Run G S)
      → Counts us r
      → Counts (lower_all list us) (try_all op list r)
  unfolding try_all
  try_all-Counts [] us r v = v
  try_all-Counts (b ∷ list) us r v =
      try_all-Counts list (update minus_one b us) (try_one op b r) (try_one-Counts b us r v)

module _ (gdal : Gdal) (string_hash : String → ℕ) {S : Type 0} (op : Op gdal.G S)
    (keeps : KeepsUse op) (budget : Budget) (env : Surroundings) (key : UriOptions) where
  fetch-Counts :
      (i : ℕ) (us : List ℕ) (r : Run gdal.G S)
      → Counts us r
      → let f = fetch gdal string_hash op budget env key i r in Counts (raise_all f.0 us) f.1
  unfolding fetch
  fetch-Counts i us r v =
      let list = (fetch gdal string_hash op budget env key i r).0 in
      let p =
        get-Pinned gdal string_hash (env.writable i) key budget.copies r.cache r.world v.sized in
      record { counts = p.counts ∙ ap (raise_all list) v.counts; sized = p.sized }

  -- One attempt leaves the counts as they were.
  pub attempt-Counts :
      (i : ℕ) (us : List ℕ) (r : Run gdal.G S)
      → Bounded us
      → Counts us r
      → let f = fetch gdal string_hash op budget env key i r in Counts us (try_all op f.0 f.1)
  attempt-Counts i us r bound v =
      let f = fetch gdal string_hash op budget env key i r in
      subst (λ (l : List ℕ). Counts l (try_all op f.0 f.1)) (lower_all-raise_all f.0 us bound)
        (try_all-Counts op keeps f.0 (raise_all f.0 us) f.1 (fetch-Counts i us r v))

  -- A call that ends has left the use count of every slot as it was.
  pub loop-Counts :
      (fuel i : ℕ) (us : List ℕ) (r : Run gdal.G S) (code : ℤ) (r' : Run gdal.G S)
      → Bounded us
      → Counts us r
      → attempt_loop gdal string_hash op fuel budget env key i r ≡ some (code, r')
      → Counts us r'
  loop-Counts fuel i us r code r' bound v e =
      elim (loop-Ended gdal string_hash op budget env key (λ _ r. Counts us r)
        (λ i r v go on_time. attempt-Counts i us r bound v) fuel i r code r' v e) [
          | finished i v stop c ↦ v
          | gave_up i v go over c ↦ v
          | starved i r0 v go nothing same c ↦ subst (Counts us) (sym same) (
              subst
                (λ (l : List ℕ).
                  Counts (raise_all l us) (fetch gdal string_hash op budget env key i r0).1)
                nothing (fetch-Counts i us r0 v))
        ]

module _ (gdal : Gdal) (string_hash : String → ℕ) {S : Type 0} (op : Op gdal.G S)
    (keeps : KeepsUse op) (budget : Budget) (env : Surroundings) where
  -- With a positive number of attempts a call ends. On every path out of it, the errors included,
  -- the use count of each slot is what it was before the call.
  pub doit_balanced :
      (n : ℕ) (found : Option UriOptions) (c : Cache) (memory : S) (w : World gdal.G)
      → budget.attempts ≡ pos (suc n)
      → Bounded (uses c.slots)
      → IsSized c
      → (code : ℤ) × (r : Run gdal.G S) × (doit gdal string_hash op
            (n + 3)
            budget
            env
            found
            c
            memory
            w
          ≡ some (code, r))
        × (uses r.cache.slots ≡ uses c.slots)
        × IsSized r.cache
  unfolding doit
  doit_balanced n none c memory w e bound sized = (open_failed, _, refl, refl, sized)
  doit_balanced n (some key) c memory w e bound sized =
      let r = start_run c memory w in
      let (code, r', ended) =
        loop_total gdal string_hash op budget env key (n + 3) n 0 r e (omega arith) (omega arith) in
      let v =
        loop-Counts gdal string_hash op keeps budget env key (n + 3) 0 (uses c.slots) r code r'
          bound (record { counts = refl; sized = sized }) ended in
      (code, r', ended, v.counts, v.sized)
