-- ===== src/Cache/Found.antt =====
-- `get` of flat_lru_cache.hpp returns slots of the pair that it was asked for, all of them in use.
use gdal_warp_bindings.Base.{
  ℕ, zero, suc, ◌+◌, ◌<◌, ◌≡◌, ◌≢◌, refl, sym, ap, ◌∙◌, inl, inr, List, [], ◌∷◌, ◌++◌, Option, none,
  some, Bool, true, false, length, length-update, get_elem?, update, get_elem?-update_self,
  get_elem?-update_ne, String, ℤ, Bool-cases, Option-cases, arith,
}
use gdal_warp_bindings.Types.{UriOptions, uri_options_hash, uri_options_eq_iff}
use gdal_warp_bindings.Gdal.{Gdal}
use gdal_warp_bindings.World.{World}
use gdal_warp_bindings.Dataset.{LockedDataset, int_mod, inc, matches}
use gdal_warp_bindings.Dataset.Deletion.{deletable}
use gdal_warp_bindings.Dataset.Lifecycle.{
  Constructed, opened, unopened, unwarped, construct-Constructed,
}
use gdal_warp_bindings.Cache.{
  Slot, Cache, tick, update_value, holds, find_all, insert, insert_one, insert_many, missing, get,
  new_cache,
}
use gdal_warp_bindings.Cache.Oldest.{is_candidate}
use gdal_warp_bindings.Cache.Insert.{insert-Inserted}
use gdal_warp_bindings.Cache.Uses.{use_of, uses, IsSized}
use gdal_warp_bindings.Cache.Eviction.{insert_keeps_busy}
use gdal_warp_bindings.Cache.Pins.{insert-SameUses, length-find_all}

-- A slot of a pair that is in use.
abbrev pub Serves : UriOptions → List Slot → ℕ → Type 0
Serves key slots b =
    (s : Slot) × (get_elem? slots b ≡ some s)
    × (s.value.uri_options ≡ key)
    × (0 < s.value.use_count)

-- The slots of a list of indices.
abbrev pub AllServe : UriOptions → List Slot → List ℕ → Type 0
AllServe key slots [] = Unit {0}
AllServe key slots (b ∷ list) = Serves key slots b × AllServe key slots list

-- No count is so large that one more use wraps around.
abbrev pub Roomy : List ℕ → Type 0
Roomy [] = Unit {0}
Roomy (u ∷ us) = (u + 1 < int_mod) × Roomy us

-- The slots of indices that count from `i`.
abbrev ServeFrom : UriOptions → ℕ → List Slot → List ℕ → Type 0
ServeFrom key i slots [] = Unit {0}
ServeFrom key i slots (b ∷ list) =
    ((k : ℕ) × (b ≡ i + k) × Serves key slots k) × ServeFrom key i slots list

ServeFrom-suc :
    (key : UriOptions) (i : ℕ) (s : Slot) (slots : List Slot) (list : List ℕ)
    → ServeFrom key (i + 1) slots list
    → ServeFrom key i (s ∷ slots) list
ServeFrom-suc key i s slots [] from = tt
ServeFrom-suc key i s slots (b ∷ list) ((k, e, serves), from) =
    ((suc k, omega arith, serves), ServeFrom-suc key i s slots list from)

ServeFrom-zero :
    (key : UriOptions) (slots : List Slot) (list : List ℕ)
    → ServeFrom key 0 slots list
    → AllServe key slots list
ServeFrom-zero key slots [] from = tt
ServeFrom-zero key slots (b ∷ list) ((k, e, (s, there, own, busy)), from) =
    let same : b ≡ k = omega arith in
    ((s, ap (get_elem? slots) same ∙ there, own, busy), ServeFrom-zero key slots list from)

holds-key :
    (tag : ℕ) (key : UriOptions) (s : Slot) → holds tag key s ≡ true → s.value.uri_options ≡ key
unfolding holds matches
holds-key tag key s hit = (uri_options_eq_iff s.value.uri_options key).0 (ground arith)

-- What the first loop of `get` finds.
find_all-ServeFrom :
    (tag : ℕ) (key : UriOptions) (i time : ℕ) (slots : List Slot)
    → Roomy (uses slots)
    → let r = find_all tag key i time slots in ServeFrom key i r.0 r.1
unfolding find_all inc
find_all-ServeFrom tag key i time [] roomy = tt
find_all-ServeFrom tag key i time (s ∷ slots) (room, roomy) = elim (Bool-cases (holds tag key s)) [
  | inl hit ↦
      let r = find_all tag key (i + 1) (tick time) slots in
      let later = find_all-ServeFrom tag key (i + 1) (tick time) slots roomy in
      rw (hit, find_all)
        (
          (zero, omega arith, (_, refl, holds-key tag key s hit, omega arith)),
          ServeFrom-suc key i _ r.0 r.1 later,
        )
  | inr miss ↦
      let r = find_all tag key (i + 1) time slots in
      rw (miss, find_all)
        (ServeFrom-suc key i s r.0 r.1 (find_all-ServeFrom tag key (i + 1) time slots roomy))
]

busy_stays : (s : Slot) → 0 < s.value.use_count → is_candidate s ≡ false
unfolding deletable
busy_stays s busy = ground arith

module _ (gdal : Gdal) (tag : ℕ) (key : UriOptions) where
  -- A slot in use is the same after `insert`.
  insert-Serves :
      (c : Cache) (w : World gdal.G) (b : ℕ)
      → IsSized c
      → Serves key c.slots b
      → Serves key (insert gdal tag key c w).0.1.slots b
  insert-Serves c w b sized (s, there, own, busy) =
      (s, insert_keeps_busy gdal tag key c w b s sized there (busy_stays s busy), own, busy)

  insert-AllServe :
      (c : Cache) (w : World gdal.G) (list : List ℕ)
      → IsSized c
      → AllServe key c.slots list
      → AllServe key (insert gdal tag key c w).0.1.slots list
  insert-AllServe c w [] sized all = tt
  insert-AllServe c w (b ∷ list) sized (serves, all) =
      (insert-Serves c w b sized serves, insert-AllServe c w list sized all)

  -- A slot that `insert` has filled: the pair is there, and nobody uses it yet.
  Fresh : List Slot → ℕ → Type 0
  Fresh slots b =
      (s : Slot) × (get_elem? slots b ≡ some s)
      × (s.value.uri_options ≡ key)
      × (s.value.use_count ≡ 0)

  Constructed-key :
      (tid : ℕ) (ds : LockedDataset)
      → Constructed tid key ds
      → (ds.uri_options ≡ key) × (ds.use_count ≡ 0)
  Constructed-key tid ds (opened s h e) = (ap (λ d. d.uri_options) e, ap (λ d. d.use_count) e)
  Constructed-key tid ds (unopened e) = (ap (λ d. d.uri_options) e, ap (λ d. d.use_count) e)
  Constructed-key tid ds (unwarped s e) = (ap (λ d. d.uri_options) e, ap (λ d. d.use_count) e)

  not_there : (b : ℕ) {o : Option ℕ} → o ≡ some b → o ≡ none → ⊥
  not_there b e e' = ground arith

  there_only : (a b : ℕ) {o : Option ℕ} → o ≡ some a → o ≡ some b → a ≡ b
  there_only a b e e' = ground arith

  used_and_unused :
      (slots : List Slot) (b a : ℕ) (s t : Slot)
      → b ≡ a
      → get_elem? slots b ≡ some t
      → get_elem? slots a ≡ some s
      → t.value.use_count ≡ 0
      → 0 < s.value.use_count
      → ⊥
  used_and_unused slots b a s t same at_b at_a unused busy =
      let both : ◌≡◌ {A = Option Slot} (some t) (some s) =
        sym at_b ∙ ap (get_elem? slots) same ∙ at_a in
      let e : t ≡ s = ground arith in let count = ap use_of e in omega (arith, count, unused)

  insert-Fresh :
      (c : Cache) (w : World gdal.G) (b : ℕ)
      → IsSized c
      → (insert gdal tag key c w).0.0 ≡ some b
      → Fresh (insert gdal tag key c w).0.1.slots b
  unfolding Fresh
  insert-Fresh c w b sized made = elim (insert-Inserted gdal tag key c w sized) [
    | inl (nothing, e) ↦ absurd (not_there b made (ap (λ r. r.0.0) e))
    | inr (a, s, (there, go, _, _), inl (fine, e)) ↦
        let (own, unused) = Constructed-key w.tid _ (construct-Constructed gdal key w) in
        let same : a ≡ b = there_only a b (ap (λ r. r.0.0) e) made in
        rw (e, sym same) (_, get_elem?-update_self _ a c.slots there, own, unused)
    | inr (a, s, (there, go, _, _), inr (broken, e)) ↦ absurd (not_there b made (ap (λ r. r.0.0) e))
  ]

  -- One more use of a slot that was just filled, which is none of the others.
  Serves-inc :
      (slots : List Slot) (b a : ℕ)
      → Fresh slots b
      → Serves key slots a
      → Serves key (update (update_value inc) b slots) a
  unfolding Fresh
  Serves-inc slots b a (t, at_b, _, unused) (s, at_a, own, busy) =
      let other : b ≢ a = λ same. used_and_unused slots b a s t same at_b at_a unused busy in
      (s, get_elem?-update_ne (update_value inc) b a slots other ∙ at_a, own, busy)

  AllServe-inc :
      (slots : List Slot) (b : ℕ) (list : List ℕ)
      → Fresh slots b
      → AllServe key slots list
      → AllServe key (update (update_value inc) b slots) (list ++ b ∷ [])
  unfolding Fresh inc
  AllServe-inc slots b [] (t, at_b, own, unused) all =
      ((_, get_elem?-update_self (update_value inc) b slots at_b, own, omega (arith, unused)), tt)
  AllServe-inc slots b (a ∷ list) fresh (serves, all) =
      (Serves-inc slots b a fresh serves, AllServe-inc slots b list fresh all)

  insert_one-AllServe :
      (c : Cache) (list : List ℕ) (w : World gdal.G)
      → IsSized c
      → AllServe key c.slots list
      → let r = insert_one gdal tag key c list w in IsSized r.0.1 × AllServe key r.0.1.slots r.0.0
  unfolding insert_one
  insert_one-AllServe c list w sized all =
      let r = insert gdal tag key c w in
      let same = insert-SameUses gdal tag key c w sized in
      let still = insert-AllServe c w list sized all in
      elim (Option-cases r.0.0) [
        | inl nothing ↦ rw (nothing, insert_one) (same.sized, still)
        | inr (b, made) ↦
            rw (made, insert_one)
              (
                length-update (update_value inc) b r.0.1.slots ∙ same.sized,
                AllServe-inc r.0.1.slots b list (insert-Fresh c w b sized made) still,
              )
      ]

  insert_many-AllServe :
      (n : ℕ) (c : Cache) (list : List ℕ) (w : World gdal.G)
      → IsSized c
      → AllServe key c.slots list
      → let r = insert_many gdal n tag key c list w in AllServe key r.0.1.slots r.0.0
  unfolding insert_many
  insert_many-AllServe zero c list w sized all = all
  insert_many-AllServe (suc n) c list w sized all =
      let r = insert_one gdal tag key c list w in
      let (sized', all') = insert_one-AllServe c list w sized all in
      insert_many-AllServe n r.0.1 r.0.0 r.1 sized' all'

-- In a cache with as many slots as its capacity says, none of them in use 2 ** 32 - 1 times, every
-- slot that `get` returns holds a dataset of the pair it was asked for, and is in use.
pub get-AllServe :
    (gdal : Gdal) (string_hash : String → ℕ) (writable : Bool) (key : UriOptions) (copies : ℤ)
    (c : Cache) (w : World gdal.G)
    → IsSized c
    → Roomy (uses c.slots)
    → let r = get gdal string_hash writable key copies c w in AllServe key r.0.1.slots r.0.0
unfolding get
get-AllServe gdal string_hash writable key copies c w sized roomy =
    let tag = uri_options_hash string_hash key in
    let r = find_all tag key 0 c.time c.slots in
    insert_many-AllServe gdal tag key (missing copies writable (length r.1))
      (record c { slots = r.0; time = r.2 }) r.1 w
      (length-find_all tag key 0 c.time c.slots ∙ sized)
      (ServeFrom-zero key r.0 r.1 (find_all-ServeFrom tag key 0 c.time c.slots roomy))

-- No slot of a new cache is in use.
pub Roomy-new_cache : (n : ℕ) → Roomy (uses (new_cache n).slots)
unfolding new_cache
Roomy-new_cache zero = tt
Roomy-new_cache (suc n) = (omega arith, Roomy-new_cache n)
