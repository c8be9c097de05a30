-- ===== src/Bindings/Owned.antt =====
-- TRY of bindings.cpp on slots of one pair: a success leaves its answer in the memory of the caller.
use gdal_warp_bindings.Base.{
  ℕ, ◌≡◌, ◌≢◌, refl, sym, ap, subst, ◌∙◌, inl, inr, List, [], ◌∷◌, Option, none, some, true,
  eq_ℤ_iff, ◌==◌, get_elem?, update, get_elem?-update_self, get_elem?-update_ne, Bool-cases,
  Option-cases, arith,
}
use gdal_warp_bindings.Types.{UriOptions}
use gdal_warp_bindings.Gdal.{Handle}
use gdal_warp_bindings.World.{World}
use gdal_warp_bindings.Dataset.{LockedDataset, dec}
use gdal_warp_bindings.Dataset.Queries.{Op, attempt_successful}
use gdal_warp_bindings.Cache.{Slot, update_value}
use gdal_warp_bindings.Cache.Found.{AllServe}
use gdal_warp_bindings.Cache.Origins.{IsRooted, Rooted, Rooted-at, Rooted-update}
use gdal_warp_bindings.Bindings.{Run, call, call_if_there, release, try_one, try_all}
use gdal_warp_bindings.Bindings.Balance.{try_one_done, try_one_more}

-- An operation that gives its dataset back as it found it.
abbrev pub KeepsDataset : {G S : Type 0} → Op G S → Type 0
KeepsDataset {G} {S} op = (ds : LockedDataset) (s : S) (w : World G) → (op ds s w).0.1 ≡ ds

-- The memory and the world are what a successful operation left, on a dataset that has the pair and
-- handles of some origin.
pub record IsAnswer {G S : Type 0} (op : Op G S) (key : UriOptions)
    (Origin : Handle → Handle → Type 0) (memory : S) (after : World G) : Type 0 where
  pub dataset : LockedDataset
  pub before : S
  pub world : World G
  pub own : dataset.uri_options ≡ key
  pub origin : Origin dataset.source dataset.warped
  pub successful : (op dataset before world).0.0 ≡ attempt_successful
  pub written : (op dataset before world).0.2 ≡ memory
  pub left : (op dataset before world).1 ≡ after

-- A slot of the pair, and the slots of a list of indices.
abbrev Own : UriOptions → List Slot → ℕ → Type 0
Own key slots b = (s : Slot) × (get_elem? slots b ≡ some s) × (s.value.uri_options ≡ key)

abbrev pub AllOwn : UriOptions → List Slot → List ℕ → Type 0
AllOwn key slots [] = Unit {0}
AllOwn key slots (b ∷ list) = Own key slots b × AllOwn key slots list

pub AllServe-AllOwn :
    (key : UriOptions) (slots : List Slot) (list : List ℕ)
    → AllServe key slots list
    → AllOwn key slots list
AllServe-AllOwn key slots [] all = tt
AllServe-AllOwn key slots (b ∷ list) ((s, there, own, busy), all) =
    ((s, there, own), AllServe-AllOwn key slots list all)

abbrev uri_options_or : UriOptions → Option Slot → UriOptions
uri_options_or key none = key
uri_options_or key (some s) = s.value.uri_options

-- A change of one value that keeps its pair.
Own-update :
    (key : UriOptions) (slots : List Slot) (f : LockedDataset → LockedDataset) (a b : ℕ)
    → ((s : Slot) → get_elem? slots a ≡ some s → (f s.value).uri_options ≡ s.value.uri_options)
    → Own key slots b
    → Own key (update (update_value f) a slots) b
Own-update key slots f a b keeps (s, there, own) = elim (Bool-cases (a == b)) [
  | inl same ↦
      let e : a ≡ b = ground arith in
      let there' : get_elem? slots a ≡ some s = ap (get_elem? slots) e ∙ there in
      (
        _,
        ap (get_elem? (update (update_value f) a slots)) (sym e)
            ∙ get_elem?-update_self (update_value f) a slots there',
        keeps s there' ∙ own,
      )
  | inr other ↦
      let ne : a ≢ b = ground arith in
      (s, get_elem?-update_ne (update_value f) a b slots ne ∙ there, own)
]

AllOwn-update :
    (key : UriOptions) (slots : List Slot) (f : LockedDataset → LockedDataset) (a : ℕ)
    (list : List ℕ)
    → ((s : Slot) → get_elem? slots a ≡ some s → (f s.value).uri_options ≡ s.value.uri_options)
    → AllOwn key slots list
    → AllOwn key (update (update_value f) a slots) list
AllOwn-update key slots f a [] keeps all = tt
AllOwn-update key slots f a (b ∷ list) keeps (own, all) =
    (Own-update key slots f a b keeps own, AllOwn-update key slots f a list keeps all)

module _ {G S : Type 0} (op : Op G S) (keeps : KeepsDataset op) (key : UriOptions)
    (Origin : Handle → Handle → Type 0) where
  -- A success has left its answer in the memory.
  abbrev pub Answered : Run G S → Type 0
  Answered r = r.done ≡ true → IsAnswer op key Origin r.memory r.world

  call-Answered :
      (b : ℕ) (slot : Slot) (r : Run G S)
      → slot.value.uri_options ≡ key
      → IsRooted key Origin slot.value
      → Answered (call op b slot r)
  unfolding call
  call-Answered b slot r own root d = record {
    dataset = slot.value;
    before = r.memory;
    world = r.world;
    own = own;
    origin = root own;
    successful = (eq_ℤ_iff _ _).0 (ground arith);
    written = refl;
    left = refl;
  }

  try_one-Answered :
      (b : ℕ) (r : Run G S)
      → Own key r.cache.slots b
      → Rooted key Origin r.cache.slots
      → Answered r
      → Answered (try_one op b r)
  unfolding call_if_there release
  try_one-Answered b r (s, there, own) roots answered = elim (Bool-cases r.done) [
    | inl done ↦ rw (try_one_done op b r done) answered
    | inr more ↦
        rw (try_one_more op b r more, there, call_if_there)
          (call-Answered b s r own (Rooted-at key Origin r.cache.slots b s roots there))
  ]

  release-Rooted :
      (b : ℕ) (r : Run G S)
      → Rooted key Origin r.cache.slots
      → Rooted key Origin (release b r).cache.slots
  unfolding release dec
  release-Rooted b r roots =
      Rooted-update key Origin (update_value dec) b r.cache.slots (λ s here. here) roots

  call_if_there-Rooted :
      (b : ℕ) (r : Run G S)
      → Rooted key Origin r.cache.slots
      → Rooted key Origin (call_if_there op b r).cache.slots
  unfolding call_if_there call
  call_if_there-Rooted b r roots = elim (Option-cases (get_elem? r.cache.slots b)) [
    | inl nothing ↦ rw (nothing, call_if_there) roots
    | inr (slot, there) ↦
        rw (there, call_if_there)
          (Rooted-update key Origin _ b r.cache.slots
            (λ s here.
              subst (IsRooted key Origin) (sym (keeps slot.value r.memory r.world))
                (Rooted-at key Origin r.cache.slots b slot roots there))
            roots)
  ]

  try_one-Rooted :
      (b : ℕ) (r : Run G S)
      → Rooted key Origin r.cache.slots
      → Rooted key Origin (try_one op b r).cache.slots
  try_one-Rooted b r roots = elim (Bool-cases r.done) [
    | inl done ↦ rw (try_one_done op b r done) (release-Rooted b r roots)
    | inr more ↦
        rw (try_one_more op b r more)
          (release-Rooted b (call_if_there op b r) (call_if_there-Rooted b r roots))
  ]

  pub try_all-Rooted :
      (list : List ℕ) (r : Run G S)
      → Rooted key Origin r.cache.slots
      → Rooted key Origin (try_all op list r).cache.slots
  unfolding try_all
  try_all-Rooted [] r roots = roots
  try_all-Rooted (b ∷ list) r roots =
      try_all-Rooted list (try_one op b r) (try_one-Rooted b r roots)

  release-AllOwn :
      (b : ℕ) (list : List ℕ) (r : Run G S)
      → AllOwn key r.cache.slots list
      → AllOwn key (release b r).cache.slots list
  unfolding release dec
  release-AllOwn b list r all = AllOwn-update key r.cache.slots dec b list (λ s there. refl) all

  call_if_there-AllOwn :
      (b : ℕ) (list : List ℕ) (r : Run G S)
      → AllOwn key r.cache.slots list
      → AllOwn key (call_if_there op b r).cache.slots list
  unfolding call_if_there call
  call_if_there-AllOwn b list r all = elim (Option-cases (get_elem? r.cache.slots b)) [
    | inl nothing ↦ rw (nothing, call_if_there) all
    | inr (slot, there) ↦
        rw (there, call_if_there)
          (AllOwn-update key r.cache.slots (λ _. (op slot.value r.memory r.world).0.1) b list
            (λ s at.
              ap (λ ds. ds.uri_options) (keeps slot.value r.memory r.world)
              ∙ ap (uri_options_or key) (sym there ∙ at))
            all)
  ]

  try_one-AllOwn :
      (b : ℕ) (list : List ℕ) (r : Run G S)
      → AllOwn key r.cache.slots list
      → AllOwn key (try_one op b r).cache.slots list
  try_one-AllOwn b list r all = elim (Bool-cases r.done) [
    | inl done ↦ rw (try_one_done op b r done) (release-AllOwn b list r all)
    | inr more ↦
        rw (try_one_more op b r more)
          (release-AllOwn b list (call_if_there op b r) (call_if_there-AllOwn b list r all))
  ]

  pub try_all-Answered :
      (list : List ℕ) (r : Run G S)
      → AllOwn key r.cache.slots list
      → Rooted key Origin r.cache.slots
      → Answered r
      → Answered (try_all op list r)
  unfolding try_all
  try_all-Answered [] r all roots answered = answered
  try_all-Answered (b ∷ list) r (own, all) roots answered =
      try_all-Answered list (try_one op b r) (try_one-AllOwn b list r all)
        (try_one-Rooted b r roots) (try_one-Answered b r own roots answered)
