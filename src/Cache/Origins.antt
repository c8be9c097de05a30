-- ===== src/Cache/Origins.antt =====
-- Where the handles in the cache of flat_lru_cache.hpp come from: for each pair they were there before,
-- or the constructor of locked_dataset.hpp opened them for that very pair.
use gdal_warp_bindings.Base.{
  ℕ, zero, suc, ◌≡◌, refl, ◌∙◌, ◌⊎◌, inl, inr, List, [], ◌∷◌, some, Bool, length, get_elem?, update,
  length-update, subst, arith, ◌+◌, String, ℤ, Bool-cases, Option-cases,
}
use gdal_warp_bindings.Types.{UriOptions, uri_options_hash}
use gdal_warp_bindings.Gdal.{Gdal, Handle}
use gdal_warp_bindings.World.{World}
use gdal_warp_bindings.Dataset.{LockedDataset, inc, lock_for_deletion, construct}
use gdal_warp_bindings.Cache.{
  Slot, Cache, tick, update_value, holds, find_all, insert, insert_one, insert_many, missing, get,
}
use gdal_warp_bindings.Cache.Oldest.{lock_slot}
use gdal_warp_bindings.Cache.Insert.{insert-Inserted}
use gdal_warp_bindings.Cache.Uses.{IsSized}
use gdal_warp_bindings.Cache.Pins.{insert-SameUses, length-find_all}

-- The handles of a slot of the pair, or those that the constructor opened for the pair.
abbrev pub Stems : (gdal : Gdal) → UriOptions → List Slot → Handle → Handle → Type 0
Stems gdal key slots source warped =
    ((b : ℕ) × (s : Slot) × (get_elem? slots b ≡ some s)
      × (s.value.uri_options ≡ key)
      × (s.value.source ≡ source)
      × (s.value.warped ≡ warped))
    ⊎ ((w : World gdal.G) × ((construct gdal key w).0.source ≡ source)
        × ((construct gdal key w).0.warped ≡ warped))

module _ (key : UriOptions) (Origin : Handle → Handle → Type 0) where
  abbrev pub IsRooted : LockedDataset → Type 0
  IsRooted ds = ds.uri_options ≡ key → Origin ds.source ds.warped

  -- Each slot of the pair has handles of that origin.
  abbrev pub Rooted : List Slot → Type 0
  Rooted [] = Unit {0}
  Rooted (s ∷ slots) = IsRooted s.value × Rooted slots

  pub Rooted-at :
      (slots : List Slot) (b : ℕ) (s : Slot)
      → Rooted slots
      → get_elem? slots b ≡ some s
      → IsRooted s.value
  Rooted-at [] b s all there = absurd (cc)
  Rooted-at (t ∷ slots) zero s (here, all) there =
      let e : t ≡ s = ground arith in subst (λ (t : Slot). IsRooted t.value) e here
  Rooted-at (t ∷ slots) (suc b) s (here, all) there = Rooted-at slots b s all there

  pub Rooted-update :
      (f : Slot → Slot) (b : ℕ) (slots : List Slot)
      → ((s : Slot) → IsRooted s.value → IsRooted (f s).value)
      → Rooted slots
      → Rooted (update f b slots)
  Rooted-update f b [] keeps all = tt
  Rooted-update f zero (s ∷ slots) keeps (here, all) = (keeps s here, all)
  Rooted-update f (suc b) (s ∷ slots) keeps (here, all) = (here, Rooted-update f b slots keeps all)

  find_all-Rooted :
      (tag i time : ℕ) (slots : List Slot) → Rooted slots → Rooted (find_all tag key i time slots).0
  unfolding find_all inc
  find_all-Rooted tag i time [] all = tt
  find_all-Rooted tag i time (s ∷ slots) (here, all) = elim (Bool-cases (holds tag key s)) [
    | inl hit ↦ rw (hit, find_all) (here, find_all-Rooted tag (i + 1) (tick time) slots all)
    | inr miss ↦ rw (miss, find_all) (here, find_all-Rooted tag (i + 1) time slots all)
  ]

  module _ (gdal : Gdal)
      (opens : (w : World gdal.G)
        → Origin (construct gdal key w).0.source (construct gdal key w).0.warped)
      (tag : ℕ) where
    insert-Rooted :
        (c : Cache) (w : World gdal.G)
        → IsSized c
        → Rooted c.slots
        → Rooted (insert gdal tag key c w).0.1.slots
    unfolding lock_for_deletion
    insert-Rooted c w sized all = elim (insert-Inserted gdal tag key c w sized) [
      | inl (nothing, e) ↦ rw e all
      | inr (b, s, oldest, inl (fine, e)) ↦
          rw e (Rooted-update _ b c.slots (λ s here own. opens w) all)
      | inr (b, s, oldest, inr (broken, e)) ↦
          rw e (Rooted-update (lock_slot w.tid) b c.slots (λ s here. here) all)
    ]

    insert_one-Rooted :
        (c : Cache) (list : List ℕ) (w : World gdal.G)
        → IsSized c
        → Rooted c.slots
        → let r = insert_one gdal tag key c list w in IsSized r.0.1 × Rooted r.0.1.slots
    unfolding insert_one inc
    insert_one-Rooted c list w sized all =
        let r = insert gdal tag key c w in
        let same = insert-SameUses gdal tag key c w sized in
        let still = insert-Rooted c w sized all in
        elim (Option-cases r.0.0) [
          | inl nothing ↦ rw (nothing, insert_one) (same.sized, still)
          | inr (b, made) ↦
              rw (made, insert_one)
                (
                  length-update (update_value inc) b r.0.1.slots ∙ same.sized,
                  Rooted-update (update_value inc) b r.0.1.slots (λ s here. here) still,
                )
        ]

    insert_many-Rooted :
        (n : ℕ) (c : Cache) (list : List ℕ) (w : World gdal.G)
        → IsSized c
        → Rooted c.slots
        → Rooted (insert_many gdal n tag key c list w).0.1.slots
    unfolding insert_many
    insert_many-Rooted zero c list w sized all = all
    insert_many-Rooted (suc n) c list w sized all =
        let r = insert_one gdal tag key c list w in
        let (sized', all') = insert_one-Rooted c list w sized all in
        insert_many-Rooted n r.0.1 r.0.0 r.1 sized' all'

  pub get-Rooted :
      (gdal : Gdal) (string_hash : String → ℕ) (writable : Bool) (copies : ℤ) (c : Cache)
      (w : World gdal.G)
      → ((w : World gdal.G)
          → Origin (construct gdal key w).0.source (construct gdal key w).0.warped)
      → IsSized c
      → Rooted c.slots
      → Rooted (get gdal string_hash writable key copies c w).0.1.slots
  unfolding get
  get-Rooted gdal string_hash writable copies c w opens sized all =
      let tag = uri_options_hash string_hash key in
      let r = find_all tag key 0 c.time c.slots in
      insert_many-Rooted gdal opens tag (missing copies writable (length r.1))
        (record c { slots = r.0; time = r.2 }) r.1 w
        (length-find_all tag key 0 c.time c.slots ∙ sized)
        (find_all-Rooted tag 0 c.time c.slots all)

-- At the start every slot is its own origin.
later_slots :
    (gdal : Gdal) (key : UriOptions) (whole slots : List Slot) (from : ℕ → ℕ)
    → ((b : ℕ) (s : Slot) → get_elem? slots b ≡ some s → get_elem? whole (from b) ≡ some s)
    → Rooted key (Stems gdal key whole) slots
later_slots gdal key whole [] from there = tt
later_slots gdal key whole (s ∷ slots) from there = (
  λ own. inl (from 0, s, there 0 s refl, own, refl, refl),
  later_slots gdal key whole slots (λ b. from (suc b)) (λ b t at. there (suc b) t at),
)

pub Rooted-start :
    (gdal : Gdal) (key : UriOptions) (slots : List Slot) → Rooted key (Stems gdal key slots) slots
Rooted-start gdal key slots = later_slots gdal key slots slots (λ b. b) (λ b s at. at)
