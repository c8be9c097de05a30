-- ===== src/Cache/Eviction.antt =====
-- Which slots `insert` of flat_lru_cache.hpp may evict, and how failed calls use them up.
use gdal_warp_bindings.Base.{
  ℕ, zero, suc, ◌-◌, ◌≤◌, ◌<◌, ◌≡◌, ◌≢◌, refl, sym, ap, ◌∙◌, inl, inr, List, [], ◌∷◌, Option, none,
  some, true, false, length, length-update, get_elem?, update, get_elem?-update_ne, Bool-cases,
  arith,
}
use mathlib.Core.Bool.{false≢true}
use gdal_warp_bindings.Types.{UriOptions}
use gdal_warp_bindings.Gdal.{Gdal}
use gdal_warp_bindings.World.{World}
use gdal_warp_bindings.Dataset.{valid, construct}
use gdal_warp_bindings.Dataset.Deletion.{deletable}
use gdal_warp_bindings.Cache.{Slot, Cache, insert}
use gdal_warp_bindings.Cache.Oldest.{is_candidate, lock_slot, NoCandidate}
use gdal_warp_bindings.Cache.Insert.{insert-Inserted}
use gdal_warp_bindings.Cache.Uses.{IsSized}

other_index :
    (slots : List Slot) (b j : ℕ) (s t : Slot)
    → get_elem? slots b ≡ some s
    → get_elem? slots j ≡ some t
    → is_candidate s ≡ true
    → is_candidate t ≡ false
    → b ≢ j
other_index slots b j s t at_b at_j go stay = λ same.
    let both : ◌≡◌ {A = Option Slot} (some s) (some t) =
      sym at_b ∙ ap (get_elem? slots) same ∙ at_j in
    let e : s ≡ t = ground arith in false≢true (sym stay ∙ ap is_candidate (sym e) ∙ go)

-- In a cache with as many slots as its capacity says, a slot that may not go, because it is in use
-- or locked or has the largest time stamp, is the same after `insert`.
pub insert_keeps_busy :
    (gdal : Gdal) (tag : ℕ) (key : UriOptions) (c : Cache) (w : World gdal.G) (j : ℕ) (t : Slot)
    → IsSized c
    → get_elem? c.slots j ≡ some t
    → is_candidate t ≡ false
    → get_elem? (insert gdal tag key c w).0.1.slots j ≡ some t
insert_keeps_busy gdal tag key c w j t sized there stay =
    elim (insert-Inserted gdal tag key c w sized) [
      | inl (nothing, e) ↦ rw e there
      | inr (b, s, (at_b, go, _, _), inl (fine, e)) ↦ rw e (
          get_elem?-update_ne _ b j c.slots (other_index c.slots b j s t at_b there go stay)
          ∙ there)
      | inr (b, s, (at_b, go, _, _), inr (broken, e)) ↦ rw e (
          get_elem?-update_ne _ b j c.slots (other_index c.slots b j s t at_b there go stay)
          ∙ there)
    ]

-- How many slots may go.
unfoldable pub candidates : List Slot → ℕ
candidates [] = 0
candidates (s ∷ slots) = elim (is_candidate s) [
  | true ↦ suc (candidates slots)
  | false ↦ candidates slots
]

candidates_in :
    (x : Slot) (slots : List Slot)
    → is_candidate x ≡ true
    → candidates (x ∷ slots) ≡ suc (candidates slots)
unfolding candidates
candidates_in x slots yes_x = rw (yes_x, candidates) refl

candidates_out :
    (x : Slot) (slots : List Slot)
    → is_candidate x ≡ false
    → candidates (x ∷ slots) ≡ candidates slots
unfolding candidates
candidates_out x slots no_x = rw (no_x, candidates) refl

lock_slot-stays : (tid : ℕ) (s : Slot) → is_candidate (lock_slot tid s) ≡ false
unfolding deletable
lock_slot-stays tid s = refl

candidates_there :
    (slots : List Slot) (b : ℕ) (s : Slot)
    → get_elem? slots b ≡ some s
    → is_candidate s ≡ true
    → 0 < candidates slots
unfolding candidates
candidates_there [] b s there go = cc
candidates_there (x ∷ slots) zero s there go =
    let same : x ≡ s = ground arith in
    omega (arith, candidates_in x slots (ap is_candidate same ∙ go))
candidates_there (x ∷ slots) (suc b) s there go = elim (Bool-cases (is_candidate x)) [
  | inl yes_x ↦ omega (arith, candidates_in x slots yes_x)
  | inr no_x ↦ omega (arith, candidates_out x slots no_x, candidates_there slots b s there go)
]

candidates_none : (slots : List Slot) → NoCandidate slots (length slots) → candidates slots ≡ 0
unfolding candidates
candidates_none [] nothing = refl
candidates_none (x ∷ slots) nothing =
    candidates_out x slots (nothing 0 x (omega arith) refl)
    ∙ (candidates_none slots (λ j t below there. nothing (suc j) t (omega arith) there))

candidates_locked :
    (tid : ℕ) (slots : List Slot) (b : ℕ) (s : Slot)
    → get_elem? slots b ≡ some s
    → is_candidate s ≡ true
    → candidates slots ≡ suc (candidates (update (lock_slot tid) b slots))
unfolding candidates
candidates_locked tid [] b s there go = cc
candidates_locked tid (x ∷ slots) zero s there go =
    let same : x ≡ s = ground arith in
    candidates_in x slots (ap is_candidate same ∙ go)
    ∙ ap suc (sym (candidates_out (lock_slot tid x) slots (lock_slot-stays tid x)))
candidates_locked tid (x ∷ slots) (suc b) s there go = elim (Bool-cases (is_candidate x)) [
  | inl yes_x ↦
      candidates_in x slots yes_x
      ∙ ap suc (candidates_locked tid slots b s there go ∙ sym (candidates_in x _ yes_x))
  | inr no_x ↦
      candidates_out x slots no_x
      ∙ candidates_locked tid slots b s there go
      ∙ ap suc (sym (candidates_out x _ no_x))
]

module _ (gdal : Gdal) where
  -- The cache after `n` calls of `insert` for one key.
  unfoldable pub insert_again : ℕ → ℕ → UriOptions → Cache → World gdal.G → Cache × World gdal.G
  insert_again zero tag key c w = (c, w)
  insert_again (suc n) tag key c w =
      let r = insert gdal tag key c w in insert_again n tag key r.0.1 r.1

  -- `insert` without a slot that may go.
  insert_blocked :
      (tag : ℕ) (key : UriOptions) (c : Cache) (w : World gdal.G)
      → IsSized c
      → candidates c.slots ≡ 0
      → insert gdal tag key c w ≡ ((none, c), w)
  insert_blocked tag key c w sized full = elim (insert-Inserted gdal tag key c w sized) [
    | inl (nothing, e) ↦ e
    | inr (b, s, (at_b, go, _, _), _) ↦
        let some_left = candidates_there c.slots b s at_b go in absurd (omega arith)
  ]

  record Used (n : ℕ) (d : Cache) : Type 0 where
    left : candidates d.slots ≡ n
    sized : IsSized d

  insert_broken-Used :
      (tag : ℕ) (key : UriOptions) (c : Cache) (w : World gdal.G)
      → IsSized c
      → valid (construct gdal key w).0 ≡ false
      → Used (candidates c.slots - 1) (insert gdal tag key c w).0.1
  insert_broken-Used tag key c w sized broken = elim (insert-Inserted gdal tag key c w sized) [
    | inl (nothing, e) ↦
        let zero_left = candidates_none c.slots nothing in
        rw e (record { left = omega arith; sized = sized })
    | inr (b, s, (at_b, go, _, _), inl (fine, e)) ↦ absurd (false≢true (sym broken ∙ fine))
    | inr (b, s, (at_b, go, _, _), inr (_, e)) ↦
        let one_less = candidates_locked w.tid c.slots b s at_b go in
        rw e
          (record { left = omega arith; sized = length-update (lock_slot w.tid) b c.slots ∙ sized })
  ]

  insert_again-Used :
      (n tag : ℕ) (key : UriOptions) (c : Cache) (w : World gdal.G)
      → ((w' : World gdal.G) → valid (construct gdal key w').0 ≡ false)
      → IsSized c
      → Used (candidates c.slots - n) (insert_again n tag key c w).0
  unfolding insert_again
  insert_again-Used zero tag key c w broken sized = record { left = omega arith; sized = sized }
  insert_again-Used (suc n) tag key c w broken sized =
      let r = insert gdal tag key c w in
      let once = insert_broken-Used tag key c w sized (broken w) in
      let later = insert_again-Used n tag key r.0.1 r.1 broken once.sized in
      let e : candidates r.0.1.slots - n ≡ candidates c.slots - suc n =
        ap (λ m. m - n) once.left ∙ omega arith in
      record { left = later.left ∙ e; sized = later.sized }

  -- In a cache with as many slots as its capacity says: if GDAL cannot open a pair at all, then
  -- each `insert` of it uses up a slot. After as many calls as there are slots that may go,
  -- `insert` stores nothing more, whatever pair it is called with.
  pub insert_exhausted :
      (n tag tag' : ℕ) (key key' : UriOptions) (c : Cache) (w w' : World gdal.G)
      → ((v : World gdal.G) → valid (construct gdal key v).0 ≡ false)
      → IsSized c
      → candidates c.slots ≤ n
      → let d = (insert_again n tag key c w).0 in insert gdal tag' key' d w' ≡ ((none, d), w')
  insert_exhausted n tag tag' key key' c w w' broken sized enough =
      let used = insert_again-Used n tag key c w broken sized in
      insert_blocked tag' key' (insert_again n tag key c w).0 w' used.sized
        (used.left ∙ omega arith)
