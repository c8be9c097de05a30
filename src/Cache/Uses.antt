-- ===== src/Cache/Uses.antt =====
-- The use counts of flat_lru_cache.hpp: `insert` leaves them alone, and `get` raises them by one for
-- each pointer that it returns.
use gdal_warp_bindings.Base.{
  ℕ, zero, suc, ◌+◌, ◌-◌, ◌%◌, ◌<◌, ◌≡◌, refl, ap, ◌∙◌, List, [], ◌∷◌, ◌++◌, map, some, length,
  get_elem?, update, arith,
}
use gdal_warp_bindings.Dataset.{int_mod}
use gdal_warp_bindings.Cache.{Slot, Cache}

abbrev pub use_of : Slot → ℕ
use_of slot = slot.value.use_count

abbrev pub uses : List Slot → List ℕ
uses = map use_of

abbrev pub IsSized : Cache → Type 0
IsSized c = length c.slots ≡ c.capacity

-- `inc` and `dec` on the counts.
abbrev pub plus_one : ℕ → ℕ
plus_one n = (n + 1) % int_mod

abbrev pub minus_one : ℕ → ℕ
minus_one n = (n + int_mod - 1) % int_mod

abbrev pub raise_all : List ℕ → List ℕ → List ℕ
raise_all [] us = us
raise_all (b ∷ list) us = raise_all list (update plus_one b us)

abbrev pub lower_all : List ℕ → List ℕ → List ℕ
lower_all [] us = us
lower_all (b ∷ list) us = lower_all list (update minus_one b us)

abbrev pub Bounded : List ℕ → Type 0
Bounded [] = Unit {0}
Bounded (n ∷ us) = (n < int_mod) × Bounded us

pub map-update_at :
    (f : Slot → Slot) (g : ℕ → ℕ) (b : ℕ) (slots : List Slot)
    → ((s : Slot) → use_of (f s) ≡ g (use_of s))
    → uses (update f b slots) ≡ update g b (uses slots)
map-update_at f g b [] h = refl
map-update_at f g zero (s ∷ slots) h = rw (h s)
map-update_at f g (suc b) (s ∷ slots) h = ap (◌∷◌ (use_of s)) (map-update_at f g b slots h)

-- A write that keeps the count of the slot that is there.
pub uses-update_there :
    (f : Slot → Slot) (b : ℕ) (slots : List Slot) {s : Slot}
    → get_elem? slots b ≡ some s
    → use_of (f s) ≡ use_of s
    → uses (update f b slots) ≡ uses slots
uses-update_there f b [] there h = refl
uses-update_there f zero (t ∷ slots) there h = ground arith
uses-update_there f (suc b) (t ∷ slots) there h =
    ap (◌∷◌ (use_of t)) (uses-update_there f b slots there h)

update-Bounded :
    (f : ℕ → ℕ) (b : ℕ) (us : List ℕ)
    → ((n : ℕ) → f n < int_mod)
    → Bounded us
    → Bounded (update f b us)
update-Bounded f b [] h bound = tt
update-Bounded f zero (n ∷ us) h bound = (h n, bound.1)
update-Bounded f (suc b) (n ∷ us) h bound = (bound.0, update-Bounded f b us h bound.1)

-- Raising and lowering commute, at one place or at two.
lower-raise :
    (b c : ℕ) (us : List ℕ)
    → Bounded us
    → update minus_one b (update plus_one c us) ≡ update plus_one c (update minus_one b us)
lower-raise b c [] bound = refl
lower-raise zero zero (n ∷ us) bound = ap (λ k. k ∷ us) (omega arith)
lower-raise zero (suc c) (n ∷ us) bound = refl
lower-raise (suc b) zero (n ∷ us) bound = refl
lower-raise (suc b) (suc c) (n ∷ us) bound = ap (◌∷◌ n) (lower-raise b c us bound.1)

pub lower-raise_self :
    (b : ℕ) (us : List ℕ) → Bounded us → update minus_one b (update plus_one b us) ≡ us
lower-raise_self b [] bound = refl
lower-raise_self zero (n ∷ us) bound = ap (λ k. k ∷ us) (omega arith)
lower-raise_self (suc b) (n ∷ us) bound = ap (◌∷◌ n) (lower-raise_self b us bound.1)

pub lower-raise_all :
    (b : ℕ) (list us : List ℕ)
    → Bounded us
    → update minus_one b (raise_all list us) ≡ raise_all list (update minus_one b us)
lower-raise_all b [] us bound = refl
lower-raise_all b (c ∷ list) us bound =
    lower-raise_all b list (update plus_one c us)
      (update-Bounded plus_one c us (λ n. omega arith) bound)
    ∙ ap (raise_all list) (lower-raise b c us bound)

-- A round of `inc` over a list and a round of `dec` over it cancel.
pub lower_all-raise_all : (list us : List ℕ) → Bounded us → lower_all list (raise_all list us) ≡ us
lower_all-raise_all [] us bound = refl
lower_all-raise_all (b ∷ list) us bound =
    ap (lower_all list) (
      lower-raise_all b list (update plus_one b us)
        (update-Bounded plus_one b us (λ n. omega arith) bound)
      ∙ ap (raise_all list) (lower-raise_self b us bound))
    ∙ lower_all-raise_all list us bound

pub raise_all-append :
    (xs ys us : List ℕ) → raise_all (xs ++ ys) us ≡ raise_all ys (raise_all xs us)
raise_all-append [] ys us = refl
raise_all-append (x ∷ xs) ys us = raise_all-append xs ys (update plus_one x us)

pub raise_all-Bounded : (list us : List ℕ) → Bounded us → Bounded (raise_all list us)
raise_all-Bounded [] us bound = bound
raise_all-Bounded (b ∷ list) us bound =
    raise_all-Bounded list (update plus_one b us)
      (update-Bounded plus_one b us (λ n. omega arith) bound)
