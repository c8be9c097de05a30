-- ===== src/Base/Update.antt =====
-- To change one element of a list in place.
use Prim.Native.Nat.{ℕ, zero, suc}
use mathlib.Core.Path.{◌≡◌, refl, ap}
use mathlib.Core.Logic.{◌≢◌}
use mathlib.Core.List.{List, [], ◌∷◌, map}
use mathlib.Core.Option.{some}
use native.Mathlib.Omega.{arith}
use gdal_warp_bindings.Base.Lists.{length, get_elem?}

module _ {ℓ} {A : Type ℓ} where
  -- Out of bounds nothing changes.
  abbrev pub update : (A → A) → ℕ → List A → List A
  update f i [] = []
  update f zero (x ∷ xs) = f x ∷ xs
  update f (suc i) (x ∷ xs) = x ∷ update f i xs

  pub length-update : (f : A → A) (i : ℕ) (xs : List A) → length (update f i xs) ≡ length xs
  length-update f i [] = refl
  length-update f zero (x ∷ xs) = refl
  length-update f (suc i) (x ∷ xs) = ap suc (length-update f i xs)

  pub get_elem?-update_self :
      (f : A → A) (i : ℕ) (xs : List A) {x : A}
      → get_elem? xs i ≡ some x
      → get_elem? (update f i xs) i ≡ some (f x)
  get_elem?-update_self f i [] h = cc
  get_elem?-update_self f zero (x ∷ xs) h = ground arith
  get_elem?-update_self f (suc i) (x ∷ xs) h = get_elem?-update_self f i xs h

  pub get_elem?-update_ne :
      (f : A → A) (i j : ℕ) (xs : List A) → i ≢ j → get_elem? (update f i xs) j ≡ get_elem? xs j
  get_elem?-update_ne f i j [] h = refl
  get_elem?-update_ne f zero zero (x ∷ xs) h = absurd (h refl)
  get_elem?-update_ne f zero (suc j) (x ∷ xs) h = refl
  get_elem?-update_ne f (suc i) zero (x ∷ xs) h = refl
  get_elem?-update_ne f (suc i) (suc j) (x ∷ xs) h =
      get_elem?-update_ne f i j xs (λ e. h (ap suc e))

  -- Two changes of one element, one after the other.
  pub update-update :
      (f g : A → A) (i : ℕ) (xs : List A) → update g i (update f i xs) ≡ update (λ x. g (f x)) i xs
  update-update f g i [] = refl
  update-update f g zero (x ∷ xs) = refl
  update-update f g (suc i) (x ∷ xs) = ap (◌∷◌ x) (update-update f g i xs)

  pub update_comm :
      (f g : A → A) (i j : ℕ) (xs : List A)
      → i ≢ j
      → update g j (update f i xs) ≡ update f i (update g j xs)
  update_comm f g i j [] h = refl
  update_comm f g zero zero (x ∷ xs) h = absurd (h refl)
  update_comm f g zero (suc j) (x ∷ xs) h = refl
  update_comm f g (suc i) zero (x ∷ xs) h = refl
  update_comm f g (suc i) (suc j) (x ∷ xs) h =
      ap (◌∷◌ x) (update_comm f g i j xs (λ e. h (ap suc e)))

  -- Only the element that is there counts.
  pub update_agree :
      (f g : A → A) (i : ℕ) (xs : List A) {x : A}
      → get_elem? xs i ≡ some x
      → f x ≡ g x
      → update f i xs ≡ update g i xs
  update_agree f g i [] h e = refl
  update_agree f g zero (y ∷ xs) h e = ground arith
  update_agree f g (suc i) (y ∷ xs) h e = ap (◌∷◌ y) (update_agree f g i xs h e)

  pub update_same :
      (f : A → A) (i : ℕ) (xs : List A) {x : A}
      → get_elem? xs i ≡ some x
      → f x ≡ x
      → update f i xs ≡ xs
  update_same f i [] h e = refl
  update_same f zero (y ∷ xs) h e = ground arith
  update_same f (suc i) (y ∷ xs) h e = ap (◌∷◌ y) (update_same f i xs h e)

-- A measure that the change keeps.
pub map-update {ℓ κ} :
    {A : Type ℓ} {B : Type κ} (m : A → B) (f : A → A) (i : ℕ) (xs : List A)
    → ((x : A) → m (f x) ≡ m x)
    → map m (update f i xs) ≡ map m xs
map-update m f i [] h = refl
map-update m f zero (x ∷ xs) h = rw (h x)
map-update m f (suc i) (x ∷ xs) h = ap (◌∷◌ (m x)) (map-update m f i xs h)
