-- ===== src/Types/Hash.antt =====
-- The hash of types.hpp: its range, and what it does not see of the options.
use native.Mathlib.Nat.{ℕ_set}
use mathlib.Core.List.{Perm, Permᴰ}
use mathlib.Core.Logic.{∥∥₁_elim}
use gdal_warp_bindings.Base.{ℕ, ◌+◌, ◌%◌, ◌<◌, ◌≡◌, refl, ap, String, [], ◌∷◌, ◌∙◌, arith}
use gdal_warp_bindings.Types.{Options, size_mod, options_hash_from, uri_options_hash}

module _ (string_hash : String → ℕ) where
  -- The sum of the hashes, without the wrap.
  abbrev total : Options → ℕ
  total [] = 0
  total (s ∷ ss) = string_hash s + total ss

  options_hash_from-total :
      (r : ℕ) (ss : Options)
      → r < size_mod
      → options_hash_from string_hash r ss ≡ (r + total ss) % size_mod
  unfolding options_hash_from
  options_hash_from-total r [] h = omega arith
  options_hash_from-total r (s ∷ ss) h =
      omega (arith, options_hash_from-total ((r + string_hash s) % size_mod) ss (omega arith))

  total-perm : {ss ts : Options} → Permᴰ ss ts → total ss ≡ total ts
  total-perm Permᴰ.nil = refl
  total-perm (Permᴰ.cons e p) = omega (arith, ap string_hash e, total-perm p)
  total-perm (Permᴰ.swap e f) = omega (arith, ap string_hash e, ap string_hash f)
  total-perm (Permᴰ.trans p q) = total-perm p ∙ total-perm q

  -- Two pairs with one URI, whose options differ in order only, have one hash; and every hash is a
  -- `size_t`.
  pub uri_options_hash-perm :
      (uri : String) (ss ts : Options)
      → Perm ss ts
      → (uri_options_hash string_hash (uri, ss) ≡ uri_options_hash string_hash (uri, ts))
        × (uri_options_hash string_hash (uri, ss) < size_mod)
  unfolding uri_options_hash
  uri_options_hash-perm uri ss ts p = (
    ∥∥₁_elim p (ℕ_set _ _) (λ q. omega (
      arith,
      options_hash_from-total 0 ss (omega arith),
      options_hash_from-total 0 ts (omega arith),
      total-perm q,
    )),
    omega arith,
  )
