-- ===== src/Types.antt =====
-- src/types.hpp: the pair of a URI and warp options that names a dataset, its comparison and its
-- hash. `std::hash<std::string>` is whatever the standard library chose: an argument.
pub mod Hash
use text.Mathlib.Text.{◌==◌ as str_eq}
use text.Mathlib.TextEquality.{eq_iff}
use gdal_warp_bindings.Base.{
  ℕ, ◌+◌, ◌%◌, ◌^◌, ◌≡◌, ◌↔◌, String, List, [], ◌∷◌, Bool, true, false, ◌&&◌, arith,
}

abbrev pub Options : Type 0
Options = List String

abbrev pub UriOptions : Type 0
UriOptions = String × Options

-- `std::vector<std::string>` and `std::pair` compare by their elements.
unfoldable pub options_eq : Options → Options → Bool
options_eq [] [] = true
options_eq [] (t ∷ ts) = false
options_eq (s ∷ ss) [] = false
options_eq (s ∷ ss) (t ∷ ts) = str_eq s t && options_eq ss ts

unfoldable pub uri_options_eq : UriOptions → UriOptions → Bool
unfolding options_eq
uri_options_eq (u, os) (v, ps) = str_eq u v && options_eq os ps

options_eq_iff : (ss ts : Options) → (options_eq ss ts ≡ true) ↔ (ss ≡ ts)
unfolding options_eq
options_eq_iff [] [] = ground arith
options_eq_iff [] (t ∷ ts) = ground arith
options_eq_iff (s ∷ ss) [] = ground arith
options_eq_iff (s ∷ ss) (t ∷ ts) = ground (arith, eq_iff s t, options_eq_iff ss ts)

pub uri_options_eq_iff : (k l : UriOptions) → (uri_options_eq k l ≡ true) ↔ (k ≡ l)
unfolding uri_options_eq
uri_options_eq_iff (u, os) (v, ps) = ground (arith, eq_iff u v, options_eq_iff os ps)

-- `size_t`, and `uint64_t`.
abbrev pub size_mod : ℕ
size_mod = 2 ^ 64

module _ (string_hash : String → ℕ) where
  -- The loop `result += h(str)` from `result`.
  unfoldable pub options_hash_from : ℕ → Options → ℕ
  options_hash_from result [] = result
  options_hash_from result (s ∷ ss) = options_hash_from ((result + string_hash s) % size_mod) ss

  unfoldable pub options_hash : Options → ℕ
  unfolding options_hash_from
  options_hash ss = options_hash_from 0 ss

  unfoldable pub uri_options_hash : UriOptions → ℕ
  unfolding options_hash
  uri_options_hash (u, os) = (string_hash u + options_hash os) % size_mod
