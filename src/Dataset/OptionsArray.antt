-- ===== src/Dataset/OptionsArray.antt =====
-- The loop of `open` in locked_dataset.hpp that fills its array of options.
pub mod Filling
use text.Mathlib.Text.{◌==◌ as str_eq}
use gdal_warp_bindings.Base.{
  ℕ, zero, suc, ◌+◌, ◌-◌, ◌<◌, ◌≤◌, ◌≡◌, refl, sym, ap, subst, ◌∙◌, String, List, [], ◌∷◌, ◌++◌,
  map, map-append, append_assoc, append-nil, Option, none, some, Bool, true, false, ◌⊎◌, ◌||◌,
  or_assoc, length, length-append, set, ltb, replicate, length-replicate, Bool-cases, Option-cases,
  inl, inr, arith,
}
use gdal_warp_bindings.Types.{Options}
use gdal_warp_bindings.Pointers.{
  Pointer, unset, null, chars, read_options, write, read_options_lem, set-append,
}
use gdal_warp_bindings.Dataset.WarpOptions.{warp_options_kept, warp_options_added}
use gdal_warp_bindings.Dataset.{output_format_configured, warp_options}

infixl 5 ◌>>=◌
abbrev pub ◌>>=◌ : {A B : Type 0} → Option A → (A → Option B) → Option B
◌>>=◌ none f = none
◌>>=◌ (some a) f = f a

-- char const *options_array[1 << 8];
abbrev pub array_size : ℕ
array_size = 256

-- The loop, from index `i` on.
unfoldable pub fill_options : ℕ → Options → Bool → List Pointer → Option (ℕ × Bool × List Pointer)
fill_options i [] configured array = some (i, configured, array)
fill_options i (value ∷ options) configured array =
    write array i (chars value) >>= fill_options (i + 1) options (configured || str_eq value "-of")

-- The output format, where the options name none.
unfoldable pub add_format : ℕ → Bool → List Pointer → Option (ℕ × List Pointer)
add_format i true array = some (i, array)
add_format i false array = write array i (chars "-of") >>= λ array'.
    write array' (i + 1) (chars "VRT") >>= λ array''. some (i + 2, array'')

-- All of it: `none` where a pointer would be written past the array.
unfoldable pub fill_array : Options → Option (List Pointer)
fill_array options =
    (fill_options 0 options false (replicate array_size unset) >>= λ (i, configured, array).
    add_format i configured array)
    >>= λ (j, array). write array j null
