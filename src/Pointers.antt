-- ===== src/Pointers.antt =====
-- The arrays of C strings with NULL at their end, which src/tokens.cpp and GDAL read, and
-- src/com_azavea_gdal_GDALWarp.c and src/locked_dataset.hpp fill.
use gdal_warp_bindings.Base.{
  ℕ, ◌≡◌, refl, ap, String, List, [], ◌∷◌, ◌++◌, map, Option, none, some, length, set, ltb,
  if◌then◌else◌,
}
use gdal_warp_bindings.Types.{Options}

-- What an element of the array of options holds: nothing that was written, NULL, or characters.
pub data Pointer : Type 0 where
  unset : Pointer
  null : Pointer
  chars : String → Pointer

-- The texts up to NULL, as the first loop of `get_token` in tokens.cpp reads them. A pointer that was not set, and
-- the end of the array, fault.
unfoldable pub read_options : List Pointer → Option Options
read_options [] = none
read_options (unset ∷ options) = none
read_options (null ∷ options) = some []
read_options (chars text ∷ options) = elim (read_options options) [
  | none ↦ none
  | some texts ↦ some (text ∷ texts)
]

-- `array[i] = p`; past the array there is no result.
unfoldable pub write : List Pointer → ℕ → Pointer → Option (List Pointer)
write array i p = if ltb i (length array) then some (set array i p) else none

pub set-append :
    {A : Type 0} (xs ys : List A) (y v : A) → set (xs ++ (y ∷ ys)) (length xs) v ≡ xs ++ (v ∷ ys)
set-append [] ys y v = refl
set-append (x ∷ xs) ys y v = ap (◌∷◌ x) (set-append xs ys y v)

pub read_options_lem :
    (texts : Options) (more : List Pointer)
    → read_options (map chars texts ++ (null ∷ more)) ≡ some texts
unfolding read_options
read_options_lem [] more = refl
read_options_lem (text ∷ texts) more = rw (read_options, read_options_lem texts more) refl
