-- ===== src/Dataset/WarpOptions.antt =====
-- The options that `open` of locked_dataset.hpp hands to GDALWarp.
use gdal_warp_bindings.Base.{
  ◌≡◌, refl, ap, ◌∙◌, inl, inr, [], ◌∷◌, ◌++◌, length, take, take-append, true, false, Bool-cases,
  arith,
}
use gdal_warp_bindings.Types.{Options}
use gdal_warp_bindings.Dataset.{output_format_configured, warp_options}

output_format_configured-append :
    (ss : Options) → output_format_configured (ss ++ ("-of" ∷ "VRT" ∷ [])) ≡ true
unfolding output_format_configured
output_format_configured-append [] = refl
output_format_configured-append (s ∷ ss) = ground (arith, output_format_configured-append ss)

take-all : (ss : Options) → take (length ss) ss ≡ ss
take-all [] = refl
take-all (s ∷ ss) = ap (◌∷◌ s) (take-all ss)

pub warp_options_kept : (ss : Options) → output_format_configured ss ≡ true → warp_options ss ≡ ss
unfolding warp_options
warp_options_kept ss h = rw (h, warp_options) refl

pub warp_options_added :
    (ss : Options)
    → output_format_configured ss ≡ false
    → warp_options ss ≡ ss ++ ("-of" ∷ "VRT" ∷ [])
unfolding warp_options
warp_options_added ss h = rw (h, warp_options) refl

-- What GDALWarp is given names an output format, begins with the options of the pair, and would be
-- left as it is if it were given again.
pub warp_options_lem :
    (ss : Options)
    → (output_format_configured (warp_options ss) ≡ true)
      × (take (length ss) (warp_options ss) ≡ ss)
      × (warp_options (warp_options ss) ≡ warp_options ss)
warp_options_lem ss = elim (Bool-cases (output_format_configured ss)) [
  | inl there ↦
      let kept = warp_options_kept ss there in
      let named = ap output_format_configured kept ∙ there in
      (named, ap (take (length ss)) kept ∙ take-all ss, warp_options_kept (warp_options ss) named)
  | inr absent ↦
      let added = warp_options_added ss absent in
      let named = ap output_format_configured added ∙ output_format_configured-append ss in
      (
        named,
        ap (take (length ss)) added ∙ take-append ss ("-of" ∷ "VRT" ∷ []),
        warp_options_kept (warp_options ss) named,
      )
]
