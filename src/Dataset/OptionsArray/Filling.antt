-- ===== src/Dataset/OptionsArray/Filling.antt =====
-- The array of options of `open` in locked_dataset.hpp, filled, against `warp_options`.
use text.Mathlib.Text.{◌==◌ as str_eq}
use gdal_warp_bindings.Base.{
  ℕ, zero, suc, ◌+◌, ◌-◌, ◌<◌, ◌≤◌, ◌≡◌, refl, sym, ap, subst, ◌∙◌, String, List, [], ◌∷◌, ◌++◌,
  map, map-append, append_assoc, append-nil, Option, none, some, Bool, true, false, ◌⊎◌, ◌||◌,
  or_assoc, length, length-append, set, ltb, replicate, length-replicate, Bool-cases, Option-cases,
  inl, inr, arith,
}
use gdal_warp_bindings.Types.{Options}
use gdal_warp_bindings.Pointers.{
  Pointer, unset, null, chars, read_options, write, read_options_lem, set-append,
}
use gdal_warp_bindings.Dataset.WarpOptions.{warp_options_kept, warp_options_added}
use gdal_warp_bindings.Dataset.{output_format_configured, warp_options}
use gdal_warp_bindings.Dataset.OptionsArray.{
  ◌>>=◌, array_size, fill_options, add_format, fill_array,
}

-- An array that holds texts, and `k` pointers after them that were not set.
abbrev holding : Options → ℕ → List Pointer
holding texts k = map chars texts ++ replicate k unset

or_false : (a : Bool) → (a || false) ≡ a
or_false true = refl
or_false false = refl

length-chars : (texts : Options) → length (map chars texts) ≡ length texts
length-chars [] = refl
length-chars (t ∷ texts) = ap suc (length-chars texts)

length-holding : (texts : Options) (k : ℕ) → length (holding texts k) ≡ length texts + k
length-holding texts k =
    length-append (map chars texts) (replicate k unset)
    ∙ omega (arith, length-chars texts, length-replicate {A = Pointer} k unset)

-- A write behind the texts.
write_next :
    (texts : Options) (k : ℕ) (p : Pointer)
    → write (holding texts (suc k)) (length texts) p
      ≡ some (map chars texts ++ (p ∷ replicate k unset))
unfolding write
write_next texts k p =
    let inside : ltb (length texts) (length (holding texts (suc k))) ≡ true =
      ground (arith, length-holding texts (suc k)) in
    let here = set-append (map chars texts) (replicate k unset) unset p in
    rw (write, inside)
      (ap (λ n. some (set (holding texts (suc k)) n p)) (sym (length-chars texts)) ∙ ap some here)

write_text :
    (texts : Options) (k : ℕ) (t : String)
    → write (holding texts (suc k)) (length texts) (chars t) ≡ some (holding (texts ++ (t ∷ [])) k)
write_text texts k t =
    let tail = replicate k unset in
    write_next texts k (chars t)
    ∙ ap some (
        sym (append_assoc (map chars texts) (chars t ∷ []) tail)
        ∙ ap (λ front. front ++ tail) (sym (map-append chars texts (t ∷ []))))

write_past : (texts : Options) (p : Pointer) → write (holding texts 0) (length texts) p ≡ none
unfolding write
write_past texts p =
    let outside : ltb (length texts) (length (holding texts 0)) ≡ false =
      ground (arith, length-holding texts 0) in
    rw (write, outside) refl

fill_options_fits :
    (done ss : Options) (c : Bool) (k rest : ℕ)
    → k ≡ length ss + rest
    → fill_options (length done) ss c (holding done k)
      ≡ some (length (done ++ ss), (c || output_format_configured ss), holding (done ++ ss) rest)
unfolding fill_options output_format_configured
fill_options_fits done [] c k rest e =
    let same : k ≡ rest = omega (arith, e) in
    rw (append-nil done, same)
      (ap (λ b. some (length done, b, holding done rest)) (sym (or_false c)))
fill_options_fits done (s ∷ ss) c zero rest e = absurd (omega arith)
fill_options_fits done (s ∷ ss) c (suc k) rest e =
    let b = c || str_eq s "-of" in
    let next : length (done ++ (s ∷ [])) ≡ length done + 1 = length-append done (s ∷ []) in
    let ih = fill_options_fits (done ++ (s ∷ [])) ss b k rest (omega (arith, e)) in
    rw (fill_options, write_text done k s)
      (ap (λ i. fill_options i ss b (holding (done ++ (s ∷ [])) k)) (sym next)
        ∙ ih
        ∙ rw (append_assoc done (s ∷ []) ss) (
            ap (λ d. some (length (done ++ (s ∷ ss)), d, holding (done ++ (s ∷ ss)) rest))
              (or_assoc c (str_eq s "-of") (output_format_configured ss))))

fill_options_past :
    (done ss : Options) (c : Bool) (k : ℕ)
    → k < length ss
    → fill_options (length done) ss c (holding done k) ≡ none
unfolding fill_options
fill_options_past done [] c k past = absurd (omega arith)
fill_options_past done (s ∷ ss) c zero past = rw (fill_options, write_past done (chars s)) refl
fill_options_past done (s ∷ ss) c (suc k) past =
    let b = c || str_eq s "-of" in
    let next : length (done ++ (s ∷ [])) ≡ length done + 1 = length-append done (s ∷ []) in
    rw (fill_options, write_text done k s)
      (ap (λ i. fill_options i ss b (holding (done ++ (s ∷ [])) k)) (sym next)
        ∙ fill_options_past (done ++ (s ∷ [])) ss b k (omega arith))

abbrev format : Options
format = "-of" ∷ "VRT" ∷ []

abbrev unnamed : ℕ × Bool × List Pointer → Option (ℕ × List Pointer)
unnamed (i, configured, array) = some (i, array)

-- The output format is written as two more options are.
add_format-fill_options :
    (i : ℕ) (array : List Pointer)
    → add_format i false array ≡ (fill_options i format false array >>= unnamed)
unfolding add_format fill_options
add_format-fill_options i array = elim (Option-cases (write array i (chars "-of"))) [
  | inl z ↦ rw (z) refl
  | inr (array', z) ↦ elim (Option-cases (write array' (i + 1) (chars "VRT"))) [
    | inl z' ↦ rw (z, z') refl
    | inr (array'', z') ↦ rw (z, z') (ap (λ n. some (n, array'')) (omega arith))
  ]
]

-- The options and the format, before NULL, in an array of `k` pointers.
abbrev with_format : ℕ → Options → Option (ℕ × List Pointer)
with_format k ss = fill_options 0 ss false (replicate k unset) >>= λ (i, configured, array).
    add_format i configured array

with_format_kept :
    (k : ℕ) (ss : Options) (rest : ℕ)
    → output_format_configured ss ≡ true
    → k ≡ length ss + rest
    → with_format k ss ≡ some (length ss, holding ss rest)
unfolding add_format
with_format_kept k ss rest there e = rw (fill_options_fits [] ss false k rest e, there) refl

with_format_added :
    (k : ℕ) (ss : Options) (rest : ℕ)
    → output_format_configured ss ≡ false
    → k ≡ length (ss ++ format) + rest
    → with_format k ss ≡ some (length (ss ++ format), holding (ss ++ format) rest)
with_format_added k ss rest absent e =
    let two : length (ss ++ format) ≡ length ss + 2 = length-append ss format in
    rw (fill_options_fits [] ss false k (rest + 2) (omega (arith, two, e)), absent)
      (add_format-fill_options (length ss) (holding ss (rest + 2))
        ∙ rw (fill_options_fits ss format false (rest + 2) rest (omega arith)) refl)

with_format_fits :
    (k : ℕ) (ss : Options) (rest : ℕ)
    → k ≡ length (warp_options ss) + rest
    → with_format k ss ≡ some (length (warp_options ss), holding (warp_options ss) rest)
with_format_fits k ss rest e = elim (Bool-cases (output_format_configured ss)) [
  | inl there ↦
      let kept = warp_options_kept ss there in
      with_format_kept k ss rest there (e ∙ ap (λ ws. length ws + rest) kept)
      ∙ ap (λ ws. some (length ws, holding ws rest)) (sym kept)
  | inr absent ↦
      let added = warp_options_added ss absent in
      with_format_added k ss rest absent (e ∙ ap (λ ws. length ws + rest) added)
      ∙ ap (λ ws. some (length ws, holding ws rest)) (sym added)
]

with_format_past_added :
    (k : ℕ) (ss : Options)
    → output_format_configured ss ≡ false
    → k < length (ss ++ format)
    → with_format k ss ≡ none
with_format_past_added k ss absent past =
    let two : length (ss ++ format) ≡ length ss + 2 = length-append ss format in
    elim (Bool-cases (ltb k (length ss))) [
      | inl short ↦ rw (fill_options_past [] ss false k (ground arith)) refl
      | inr long ↦
          let rest = k - length ss in
          let fits : length ss ≤ k = ground arith in
          rw (fill_options_fits [] ss false k rest (omega arith), absent)
            (add_format-fill_options (length ss) (holding ss rest)
              ∙ rw (fill_options_past ss format false rest (omega (arith, two))) refl)
    ]

with_format_past : (k : ℕ) (ss : Options) → k < length (warp_options ss) → with_format k ss ≡ none
with_format_past k ss past = elim (Bool-cases (output_format_configured ss)) [
  | inl there ↦
      let short : k < length ss = subst (λ ws. k < length ws) (warp_options_kept ss there) past in
      rw (fill_options_past [] ss false k short) refl
  | inr absent ↦
      with_format_past_added k ss absent
        (subst (λ ws. k < length ws) (warp_options_added ss absent) past)
]

-- The last write.
abbrev write_null : Option (ℕ × List Pointer) → Option (List Pointer)
write_null o = o >>= λ (j, array). write array j null

fill_array-read_options :
    (ss : Options)
    → length (warp_options ss) < array_size
    → (array : List Pointer) × (fill_array ss ≡ some array)
      × (read_options array ≡ some (warp_options ss))
unfolding fill_array
fill_array-read_options ss few =
    let ws = warp_options ss in
    let rest = array_size - suc (length ws) in
    let e = with_format_fits array_size ss (suc rest) (omega arith) in
    (
      map chars ws ++ (null ∷ replicate rest unset),
      ap write_null e ∙ write_next ws rest null,
      read_options_lem ws (replicate rest unset),
    )

fill_array_overflow : (ss : Options) → array_size ≤ length (warp_options ss) → fill_array ss ≡ none
unfolding fill_array
fill_array_overflow ss many = elim (Bool-cases (ltb array_size (length (warp_options ss)))) [
  | inl more ↦ ap write_null (with_format_past array_size ss (ground arith))
  | inr equal ↦
      ap write_null (with_format_fits array_size ss 0 (ground arith))
      ∙ write_past (warp_options ss) null
]

-- Where the options with the format are fewer than 256, `open` fills its array within its bounds, and
-- GDAL reads exactly those options from it. Where they are 256 or more, `open` writes past its array.
pub fill_array_lem :
    (ss : Options)
    → ((length (warp_options ss) < array_size)
        × (array : List Pointer) × (fill_array ss ≡ some array)
        × (read_options array ≡ some (warp_options ss)))
      ⊎ ((array_size ≤ length (warp_options ss)) × (fill_array ss ≡ none))
fill_array_lem ss = elim (Bool-cases (ltb (length (warp_options ss)) array_size)) [
  | inl few ↦
      let fits : length (warp_options ss) < array_size = ground arith in
      let (array, e, read) = fill_array-read_options ss fits in inl (fits, array, e, read)
  | inr many ↦
      let over : array_size ≤ length (warp_options ss) = ground arith in
      inr (over, fill_array_overflow ss over)
]
