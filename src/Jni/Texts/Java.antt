-- ===== src/Jni/Texts/Java.antt =====
-- How GDALWarp.java reads the arrays that com_azavea_gdal_GDALWarp.c filled.
use gdal_warp_bindings.Base.{
  ℕ, ◌≡◌, refl, ◌∙◌, ◌++◌, map, List, [], ◌∷◌, Option, none, some, true, false, get_elem?, ◌==◌,
  leb, reverse, inl, inr, Bool-cases, Option-cases, arith,
}
use gdal_warp_bindings.Gdal.{Bytes}

-- The bytes before the first zero.
unfoldable pub until_zero : Bytes → Bytes
until_zero [] = []
until_zero (b ∷ bytes) = elim (b == 0) [ true ↦ [] | false ↦ b ∷ until_zero bytes ]

-- The text without the characters up to U+0020 in front.
unfoldable pub skip_blank : Bytes → Bytes
skip_blank [] = []
skip_blank (b ∷ bytes) = elim (leb b 32) [ true ↦ skip_blank bytes | false ↦ b ∷ bytes ]

-- `String.trim`, on the bytes of UTF-8: a byte up to 32 is a character by itself there.
unfoldable pub trim : Bytes → Bytes
unfolding skip_blank
trim bytes = reverse (skip_blank (reverse (skip_blank bytes)))

-- The text that Java makes of an array.
unfoldable pub read_text : Bytes → Bytes
unfolding until_zero trim
read_text bytes = trim (until_zero bytes)

-- The loops of Java over its arrays: the texts up to an array that begins with a zero byte. Without
-- one it runs out of bounds, and so it does at an empty array.
unfoldable pub read_texts : (ℕ → Bytes) → List ℕ → Option (List Bytes)
unfolding read_text
read_texts heap [] = none
read_texts heap (array ∷ arrays) = elim (get_elem? (heap array) 0) [
  | none ↦ none
  | some b ↦ elim (b == 0) [
    | true ↦ some []
    | false ↦ elim (read_texts heap arrays) [
      | none ↦ none
      | some texts ↦ some (read_text (heap array) ∷ texts)
    ]
  ]
]

-- What an array holds of a text: a space for the empty one.
abbrev pub shown : Bytes → Bytes
shown [] = 32 ∷ []
shown (c ∷ text) = c ∷ text

trim-shown : (text : Bytes) → trim (shown text) ≡ trim text
unfolding trim
trim-shown [] = refl
trim-shown (c ∷ text) = refl

-- What Java has read before `rest`.
abbrev pub after_shown : List Bytes → Option (List Bytes) → Option (List Bytes)
after_shown texts none = none
after_shown texts (some more) = some (map trim texts ++ more)

starts :
    (bytes : Bytes) (c : ℕ) (text : Bytes)
    → until_zero bytes ≡ c ∷ text
    → (b : ℕ) × (get_elem? bytes 0 ≡ some b) × ((b == 0) ≡ false)
unfolding until_zero
starts [] c text h = cc
starts (b ∷ bytes) c text h = elim (Bool-cases (b == 0)) [
  | inl z ↦ absurd (grind (arith, z, h))
  | inr z ↦ (b, refl, z)
]

shown_starts : (text : Bytes) → (c : ℕ) × (rest : Bytes) × (shown text ≡ c ∷ rest)
shown_starts [] = (32, [], refl)
shown_starts (c ∷ text) = (c, text, refl)

pub read_texts_step :
    (heap : ℕ → Bytes) (text : Bytes) (array : ℕ) (arrays : List ℕ)
    → until_zero (heap array) ≡ shown text
    → read_texts heap (array ∷ arrays) ≡ after_shown (text ∷ []) (read_texts heap arrays)
unfolding read_texts read_text
read_texts_step heap text array arrays h =
    let (c, t, e) = shown_starts text in
    let (b, at, solid) = starts (heap array) c t (h ∙ e) in
    elim (Option-cases (read_texts heap arrays)) [
      | inl z ↦ rw (read_texts, at, solid, z) refl
      | inr (more, z) ↦ rw (read_texts, at, solid, z, h, read_text, trim-shown text) refl
    ]

pub after_shown-after_shown :
    (text : Bytes) (texts : List Bytes) (o : Option (List Bytes))
    → after_shown (text ∷ []) (after_shown texts o) ≡ after_shown (text ∷ texts) o
after_shown-after_shown text texts none = refl
after_shown-after_shown text texts (some more) = refl

pub after_shown-nil : (o : Option (List Bytes)) → o ≡ after_shown [] o
after_shown-nil none = refl
after_shown-nil (some texts) = refl

-- An array that begins with a zero byte ends the texts.
pub read_texts_last :
    (heap : ℕ → Bytes) (last : ℕ) (rest : List ℕ)
    → get_elem? (heap last) 0 ≡ some 0
    → read_texts heap (last ∷ rest) ≡ some []
unfolding read_texts
read_texts_last heap last rest h = rw (read_texts, h) refl
