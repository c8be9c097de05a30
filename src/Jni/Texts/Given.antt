-- ===== src/Jni/Texts/Given.antt =====
-- The loops of the metadata functions of com_azavea_gdal_GDALWarp.c return, and give back the arrays
-- that they obtain.
use gdal_warp_bindings.Base.{
  ℕ, zero, suc, ◌+◌, ◌≤◌, ◌≡◌, refl, sym, ap, subst, ◌∙◌, List, [], ◌∷◌, Option, none, some, Bool,
  true, false, ℤ, pos, ltb, ltb_ℤ, length, length-set, set, ◌==◌, inl, inr, Bool-cases, arith,
}
use gdal_warp_bindings.Errno.{returns}
use gdal_warp_bindings.Gdal.{Bytes}
use gdal_warp_bindings.Dataset.Queries.Whole.{strncpy}
use gdal_warp_bindings.Jni.{
  Native, ◌>>=◌, store, app_defined, get_byte_elements, release_byte_elements, get_byte_length,
  get_objects,
}
use gdal_warp_bindings.Jni.Scalars.{wants}
use gdal_warp_bindings.Jni.Texts.{
  blank, written, put_text, put_texts, end_texts, give_texts, listed,
}

length-strncpy : (dst src : Bytes) (n : ℕ) → length (strncpy dst src n) ≡ length dst
unfolding strncpy
length-strncpy [] src n = refl
length-strncpy (d ∷ dst) src zero = refl
length-strncpy (d ∷ dst) [] (suc n) = ap suc (length-strncpy dst [] n)
length-strncpy (d ∷ dst) (c ∷ src) (suc n) = ap suc (length-strncpy dst src n)

length-written : (text bytes : Bytes) → length (written text bytes) ≡ length bytes
unfolding written
length-written text bytes = length-set _ (length text) 0 ∙ length-strncpy bytes text (length text)

length-blank : (bytes : Bytes) → length (blank bytes) ≡ length bytes
unfolding blank
length-blank bytes = length-set (set bytes 0 32) 1 0 ∙ length-set bytes 0 32

length-store :
    (heap : ℕ → Bytes) (r : ℕ) (v : Bytes)
    → length v ≡ length (heap r)
    → (q : ℕ) → length (store heap r v q) ≡ length (heap q)
length-store heap r v h q = elim (Bool-cases (q == r)) [
  | inl z ↦ ground arith
  | inr z ↦ ground arith
]

-- Each array has two bytes at least.
abbrev pub Roomy : (ℕ → Bytes) → List ℕ → Type 0
Roomy heap [] = Unit {0}
Roomy heap (a ∷ arrays) = (2 ≤ length (heap a)) × Roomy heap arrays

abbrev RoomyRest : (ℕ → Bytes) → Option (List ℕ) → Type 0
RoomyRest heap none = Unit {0}
RoomyRest heap (some arrays) = Roomy heap arrays

Roomy-same :
    (heap heap' : ℕ → Bytes) (arrays : List ℕ)
    → ((q : ℕ) → length (heap' q) ≡ length (heap q))
    → Roomy heap arrays
    → Roomy heap' arrays
Roomy-same heap heap' [] same h = tt
Roomy-same heap heap' (a ∷ arrays) same h =
    (subst (λ n. 2 ≤ n) (sym (same a)) h.0, Roomy-same heap heap' arrays same h.1)

module _ {G C Double : Type 0} where
  -- A step that changes bytes only, and gives back what it obtained.
  pub record Given (s s' : Native G C Double) : Type 0 where
    sizes : (q : ℕ) → length (s'.jvm.bytes q) ≡ length (s.jvm.bytes q)
    pub lib : s'.lib ≡ s.lib
    pub given_back : s'.jvm.acquired + s.jvm.released ≡ s.jvm.acquired + s'.jvm.released

  Given-refl : (s : Native G C Double) → Given s s
  Given-refl s = record { sizes = λ q. refl; lib = refl; given_back = omega arith }

  Given-trans : (s s1 s2 : Native G C Double) → Given s s1 → Given s1 s2 → Given s s2
  Given-trans s s1 s2 a b = record {
    sizes = λ q. b.sizes q ∙ a.sizes q;
    lib = b.lib ∙ a.lib;
    given_back = omega (arith, a.given_back, b.given_back);
  }

  -- One array out and in again.
  Given-store :
      (s : Native G C Double) (r : ℕ) (v : Bytes)
      → length v ≡ length (s.jvm.bytes r)
      → Given s (record s {
        jvm = record s.jvm {
          bytes = store s.jvm.bytes r v;
          acquired = s.jvm.acquired + 1;
          released = s.jvm.released + 1;
        };
      })
  Given-store s r v h = record {
    sizes = length-store s.jvm.bytes r v h;
    lib = refl;
    given_back = omega arith;
  }

  put_text_returns :
      (text : Bytes) (array : ℕ) (s : Native G C Double)
      → 2 ≤ length (s.jvm.bytes array)
      → (fitted : Bool) × (s' : Native G C Double) × (put_text text array s
          ≡ some (returns (fitted, s')))
        × Given s s'
  unfolding put_text get_byte_elements release_byte_elements get_byte_length wants
  put_text_returns [] array s enough =
      let fits : ltb (length (s.jvm.bytes array)) 2 ≡ false = ground arith in
      (true, _, rw (fits) refl, Given-store s array _ (length-blank (s.jvm.bytes array)))
  put_text_returns (c ∷ text) array s enough =
      elim (Bool-cases (ltb (length (c ∷ text) + 1) (length (s.jvm.bytes array)))) [
        | inl z ↦ (
          true,
          _,
          rw (z) refl,
          Given-store s array _ (length-written (c ∷ text) (s.jvm.bytes array)),
        )
        | inr z ↦ (false, _, rw (z) refl, Given-store s array _ refl)
      ]

  put_texts_returns :
      (texts : List Bytes) (arrays : List ℕ) (s : Native G C Double)
      → Roomy s.jvm.bytes arrays
      → (rest : Option (List ℕ)) × (s' : Native G C Double) × (put_texts texts arrays s
          ≡ some (returns (rest, s')))
        × RoomyRest s'.jvm.bytes rest
        × Given s s'
  unfolding put_texts
  put_texts_returns [] arrays s h = (some arrays, s, refl, h, Given-refl s)
  put_texts_returns (text ∷ texts) [] s h = (some [], s, refl, h, Given-refl s)
  put_texts_returns (text ∷ texts) (array ∷ arrays) s h =
      let (fitted, s1, e, given) = put_text_returns text array s h.0 in
      let rooms = Roomy-same s.jvm.bytes s1.jvm.bytes arrays given.sizes h.1 in
      let (rest, s2, e2, left, given2) = put_texts_returns texts arrays s1 rooms in
      elim (Bool-cases fitted) [
        | inl z ↦ (rest, s2, rw (put_texts, e, ◌>>=◌, z) e2, left, Given-trans s s1 s2 given given2)
        | inr z ↦ (none, s1, rw (put_texts, e, ◌>>=◌, z) refl, tt, given)
      ]

  end_texts_returns :
      (rest : Option (List ℕ)) (retval : ℤ) (s : Native G C Double)
      → RoomyRest s.jvm.bytes rest
      → (code : ℤ) × (s' : Native G C Double) × (end_texts rest retval s
          ≡ some (returns (code, s')))
        × Given s s'
  unfolding end_texts get_byte_elements release_byte_elements wants
  end_texts_returns none retval s h = (app_defined, s, refl, Given-refl s)
  end_texts_returns (some []) retval s h = (app_defined, s, refl, Given-refl s)
  end_texts_returns (some (a ∷ [])) retval s h = (retval, s, refl, Given-refl s)
  end_texts_returns (some (a ∷ b ∷ arrays)) retval s h =
      let fits : ltb (length (s.jvm.bytes a)) 1 ≡ false = ground arith in
      (retval, _, rw (fits) refl, Given-store s a _ (length-set (s.jvm.bytes a) 0 0))

  -- The whole conversion, on any answer.
  pub give_texts_returns :
      (retval : ℤ) (list : Option (List Bytes)) (_list : ℕ) (s : Native G C Double)
      → Roomy s.jvm.bytes (s.jvm.objects _list)
      → (code : ℤ) × (s' : Native G C Double) × (give_texts retval list _list s
          ≡ some (returns (code, s')))
        × Given s s'
  unfolding give_texts get_objects
  give_texts_returns retval list _list s h =
      let (rest, s1, e, left, given) = put_texts_returns (listed list) (s.jvm.objects _list) s h in
      let (code, s2, e2, given2) = end_texts_returns rest retval s1 left in
      elim (Bool-cases (ltb_ℤ retval (pos 0))) [
        | inl z ↦ (retval, s, rw (z) refl, Given-refl s)
        | inr z ↦ (code, s2, rw (z, ◌>>=◌, e) e2, Given-trans s s1 s2 given given2)
      ]
