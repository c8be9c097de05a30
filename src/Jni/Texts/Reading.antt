-- ===== src/Jni/Texts/Reading.antt =====
-- What Java finds after the metadata functions of com_azavea_gdal_GDALWarp.c, for each number of arrays.
use gdal_warp_bindings.Base.{
  ℕ, suc, ◌+◌, ◌≤◌, ◌≡◌, refl, sym, ap, subst, append-nil, get_elem?_of_lt, get_elem?-set_self, ◌∙◌,
  ◌++◌, map, List, [], ◌∷◌, Option, none, some, false, pos, ltb, length, set, get_elem?, ◌==◌,
  arith,
}
use gdal_warp_bindings.Errno.{returns}
use gdal_warp_bindings.Gdal.{Bytes}
use gdal_warp_bindings.Jni.{
  Native, store_self, store_other, ◌>>=◌, store, app_defined, get_byte_elements,
  release_byte_elements, get_objects,
}
use gdal_warp_bindings.Jni.Scalars.{wants}
use gdal_warp_bindings.Jni.Texts.{put_texts, end_texts, give_texts, listed}
use gdal_warp_bindings.Jni.Texts.Java.{
  until_zero, trim, read_texts, after_shown, read_texts_step, after_shown-after_shown,
  after_shown-nil, read_texts_last,
}
use gdal_warp_bindings.Jni.Texts.Lists.{Rooms, Absent, Distinct, Holds, Put, put_texts-append}

pub read_texts-Holds :
    (heap : ℕ → Bytes) (texts : List Bytes) (arrays rest : List ℕ)
    → Holds heap texts arrays
    → read_texts heap (arrays ++ rest) ≡ after_shown texts (read_texts heap rest)
read_texts-Holds heap [] [] rest h = after_shown-nil (read_texts heap rest)
read_texts-Holds heap [] (a ∷ arrays) rest h = elim h [ ]
read_texts-Holds heap (text ∷ texts) [] rest h = elim h [ ]
read_texts-Holds heap (text ∷ texts) (a ∷ arrays) rest h =
    read_texts_step heap text a (arrays ++ rest) h.0
    ∙ ap (after_shown (text ∷ [])) (read_texts-Holds heap texts arrays rest h.1)
    ∙ after_shown-after_shown text texts (read_texts heap rest)

Holds-store :
    (heap : ℕ → Bytes) (r : ℕ) (v : Bytes) (texts : List Bytes) (arrays : List ℕ)
    → Absent r arrays
    → Holds heap texts arrays
    → Holds (store heap r v) texts arrays
Holds-store heap r v [] [] out h = tt
Holds-store heap r v [] (a ∷ arrays) out h = elim h [ ]
Holds-store heap r v (text ∷ texts) [] out h = elim h [ ]
Holds-store heap r v (text ∷ texts) (a ∷ arrays) out h = (
  ap until_zero (store_other heap r a v (λ e. out.0 (sym e))) ∙ h.0,
  Holds-store heap r v texts arrays out.1 h.1,
)

ended :
    (heap : ℕ → Bytes) (last : ℕ)
    → 1 ≤ length (heap last)
    → get_elem? (store heap last (set (heap last) 0 0) last) 0 ≡ some 0
ended heap last enough =
    let (b, at) = get_elem?_of_lt (heap last) 0 (omega arith) in
    ap (λ bytes. get_elem? bytes 0) (store_self heap last (set (heap last) 0 0))
    ∙ get_elem?-set_self (heap last) 0 0 at

module _ {G C Double : Type 0} where
  -- The loop over texts that all fit, with the arrays that are left.
  put_texts_all :
      (texts : List Bytes) (arrays rest : List ℕ) (s : Native G C Double)
      → Distinct arrays
      → Rooms s.jvm.bytes texts arrays
      → (s' : Native G C Double) × (put_texts texts (arrays ++ rest) s
          ≡ some (returns (some rest, s')))
        × Put s s' texts arrays
  unfolding put_texts
  put_texts_all texts arrays rest s d rooms =
      let (s', e, put) = put_texts-append texts [] arrays rest s d rooms in
      (s', ap (λ t. put_texts t (arrays ++ rest) s) (sym (append-nil texts)) ∙ e, put)

  -- `give_texts` as its three steps.
  give_texts_steps :
      (k : ℕ) (texts : List Bytes) (_list : ℕ) (arrays : List ℕ) (rest : Option (List ℕ))
      (s s' : Native G C Double)
      → s.jvm.objects _list ≡ arrays
      → put_texts texts arrays s ≡ some (returns (rest, s'))
      → give_texts (pos k) (some texts) _list s ≡ end_texts rest (pos k) s'
  unfolding give_texts get_objects listed
  give_texts_steps k texts _list arrays rest s s' given e =
      let done : ltb k 0 ≡ false = ground arith in rw (done, given, ◌>>=◌, listed, e) refl

  end_texts_more :
      (k last other : ℕ) (rest : List ℕ) (s : Native G C Double)
      → 1 ≤ length (s.jvm.bytes last)
      → end_texts (some (last ∷ other ∷ rest)) (pos k) s
        ≡ some (
            returns (
              pos k,
              record s {
                jvm = record s.jvm {
                  bytes = store s.jvm.bytes last (set (s.jvm.bytes last) 0 0);
                  acquired = s.jvm.acquired + 1;
                  released = s.jvm.released + 1;
                };
              },
            ))
  unfolding end_texts get_byte_elements release_byte_elements wants
  end_texts_more k last other rest s enough =
      let fits : ltb (length (s.jvm.bytes last)) 1 ≡ false = ground arith in rw (fits) refl

  -- Let the arrays be distinct, one for each text, a text have no zero byte, and its array two bytes
  -- more than the text, or two bytes at least for the empty text. Let two more arrays follow, the first of
  -- them not empty and none of the others. Then the call succeeds and gives back what it obtained, and
  -- Java reads exactly the texts, in their order, each as `String.trim` leaves it.
  pub give_texts-read_texts :
      (k : ℕ) (texts : List Bytes) (_list : ℕ) (arrays : List ℕ) (last other : ℕ) (rest : List ℕ)
      (s : Native G C Double)
      → s.jvm.objects _list ≡ arrays ++ (last ∷ other ∷ rest)
      → Distinct arrays
      → Absent last arrays
      → Rooms s.jvm.bytes texts arrays
      → 1 ≤ length (s.jvm.bytes last)
      → (s' : Native G C Double) × (give_texts (pos k) (some texts) _list s
          ≡ some (returns (pos k, s')))
        × (read_texts s'.jvm.bytes (s'.jvm.objects _list) ≡ some (map trim texts))
        × (s'.jvm.acquired + s.jvm.released ≡ s.jvm.acquired + s'.jvm.released)
  give_texts-read_texts k texts _list arrays last other rest s given d out rooms solid =
      let (s1, e, put) = put_texts_all texts arrays (last ∷ other ∷ rest) s d rooms in
      let s' = record s1 {
        jvm = record s1.jvm {
          bytes = store s1.jvm.bytes last (set (s1.jvm.bytes last) 0 0);
          acquired = s1.jvm.acquired + 1;
          released = s1.jvm.released + 1;
        };
      } in
      let enough : 1 ≤ length (s1.jvm.bytes last) =
        subst (λ bytes. 1 ≤ length bytes) (sym (put.kept last out)) solid in
      (
        s',
        give_texts_steps k texts _list (arrays ++ (last ∷ other ∷ rest))
              (some (last ∷ other ∷ rest)) s s1 given e
            ∙ end_texts_more k last other rest s1 enough,
        ap (read_texts s'.jvm.bytes) (ap (λ f. f _list) put.objects ∙ given)
            ∙ read_texts-Holds s'.jvm.bytes texts arrays (last ∷ other ∷ rest)
                (Holds-store s1.jvm.bytes last _ texts arrays out put.holds)
            ∙ ap (after_shown texts)
                (read_texts_last s'.jvm.bytes last (other ∷ rest) (ended s1.jvm.bytes last enough))
            ∙ ap some (append-nil (map trim texts)),
        omega (arith, put.given_back),
      )

  -- Let the arrays be distinct, one for each text, a text have no zero byte, and its array two bytes
  -- more than the text, or two bytes at least for the empty text. Let a single array follow, which is
  -- none of the others and begins with another byte than zero. Then the call succeeds too, but writes
  -- no end, and Java runs out of its arrays.
  pub give_texts_unended :
      (k : ℕ) (texts : List Bytes) (_list : ℕ) (arrays : List ℕ) (last b : ℕ) (bytes : Bytes)
      (s : Native G C Double)
      → s.jvm.objects _list ≡ arrays ++ (last ∷ [])
      → Distinct arrays
      → Absent last arrays
      → Rooms s.jvm.bytes texts arrays
      → s.jvm.bytes last ≡ suc b ∷ bytes
      → (s' : Native G C Double) × (give_texts (pos k) (some texts) _list s
          ≡ some (returns (pos k, s')))
        × (read_texts s'.jvm.bytes (s'.jvm.objects _list) ≡ none)
  unfolding end_texts read_texts
  give_texts_unended k texts _list arrays last b bytes s given d out rooms held =
      let (s1, e, put) = put_texts_all texts arrays (last ∷ []) s d rooms in
      let kept : s1.jvm.bytes last ≡ suc b ∷ bytes = put.kept last out ∙ held in
      let solid : (suc b == 0) ≡ false = ground arith in
      let ends : read_texts s1.jvm.bytes (last ∷ []) ≡ none = rw (read_texts, kept, solid) refl in
      (
        s1,
        give_texts_steps k texts _list (arrays ++ (last ∷ [])) (some (last ∷ [])) s s1 given e,
        ap (read_texts s1.jvm.bytes) (ap (λ f. f _list) put.objects ∙ given)
            ∙ read_texts-Holds s1.jvm.bytes texts arrays (last ∷ []) put.holds
            ∙ ap (after_shown texts) ends,
      )

  put_texts_none :
      (texts : List Bytes) (s : Native G C Double)
      → put_texts texts [] s ≡ some (returns (some [], s))
  unfolding put_texts
  put_texts_none [] s = refl
  put_texts_none (text ∷ texts) s = refl

  -- Let there be no more arrays than texts, with room for the first texts. Then the answer is
  -- -CPLE_AppDefined, and all elements that were obtained are given back.
  pub give_texts_full :
      (k : ℕ) (texts others : List Bytes) (_list : ℕ) (arrays : List ℕ) (s : Native G C Double)
      → s.jvm.objects _list ≡ arrays
      → Distinct arrays
      → Rooms s.jvm.bytes texts arrays
      → (s' : Native G C Double) × (give_texts (pos k) (some (texts ++ others)) _list s
          ≡ some (returns (app_defined, s')))
        × (s'.jvm.acquired + s.jvm.released ≡ s.jvm.acquired + s'.jvm.released)
  unfolding end_texts put_texts
  give_texts_full k texts others _list arrays s given d rooms =
      let (s1, e, put) = put_texts-append texts others arrays [] s d rooms in
      let stop : put_texts others [] s1 ≡ some (returns (some [], s1)) = put_texts_none others s1 in
      let whole : arrays ++ [] ≡ arrays = append-nil arrays in
      (
        s1,
        give_texts_steps k (texts ++ others) _list (arrays ++ []) (some []) s s1 (given ∙ sym whole)
            (e ∙ stop),
        put.given_back,
      )
