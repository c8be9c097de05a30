-- ===== src/Jni/Texts/Lists.antt =====
-- Java reads back the texts that the metadata functions of com_azavea_gdal_GDALWarp.c wrote.
use gdal_warp_bindings.Base.{
  ℕ, ◌+◌, ◌≤◌, ◌<◌, ◌≡◌, ◌≢◌, refl, sym, ap, subst, ◌∙◌, ◌++◌, List, [], ◌∷◌, some, true, false,
  ltb, length, set, ◌==◌, arith,
}
use gdal_warp_bindings.Errno.{returns}
use gdal_warp_bindings.Gdal.{Bytes}
use gdal_warp_bindings.Dataset.Queries.Whole.{strncpy}
use gdal_warp_bindings.Jni.{
  Native, ◌>>=◌, store, store_self, store_other, get_byte_elements, release_byte_elements,
  get_byte_length,
}
use gdal_warp_bindings.Jni.Scalars.{wants}
use gdal_warp_bindings.Jni.Texts.{written, blank, put_text, put_texts}
use gdal_warp_bindings.Jni.Texts.Java.{until_zero, shown}

-- A C string has no zero byte.
abbrev pub NoZero : Bytes → Type 0
NoZero [] = Unit {0}
NoZero (c ∷ text) = (c ≢ 0) × NoZero text

-- The bytes that a text leaves in an array that it fits.
abbrev pub stored : Bytes → Bytes → Bytes
stored [] bytes = blank bytes
stored (c ∷ text) bytes = written (c ∷ text) bytes

-- An array has room for a text.
abbrev pub Room : Bytes → Bytes → Type 0
Room [] bytes = 2 ≤ length bytes
Room (c ∷ text) bytes = length (c ∷ text) + 1 < length bytes

-- As many arrays as texts, each with room for its own, and no zero byte in a text.
abbrev pub Rooms : (ℕ → Bytes) → List Bytes → List ℕ → Type 0
Rooms heap [] [] = Unit {0}
Rooms heap (text ∷ texts) (array ∷ arrays) =
    NoZero text × Room text (heap array) × Rooms heap texts arrays
Rooms heap _ _ = ⊥

abbrev pub Absent : ℕ → List ℕ → Type 0
Absent q [] = Unit {0}
Absent q (r ∷ refs) = (q ≢ r) × Absent q refs

abbrev pub Distinct : List ℕ → Type 0
Distinct [] = Unit {0}
Distinct (r ∷ refs) = Absent r refs × Distinct refs

-- The arrays hold what Java reads as the texts.
abbrev pub Holds : (ℕ → Bytes) → List Bytes → List ℕ → Type 0
Holds heap [] [] = Unit {0}
Holds heap (text ∷ texts) (array ∷ arrays) =
    (until_zero (heap array) ≡ shown text) × Holds heap texts arrays
Holds heap _ _ = ⊥

pub written_shape :
    (text bytes : Bytes)
    → NoZero text
    → length text < length bytes
    → until_zero (set (strncpy bytes text (length text)) (length text) 0) ≡ text
unfolding until_zero strncpy
written_shape [] [] nz room = absurd (omega arith)
written_shape [] (b ∷ bytes) nz room = refl
written_shape (c ∷ text) [] nz room = absurd (omega arith)
written_shape (c ∷ text) (b ∷ bytes) nz room =
    let ih = written_shape text bytes nz.1 (omega arith) in
    let solid : (c == 0) ≡ false = ground arith in rw (solid, until_zero) (ap (◌∷◌ c) ih)

until_zero-stored :
    (text bytes : Bytes)
    → NoZero text
    → Room text bytes
    → until_zero (stored text bytes) ≡ shown text
unfolding until_zero blank written
until_zero-stored [] [] nz room = absurd (omega arith)
until_zero-stored [] (b ∷ []) nz room = absurd (omega arith)
until_zero-stored [] (b ∷ c ∷ bytes) nz room = refl
until_zero-stored (c ∷ text) bytes nz room = written_shape (c ∷ text) bytes nz (omega arith)

Rooms-store :
    (heap : ℕ → Bytes) (r : ℕ) (v : Bytes) (texts : List Bytes) (arrays : List ℕ)
    → Absent r arrays
    → Rooms heap texts arrays
    → Rooms (store heap r v) texts arrays
Rooms-store heap r v [] [] out rooms = tt
Rooms-store heap r v [] (a ∷ arrays) out rooms = elim rooms [ ]
Rooms-store heap r v (text ∷ texts) [] out rooms = elim rooms [ ]
Rooms-store heap r v (text ∷ texts) (a ∷ arrays) out rooms =
    let same : heap a ≡ store heap r v a = sym (store_other heap r a v (λ e. out.0 (sym e))) in
    (rooms.0, subst (Room text) same rooms.1, Rooms-store heap r v texts arrays out.1 rooms.2)

module _ {G C Double : Type 0} where
  -- What the loop leaves: the texts in the arrays, all other arrays, the library, and as many
  -- elements to give back as before.
  pub record Put (s s' : Native G C Double) (texts : List Bytes) (arrays : List ℕ) : Type 0 where
    pub holds : Holds s'.jvm.bytes texts arrays
    pub kept : (q : ℕ) → Absent q arrays → s'.jvm.bytes q ≡ s.jvm.bytes q
    pub objects : s'.jvm.objects ≡ s.jvm.objects
    pub lib : s'.lib ≡ s.lib
    pub given_back : s'.jvm.acquired + s.jvm.released ≡ s.jvm.acquired + s'.jvm.released

  -- After a text that fits.
  abbrev after_text : Bytes → ℕ → Native G C Double → Native G C Double
  after_text text array s = record s {
    jvm = record s.jvm {
      bytes = store s.jvm.bytes array (stored text (s.jvm.bytes array));
      acquired = s.jvm.acquired + 1;
      released = s.jvm.released + 1;
    };
  }

  put_text_fits :
      (text : Bytes) (array : ℕ) (s : Native G C Double)
      → Room text (s.jvm.bytes array)
      → put_text text array s ≡ some (returns (true, after_text text array s))
  unfolding put_text get_byte_elements release_byte_elements get_byte_length wants
  put_text_fits [] array s room =
      let fits : ltb (length (s.jvm.bytes array)) 2 ≡ false = ground arith in rw (fits) refl
  put_text_fits (c ∷ text) array s room =
      let fits : ltb (length (c ∷ text) + 1) (length (s.jvm.bytes array)) ≡ true = ground arith in
      rw (fits) refl

  put_texts_step :
      (text : Bytes) (texts : List Bytes) (array : ℕ) (arrays : List ℕ) (s : Native G C Double)
      → Room text (s.jvm.bytes array)
      → put_texts (text ∷ texts) (array ∷ arrays) s
        ≡ put_texts texts arrays (after_text text array s)
  unfolding put_texts
  put_texts_step text texts array arrays s room = rw (put_text_fits text array s room, ◌>>=◌) refl

  pub put_texts-append :
      (texts others : List Bytes) (arrays rest : List ℕ) (s : Native G C Double)
      → Distinct arrays
      → Rooms s.jvm.bytes texts arrays
      → (s' : Native G C Double) × (put_texts (texts ++ others) (arrays ++ rest) s
          ≡ put_texts others rest s')
        × Put s s' texts arrays
  put_texts-append [] others [] rest s d rooms = (
    s,
    refl,
    record { holds = tt; kept = λ q h. refl; objects = refl; lib = refl; given_back = omega arith },
  )
  put_texts-append [] others (a ∷ arrays) rest s d rooms = elim rooms [ ]
  put_texts-append (text ∷ texts) others [] rest s d rooms = elim rooms [ ]
  put_texts-append (text ∷ texts) others (a ∷ arrays) rest s d rooms =
      let s1 = after_text text a s in
      let (s', e, put) =
        put_texts-append texts others arrays rest s1 d.1
          (Rooms-store s.jvm.bytes a _ texts arrays d.0 rooms.2) in
      let here : s'.jvm.bytes a ≡ stored text (s.jvm.bytes a) =
        put.kept a d.0 ∙ store_self s.jvm.bytes a _ in
      (
        s',
        put_texts_step text (texts ++ others) a (arrays ++ rest) s rooms.1 ∙ e,
        record {
          holds = (
            ap until_zero here ∙ until_zero-stored text (s.jvm.bytes a) rooms.0 rooms.1,
            put.holds,
          );
          kept = λ q out. put.kept q out.1 ∙ store_other s.jvm.bytes a q _ out.0;
          objects = put.objects;
          lib = put.lib;
          given_back = omega (arith, put.given_back);
        },
      )
