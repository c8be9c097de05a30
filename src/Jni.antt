-- ===== src/Jni.antt =====
-- src/com_azavea_gdal_GDALWarp.c: the functions that Java calls. Each copies its arguments out of the
-- Java heap, makes one call of src/bindings.cpp, and copies the results back.
pub mod Scalars
pub mod Calls
pub mod Returns
pub mod Texts
pub mod Pixels
pub mod Setup
pub mod Session
pub mod Start
use gdal_warp_bindings.Base.{
  ℕ, ◌+◌, String, List, [], ◌∷◌, Option, none, some, Bool, ℤ, pos, negsuc, ◌==◌, eq_ℤ, length,
  if◌then◌else◌, ◌≡◌, ◌≢◌, arith,
}
use gdal_warp_bindings.Errno.{Outcome, returns, exits, faults}
use gdal_warp_bindings.Gdal.{Gdal}
use gdal_warp_bindings.Dataset.Queries.{Which, source_index, warped_index}
use gdal_warp_bindings.Tokens.{LruCache}
use gdal_warp_bindings.Bindings.{Surroundings}
use gdal_warp_bindings.Bindings.Entries.{Library, Entry}

-- The part of the Java heap that is passed in: arrays and strings by their references. `acquired`
-- counts the calls that obtain elements or characters, and `released` those that give them back. A
-- `jbyte` and a `jlong` are here by their bit patterns.
pub record Jvm (Double : Type 0) : Type 0 where
  pub ints : ℕ → List ℤ
  pub longs : ℕ → List ℕ
  pub doubles : ℕ → List Double
  pub bytes : ℕ → List ℕ
  pub objects : ℕ → List ℕ
  pub texts : ℕ → String
  pub acquired : ℕ
  pub released : ℕ

-- The Java heap beside the library, and the file's own variable.
pub record Native (G C Double : Type 0) : Type 0 where
  pub gc_lock : Bool
  pub jvm : Jvm Double
  pub lib : Library G C

abbrev pub store {ℓ} : {A : Type ℓ} → (ℕ → A) → ℕ → A → ℕ → A
store f r v q = if q == r then v else f q

pub store_self : {A : Type 0} (heap : ℕ → A) (r : ℕ) (v : A) → store heap r v r ≡ v
store_self heap r v = ground arith

pub store_other : {A : Type 0} (heap : ℕ → A) (r q : ℕ) (v : A) → q ≢ r → store heap r v q ≡ heap q
store_other heap r q v h = ground arith

-- The elements of `xs`, with those of `ys` from the front in their place.
abbrev pub overwrite {ℓ} : {A : Type ℓ} → List A → List A → List A
overwrite xs [] = xs
overwrite [] (y ∷ ys) = []
overwrite (x ∷ xs) (y ∷ ys) = y ∷ overwrite xs ys

-- `const int copies = -4;`
abbrev pub copies : ℤ
copies = negsuc 3

-- -CPLE_AppDefined
abbrev pub app_defined : ℤ
app_defined = negsuc 0

-- A step of a native function: `none` means that the fuel of DOIT ran out.
abbrev pub N : Type 0 → Type 0 → Type 0
N S A = S → Option (Outcome (A × S))

module _ {S : Type 0} where
  infixl 5 ◌>>=◌ ◌>>◌
  abbrev pub ◌>>=◌ : {A B : Type 0} → N S A → (A → N S B) → N S B
  ◌>>=◌ m f s = elim (m s) [
    | none ↦ none
    | some exits ↦ some exits
    | some faults ↦ some faults
    | some (returns (a, s')) ↦ f a s'
  ]

  abbrev pub ◌>>◌ : {A B : Type 0} → N S A → N S B → N S B
  m >> k = m >>= λ _. k

  abbrev pub pure : {A : Type 0} → A → N S A
  pure a s = some (returns (a, s))

  abbrev pub fault : {A : Type 0} → N S A
  fault s = some faults

  -- What a pointer to the first element reads. An empty array, which the operation would write past,
  -- faults here at once.
  unfoldable pub first : {A : Type 0} → List A → N S A
  first [] = fault
  first (x ∷ xs) = pure x

  -- The index into `m_datasets`; other numbers read outside of it, which faults here before the call,
  -- also where the call would not reach a dataset.
  unfoldable pub which : ℤ → N S Which
  which dataset =
      if eq_ℤ dataset (pos 0)
      then pure source_index
      else (if eq_ℤ dataset (pos 1) then pure warped_index else fault)

module _ {G C Double : Type 0} where
  abbrev acquire : Native G C Double → Native G C Double
  acquire s = record s { jvm = record s.jvm { acquired = s.jvm.acquired + 1 } }

  abbrev release : Native G C Double → Native G C Double
  release s = record s { jvm = record s.jvm { released = s.jvm.released + 1 } }

  -- Get<Type>ArrayElements, which copies the array.
  unfoldable pub get_int_elements : ℕ → N (Native G C Double) (List ℤ)
  get_int_elements r s = pure (s.jvm.ints r) (acquire s)

  unfoldable pub get_long_elements : ℕ → N (Native G C Double) (List ℕ)
  get_long_elements r s = pure (s.jvm.longs r) (acquire s)

  unfoldable pub get_double_elements : ℕ → N (Native G C Double) (List Double)
  get_double_elements r s = pure (s.jvm.doubles r) (acquire s)

  unfoldable pub get_byte_elements : ℕ → N (Native G C Double) (List ℕ)
  get_byte_elements r s = pure (s.jvm.bytes r) (acquire s)

  -- Release<Type>ArrayElements with mode 0, which copies back.
  unfoldable pub release_int_elements : ℕ → List ℤ → N (Native G C Double) (Unit {0})
  release_int_elements r xs s =
      pure tt (release (record s { jvm = record s.jvm { ints = store s.jvm.ints r xs } }))

  unfoldable pub release_long_elements : ℕ → List ℕ → N (Native G C Double) (Unit {0})
  release_long_elements r xs s =
      pure tt (release (record s { jvm = record s.jvm { longs = store s.jvm.longs r xs } }))

  unfoldable pub release_double_elements : ℕ → List Double → N (Native G C Double) (Unit {0})
  release_double_elements r xs s =
      pure tt (release (record s { jvm = record s.jvm { doubles = store s.jvm.doubles r xs } }))

  unfoldable pub release_byte_elements : ℕ → List ℕ → N (Native G C Double) (Unit {0})
  release_byte_elements r xs s =
      pure tt (release (record s { jvm = record s.jvm { bytes = store s.jvm.bytes r xs } }))

  -- GetPrimitiveArrayCritical and ReleasePrimitiveArrayCritical with mode 0, for an array of bytes. The
  -- first may hand out the array itself; nothing else runs in Java until the second.
  unfoldable pub get_primitive_array_critical : ℕ → N (Native G C Double) (List ℕ)
  get_primitive_array_critical r s = pure (s.jvm.bytes r) (acquire s)

  unfoldable pub release_primitive_array_critical : ℕ → List ℕ → N (Native G C Double) (Unit {0})
  release_primitive_array_critical r xs s =
      pure tt (release (record s { jvm = record s.jvm { bytes = store s.jvm.bytes r xs } }))

  -- The same as the releases above with JNI_ABORT, which copies nothing.
  unfoldable pub abort_int_elements : N (Native G C Double) (Unit {0})
  abort_int_elements s = pure tt (release s)

  -- GetStringUTFChars and ReleaseStringUTFChars
  unfoldable pub get_string_chars : ℕ → N (Native G C Double) String
  get_string_chars r s = pure (s.jvm.texts r) (acquire s)

  unfoldable pub release_string_chars : N (Native G C Double) (Unit {0})
  release_string_chars s = pure tt (release s)

  -- GetArrayLength of an array of bytes and of one of objects, and the elements of the latter
  unfoldable pub get_byte_length : ℕ → N (Native G C Double) ℕ
  get_byte_length r s = pure (length (s.jvm.bytes r)) s

  unfoldable pub get_objects : ℕ → N (Native G C Double) (List ℕ)
  get_objects r s = pure (s.jvm.objects r) s

module _ (gdal : Gdal) (lru : LruCache) (draws : ℕ → ℕ) (string_hash : String → ℕ) (fuel : ℕ)
    (env : Surroundings) where
  open gdal use {G, Double}
  open lru use {C}

  -- A call of an entry point of src/bindings.cpp, with `copies` as the number of copies.
  unfoldable pub enter :
      {S : Type 0} → Entry gdal lru draws string_hash S → ℕ → ℤ → S → N (Native G C Double) (ℤ × S)
  enter f token attempts memory s = elim (f fuel env token attempts copies memory s.lib) [
    | none ↦ none
    | some exits ↦ some exits
    | some faults ↦ some faults
    | some (returns (code, memory', lib)) ↦ pure (code, memory') (record s { lib = lib })
  ]
