-- ===== src/Jni/Texts.antt =====
-- src/com_azavea_gdal_GDALWarp.c: the queries of metadata, whose results are texts in arrays of bytes.
-- CSLDestroy only frees the list that the library allocated. `utf_chars` gives the characters of a
-- Java string as GetStringUTFChars does.
pub mod Java
pub mod Lists
pub mod Given
pub mod Reading
pub mod Debts
pub mod Items
use gdal_warp_bindings.Base.{
  ℕ, ◌+◌, String, List, [], ◌∷◌, Option, none, some, Bool, true, false, ℤ, pos, ltb_ℤ, length, set,
  ltb, if◌then◌else◌,
}
use gdal_warp_bindings.Gdal.{Gdal, Bytes}
use gdal_warp_bindings.Dataset.Queries.Whole.{strncpy}
use gdal_warp_bindings.Tokens.{LruCache}
use gdal_warp_bindings.Bindings.{Surroundings}
use gdal_warp_bindings.Bindings.Entries
use gdal_warp_bindings.Jni.{
  Native, N, ◌>>=◌, ◌>>◌, pure, fault, which, app_defined, get_byte_elements, release_byte_elements,
  get_byte_length, get_objects, get_string_chars, release_string_chars, enter,
}
use gdal_warp_bindings.Jni.Scalars.{wants, J}

-- What the copy of a text that fits leaves in an array: the text and a zero byte.
unfoldable pub written : Bytes → Bytes → Bytes
written text bytes = set (strncpy bytes text (length text)) (length text) 0

-- What stands for the empty text: a space and a zero byte.
unfoldable pub blank : Bytes → Bytes
blank bytes = set (set bytes 0 32) 1 0

-- The list that the library returned; a null pointer gives no text.
unfoldable pub listed : Option (List Bytes) → List Bytes
listed none = []
listed (some texts) = texts

module _ {G C Double : Type 0} where
  -- The body of the loop: one text into one array. It says whether the text fitted.
  unfoldable pub put_text : Bytes → ℕ → N (Native G C Double) Bool
  put_text [] array = do
    bytes ← get_byte_elements array
    wants 2 bytes
    release_byte_elements array (blank bytes)
    pure true
  put_text (c ∷ text) array = do
    bytes ← get_byte_elements array
    array_size ← get_byte_length array
    if ltb (length (c ∷ text) + 1) array_size
        then (do release_byte_elements array (written (c ∷ text) bytes); pure true)
        else (do release_byte_elements array bytes; pure false)

  -- The loop, with the arrays that are left from index `i`: `none` where a text did not fit.
  unfoldable pub put_texts : List Bytes → List ℕ → N (Native G C Double) (Option (List ℕ))
  put_texts [] arrays = pure (some arrays)
  put_texts (text ∷ texts) [] = pure (some [])
  put_texts (text ∷ texts) (array ∷ arrays) = do
    fitted ← put_text text array
    if fitted then put_texts texts arrays else pure none

  -- What follows the loop, by the arrays that are left: none means `i == max_size`, and a single one
  -- that `i < max_size - 1` does not hold.
  unfoldable pub end_texts : Option (List ℕ) → ℤ → N (Native G C Double) ℤ
  end_texts none retval = pure app_defined
  end_texts (some []) retval = pure app_defined
  end_texts (some (array ∷ [])) retval = pure retval
  end_texts (some (array ∷ other ∷ arrays)) retval = do
    bytes ← get_byte_elements array
    wants 1 bytes
    release_byte_elements array (set bytes 0 0)
    pure retval

  unfoldable pub give_texts : ℤ → Option (List Bytes) → ℕ → N (Native G C Double) ℤ
  give_texts retval list _list = if ltb_ℤ retval (pos 0) then pure retval else (do
    arrays ← get_objects _list
    rest ← put_texts (listed list) arrays
    end_texts rest retval)

  -- The value of an item into one array: `-CPLE_AppDefined` where it does not fit. A null pointer
  -- faults in `strlen`.
  unfoldable pub put_value : ℤ → Option Bytes → Bytes → N (Native G C Double) (ℤ × Bytes)
  put_value retval none bytes = fault
  put_value retval (some value_src) bytes =
      if ltb (length value_src + 1) (length bytes)
      then pure (retval, written value_src bytes)
      else pure (app_defined, bytes)

  -- What `get_metadata_item` does with an answer. On a failure nothing is released.
  unfoldable pub give_value : ℤ → Option Bytes → Bytes → ℕ → N (Native G C Double) ℤ
  give_value retval value_src bytes _value = if ltb_ℤ retval (pos 0) then pure retval else (do
    (retval', bytes') ← put_value retval value_src bytes
    release_string_chars
    release_string_chars
    release_byte_elements _value bytes'
    pure retval')

module _ (gdal : Gdal) (lru : LruCache) (draws : ℕ → ℕ) (string_hash : String → ℕ)
    (utf_chars : String → Bytes) (fuel : ℕ) (env : Surroundings) where
  unfoldable pub get_metadata_domain_list :
      ℕ → ℤ → ℤ → ℤ → ℕ → J gdal lru draws string_hash fuel env
  get_metadata_domain_list token dataset attempts band_number _domain_list = do
    d ← which dataset
    (retval, domain_list) ←
        enter gdal lru draws string_hash fuel env
          (Entries.get_metadata_domain_list gdal lru draws string_hash d band_number) token attempts
          none
    give_texts retval domain_list _domain_list

  -- The characters of `_domain` are never released.
  unfoldable pub get_metadata : ℕ → ℤ → ℤ → ℤ → ℕ → ℕ → J gdal lru draws string_hash fuel env
  get_metadata token dataset attempts band_number _domain _list = do
    domain ← get_string_chars _domain
    d ← which dataset
    (retval, list) ←
        enter gdal lru draws string_hash fuel env
          (Entries.get_metadata gdal lru draws string_hash d band_number (utf_chars domain)) token
          attempts none
    give_texts retval list _list

  unfoldable pub get_metadata_item :
      ℕ → ℤ → ℤ → ℤ → ℕ → ℕ → ℕ → J gdal lru draws string_hash fuel env
  get_metadata_item token dataset attempts band_number _key _domain _value = do
    key ← get_string_chars _key
    domain ← get_string_chars _domain
    bytes ← get_byte_elements _value
    d ← which dataset
    (retval, value_src) ←
        enter gdal lru draws string_hash fuel env
          (Entries.get_metadata_item gdal lru draws string_hash d band_number (utf_chars key)
            (utf_chars domain))
          token attempts none
    give_value retval value_src bytes _value
