-- ===== src/Jni/Texts/Items.antt =====
-- What `get_metadata_item` of com_azavea_gdal_GDALWarp.c gives back, and what Java reads.
use gdal_warp_bindings.Base.{
  ℕ, ◌+◌, ◌≡◌, refl, ◌∙◌, String, Option, none, some, true, false, ℤ, pos, ltb_ℤ, ltb, length, ◌<◌,
  ◌≤◌, ◌⊎◌, inl, inr, Bool-cases, ap, arith,
}
use gdal_warp_bindings.Errno.{returns}
use gdal_warp_bindings.Gdal.{Gdal, Bytes}
use gdal_warp_bindings.Dataset.Queries.Protocol as Protocol
use gdal_warp_bindings.Dataset.Queries.{Which, source_index, warped_index}
use gdal_warp_bindings.Tokens.{LruCache}
use gdal_warp_bindings.Bindings.{Surroundings}
use gdal_warp_bindings.Bindings.Entries.{Library, Left}
use gdal_warp_bindings.Bindings.Entries.Calls.{call_entry}
use gdal_warp_bindings.Jni.{
  Native, ◌>>=◌, copies, app_defined, which, enter, store, store_self, get_string_chars,
  get_byte_elements, release_string_chars, release_byte_elements,
}
use gdal_warp_bindings.Jni.Calls.{number}
use gdal_warp_bindings.Jni.Texts.{get_metadata_item, put_value, give_value, written}
use gdal_warp_bindings.Jni.Texts.Java.{until_zero, trim, read_text}
use gdal_warp_bindings.Jni.Texts.Lists.{NoZero, written_shape}

module _ (gdal : Gdal) (lru : LruCache) (draws : ℕ → ℕ) (string_hash : String → ℕ)
    (utf_chars : String → Bytes) where
  open gdal use {G, Double}
  open lru use {C}

  -- After the three things that `get_metadata_item` obtains.
  abbrev asked : Native G C Double → Library G C → Native G C Double
  asked s lib = record s { jvm = record s.jvm { acquired = s.jvm.acquired + 1 + 1 + 1 }; lib = lib }

  -- And after they are given back.
  abbrev gave : Native G C Double → Library G C → ℕ → Bytes → Native G C Double
  gave s lib _value bytes = record s {
    jvm = record s.jvm {
      bytes = store s.jvm.bytes _value bytes;
      acquired = s.jvm.acquired + 1 + 1 + 1;
      released = s.jvm.released + 1 + 1 + 1;
    };
    lib = lib;
  }

  get_metadata_item_asked :
      (fuel : ℕ) (env : Surroundings) (token : ℕ) (d : Which) (attempts band : ℤ)
      (_key _domain _value : ℕ) (s : Native G C Double) (left : Left G C (Option Bytes))
      → call_entry gdal lru draws string_hash
          (Protocol.metadata_item d band
            (utf_chars (s.jvm.texts _key))
            (utf_chars (s.jvm.texts _domain)))
          fuel
          env
          token
          attempts
          copies
          none
          s.lib
        ≡ some (returns left)
      → get_metadata_item gdal lru draws string_hash utf_chars fuel env token
          (number d)
          attempts
          band
          _key
          _domain
          _value
          s
        ≡ give_value left.0 left.1 (s.jvm.bytes _value) _value (asked s left.2)
  unfolding get_metadata_item call_entry get_string_chars get_byte_elements which enter
  get_metadata_item_asked fuel env token source_index attempts band _key _domain _value s left e =
      rw (e, ◌>>=◌) refl
  get_metadata_item_asked fuel env token warped_index attempts band _key _domain _value s left e =
      rw (e, ◌>>=◌) refl

  -- Let the query of `get_metadata_item` fail. Then the function gives back none of the three things
  -- that it obtained: the characters of the key and of the domain, and the bytes of the value.
  pub get_metadata_item_failed :
      (fuel : ℕ) (env : Surroundings) (token : ℕ) (d : Which) (attempts band : ℤ)
      (_key _domain _value : ℕ) (s : Native G C Double) (left : Left G C (Option Bytes))
      → call_entry gdal lru draws string_hash
          (Protocol.metadata_item d band
            (utf_chars (s.jvm.texts _key))
            (utf_chars (s.jvm.texts _domain)))
          fuel
          env
          token
          attempts
          copies
          none
          s.lib
        ≡ some (returns left)
      → ltb_ℤ left.0 (pos 0) ≡ true
      → (s' : Native G C Double) × (get_metadata_item gdal lru draws string_hash utf_chars fuel env
            token
            (number d)
            attempts
            band
            _key
            _domain
            _value
            s
          ≡ some (returns (left.0, s')))
        × (s'.jvm.acquired ≡ s.jvm.acquired + 3)
        × (s'.jvm.released ≡ s.jvm.released)
  unfolding give_value
  get_metadata_item_failed fuel env token d attempts band _key _domain _value s left e failed = (
    asked s left.2,
    get_metadata_item_asked fuel env token d attempts band _key _domain _value s left e
        ∙ rw (failed) refl,
    omega arith,
    refl,
  )

  -- Let the query of `get_metadata_item` succeed with a value without zero bytes. Then the function gives
  -- back all that it obtained. Where the array has room for the value and two bytes more, it returns the
  -- code of the query, the bytes before the first zero in the array are the value, and Java reads the
  -- value as `String.trim` leaves it; where it has not, it returns -CPLE_AppDefined and the array is as
  -- before.
  pub get_metadata_item_found :
      (fuel : ℕ) (env : Surroundings) (token : ℕ) (d : Which) (attempts band : ℤ)
      (_key _domain _value : ℕ) (s : Native G C Double) (k : ℕ) (value : Bytes) (lib : Library G C)
      → call_entry gdal lru draws string_hash
          (Protocol.metadata_item d band
            (utf_chars (s.jvm.texts _key))
            (utf_chars (s.jvm.texts _domain)))
          fuel
          env
          token
          attempts
          copies
          none
          s.lib
        ≡ some (returns (pos k, some value, lib))
      → NoZero value
      → (code : ℤ) × (s' : Native G C Double) × (get_metadata_item gdal lru draws string_hash
            utf_chars fuel env token
            (number d)
            attempts
            band
            _key
            _domain
            _value
            s
          ≡ some (returns (code, s')))
        × (s'.jvm.acquired + s.jvm.released ≡ s.jvm.acquired + s'.jvm.released)
        × (((length value + 1 < length (s.jvm.bytes _value))
              × (code ≡ pos k)
              × (until_zero (s'.jvm.bytes _value) ≡ value)
              × (read_text (s'.jvm.bytes _value) ≡ trim value))
            ⊎ ((length (s.jvm.bytes _value) ≤ length value + 1)
                × (code ≡ app_defined)
                × (s'.jvm.bytes _value ≡ s.jvm.bytes _value)))
  unfolding read_text give_value put_value written release_string_chars release_byte_elements
  get_metadata_item_found fuel env token d attempts band _key _domain _value s k value lib e nz =
      let go =
        get_metadata_item_asked fuel env token d attempts band _key _domain _value s
          (pos k, some value, lib) e in
      let bytes = s.jvm.bytes _value in
      let fine : ltb k 0 ≡ false = ground arith in
      elim (Bool-cases (ltb (length value + 1) (length bytes))) [
        | inl z ↦
            let held : until_zero (store s.jvm.bytes _value (written value bytes) _value) ≡ value =
              ap until_zero (store_self s.jvm.bytes _value _)
              ∙ written_shape value bytes nz (ground arith) in
            (
              pos k,
              gave s lib _value (written value bytes),
              go ∙ rw (fine, z) refl,
              omega arith,
              inl (ground arith, refl, held, ap trim held),
            )
        | inr z ↦ (
          app_defined,
          gave s lib _value bytes,
          go ∙ rw (fine, z) refl,
          omega arith,
          inr (ground arith, refl, store_self s.jvm.bytes _value _),
        )
      ]
