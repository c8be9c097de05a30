-- ===== src/Jni/Setup/Version.antt =====
-- What Java finds after `get_version_info` of com_azavea_gdal_GDALWarp.c.
use gdal_warp_bindings.Base.{
  ℕ, zero, suc, ◌+◌, ◌≤◌, ◌≡◌, refl, ap, ◌∙◌, [], ◌∷◌, some, pos, length, take, arith,
}
use gdal_warp_bindings.Errno.{returns}
use gdal_warp_bindings.Gdal.{Gdal, Bytes}
use gdal_warp_bindings.World.{World, run}
use gdal_warp_bindings.Dataset.Queries.Whole.{strncpy}
use gdal_warp_bindings.Tokens.{LruCache}
use gdal_warp_bindings.Jni.{
  Native, ◌>>=◌, store, store_self, get_string_chars, release_string_chars, get_byte_elements,
  release_byte_elements,
}
use gdal_warp_bindings.Jni.Setup.{in_world, get_version_info}

take-strncpy :
    (dst src : Bytes) (n : ℕ)
    → length src ≤ length dst
    → length src ≤ n
    → take (length src) (strncpy dst src n) ≡ src
unfolding strncpy
take-strncpy dst [] n fits enough = refl
take-strncpy [] (c ∷ src) n fits enough = absurd (omega arith)
take-strncpy (d ∷ dst) (c ∷ src) zero fits enough = absurd (omega arith)
take-strncpy (d ∷ dst) (c ∷ src) (suc n) fits enough =
    ap (◌∷◌ c) (take-strncpy dst src n (omega arith) (omega arith))

module _ (gdal : Gdal) (lru : LruCache) (draws : ℕ → ℕ) where
  open gdal use {G, Double}
  open lru use {C}

  -- Let the array be as long as the text that GDAL gives, as it is after Java has grown it. Then
  -- `get_version_info` returns the length of the text, as many bytes of the array are the text, and all
  -- that was obtained is given back.
  pub get_version_info-take :
      (_key _value : ℕ) (s : Native G C Double) (info : Bytes) (world : World G)
      → run (gdal.version_info (s.jvm.texts _key)) s.lib.world ≡ (info, world)
      → length info ≤ length (s.jvm.bytes _value)
      → (s' : Native G C Double) × (get_version_info gdal lru draws _key _value s
          ≡ some (returns (pos (length info), s')))
        × (take (length info) (s'.jvm.bytes _value) ≡ info)
        × (s'.jvm.acquired + s.jvm.released ≡ s.jvm.acquired + s'.jvm.released)
  unfolding get_version_info get_string_chars get_byte_elements release_string_chars
      release_byte_elements in_world
  get_version_info-take _key _value s info world asked fits =
      let bytes = strncpy (s.jvm.bytes _value) info (length (s.jvm.bytes _value)) in
      (
        record s {
          jvm = record s.jvm {
            bytes = store s.jvm.bytes _value bytes;
            acquired = s.jvm.acquired + 1 + 1;
            released = s.jvm.released + 1 + 1;
          };
          lib = record s.lib { world = world };
        },
        rw (◌>>=◌, asked) refl,
        ap (take (length info)) (store_self s.jvm.bytes _value bytes)
            ∙ take-strncpy (s.jvm.bytes _value) info (length (s.jvm.bytes _value)) fits fits,
        omega arith,
      )
