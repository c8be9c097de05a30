-- ===== src/Jni/Returns/Queries.antt =====
-- The native functions of com_azavea_gdal_GDALWarp.c with number results return, and give back what they
-- obtained.
use gdal_warp_bindings.Base.{ℕ, suc, ◌+◌, ◌≡◌, refl, length, String, some, ℤ, pos, arith}
use gdal_warp_bindings.Errno.{returns}
use gdal_warp_bindings.Gdal.{Gdal}
use gdal_warp_bindings.Dataset.Queries.Protocol.{Query}
use gdal_warp_bindings.Dataset.Queries.Protocol as Protocol
use gdal_warp_bindings.Dataset.Queries.{Which}
use gdal_warp_bindings.Tokens.{LruCache}
use gdal_warp_bindings.Bindings.{Surroundings}
use gdal_warp_bindings.Bindings.Entries.Calls.{call_entry}
use gdal_warp_bindings.Jni.{
  Native, get_int_elements, get_long_elements, get_double_elements, get_byte_elements,
  release_int_elements, release_long_elements, release_double_elements, release_byte_elements,
}
use gdal_warp_bindings.Jni.Scalars
use gdal_warp_bindings.Jni.Calls.{
  number, JavaQuery, java_noop, java_block_size, java_histogram, java_offset, java_scale,
  java_band_nodata, java_color_interpretation, java_band_data_type, java_overview_widths_heights,
  java_crs_proj4, java_crs_wkt, java_band_count, java_width_height, java_transform,
  java_band_min_max, call_java, Fits,
}
use gdal_warp_bindings.Jni.Returns.{
  IsLive, Settled, Settles, settle, returned, after_first, after_which, after_first_two,
  after_wants, after_enter,
}

module _ (gdal : Gdal) (lru : LruCache) (draws : ℕ → ℕ) (string_hash : String → ℕ) where
  open gdal use {G, Double}
  open lru use {C}

  abbrev nothing : ℤ → ℕ
  nothing retval = 0

  call_java-Settles :
      (n : ℕ) (env : Surroundings) (token : ℕ) (d : Which)
      (q : JavaQuery gdal lru draws string_hash) (s : Native G C Double)
      → IsLive gdal lru draws string_hash s.lib
      → Fits gdal lru draws string_hash s.jvm q
      → Settles gdal lru draws string_hash nothing s
          (call_java gdal lru draws string_hash (n + 3) env token (number d) (pos (suc n)) q s)
  unfolding call_java call_entry Scalars.noop Scalars.get_block_size Scalars.get_histogram
      Scalars.get_offset Scalars.get_scale Scalars.get_color_interpretation
      Scalars.get_overview_widths_heights Scalars.get_crs_proj4 Scalars.get_crs_wkt
      Scalars.get_band_nodata Scalars.get_band_min_max Scalars.get_band_data_type
      Scalars.get_band_count Scalars.get_width_height Scalars.get_transform get_int_elements
      get_long_elements get_double_elements get_byte_elements release_int_elements
      release_long_elements release_double_elements release_byte_elements
  call_java-Settles n env token d java_noop s ok fits =
      after_enter gdal lru draws string_hash nothing n env (Protocol.noop) token _ _ s _ ok
        (λ left b. settle gdal lru draws string_hash 0 s _ left b refl (omega arith))
  call_java-Settles n env token d (java_block_size m w h) s ok fits =
      after_which gdal lru draws string_hash nothing n env d _ s _ (
        after_first gdal lru draws string_hash nothing n env (s.jvm.ints w) _ s _ fits.0 (λ _.
          after_first gdal lru draws string_hash nothing n env (s.jvm.ints h) _ s _ fits.1 (λ _.
            after_enter gdal lru draws string_hash nothing n env (Protocol.block_size d m) token _ _
              s _ ok
              (λ left b. settle gdal lru draws string_hash 0 s _ left b refl (omega arith)))))
  call_java-Settles n env token d (java_histogram m lo hi h out approx) s ok fits =
      after_which gdal lru draws string_hash nothing n env d _ s _ (
        after_enter gdal lru draws string_hash nothing n env
          (Protocol.histogram d m lo hi (pos (length (s.jvm.longs h))) out approx) token _ _ s _ ok
          (λ left b. settle gdal lru draws string_hash 0 s _ left b refl (omega arith)))
  call_java-Settles n env token d (java_offset m o t) s ok fits =
      after_which gdal lru draws string_hash nothing n env d _ s _ (
        after_first gdal lru draws string_hash nothing n env (s.jvm.doubles o) _ s _ fits.0 (λ _.
          after_first gdal lru draws string_hash nothing n env (s.jvm.ints t) _ s _ fits.1 (λ _.
            after_enter gdal lru draws string_hash nothing n env (Protocol.offset d m) token _ _ s _
              ok (λ left b. settle gdal lru draws string_hash 0 s _ left b refl (omega arith)))))
  call_java-Settles n env token d (java_scale m o t) s ok fits =
      after_which gdal lru draws string_hash nothing n env d _ s _ (
        after_first gdal lru draws string_hash nothing n env (s.jvm.doubles o) _ s _ fits.0 (λ _.
          after_first gdal lru draws string_hash nothing n env (s.jvm.ints t) _ s _ fits.1 (λ _.
            after_enter gdal lru draws string_hash nothing n env (Protocol.scale d m) token _ _ s _
              ok (λ left b. settle gdal lru draws string_hash 0 s _ left b refl (omega arith)))))
  call_java-Settles n env token d (java_band_nodata m o t) s ok fits =
      after_which gdal lru draws string_hash nothing n env d _ s _ (
        after_first gdal lru draws string_hash nothing n env (s.jvm.doubles o) _ s _ fits.0 (λ _.
          after_first gdal lru draws string_hash nothing n env (s.jvm.ints t) _ s _ fits.1 (λ _.
            after_enter gdal lru draws string_hash nothing n env (Protocol.band_nodata d m) token _
              _ s _ ok
              (λ left b. settle gdal lru draws string_hash 0 s _ left b refl (omega arith)))))
  call_java-Settles n env token d (java_color_interpretation m r) s ok fits =
      after_which gdal lru draws string_hash nothing n env d _ s _ (
        after_first gdal lru draws string_hash nothing n env (s.jvm.ints r) _ s _ fits (λ _.
          after_enter gdal lru draws string_hash nothing n env (Protocol.color_interpretation d m)
            token _ _ s _ ok
            (λ left b. settle gdal lru draws string_hash 0 s _ left b refl (omega arith))))
  call_java-Settles n env token d (java_band_data_type m r) s ok fits =
      after_which gdal lru draws string_hash nothing n env d _ s _ (
        after_first gdal lru draws string_hash nothing n env (s.jvm.ints r) _ s _ fits (λ _.
          after_enter gdal lru draws string_hash nothing n env (Protocol.band_data_type d m) token _
            _ s _ ok (λ left b. settle gdal lru draws string_hash 0 s _ left b refl (omega arith))))
  call_java-Settles n env token d (java_overview_widths_heights m w h) s ok fits =
      after_which gdal lru draws string_hash nothing n env d _ s _ (
        after_enter gdal lru draws string_hash nothing n env
          (Protocol.overview_widths_heights d m _) token _ _ s _ ok
          (λ left b. settle gdal lru draws string_hash 0 s _ left b refl (omega arith)))
  call_java-Settles n env token d (java_crs_proj4 r) s ok fits =
      after_which gdal lru draws string_hash nothing n env d _ s _ (
        after_enter gdal lru draws string_hash nothing n env
          (Protocol.crs_proj4 d (length (s.jvm.bytes r))) token _ _ s _ ok
          (λ left b. settle gdal lru draws string_hash 0 s _ left b refl (omega arith)))
  call_java-Settles n env token d (java_crs_wkt r) s ok fits =
      after_which gdal lru draws string_hash nothing n env d _ s _ (
        after_enter gdal lru draws string_hash nothing n env
          (Protocol.crs_wkt d (length (s.jvm.bytes r))) token _ _ s _ ok
          (λ left b. settle gdal lru draws string_hash 0 s _ left b refl (omega arith)))
  call_java-Settles n env token d (java_band_count r) s ok fits =
      after_which gdal lru draws string_hash nothing n env d _ s _ (
        after_first gdal lru draws string_hash nothing n env (s.jvm.ints r) _ s _ fits (λ _.
          after_enter gdal lru draws string_hash nothing n env (Protocol.band_count d) token _ _ s _
            ok (λ left b. settle gdal lru draws string_hash 0 s _ left b refl (omega arith))))
  call_java-Settles n env token d (java_width_height r) s ok fits =
      after_which gdal lru draws string_hash nothing n env d _ s _ (
        after_first_two gdal lru draws string_hash nothing n env (s.jvm.ints r) _ s _ fits (λ _.
          after_enter gdal lru draws string_hash nothing n env (Protocol.width_height d) token _ _ s
            _ ok (λ left b. settle gdal lru draws string_hash 0 s _ left b refl (omega arith))))
  call_java-Settles n env token d (java_transform r) s ok fits =
      after_which gdal lru draws string_hash nothing n env d _ s _ (
        after_wants gdal lru draws string_hash nothing n env 6 (s.jvm.doubles r) _ s _ fits (
          after_enter gdal lru draws string_hash nothing n env (Protocol.transform d) token _ _ s _
            ok (λ left b. settle gdal lru draws string_hash 0 s _ left b refl (omega arith))))
  call_java-Settles n env token d (java_band_min_max m approx mm t) s ok fits =
      after_which gdal lru draws string_hash nothing n env d _ s _ (
        after_first_two gdal lru draws string_hash nothing n env (s.jvm.doubles mm) _ s _ fits.0
          (λ _.
            after_first gdal lru draws string_hash nothing n env (s.jvm.ints t) _ s _ fits.1 (λ _.
              after_enter gdal lru draws string_hash nothing n env
                (Protocol.band_max_min d m approx) token _ _ s _ ok
                (λ left b. settle gdal lru draws string_hash 0 s _ left b refl (omega arith)))))

  -- Let the token cache be live with its lock free, the dataset cache have as many slots as its
  -- capacity says, the attempts be positive, the dataset number be 0 or 1, and the arrays have room
  -- for what is written. Then each native function whose results are numbers or a text of the
  -- coordinate system returns, on whatever token. On every path, the errors included, it has given
  -- back to the Java machine as many arrays as it obtained, each slot of the cache is as often in use
  -- as before, the cache has its size, and the token cache is live with its lock free.
  pub call_java_returns :
      (n : ℕ) (env : Surroundings) (token : ℕ) (d : Which)
      (q : JavaQuery gdal lru draws string_hash) (s : Native G C Double)
      → IsLive gdal lru draws string_hash s.lib
      → Fits gdal lru draws string_hash s.jvm q
      → (retval : ℤ) × (s' : Native G C Double) × (call_java gdal lru draws string_hash
            (n + 3)
            env
            token
            (number d)
            (pos (suc n))
            q
            s
          ≡ some (returns (retval, s')))
        × Settled gdal lru draws string_hash 0 s s'
  call_java_returns n env token d q s ok fits =
      returned gdal lru draws string_hash nothing s _ (call_java-Settles n env token d q s ok fits)
