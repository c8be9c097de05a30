-- ===== src/Jni/Pixels.antt =====
-- src/com_azavea_gdal_GDALWarp.c: the pixels, which Java reads as big-endian numbers. `little_endian`
-- says whether the host's numbers are little-endian, and so what htobe16, htobe32 and htobe64 do.
pub mod Swap
pub mod Reads
use gdal_warp_bindings.Base.{
  ℕ, zero, suc, ◌+◌, ◌-◌, ◌%◌, ◌^◌, String, List, [], ◌∷◌, ◌++◌, reverse, Option, none, some, Bool,
  true, false, ℤ, pos, eq_ℤ, ◌||◌, length, take, drop, leb, if◌then◌else◌,
}
use gdal_warp_bindings.Errno.{Outcome, returns, exits, faults}
use gdal_warp_bindings.Gdal.{Gdal, Bytes}
use gdal_warp_bindings.Tokens.{LruCache}
use gdal_warp_bindings.Bindings.{Surroundings}
use gdal_warp_bindings.Bindings.Entries
use gdal_warp_bindings.Jni.{
  Native, N, ◌>>=◌, ◌>>◌, pure, which, overwrite, get_int_elements, get_byte_elements,
  get_primitive_array_critical, release_primitive_array_critical, release_byte_elements,
  abort_int_elements, get_byte_length, enter,
}
use gdal_warp_bindings.Jni.Scalars.{J}

-- The bytes of the numbers that are swapped, by the type: none for all other types.
unfoldable pub swap_size : ℤ → Option ℕ
swap_size type =
    if eq_ℤ type (pos 3) || eq_ℤ type (pos 2) || eq_ℤ type (pos 8)
    then some 2
    else (if eq_ℤ type (pos 5)
          || eq_ℤ type (pos 4)
          || eq_ℤ type (pos 9)
          || eq_ℤ type (pos 6)
          || eq_ℤ type (pos 10)
        then some 4
        else (if eq_ℤ type (pos 7) || eq_ℤ type (pos 11) then some 8 else none))

-- The limit is a `size_t`, which wraps around where the array is shorter than a number.
unfoldable pub swap_limit : ℕ → ℕ → ℕ
swap_limit len size = (len + 2 ^ 64 - size) % 2 ^ 64

module _ (little_endian : Bool) where
  -- The bytes of a number of the host as a big-endian one.
  unfoldable pub htobe : Bytes → Bytes
  htobe word = if little_endian then reverse word else word

  -- `htobe64` as MinGW builds it: the two halves change places, and each goes through `htonl`.
  unfoldable pub htobe64 : Bytes → Bytes
  unfolding htobe
  htobe64 word = htobe (drop 4 word) ++ htobe (take 4 word)

  -- `*ptr = htobe(*ptr)` for the `size` bytes at `i`.
  unfoldable pub swap_at : ℕ → ℕ → Bytes → Bytes
  swap_at size i bytes =
      take i bytes ++ (htobe (take size (drop i bytes)) ++ drop size (drop i bytes))

  -- The loop, on fuel; `limit` is `length - size`. A number that is not whole inside the array faults.
  unfoldable pub swap_loop : ℕ → ℕ → ℕ → ℕ → Bytes → Option (Outcome Bytes)
  unfolding swap_at
  swap_loop zero size limit i bytes = none
  swap_loop (suc fuel) size limit i bytes = elim (leb i limit) [
    | false ↦ some (returns bytes)
    | true ↦ elim (leb (i + size) (length bytes)) [
      | false ↦ some faults
      | true ↦ swap_loop fuel size limit (i + size) (swap_at size i bytes)
    ]
  ]

  unfoldable pub swap : ℕ → ℤ → Bytes → Option (Outcome Bytes)
  swap fuel type bytes = elim (swap_size type) [
    | none ↦ some (returns bytes)
    | some size ↦ swap_loop fuel size (swap_limit (length bytes) size) 0 bytes
  ]

module _ {G C Double : Type 0} where
  unfoldable pub get_pixel_bytes : ℕ → N (Native G C Double) Bytes
  get_pixel_bytes _data s =
      (if s.gc_lock then get_primitive_array_critical _data else get_byte_elements _data) s

  unfoldable pub release_pixel_bytes : ℕ → Bytes → N (Native G C Double) (Unit {0})
  release_pixel_bytes _data bytes s =
      (if s.gc_lock
          then release_primitive_array_critical _data bytes
          else release_byte_elements _data bytes)
        s

  unfoldable pub swapped : Option (Outcome Bytes) → N (Native G C Double) Bytes
  swapped none s = none
  swapped (some exits) s = some exits
  swapped (some faults) s = some faults
  swapped (some (returns bytes)) s = pure bytes s

module _ (little_endian : Bool) (gdal : Gdal) (lru : LruCache) (draws : ℕ → ℕ)
    (string_hash : String → ℕ) (fuel : ℕ) (env : Surroundings) where
  -- `rounds` is the fuel of the loop over the numbers.
  unfoldable pub get_data :
      ℕ → ℕ → ℤ → ℤ → ℕ → ℕ → ℤ → ℤ → ℕ → J gdal lru draws string_hash fuel env
  unfolding swap
  get_data rounds token dataset attempts _src_window _dst_window band_number type _data = do
    src_window ← get_int_elements _src_window
    dst_window ← get_int_elements _dst_window
    bytes ← get_pixel_bytes _data
    d ← which dataset
    (retval, read) ←
        enter gdal lru draws string_hash fuel env
          (Entries.get_data gdal lru draws string_hash 0 d src_window dst_window band_number type)
          token attempts bytes
    bytes' ← swapped (swap little_endian rounds type (overwrite bytes read))
    release_pixel_bytes _data bytes'
    abort_int_elements
    abort_int_elements
    pure retval
