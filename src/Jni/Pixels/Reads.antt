-- ===== src/Jni/Pixels/Reads.antt =====
-- `get_data` of com_azavea_gdal_GDALWarp.c as a whole: the read, the byte order, and what is given back.
use gdal_warp_bindings.Base.{
  ℕ, suc, ◌+◌, ◌*◌, ◌^◌, ◌≤◌, ◌<◌, ◌≡◌, refl, sym, ap, subst, String, List, [], ◌∷◌, some, Bool, ℤ,
  pos, length, Bool-cases, inl, inr, arith,
}
use gdal_warp_bindings.Errno.{returns}
use gdal_warp_bindings.Gdal.{Gdal, Bytes}
use gdal_warp_bindings.Dataset.Queries.{Which, source_index, warped_index}
use gdal_warp_bindings.Tokens.{LruCache}
use gdal_warp_bindings.Bindings.{Surroundings}
use gdal_warp_bindings.Bindings.Entries
use gdal_warp_bindings.Bindings.Entries.{Library, Left}
use gdal_warp_bindings.Bindings.Entries.Known.{get_data-Balanced}
use gdal_warp_bindings.Jni.{
  Native, ◌>>=◌, which, overwrite, copies, store, store_self, get_int_elements, get_byte_elements,
  get_primitive_array_critical, release_primitive_array_critical, release_byte_elements,
  abort_int_elements, enter,
}
use gdal_warp_bindings.Jni.Calls.{number}
use gdal_warp_bindings.Jni.Returns.{IsLive, Settled, settle}
use gdal_warp_bindings.Jni.Pixels.{
  swap_size, swap, get_pixel_bytes, release_pixel_bytes, swapped, get_data,
}
use gdal_warp_bindings.Jni.Pixels.Swap.{all_big_endian, swap-all_big_endian}

length-overwrite : {A : Type 0} (xs ys : List A) → length (overwrite xs ys) ≡ length xs
length-overwrite xs [] = refl
length-overwrite [] (y ∷ ys) = refl
length-overwrite (x ∷ xs) (y ∷ ys) = ap suc (length-overwrite xs ys)

module _ {G C Double : Type 0} where
  -- Both ways to the bytes are one to the model.
  get_pixel_bytes_lem :
      (_data : ℕ) (s : Native G C Double) → get_pixel_bytes _data s ≡ get_byte_elements _data s
  unfolding get_pixel_bytes get_byte_elements get_primitive_array_critical
  get_pixel_bytes_lem _data s = elim (Bool-cases s.gc_lock) [
    | inl z ↦ rw (z) refl
    | inr z ↦ rw (z) refl
  ]

  release_pixel_bytes_lem :
      (_data : ℕ) (bytes : Bytes) (s : Native G C Double)
      → release_pixel_bytes _data bytes s ≡ release_byte_elements _data bytes s
  unfolding release_pixel_bytes release_byte_elements release_primitive_array_critical
  release_pixel_bytes_lem _data bytes s = elim (Bool-cases s.gc_lock) [
    | inl z ↦ rw (z) refl
    | inr z ↦ rw (z) refl
  ]

module _ (little_endian : Bool) (gdal : Gdal) (lru : LruCache) (draws : ℕ → ℕ)
    (string_hash : String → ℕ) where
  open gdal use {G, Double}
  open lru use {C}

  -- After `get_data`, by what the query left and the bytes in their new order.
  abbrev after_data : Native G C Double → Library G C → ℕ → Bytes → Native G C Double
  after_data s lib _data bytes = record s {
    jvm = record s.jvm {
      bytes = store s.jvm.bytes _data bytes;
      acquired = s.jvm.acquired + 1 + 1 + 1;
      released = s.jvm.released + 1 + 1 + 1;
    };
    lib = lib;
  }

  get_data_steps :
      (fuel rounds : ℕ) (env : Surroundings) (token : ℕ) (d : Which) (attempts : ℤ) (_src _dst : ℕ)
      (band type : ℤ) (_data : ℕ) (s : Native G C Double) (left : Left G C Bytes) (bytes : Bytes)
      → Entries.get_data gdal lru draws string_hash 0 d
          (s.jvm.ints _src)
          (s.jvm.ints _dst)
          band
          type
          fuel
          env
          token
          attempts
          copies
          (s.jvm.bytes _data)
          s.lib
        ≡ some (returns left)
      → swap little_endian rounds type (overwrite (s.jvm.bytes _data) left.1) ≡ some (returns bytes)
      → get_data little_endian gdal lru draws string_hash fuel env rounds token
          (number d)
          attempts
          _src
          _dst
          band
          type
          _data
          s
        ≡ some (returns (left.0, after_data s left.2 _data bytes))
  unfolding get_data get_int_elements get_byte_elements which enter swapped abort_int_elements
      release_byte_elements
  get_data_steps fuel rounds env token source_index attempts _src _dst band type _data s left bytes
        e order =
      rw (◌>>=◌, get_pixel_bytes_lem, e, order, release_pixel_bytes_lem) refl
  get_data_steps fuel rounds env token warped_index attempts _src _dst band type _data s left bytes
        e order =
      rw (◌>>=◌, get_pixel_bytes_lem, e, order, release_pixel_bytes_lem) refl

  -- Let the library be live as for the other queries, the attempts positive, the dataset number 0 or 1,
  -- and the type one of numbers of `size` bytes, `count` of which, one at least, fit into the array. Then
  -- `get_data` returns the code of the query, whether the array is pinned or copied. Java finds what the
  -- query left in the array with each whole number in big-endian order, on a failure too, and as many
  -- arrays were given back as obtained.
  pub get_data_big_endian :
      (n rounds size count : ℕ) (env : Surroundings) (token : ℕ) (d : Which) (_src _dst : ℕ)
      (band type : ℤ) (_data : ℕ) (s : Native G C Double)
      → IsLive gdal lru draws string_hash s.lib
      → swap_size type ≡ some size
      → length (s.jvm.bytes _data) < 2 ^ 31
      → 1 ≤ count
      → count * size ≤ length (s.jvm.bytes _data)
      → length (s.jvm.bytes _data) < suc count * size
      → count < rounds
      → (left : Left G C Bytes) × (s' : Native G C Double) × (Entries.get_data gdal lru draws
            string_hash 0 d
            (s.jvm.ints _src)
            (s.jvm.ints _dst)
            band
            type
            (n + 3)
            env
            token
            (pos (suc n))
            copies
            (s.jvm.bytes _data)
            s.lib
          ≡ some (returns left))
        × (get_data little_endian gdal lru draws string_hash
              (n + 3)
              env
              rounds
              token
              (number d)
              (pos (suc n))
              _src
              _dst
              band
              type
              _data
              s
            ≡ some (returns (left.0, s')))
        × (s'.jvm.bytes _data
            ≡ all_big_endian little_endian size count (overwrite (s.jvm.bytes _data) left.1))
        × Settled gdal lru draws string_hash 0 s s'
  get_data_big_endian n rounds size count env token d _src _dst band type _data s ok sized small one
        low high enough =
      let (left, e, b) =
        get_data-Balanced gdal lru draws string_hash d (s.jvm.ints _src) (s.jvm.ints _dst) band type
          n 0 env token copies (s.jvm.bytes _data) s.lib ok.content ok.live ok.unlocked ok.bounded
          ok.sized in
      let read = overwrite (s.jvm.bytes _data) left.1 in
      let same : length (s.jvm.bytes _data) ≡ length read =
        sym (length-overwrite (s.jvm.bytes _data) left.1) in
      let order =
        swap-all_big_endian little_endian rounds count size type read sized
          (subst (λ k. k < 2 ^ 31) same small) one (subst (λ k. count * size ≤ k) same low)
          (subst (λ k. k < suc count * size) same high) enough in
      let bytes = all_big_endian little_endian size count read in
      (
        left,
        after_data s left.2 _data bytes,
        e,
        get_data_steps (n + 3) rounds env token d (pos (suc n)) _src _dst band type _data s left
            bytes e order,
        store_self s.jvm.bytes _data bytes,
        settle gdal lru draws string_hash 0 s (after_data s left.2 _data bytes) left b refl
            (omega arith),
      )
