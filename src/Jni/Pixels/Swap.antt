-- ===== src/Jni/Pixels/Swap.antt =====
-- The byte swapping loops of com_azavea_gdal_GDALWarp.c against a plain description of their result.
use gdal_warp_bindings.Base.{
  ℕ, zero, suc, ◌+◌, ◌-◌, ◌*◌, ◌^◌, ◌≤◌, ◌<◌, ◌≡◌, refl, sym, ap, ◌∙◌, [], ◌++◌, reverse,
  reverse-append, reverse-reverse, take-append, drop-append, take_append_drop, length-take,
  length-drop, length-reverse, append_assoc, some, Bool, ◌⊎◌, inl, inr, ℤ, true, false, length,
  length-append, take, drop, leb, arith,
}
use gdal_warp_bindings.Errno.{returns, faults}
use gdal_warp_bindings.Gdal.{Bytes}
use gdal_warp_bindings.Jni.Pixels.{htobe, htobe64, swap_at, swap_loop, swap_limit, swap_size, swap}

-- The first `count` numbers of `size` bytes, each with its bytes in big-endian order.
unfoldable pub all_big_endian : Bool → ℕ → ℕ → Bytes → Bytes
all_big_endian little_endian size zero bytes = bytes
all_big_endian little_endian size (suc count) bytes =
    htobe little_endian (take size bytes)
    ++ all_big_endian little_endian size count (drop size bytes)

length-htobe :
    (little_endian : Bool) (word : Bytes) → length (htobe little_endian word) ≡ length word
unfolding htobe
length-htobe true word = length-reverse word
length-htobe false word = refl

htobe-htobe :
    (little_endian : Bool) (word : Bytes) → htobe little_endian (htobe little_endian word) ≡ word
unfolding htobe
htobe-htobe true word = reverse-reverse word
htobe-htobe false word = refl

-- MinGW's `htobe64` does to the eight bytes of a little-endian host what the others do.
htobe64-htobe : (word : Bytes) → htobe64 true word ≡ htobe true word
unfolding htobe64 htobe
htobe64-htobe word =
    sym (reverse-append (take 4 word) (drop 4 word)) ∙ ap reverse (take_append_drop 4 word)

leb_zero : (n : ℕ) → leb 0 n ≡ true
leb_zero n = ground arith

swap_limit_exact : (len size : ℕ) → size ≤ len → len < 2 ^ 31 → swap_limit len size ≡ len - size
unfolding swap_limit
swap_limit_exact len size fits small = ground arith

module _ (little_endian : Bool) where
  abbrev big : Bytes → Bytes
  big = htobe little_endian

  abbrev all : ℕ → ℕ → Bytes → Bytes
  all = all_big_endian little_endian

  -- The description on a number and what follows it.
  all-big_endian-append :
      (size count : ℕ) (word rest : Bytes)
      → length word ≡ size
      → all size (suc count) (word ++ rest) ≡ big word ++ all size count rest
  unfolding all_big_endian
  all-big_endian-append size count word rest e =
      let head : take size (word ++ rest) ≡ word =
        ap (λ n. take n (word ++ rest)) (sym e) ∙ take-append word rest in
      let tail : drop size (word ++ rest) ≡ rest =
        ap (λ n. drop n (word ++ rest)) (sym e) ∙ drop-append word rest in
      rw (head, tail) refl

  -- To swap all numbers twice restores the bytes.
  all_big_endian-all_big_endian :
      (size count : ℕ) (bytes : Bytes)
      → count * size ≤ length bytes
      → all_big_endian little_endian size count (all_big_endian little_endian size count bytes)
        ≡ bytes
  unfolding all_big_endian
  all_big_endian-all_big_endian size zero bytes room = refl
  all_big_endian-all_big_endian size (suc count) bytes room =
      let word = htobe little_endian (take size bytes) in
      let rest = all_big_endian little_endian size count (drop size bytes) in
      let whole : length word ≡ size =
        length-htobe little_endian (take size bytes) ∙ length-take size bytes (omega arith) in
      let tail : all size count (all size count (drop size bytes)) ≡ drop size bytes =
        all_big_endian-all_big_endian size count (drop size bytes)
          (omega (arith, length-drop size bytes)) in
      all-big_endian-append size count word rest whole
      ∙ rw (htobe-htobe little_endian (take size bytes), tail) (take_append_drop size bytes)

  -- One turn of the loop, past the numbers that are done.
  swap_at_done :
      (size : ℕ) (done rest : Bytes)
      → swap_at little_endian size (length done) (done ++ rest)
        ≡ (done ++ htobe little_endian (take size rest)) ++ drop size rest
  unfolding swap_at
  swap_at_done size done rest =
      rw (take-append done rest, drop-append done rest)
        (sym (append_assoc done (htobe little_endian (take size rest)) (drop size rest)))

  pub swap_loop_done :
      (fuel count size limit : ℕ) (done rest : Bytes)
      → count * size ≤ length rest
      → length rest < suc count * size
      → limit + size ≡ length done + length rest
      → count < fuel
      → swap_loop little_endian fuel size limit (length done) (done ++ rest)
        ≡ some (returns (done ++ all size count rest))
  unfolding swap_loop all_big_endian
  swap_loop_done zero count size limit done rest low high total enough = absurd (omega arith)
  swap_loop_done (suc fuel) zero size limit done rest low high total enough =
      let over : leb (length done) limit ≡ false = ground arith in rw (swap_loop, over) refl
  swap_loop_done (suc fuel) (suc count) size limit done rest low high total enough =
      let whole : length (done ++ rest) ≡ length done + length rest = length-append done rest in
      let more : leb (length done) limit ≡ true = ground arith in
      let inside : leb (length done + size) (length (done ++ rest)) ≡ true = ground arith in
      let word = big (take size rest) in
      let size_word : length word ≡ size =
        length-htobe little_endian (take size rest) ∙ length-take size rest (omega arith) in
      let next : length (done ++ word) ≡ length done + size =
        length-append done word ∙ ap (λ n. length done + n) size_word in
      let left = length-drop size rest in
      let ih =
        swap_loop_done fuel count size limit (done ++ word) (drop size rest) (omega arith)
          (omega arith) (omega arith) (omega arith) in
      rw (swap_loop, more, inside, swap_at_done size done rest)
        (ap (λ i. swap_loop little_endian fuel size limit i ((done ++ word) ++ drop size rest))
            (sym next)
          ∙ ih
          ∙ ap (λ bytes. some (returns bytes))
              (append_assoc done word (all size count (drop size rest))))

  pub swap-all_big_endian :
      (fuel count size : ℕ) (type : ℤ) (bytes : Bytes)
      → swap_size type ≡ some size
      → length bytes < 2 ^ 31
      → 1 ≤ count
      → count * size ≤ length bytes
      → length bytes < suc count * size
      → count < fuel
      → swap little_endian fuel type bytes
        ≡ some (returns (all_big_endian little_endian size count bytes))
  unfolding swap
  swap-all_big_endian fuel zero size type bytes sized small one low high enough =
      absurd (omega arith)
  swap-all_big_endian fuel (suc count) size type bytes sized small one low high enough =
      let fits : size ≤ length bytes = omega arith in
      rw (swap, sized, swap_limit_exact (length bytes) size fits small)
        (swap_loop_done fuel (suc count) size (length bytes - size) [] bytes low high (omega arith)
          enough)

  swap_short :
      (fuel size : ℕ) (type : ℤ) (bytes : Bytes)
      → swap_size type ≡ some size
      → length bytes < size
      → swap little_endian (suc fuel) type bytes ≡ some faults
  unfolding swap swap_loop
  swap_short fuel size type bytes sized short =
      let outside : leb (0 + size) (length bytes) ≡ false = ground arith in
      rw (swap, sized) (rw (swap_loop, leb_zero, outside) refl)

  -- Let the numbers of the type have `size` bytes, and let `count` of them fit into the array. Then with
  -- fuel for one turn more than that the loop ends. Where one fits at least, exactly the `count` whole
  -- numbers have become big-endian, and bytes after them stay. Where none fits, as in an empty array, the
  -- limit has wrapped around, and the first turn reads and writes past the array.
  pub swap_lem :
      (fuel count size : ℕ) (type : ℤ) (bytes : Bytes)
      → swap_size type ≡ some size
      → length bytes < 2 ^ 31
      → count * size ≤ length bytes
      → length bytes < suc count * size
      → count < fuel
      → ((1 ≤ count)
          × (swap little_endian fuel type bytes
              ≡ some (returns (all_big_endian little_endian size count bytes))))
        ⊎ ((count ≡ 0) × (swap little_endian fuel type bytes ≡ some faults))
  swap_lem zero count size type bytes sized small low high enough = absurd (omega arith)
  swap_lem (suc fuel) zero size type bytes sized small low high enough =
      inr (refl, swap_short fuel size type bytes sized (omega arith))
  swap_lem (suc fuel) (suc count) size type bytes sized small low high enough =
      let one : 1 ≤ suc count = omega arith in
      inl (
        one,
        swap-all_big_endian (suc fuel) (suc count) size type bytes sized small one low high enough,
      )
