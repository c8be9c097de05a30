-- ===== src/Jni/Setup/ReadBack.antt =====
-- The options of Java arrive at src/tokens.cpp through the array of com_azavea_gdal_GDALWarp.c.
use gdal_warp_bindings.Base.{
  ℕ, zero, suc, ◌+◌, ◌<◌, ◌≤◌, ◌≡◌, ◌≢◌, refl, sym, ap, ◌∙◌, String, List, [], ◌∷◌, ◌++◌, map,
  append_assoc, none, some, true, false, length, length-append, length-replicate, ◌⊎◌, inl, inr,
  Bool-cases, set, ltb, replicate, arith,
}
use gdal_warp_bindings.Types.{UriOptions}
use gdal_warp_bindings.Errno.{returns, faults}
use gdal_warp_bindings.Gdal.{Gdal}
use gdal_warp_bindings.Tokens.{LruCache, LruLaws, Tokens, bad_token, query_token}
use gdal_warp_bindings.Tokens.Fresh.{is_taken, value_of, get_token_fresh}
use gdal_warp_bindings.Tokens
use gdal_warp_bindings.Jni.{Native, ◌>>=◌, get_string_chars, release_string_chars, get_objects}
use gdal_warp_bindings.Pointers.{
  write, Pointer, unset, null, chars, read_options, read_options_lem, set-append,
}
use gdal_warp_bindings.Jni.Setup.{
  max_options, obtain_options, in_bounds, release_options, ask_token, get_token,
}

write_below :
    (n total : ℕ) (p : Pointer)
    → n < total
    → write (replicate total unset) n p ≡ some (set (replicate total unset) n p)
unfolding write
write_below n total p h =
    let inside : ltb n (length (replicate total unset)) ≡ true =
      ground (arith, length-replicate {A = Pointer} total unset) in
    rw (write, inside) refl

write_past : (n total : ℕ) → total ≤ n → write (replicate total unset) n null ≡ none
unfolding write
write_past n total h =
    let outside : ltb n (length (replicate total unset)) ≡ false =
      ground (arith, length-replicate {A = Pointer} total unset) in
    rw (write, outside) refl

-- The array before the loop, with NULL at `n`.
array_before :
    (n total : ℕ)
    → n < total
    → (more : List Pointer) × (set (replicate total unset) n null
        ≡ replicate n unset ++ (null ∷ more))
array_before n zero few = absurd (omega arith)
array_before zero (suc total) few = (replicate total unset, refl)
array_before (suc n) (suc total) few =
    let (more, e) = array_before n total (omega arith) in (more, ap (◌∷◌ unset) e)

module _ {G C Double : Type 0} where
  -- With `n` more things obtained, and with `n` more released.
  abbrev obtained : ℕ → Native G C Double → Native G C Double
  obtained n s = record s { jvm = record s.jvm { acquired = s.jvm.acquired + n } }

  abbrev given : ℕ → Native G C Double → Native G C Double
  given n s = record s { jvm = record s.jvm { released = s.jvm.released + n } }

  release_options_lem :
      (i : ℕ) (refs : List ℕ) (s : Native G C Double)
      → i + length refs ≤ max_options
      → release_options i refs s ≡ some (returns (tt, given (length refs) s))
  unfolding release_options release_string_chars
  release_options_lem i [] s few =
      ap (λ n. some (returns (tt, record s { jvm = record s.jvm { released = n } }))) (omega arith)
  release_options_lem i (r ∷ refs) s few =
      let below : ltb i max_options ≡ true = ground arith in
      rw (release_options, below)
        (release_options_lem (i + 1) refs (given 1 s) (omega arith)
          ∙ ap (λ n. some (returns (tt, record s { jvm = record s.jvm { released = n } })))
              (omega arith))

  obtain_options_lem :
      (done more : List Pointer) (refs : List ℕ) (s : Native G C Double)
      → length done + length refs ≤ max_options
      → obtain_options
          (length done)
          refs
          (done ++ (replicate (length refs) unset ++ (null ∷ more)))
          s
        ≡ some (
            returns (
              done ++ (map (λ r. chars (s.jvm.texts r)) refs ++ (null ∷ more)),
              obtained (length refs) s,
            ))
  unfolding obtain_options get_string_chars
  obtain_options_lem done more [] s few =
      ap
        (λ n.
          some (returns (done ++ (null ∷ more), record s { jvm = record s.jvm { acquired = n } })))
        (omega arith)
  obtain_options_lem done more (r ∷ refs) s few =
      let text = chars (s.jvm.texts r) in
      let below : ltb (length done) max_options ≡ true = ground arith in
      let rest = replicate (length refs) unset ++ (null ∷ more) in
      let filled : set (done ++ (unset ∷ rest)) (length done) text ≡ (done ++ (text ∷ [])) ++ rest =
        set-append done rest unset text ∙ sym (append_assoc done (text ∷ []) rest) in
      let next : length (done ++ (text ∷ [])) ≡ length done + 1 = length-append done (text ∷ []) in
      let ih = obtain_options_lem (done ++ (text ∷ [])) more refs (obtained 1 s) (omega arith) in
      let texts = map (λ q. chars (s.jvm.texts q)) refs ++ (null ∷ more) in
      rw (obtain_options, below, ◌>>=◌, filled)
        (ap (λ i. obtain_options i refs ((done ++ (text ∷ [])) ++ rest) (obtained 1 s)) (sym next)
          ∙ ih
          ∙ ap (λ options. some (returns (options, obtained (length refs) (obtained 1 s))))
              (append_assoc done (text ∷ []) texts)
          ∙ ap
              (λ n. some (
                returns (done ++ (text ∷ texts), record s { jvm = record s.jvm { acquired = n } })))
              (omega arith))

map-chars :
    (heap : ℕ → String) (refs : List ℕ) → map (λ r. chars (heap r)) refs ≡ map chars (map heap refs)
map-chars heap [] = refl
map-chars heap (r ∷ refs) = ap (◌∷◌ (chars (heap r))) (map-chars heap refs)

module _ (gdal : Gdal) (lru : LruCache) (draws : ℕ → ℕ) where
  open gdal use {G, Double}
  open lru use {C}

  pub get_token-read_options :
      (fuel _uri _options token : ℕ) (s : Native G C Double) (tokens : Tokens C)
      → length (s.jvm.objects _options) < max_options
      → Tokens.get_token lru draws fuel s.lib.world.tid
          (s.jvm.texts _uri, map s.jvm.texts (s.jvm.objects _options))
          s.lib.tokens
        ≡ some (returns (token, tokens))
      → (s' : Native G C Double) × (get_token gdal lru draws fuel _uri _options s
          ≡ some (returns (token, s')))
        × (s'.lib ≡ record s.lib { tokens = tokens })
        × (s'.jvm.acquired + s.jvm.released ≡ s.jvm.acquired + s'.jvm.released)
  unfolding get_token get_string_chars get_objects release_string_chars ask_token in_bounds
  get_token-read_options fuel _uri _options token s tokens few asked =
      let refs = s.jvm.objects _options in
      let (more, e) = array_before (length refs) max_options few in
      let filled = obtain_options_lem [] more refs (obtained 1 s) (omega arith) in
      let read =
        ap (λ ps. read_options (ps ++ (null ∷ more))) (map-chars s.jvm.texts refs)
        ∙ read_options_lem (map s.jvm.texts refs) more in
      let below = write_below (length refs) max_options null few in
      let s1 = record s {
        jvm = record s.jvm { acquired = s.jvm.acquired + 1 + length refs };
        lib = record s.lib { tokens = tokens };
      } in
      let freed = release_options_lem 0 refs s1 (omega arith) in
      (
        record s {
          jvm = record s.jvm {
            acquired = s.jvm.acquired + 1 + length refs;
            released = s.jvm.released + length refs + 1;
          };
          lib = record s.lib { tokens = tokens };
        },
        rw (get_token, ◌>>=◌, below, e, filled, read, asked, freed) refl,
        refl,
        omega arith,
      )

  get_token_overflow :
      (fuel _uri _options : ℕ) (s : Native G C Double)
      → max_options ≤ length (s.jvm.objects _options)
      → get_token gdal lru draws fuel _uri _options s ≡ some faults
  unfolding get_token get_string_chars get_objects in_bounds
  get_token_overflow fuel _uri _options s many =
      rw (get_token, ◌>>=◌, write_past (length (s.jvm.objects _options)) max_options many) refl

  -- Let get_token of tokens.cpp return a token for the URI and the options of Java. Where these are fewer
  -- than 1024, they arrive through the array, Java is given the token, and all characters that were
  -- obtained are given back. Where they are 1024 or more, NULL is written past the array.
  pub get_token_arrives :
      (fuel _uri _options token : ℕ) (s : Native G C Double) (tokens : Tokens C)
      → Tokens.get_token lru draws fuel s.lib.world.tid
          (s.jvm.texts _uri, map s.jvm.texts (s.jvm.objects _options))
          s.lib.tokens
        ≡ some (returns (token, tokens))
      → ((length (s.jvm.objects _options) < max_options)
          × (s' : Native G C Double) × (get_token gdal lru draws fuel _uri _options s
              ≡ some (returns (token, s')))
          × (s'.lib ≡ record s.lib { tokens = tokens })
          × (s'.jvm.acquired + s.jvm.released ≡ s.jvm.acquired + s'.jvm.released))
        ⊎ ((max_options ≤ length (s.jvm.objects _options))
            × (get_token gdal lru draws fuel _uri _options s ≡ some faults))
  get_token_arrives fuel _uri _options token s tokens asked =
      elim (Bool-cases (ltb (length (s.jvm.objects _options)) max_options)) [
        | inl z ↦
            let few : length (s.jvm.objects _options) < max_options = ground arith in
            let (s', e, lib, given) =
              get_token-read_options fuel _uri _options token s tokens few asked in
            inl (few, s', e, lib, given)
        | inr z ↦
            let many : max_options ≤ length (s.jvm.objects _options) = ground arith in
            inr (many, get_token_overflow fuel _uri _options s many)
      ]

  -- Let the token cache be live and have room and its lock be free, let there be fewer than 1024
  -- options, and let one of the next `n + 1` draws be neither 0 nor in use. Then Java is given a token
  -- that is not 0 and was not in use, and a query of it answers exactly the URI and the options of Java,
  -- in their order. All characters that were obtained are given back.
  pub get_token_stands :
      (laws : LruLaws lru) (fuel n _uri _options : ℕ) (s : Native G C Double) (c : C)
      → s.lib.tokens.cache ≡ some c
      → s.lib.tokens.mutex ≡ none
      → 0 < laws.capacity c
      → is_taken lru draws c (draws (s.lib.tokens.drawn + n)) ≡ false
      → n + 1 < fuel
      → length (s.jvm.objects _options) < max_options
      → (token : ℕ) × (s' : Native G C Double) × (get_token gdal lru draws fuel _uri _options s
          ≡ some (returns (token, s')))
        × (token ≢ bad_token)
        × (lru.contains c token ≡ false)
        × (value_of lru draws (query_token lru draws s.lib.world.tid token s'.lib.tokens)
            ≡ returns (some (s.jvm.texts _uri, map s.jvm.texts (s.jvm.objects _options))))
        × (s'.jvm.acquired + s.jvm.released ≡ s.jvm.acquired + s'.jvm.released)
  get_token_stands laws fuel n _uri _options s c live unlocked room free enough few =
      let pair : UriOptions = (s.jvm.texts _uri, map s.jvm.texts (s.jvm.objects _options)) in
      let (token, tokens, e, good, fresh, answer) =
        get_token_fresh lru draws laws fuel n s.lib.world.tid pair s.lib.tokens c live unlocked room
          free enough in
      let (s', made, lib, freed) = get_token-read_options fuel _uri _options token s tokens few e in
      (
        token,
        s',
        made,
        good,
        fresh,
        ap (λ l. value_of lru draws (query_token lru draws s.lib.world.tid token l.tokens)) lib
            ∙ answer,
        freed,
      )
