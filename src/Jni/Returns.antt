-- ===== src/Jni/Returns.antt =====
-- The native functions of com_azavea_gdal_GDALWarp.c return, and give back what they obtained: one
-- rule for each of their steps.
pub mod Queries
use gdal_warp_bindings.Base.{
  ℕ, suc, ◌+◌, ◌≤◌, ◌≡◌, refl, length, ltb, false, sym, ap, subst, ◌∙◌, String, List, [], ◌∷◌,
  Option, none, some, Bool, ℤ, pos, negsuc, arith,
}
use gdal_warp_bindings.Errno.{Outcome, returns, exits, faults}
use gdal_warp_bindings.Gdal.{Gdal}
use gdal_warp_bindings.Dataset.Queries.Protocol.{Query}
use gdal_warp_bindings.Dataset.Queries.Protocol as Protocol
use gdal_warp_bindings.Dataset.Queries.{Which, source_index, warped_index}
use gdal_warp_bindings.Tokens.{LruCache}
use gdal_warp_bindings.Cache.Uses.{uses, IsSized, Bounded}
use gdal_warp_bindings.Bindings.{Surroundings}
use gdal_warp_bindings.Bindings.Entries.{Library, Left}
use gdal_warp_bindings.Bindings.Entries.Calls.{call_entry}
use gdal_warp_bindings.Bindings.Entries.Known.{Balanced, call_entry-Balanced}
use gdal_warp_bindings.Jni.{
  Native, Jvm, N, ◌>>=◌, ◌>>◌, pure, first, which, overwrite, copies, get_int_elements,
  get_long_elements, get_double_elements, get_byte_elements, release_int_elements,
  release_long_elements, release_double_elements, release_byte_elements, enter, fault,
}
use gdal_warp_bindings.Jni.Calls.{number}
use gdal_warp_bindings.Jni.Scalars.{
  first_two, wants, J, noop, get_block_size, get_histogram, get_offset, get_scale,
  get_color_interpretation, get_overview_widths_heights, get_crs_proj4, get_crs_wkt,
  get_band_nodata, get_band_min_max, get_band_data_type, get_band_count, get_width_height,
  get_transform,
}

module _ (gdal : Gdal) (lru : LruCache) (draws : ℕ → ℕ) (string_hash : String → ℕ) where
  open gdal use {G, Double}
  open lru use {C}

  -- A library between `init` and `deinit` with no call under way that holds the token lock.
  pub record IsLive (lib : Library G C) : Type 0 where
    pub content : C
    pub live : lib.tokens.cache ≡ some content
    pub unlocked : lib.tokens.mutex ≡ none
    pub bounded : Bounded (uses lib.cache.slots)
    pub sized : IsSized lib.cache

  -- What a native function may leave behind: `debt` more elements to give back than before, the use counts
  -- of the slots, the size of the cache, and a live token cache with its lock free.
  pub record Settled (debt : ℕ) (s s' : Native G C Double) : Type 0 where
    pub given_back : s'.jvm.acquired + s.jvm.released ≡ s.jvm.acquired + s'.jvm.released + debt
    pub counts : uses s'.lib.cache.slots ≡ uses s.lib.cache.slots
    pub sized : IsSized s'.lib.cache
    pub content : C
    pub live : s'.lib.tokens.cache ≡ some content
    pub unlocked : s'.lib.tokens.mutex ≡ none

  pub settle :
      (debt : ℕ) {S : Type 0} (s s' : Native G C Double) (left : Left G C S)
      → Balanced gdal lru draws string_hash s.lib left
      → s'.lib ≡ left.2
      → s'.jvm.acquired + s.jvm.released ≡ s.jvm.acquired + s'.jvm.released + debt
      → Settled debt s s'
  settle debt s s' left b e given = record {
    given_back = given;
    counts = ap (λ lib. uses lib.cache.slots) e ∙ b.counts;
    sized = subst (λ lib. IsSized lib.cache) (sym e) b.sized;
    content = b.content;
    live = ap (λ lib. lib.tokens.cache) e ∙ b.live;
    unlocked = ap (λ lib. lib.tokens.mutex) e ∙ b.unlocked;
  }

  -- A step that returns and settles.
  abbrev pub Settles :
      (ℤ → ℕ) → Native G C Double → Option (Outcome (ℤ × Native G C Double)) → Type 0
  Settles debt s none = ⊥
  Settles debt s (some exits) = ⊥
  Settles debt s (some faults) = ⊥
  Settles debt s (some (returns (retval, s'))) = Settled (debt retval) s s'

  pub returned :
      (debt : ℤ → ℕ) (s : Native G C Double) (o : Option (Outcome (ℤ × Native G C Double)))
      → Settles debt s o
      → (retval : ℤ) × (s' : Native G C Double) × (o ≡ some (returns (retval, s')))
        × Settled (debt retval) s s'
  returned debt s none h = elim h [ ]
  returned debt s (some exits) h = elim h [ ]
  returned debt s (some faults) h = elim h [ ]
  returned debt s (some (returns (retval, s'))) h = (retval, s', refl, h)

  module _ (n : ℕ) (env : Surroundings) where
    entered :
        {S : Type 0} (q : Query gdal S) (token : ℕ) (memory : S) (s : Native G C Double)
        → IsLive s.lib
        → (left : Left G C S) × (enter gdal lru draws string_hash
              (n + 3)
              env
              (call_entry gdal lru draws string_hash q)
              token
              (pos (suc n))
              memory
              s
            ≡ some (returns ((left.0, left.1), record s { lib = left.2 })))
          × Balanced gdal lru draws string_hash s.lib left
    unfolding enter
    entered q token memory s ok =
        let (left, e, b) =
          call_entry-Balanced gdal lru draws string_hash q n env token copies memory s.lib
            ok.content ok.live ok.unlocked ok.bounded ok.sized in
        (left, rw (e, enter) refl, b)

  module _ (debt : ℤ → ℕ) (n : ℕ) (env : Surroundings) where
    pub after_first :
        {A : Type 0} (xs : List A) (f : A → N (Native G C Double) ℤ) (s s1 : Native G C Double)
        → 1 ≤ length xs
        → ((x : A) → Settles debt s (f x s1))
        → Settles debt s ((first xs >>= f) s1)
    unfolding first
    after_first [] f s s1 fits h = absurd (omega arith)
    after_first (x ∷ xs) f s s1 fits h = h x

    pub after_enter :
        {S : Type 0} (q : Query gdal S) (token : ℕ) (memory : S)
        (f : ℤ × S → N (Native G C Double) ℤ) (s s1 : Native G C Double)
        → IsLive s1.lib
        → ((left : Left G C S)
            → Balanced gdal lru draws string_hash s1.lib left
            → Settles debt s (f (left.0, left.1) (record s1 { lib = left.2 })))
        → Settles debt s (
            (enter gdal lru draws string_hash
                  (n + 3)
                  env
                  (call_entry gdal lru draws string_hash q)
                  token
                  (pos (suc n))
                  memory
                >>= f)
              s1)
    after_enter q token memory f s s1 ok h =
        let (left, e, b) = entered n env q token memory s1 ok in rw (e, ◌>>=◌) (h left b)

    pub after_which :
        (d : Which) (f : Which → N (Native G C Double) ℤ) (s s1 : Native G C Double)
        → Settles debt s (f d s1)
        → Settles debt s ((which (number d) >>= f) s1)
    unfolding which
    after_which source_index f s s1 h = h
    after_which warped_index f s s1 h = h

    pub after_first_two :
        {A : Type 0} (xs : List A) (f : A × A → N (Native G C Double) ℤ) (s s1 : Native G C Double)
        → 2 ≤ length xs
        → ((p : A × A) → Settles debt s (f p s1))
        → Settles debt s ((first_two xs >>= f) s1)
    unfolding first_two
    after_first_two [] f s s1 fits h = absurd (omega arith)
    after_first_two (x ∷ []) f s s1 fits h = absurd (omega arith)
    after_first_two (x ∷ y ∷ xs) f s s1 fits h = h (x, y)

    pub after_wants :
        {A : Type 0} (k : ℕ) (xs : List A) (f : Unit {0} → N (Native G C Double) ℤ)
        (s s1 : Native G C Double)
        → k ≤ length xs
        → Settles debt s (f tt s1)
        → Settles debt s ((wants k xs >>= f) s1)
    unfolding wants
    after_wants k xs f s s1 enough h =
        let fits : ltb (length xs) k ≡ false = ground arith in rw (fits, ◌>>=◌) h
