-- ===== src/Jni/Session.antt =====
-- Sequences of calls from Java: what com_azavea_gdal_GDALWarp.c leaves lets the next call return.
use gdal_warp_bindings.Base.{
  ℕ, suc, ◌+◌, ◌*◌, ◌^◌, ◌≤◌, ◌<◌, ◌≡◌, refl, sym, ap, subst, ◌∙◌, String, Option, none, some, Bool,
  ℤ, pos, length, map, arith, inl, inr, Option-cases,
}
use gdal_warp_bindings.Types.{UriOptions}
use gdal_warp_bindings.Errno.{Outcome, returns, exits, faults}
use gdal_warp_bindings.Gdal.{Gdal}
use gdal_warp_bindings.Dataset.Queries.{Which}
use gdal_warp_bindings.Tokens.{LruCache, Tokens, first_token, find_token}
use gdal_warp_bindings.Tokens
use gdal_warp_bindings.Tokens.Fresh.{issued, unissued}
use gdal_warp_bindings.Cache.Uses.{uses, IsSized, Bounded}
use gdal_warp_bindings.Bindings.{Surroundings}
use gdal_warp_bindings.Jni.{Native, Jvm}
use gdal_warp_bindings.Jni.Calls.{number, JavaQuery, call_java, Fits}
use gdal_warp_bindings.Jni.Returns.{IsLive, Settled}
use gdal_warp_bindings.Jni.Returns.Queries.{call_java_returns}
use gdal_warp_bindings.Jni.Pixels.{swap_size, get_data}
use gdal_warp_bindings.Jni.Pixels.Reads.{get_data_big_endian}
use gdal_warp_bindings.Jni.Setup.{max_options, get_token}
use gdal_warp_bindings.Jni.Setup.ReadBack.{get_token-read_options}

-- A call ends in one state only.
abbrev state_of : {A S : Type 0} → S → Option (Outcome (A × S)) → S
state_of s none = s
state_of s (some exits) = s
state_of s (some faults) = s
state_of s (some (returns (a, s'))) = s'

same_state :
    {A S : Type 0} (o : Option (Outcome (A × S))) (a a' : A) (s s' : S)
    → o ≡ some (returns (a, s))
    → o ≡ some (returns (a', s'))
    → s ≡ s'
same_state o a a' s s' e e' = sym (ap (state_of s) e) ∙ ap (state_of s) e'

module _ (little_endian : Bool) (gdal : Gdal) (lru : LruCache) (draws : ℕ → ℕ)
    (string_hash : String → ℕ) where
  open gdal use {G, Double}
  open lru use {C}

  -- The states that Java reaches from `s`, by its own code, which may change its heap, by queries other
  -- than those of metadata, by reads of pixels and by asking for tokens.
  pub data Reaches (s : Native G C Double) : Native G C Double → Type 0 where
    start : Reaches s s
    java_code :
        (s1 : Native G C Double) (heap : Jvm Double)
        → Reaches s s1
        → heap.acquired ≡ s1.jvm.acquired
        → heap.released ≡ s1.jvm.released
        → Reaches s (record s1 { jvm = heap })
    query :
        (s1 s2 : Native G C Double) (n : ℕ) (env : Surroundings) (token : ℕ) (d : Which)
        (q : JavaQuery gdal lru draws string_hash) (retval : ℤ)
        → Reaches s s1
        → Fits gdal lru draws string_hash s1.jvm q
        → call_java gdal lru draws string_hash (n + 3) env token (number d) (pos (suc n)) q s1
          ≡ some (returns (retval, s2))
        → Reaches s s2
    pixels :
        (s1 s2 : Native G C Double) (n rounds size count : ℕ) (env : Surroundings) (token : ℕ)
        (d : Which) (_src _dst : ℕ) (band type : ℤ) (_data : ℕ) (retval : ℤ)
        → Reaches s s1
        → swap_size type ≡ some size
        → length (s1.jvm.bytes _data) < 2 ^ 31
        → 1 ≤ count
        → count * size ≤ length (s1.jvm.bytes _data)
        → length (s1.jvm.bytes _data) < suc count * size
        → count < rounds
        → get_data little_endian gdal lru draws string_hash
            (n + 3)
            env
            rounds
            token
            (number d)
            (pos (suc n))
            _src
            _dst
            band
            type
            _data
            s1
          ≡ some (returns (retval, s2))
        → Reaches s s2
    ask :
        (s1 s2 : Native G C Double) (fuel _uri _options token token' : ℕ) (tokens : Tokens C)
        → Reaches s s1
        → length (s1.jvm.objects _options) < max_options
        → Tokens.get_token lru draws fuel s1.lib.world.tid
            (s1.jvm.texts _uri, map s1.jvm.texts (s1.jvm.objects _options))
            s1.lib.tokens
          ≡ some (returns (token, tokens))
        → get_token gdal lru draws fuel _uri _options s1 ≡ some (returns (token', s2))
        → Reaches s s2

  -- What is left is live again.
  IsLive-again :
      (s s' : Native G C Double)
      → IsLive gdal lru draws string_hash s.lib
      → Settled gdal lru draws string_hash 0 s s'
      → IsLive gdal lru draws string_hash s'.lib
  IsLive-again s s' ok left = record {
    content = left.content;
    live = left.live;
    unlocked = left.unlocked;
    bounded = subst Bounded (sym left.counts) ok.bounded;
    sized = left.sized;
  }

  Settled-on :
      (s s1 s2 : Native G C Double)
      → Settled gdal lru draws string_hash 0 s s1
      → Settled gdal lru draws string_hash 0 s1 s2
      → Settled gdal lru draws string_hash 0 s s2
  Settled-on s s1 s2 a b = record {
    given_back = omega (arith, a.given_back, b.given_back);
    counts = b.counts ∙ a.counts;
    sized = b.sized;
    content = b.content;
    live = b.live;
    unlocked = b.unlocked;
  }

  -- A token that was given out leaves the token cache live with its lock free.
  given_live :
      (fuel tid : ℕ) (key : UriOptions) (ts ts' : Tokens C) (c : C) (token : ℕ)
      → ts.cache ≡ some c
      → ts.mutex ≡ none
      → Tokens.get_token lru draws fuel tid key ts ≡ some (returns (token, ts'))
      → (c' : C) × (ts'.cache ≡ some c') × (ts'.mutex ≡ none)
  given_live fuel tid key ts ts' c token live unlocked e =
      elim (Option-cases (find_token lru draws fuel c first_token ts.drawn)) [
        | inl z ↦ absurd (grind (arith, e, unissued lru draws fuel tid key ts c live unlocked z))
        | inr (found, z) ↦
            let e' = issued lru draws fuel tid key ts c found.0 found.1 live unlocked z in
            let same = same_state _ found.0 token _ ts' e' e in
            (lru.insert c found.0 key, ap (λ t. t.cache) (sym same), ap (λ t. t.mutex) (sym same))
      ]

  asked-Settled :
      (s s' : Native G C Double) (fuel _uri _options token token' : ℕ) (tokens : Tokens C)
      → IsLive gdal lru draws string_hash s.lib
      → length (s.jvm.objects _options) < max_options
      → Tokens.get_token lru draws fuel s.lib.world.tid
          (s.jvm.texts _uri, map s.jvm.texts (s.jvm.objects _options))
          s.lib.tokens
        ≡ some (returns (token, tokens))
      → get_token gdal lru draws fuel _uri _options s ≡ some (returns (token', s'))
      → Settled gdal lru draws string_hash 0 s s'
  asked-Settled s s' fuel _uri _options token token' tokens ok few e e' =
      let pair : UriOptions = (s.jvm.texts _uri, map s.jvm.texts (s.jvm.objects _options)) in
      let (s1, e1, lib, given) =
        get_token-read_options gdal lru draws fuel _uri _options token s tokens few e in
      let (c, live, free) =
        given_live fuel s.lib.world.tid pair s.lib.tokens tokens ok.content token ok.live
          ok.unlocked e in
      subst (Settled gdal lru draws string_hash 0 s) (same_state _ token token' s1 s' e1 e')
        (record {
          given_back = omega (arith, given);
          counts = ap (λ l. uses l.cache.slots) lib;
          sized = subst (λ l. IsSized l.cache) (sym lib) ok.sized;
          content = c;
          live = ap (λ l. l.tokens.cache) lib ∙ live;
          unlocked = ap (λ l. l.tokens.mutex) lib ∙ free;
        })

  pub Reaches-Settled :
      (s s' : Native G C Double)
      → IsLive gdal lru draws string_hash s.lib
      → Reaches s s'
      → Settled gdal lru draws string_hash 0 s s'
  Reaches-Settled s _ ok start = record {
    given_back = omega arith;
    counts = refl;
    sized = ok.sized;
    content = ok.content;
    live = ok.live;
    unlocked = ok.unlocked;
  }
  Reaches-Settled s _ ok (java_code s1 heap r a b) =
      let left = Reaches-Settled s s1 ok r in
      record {
        given_back = omega (arith, left.given_back, a, b);
        counts = left.counts;
        sized = left.sized;
        content = left.content;
        live = left.live;
        unlocked = left.unlocked;
      }
  Reaches-Settled s _ ok (query s1 s2 n env token d q retval r fits e) =
      let left = Reaches-Settled s s1 ok r in
      let (code, s3, e3, more) =
        call_java_returns gdal lru draws string_hash n env token d q s1 (IsLive-again s s1 ok left)
          fits in
      Settled-on s s1 s2 left
        (subst (Settled gdal lru draws string_hash 0 s1) (same_state _ code retval s3 s2 e3 e) more)
  Reaches-Settled s _ ok
        (pixels s1 s2 n rounds size count env token d _src _dst band type _data retval r sized small
          one low high enough e) =
      let left = Reaches-Settled s s1 ok r in
      let (asked, s3, e1, e3, bytes, more) =
        get_data_big_endian little_endian gdal lru draws string_hash n rounds size count env token d
          _src _dst band type _data s1 (IsLive-again s s1 ok left) sized small one low high
          enough in
      Settled-on s s1 s2 left (
        subst (Settled gdal lru draws string_hash 0 s1) (same_state _ asked.0 retval s3 s2 e3 e)
          more)
  Reaches-Settled s _ ok (ask s1 s2 fuel _uri _options token token' tokens r few e e') =
      let left = Reaches-Settled s s1 ok r in
      Settled-on s s1 s2 left (
        asked-Settled s1 s2 fuel _uri _options token token' tokens (IsLive-again s s1 ok left) few e
          e')

  -- Let Java begin with a live library, and reach a state by queries other than the three of metadata,
  -- reads of pixels, requests of tokens and its own code, with arrays of enough elements for each call,
  -- dataset numbers 0 or 1, and positive attempts. Then the next such query returns, on whatever token,
  -- and all in all as many things were given back as obtained, each slot of the cache is as often in use
  -- as at the start, the cache has its size, and the token cache is live with its lock free.
  pub Reaches-call_java :
      (s s1 : Native G C Double) (n : ℕ) (env : Surroundings) (token : ℕ) (d : Which)
      (q : JavaQuery gdal lru draws string_hash)
      → IsLive gdal lru draws string_hash s.lib
      → Reaches s s1
      → Fits gdal lru draws string_hash s1.jvm q
      → (retval : ℤ) × (s2 : Native G C Double) × (call_java gdal lru draws string_hash
            (n + 3)
            env
            token
            (number d)
            (pos (suc n))
            q
            s1
          ≡ some (returns (retval, s2)))
        × Settled gdal lru draws string_hash 0 s s2
  Reaches-call_java s s1 n env token d q ok r fits =
      let left = Reaches-Settled s s1 ok r in
      let (retval, s2, e, more) =
        call_java_returns gdal lru draws string_hash n env token d q s1 (IsLive-again s s1 ok left)
          fits in
      (retval, s2, e, Settled-on s s1 s2 left more)
