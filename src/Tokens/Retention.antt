-- ===== src/Tokens/Retention.antt =====
-- How long a token of tokens.cpp stays valid.
use mathlib.Core.Bool.{false≢true}
use gdal_warp_bindings.Base.{
  ℕ, zero, suc, ◌+◌, ◌≤◌, ◌<◌, ◌≡◌, ◌≢◌, refl, sym, ap, subst, ◌∙◌, inl, inr, List, [], ◌∷◌, Option,
  none, some, false, take, length, Option-cases, arith,
}
use gdal_warp_bindings.Types.{UriOptions}
use gdal_warp_bindings.Errno.{returns}
use gdal_warp_bindings.Tokens.{
  LruCache, LruLaws, Tokens, Entries, lookup, remove, touch, is_some, bad_token, first_token,
  find_token, get_token, query_token,
}
use gdal_warp_bindings.Tokens.Fresh.{
  is_taken, find_token-free, value_of, issued, unissued, unqueried, queried_live,
}

-- The token stands for the pair and is among the `n` most recently used.
abbrev pub Near : ℕ → UriOptions → ℕ → Entries → Type 0
Near token v n es = lookup token (take n es) ≡ some v

Near-suc :
    (token : ℕ) (v : UriOptions) (n : ℕ) (es : Entries)
    → Near token v n es
    → Near token v (suc n) es
Near-suc token v zero es h = cc
Near-suc token v (suc n) [] h = h
Near-suc token v (suc n) ((j, x) ∷ es) h = ground (arith, Near-suc token v n es)

Near-lookup :
    (token : ℕ) (v : UriOptions) (n : ℕ) (es : Entries)
    → Near token v n es
    → lookup token es ≡ some v
Near-lookup token v zero es h = cc
Near-lookup token v (suc n) [] h = h
Near-lookup token v (suc n) ((j, x) ∷ es) h = ground (arith, Near-lookup token v n es)

Near-remove :
    (token k : ℕ) (v : UriOptions) (n : ℕ) (es : Entries)
    → k ≢ token
    → Near token v n es
    → Near token v n (remove k es)
Near-remove token k v zero es ne h = cc
Near-remove token k v (suc n) [] ne h = h
Near-remove token k v (suc n) ((j, x) ∷ es) ne h =
    ground (arith, Near-remove token k v n es ne, Near-suc token v n es)

Near-touch :
    (token k : ℕ) (v : UriOptions) (n : ℕ) (es : Entries)
    → Near token v n es
    → Near token v (suc n) (touch k es)
Near-touch token k v n es h =
    ground (arith, Near-suc token v n es h, Near-lookup token v n es h, Near-remove token k v n es)

take-take : (m n : ℕ) (es : Entries) → m ≤ n → take m (take n es) ≡ take m es
take-take zero n es h = refl
take-take (suc m) zero es h = absurd (omega arith)
take-take (suc m) (suc n) [] h = refl
take-take (suc m) (suc n) (e ∷ es) h = ap (◌∷◌ e) (take-take m n es (omega arith))

Near-insert :
    (token k cap : ℕ) (v w : UriOptions) (n : ℕ) (es : Entries)
    → k ≢ token
    → n < cap
    → Near token v n es
    → Near token v (suc n) (take cap ((k, w) ∷ es))
Near-insert token k cap v w n es ne room h =
    rw (take-take (suc n) cap ((k, w) ∷ es) room) (ground arith)

-- The calls that a process makes on its tokens.
pub data TokenCall : Type 0 where
  issues : UriOptions → TokenCall
  queries : ℕ → TokenCall

module _ (lru : LruCache) (draws : ℕ → ℕ) (fuel tid : ℕ) where
  open lru use {C}

  -- The state after a call that returns.
  unfoldable pub after_call : TokenCall → Tokens C → Option (Tokens C)
  after_call (issues key) ts = elim (get_token lru draws fuel tid key ts) [
    | some (returns (token, ts')) ↦ some ts'
    | _ ↦ none
  ]
  after_call (queries token) ts = elim (query_token lru draws tid token ts) [
    | returns (v, ts') ↦ some ts'
    | _ ↦ none
  ]

  unfoldable pub after_calls : List TokenCall → Tokens C → Option (Tokens C)
  after_calls [] ts = some ts
  after_calls (call ∷ calls) ts = elim (after_call call ts) [
    | none ↦ none
    | some ts' ↦ after_calls calls ts'
  ]

  module _ (laws : LruLaws lru) (token cap : ℕ) (v : UriOptions) where
    -- An unlocked state of capacity `cap` where the token is among the `n` most recently used.
    pub record Keeps (n : ℕ) (ts : Tokens C) : Type 0 where
      pub content : C
      pub live : ts.cache ≡ some content
      pub unlocked : ts.mutex ≡ none
      pub sized : laws.capacity content ≡ cap
      pub near : Near token v n (laws.entries content)

    other_token :
        (c : C) (n k : ℕ)
        → Near token v n (laws.entries c)
        → is_taken lru draws c k ≡ false
        → k ≢ token
    other_token c n k near free = λ same.
        let there = Near-lookup token v n (laws.entries c) near in
        let absent : lru.contains c k ≡ false = ground arith in
        false≢true (
          sym absent
          ∙ laws.contained c k
          ∙ ap (λ j. is_some (lookup j (laws.entries c))) same
          ∙ ap is_some there)

    issue-Keeps :
        (n : ℕ) (key : UriOptions) (ts ts' : Tokens C) (found : Option (ℕ × ℕ))
        → (k : Keeps n ts) → n < cap
        → find_token lru draws fuel k.content first_token ts.drawn ≡ found
        → after_call (issues key) ts ≡ some ts'
        → Keeps (suc n) ts'
    unfolding after_call
    issue-Keeps n key ts ts' none k room e done =
        let unmade = unissued lru draws fuel tid key ts k.content k.live k.unlocked e in
        ground arith
    issue-Keeps n key ts ts' (some (t, drawn)) k room e done =
        let c = k.content in
        let made = issued lru draws fuel tid key ts c t drawn k.live k.unlocked e in
        let free = find_token-free lru draws fuel c first_token ts.drawn t drawn e in
        let ne = other_token c n t k.near free in
        let new : lru.contains c t ≡ false = ground arith in
        let (entries, capacity) = laws.inserted c t key new in
        let same : record { cache = some (lru.insert c t key); mutex = none; drawn = drawn } ≡ ts' =
          ground arith in
        subst (Keeps (suc n)) same (record {
          content = lru.insert c t key;
          live = refl;
          unlocked = refl;
          sized = capacity ∙ k.sized;
          near =
              rw (entries, k.sized)
                (Near-insert token t cap v key n (laws.entries c) ne room k.near);
        })

    query-Keeps :
        (n other : ℕ) (ts ts' : Tokens C)
        → (k : Keeps n ts) → after_call (queries other) ts ≡ some ts'
        → Keeps (suc n) ts'
    unfolding after_call
    query-Keeps n zero ts ts' k done =
        let unchanged = unqueried lru draws tid ts in
        let same : ts ≡ ts' = ground arith in
        subst (Keeps (suc n)) same (record {
          content = k.content;
          live = k.live;
          unlocked = k.unlocked;
          sized = k.sized;
          near = Near-suc token v n (laws.entries k.content) k.near;
        })
    query-Keeps n (suc other) ts ts' k done =
        let c = k.content in
        let good : suc other ≢ bad_token = λ z. absurd (omega arith) in
        let made = queried_live lru draws tid (suc other) ts c k.live k.unlocked good in
        let after : Tokens C = record {
          cache = some (lru.get c (suc other)).1;
          mutex = none;
          drawn = ts.drawn;
        } in
        let same : after ≡ ts' = ground arith in
        let (value, entries, capacity) = laws.got c (suc other) in
        subst (Keeps (suc n)) same (record {
          content = (lru.get c (suc other)).1;
          live = refl;
          unlocked = refl;
          sized = capacity ∙ k.sized;
          near = rw entries (Near-touch token (suc other) v n (laws.entries c) k.near);
        })

    after_call-Keeps :
        (n : ℕ) (call : TokenCall) (ts ts' : Tokens C)
        → Keeps n ts
        → n < cap
        → after_call call ts ≡ some ts'
        → Keeps (suc n) ts'
    after_call-Keeps n (issues key) ts ts' k room done =
        issue-Keeps n key ts ts' (find_token lru draws fuel k.content first_token ts.drawn) k room
          refl done
    after_call-Keeps n (queries other) ts ts' k room done = query-Keeps n other ts ts' k done

    after_calls-Keeps :
        (n : ℕ) (calls : List TokenCall) (ts ts' : Tokens C)
        → Keeps n ts
        → n + length calls ≤ cap
        → after_calls calls ts ≡ some ts'
        → Keeps (n + length calls) ts'
    unfolding after_calls
    after_calls-Keeps n [] ts ts' k room done =
        let same : ts ≡ ts' = ground arith in
        let sum : n ≡ n + 0 = omega arith in subst (λ m. Keeps m ts') sum (subst (Keeps n) same k)
    after_calls-Keeps n (call ∷ calls) ts ts' k room done =
        elim (Option-cases (after_call call ts)) [
          | inl stopped ↦ absurd (ground arith)
          | inr (next, e) ↦
              let done' : after_calls calls next ≡ some ts' = ground arith in
              let k' = after_call-Keeps n call ts next k (omega arith) e in
              let later = after_calls-Keeps (suc n) calls next ts' k' (omega arith) done' in
              let sum : suc n + length calls ≡ n + length (call ∷ calls) = omega arith in
              subst (λ m. Keeps m ts') sum later
        ]

    -- Let the token cache be live and its lock be free. A token other than 0 that was just issued
    -- or queried stands for its pair after calls of `get_token` and `query_token` that return, if
    -- they are fewer than the capacity of the cache.
    pub query_token_retained :
        (calls : List TokenCall) (ts ts' : Tokens C) (c : C)
        → token ≢ bad_token
        → ts.cache ≡ some c
        → ts.mutex ≡ none
        → laws.capacity c ≡ cap
        → Near token v 1 (laws.entries c)
        → length calls < cap
        → after_calls calls ts ≡ some ts'
        → value_of lru draws (query_token lru draws tid token ts') ≡ returns (some v)
    query_token_retained calls ts ts' c good live unlocked sized near few done =
        let k =
          after_calls-Keeps 1 calls ts ts'
            (record { content = c; live = live; unlocked = unlocked; sized = sized; near = near })
            (omega arith) done in
        let n = 1 + length calls in
        ap (value_of lru draws)
          (queried_live lru draws tid token ts' k.content k.live k.unlocked good)
        ∙ ap returns
            ((laws.got k.content token).0 ∙ Near-lookup token v n (laws.entries k.content) k.near)
