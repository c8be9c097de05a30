-- ===== src/Tokens/Fresh.antt =====
-- The tokens that tokens.cpp gives out.
use gdal_warp_bindings.Base.{
  ℕ, zero, suc, ◌+◌, ◌<◌, ◌≡◌, ◌≢◌, refl, sym, ap, ◌∙◌, inl, inr, ◌∷◌, Option, none, some, Bool,
  true, false, ◌||◌, ◌==◌, take, Bool-cases, arith,
}
use gdal_warp_bindings.Types.{UriOptions}
use gdal_warp_bindings.Errno.{Outcome, returns, ◌>>=◌}
use gdal_warp_bindings.Tokens.{
  LruCache, LruLaws, Tokens, Entries, lookup, bad_token, first_token, find_token, get_token,
  query_token,
}

lookup-take_front :
    (n token : ℕ) (key : UriOptions) (es : Entries)
    → 0 < n
    → lookup token (take n ((token, key) ∷ es)) ≡ some key
lookup-take_front zero token key es h = absurd (omega arith)
lookup-take_front (suc n) token key es h = ground arith

module _ (lru : LruCache) (draws : ℕ → ℕ) where
  open lru use {C}

  -- A token that the loop of `get_token` does not accept.
  abbrev pub is_taken : C → ℕ → Bool
  is_taken c token = lru.contains c token || token == bad_token

  find_token_here :
      (fuel : ℕ) (c : C) (token drawn : ℕ)
      → is_taken c token ≡ false
      → find_token lru draws (suc fuel) c token drawn ≡ some (token, drawn)
  unfolding find_token
  find_token_here fuel c token drawn free = rw (free, find_token)

  find_token_on :
      (fuel : ℕ) (c : C) (token drawn : ℕ)
      → is_taken c token ≡ true
      → find_token lru draws (suc fuel) c token drawn
        ≡ find_token lru draws fuel c (draws drawn) (drawn + 1)
  unfolding find_token
  find_token_on fuel c token drawn taken = rw (taken, find_token)

  -- What the loop ends with is not taken.
  pub find_token-free :
      (fuel : ℕ) (c : C) (token drawn found drawn' : ℕ)
      → find_token lru draws fuel c token drawn ≡ some (found, drawn')
      → is_taken c found ≡ false
  unfolding find_token
  find_token-free zero c token drawn found drawn' e = cc
  find_token-free (suc fuel) c token drawn found drawn' e = elim (Bool-cases (is_taken c token)) [
    | inr here ↦
        let same : ◌≡◌ {A = Option (ℕ × ℕ)} (some (token, drawn)) (some (found, drawn')) =
          sym (find_token_here fuel c token drawn here) ∙ e in
        let t : token ≡ found = ground arith in sym (ap (is_taken c) t) ∙ here
    | inl taken ↦
        find_token-free fuel c (draws drawn) (drawn + 1) found drawn'
          (sym (find_token_on fuel c token drawn taken) ∙ e)
  ]

  abbrev pub Finds : ℕ → C → ℕ → ℕ → Type 0
  Finds fuel c token drawn =
      (found drawn' : ℕ) × (find_token lru draws fuel c token drawn ≡ some (found, drawn'))
      × (is_taken c found ≡ false)

  Finds-on :
      (fuel : ℕ) (c : C) (token drawn : ℕ)
      → is_taken c token ≡ true
      → Finds fuel c (draws drawn) (drawn + 1)
      → Finds (suc fuel) c token drawn
  Finds-on fuel c token drawn taken (found, drawn', e, fresh) =
      (found, drawn', find_token_on fuel c token drawn taken ∙ e, fresh)

  -- The loop ends at a token that is not taken, if one of the next draws is not.
  pub find_token_total :
      (fuel n : ℕ) (c : C) (token drawn : ℕ)
      → is_taken c (draws (drawn + n)) ≡ false
      → n + 1 < fuel
      → Finds fuel c token drawn
  find_token_total zero n c token drawn free enough = absurd (omega arith)
  find_token_total (suc zero) n c token drawn free enough = absurd (omega arith)
  find_token_total (suc (suc fuel)) zero c token drawn free enough =
      let e : drawn + 0 ≡ drawn = omega arith in
      let free' : is_taken c (draws drawn) ≡ false =
        ap (λ k. is_taken c (draws k)) (sym e) ∙ free in
      elim (Bool-cases (is_taken c token)) [
        | inr here ↦ (token, drawn, find_token_here (suc fuel) c token drawn here, here)
        | inl taken ↦
            Finds-on (suc fuel) c token drawn taken (
              draws drawn,
              drawn + 1,
              find_token_here fuel c (draws drawn) (drawn + 1) free',
              free',
            )
      ]
  find_token_total (suc (suc fuel)) (suc n) c token drawn free enough =
      let e : drawn + 1 + n ≡ drawn + suc n = omega arith in
      let free' : is_taken c (draws (drawn + 1 + n)) ≡ false =
        ap (λ k. is_taken c (draws k)) e ∙ free in
      let later = find_token_total (suc fuel) n c (draws drawn) (drawn + 1) free' (omega arith) in
      elim (Bool-cases (is_taken c token)) [
        | inr here ↦ (token, drawn, find_token_here (suc fuel) c token drawn here, here)
        | inl taken ↦ Finds-on (suc fuel) c token drawn taken later
      ]

  -- The pair that `query_token` gives for a token.
  abbrev pub value_of : Outcome (Option UriOptions × Tokens C) → Outcome (Option UriOptions)
  value_of o = o >>= λ r. returns r.0

  pub issued :
      (fuel tid : ℕ) (key : UriOptions) (ts : Tokens C) (c : C) (token drawn : ℕ)
      → ts.cache ≡ some c
      → ts.mutex ≡ none
      → find_token lru draws fuel c first_token ts.drawn ≡ some (token, drawn)
      → get_token lru draws fuel tid key ts
        ≡ some (
            returns (
              token,
              record { cache = some (lru.insert c token key); mutex = none; drawn = drawn },
            ))
  unfolding get_token
  issued fuel tid key ts c token drawn live free e = ground arith

  pub unissued :
      (fuel tid : ℕ) (key : UriOptions) (ts : Tokens C) (c : C)
      → ts.cache ≡ some c
      → ts.mutex ≡ none
      → find_token lru draws fuel c first_token ts.drawn ≡ none
      → get_token lru draws fuel tid key ts ≡ none
  unfolding get_token
  unissued fuel tid key ts c live unlocked e = ground arith

  queried :
      (tid token : ℕ) (c : C) (drawn : ℕ)
      → token ≢ bad_token
      → query_token lru draws tid token (record { cache = some c; mutex = none; drawn = drawn })
        ≡ returns (
          (lru.get c token).0,
          record { cache = some (lru.get c token).1; mutex = none; drawn = drawn },
        )
  unfolding query_token
  queried tid token c drawn good = ground arith

  pub unqueried :
      (tid : ℕ) (ts : Tokens C) → query_token lru draws tid bad_token ts ≡ returns (none, ts)
  unfolding query_token
  unqueried tid ts = refl

  pub queried_live :
      (tid token : ℕ) (ts : Tokens C) (c : C)
      → ts.cache ≡ some c
      → ts.mutex ≡ none
      → token ≢ bad_token
      → query_token lru draws tid token ts
        ≡ returns (
          (lru.get c token).0,
          record { cache = some (lru.get c token).1; mutex = none; drawn = ts.drawn },
        )
  unfolding query_token
  queried_live tid token ts c live unlocked good = ground arith

  module _ (laws : LruLaws lru) where
    -- The token that was inserted last stands for its pair.
    issued_value :
        (c : C) (token : ℕ) (key : UriOptions)
        → 0 < laws.capacity c
        → lru.contains c token ≡ false
        → (lru.get (lru.insert c token key) token).0 ≡ some key
    issued_value c token key room new =
        (laws.got (lru.insert c token key) token).0
        ∙ ap (lookup token) (laws.inserted c token key new).0
        ∙ lookup-take_front (laws.capacity c) token key (laws.entries c) room

    -- So a query of it gives the pair.
    pub queried_issued :
        (tid token : ℕ) (c : C) (key : UriOptions) (drawn : ℕ)
        → token ≢ bad_token
        → 0 < laws.capacity c
        → lru.contains c token ≡ false
        → query_token lru draws tid token
            (record { cache = some (lru.insert c token key); mutex = none; drawn = drawn })
          ≡ returns (
            some key,
            record {
              cache = some (lru.get (lru.insert c token key) token).1;
              mutex = none;
              drawn = drawn;
            },
          )
    queried_issued tid token c key drawn good room new =
        let after : Tokens C = record {
          cache = some (lru.get (lru.insert c token key) token).1;
          mutex = none;
          drawn = drawn;
        } in
        queried tid token (lru.insert c token key) drawn good
        ∙ ap (λ v. returns (v, after)) (issued_value c token key room new)

    -- Let the token cache be live and have room, and its lock be free. If one of the next `n + 1`
    -- draws is neither 0 nor in use, `get_token` returns a token. That is not 0 and was not in use,
    -- and it stands for the pair that it was made for.
    pub get_token_fresh :
        (fuel n tid : ℕ) (key : UriOptions) (ts : Tokens C) (c : C)
        → ts.cache ≡ some c
        → ts.mutex ≡ none
        → 0 < laws.capacity c
        → is_taken c (draws (ts.drawn + n)) ≡ false
        → n + 1 < fuel
        → (token : ℕ) × (ts' : Tokens C) × (get_token lru draws fuel tid key ts
            ≡ some (returns (token, ts')))
          × (token ≢ bad_token)
          × (lru.contains c token ≡ false)
          × (value_of (query_token lru draws tid token ts') ≡ returns (some key))
    get_token_fresh fuel n tid key ts c live unlocked room free enough =
        let (token, drawn, e, fresh) = find_token_total fuel n c first_token ts.drawn free enough in
        let good : token ≢ bad_token = ground arith in
        let new : lru.contains c token ≡ false = ground arith in
        (
          token,
          record { cache = some (lru.insert c token key); mutex = none; drawn = drawn },
          issued fuel tid key ts c token drawn live unlocked e,
          good,
          new,
          ap value_of (queried_issued tid token c key drawn good room new),
        )
