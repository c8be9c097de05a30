-- ===== src/Tokens.antt =====
-- src/tokens.cpp: tokens for pairs of URI and options, in a cache of Boost that is not part of the
-- repository: `boost::compute::detail::lru_cache`, a parameter with the behaviour of its
-- documentation as laws.
pub mod Fresh
pub mod Retention
use gdal_warp_bindings.Base.{
  ℕ, zero, suc, ◌+◌, ◌≡◌, String, List, [], ◌∷◌, Option, none, some, Bool, true, false, ◌||◌, ◌==◌,
  take, if◌then◌else◌,
}
use gdal_warp_bindings.Types.{Options, UriOptions}
use gdal_warp_bindings.Mutex.{Mutex, initial, lock, unlock}
use gdal_warp_bindings.Errno.{Outcome, returns, faults}

pub record LruCache : Type 1 where
  pub C : Type 0
  pub create : ℕ → C
  pub contains : C → ℕ → Bool
  pub insert : C → ℕ → UriOptions → C
  pub get : C → ℕ → Option UriOptions × C

abbrev pub Entries : Type 0
Entries = List (ℕ × UriOptions)

abbrev pub lookup : ℕ → Entries → Option UriOptions
lookup k [] = none
lookup k ((j, v) ∷ es) = if j == k then some v else lookup k es

abbrev pub remove : ℕ → Entries → Entries
remove k [] = []
remove k ((j, v) ∷ es) = if j == k then es else (j, v) ∷ remove k es

-- A use moves an entry to the front.
abbrev pub touch : ℕ → Entries → Entries
touch k es = elim (lookup k es) [ none ↦ es | some v ↦ (k, v) ∷ remove k es ]

abbrev pub is_some {ℓ} : {A : Type ℓ} → Option A → Bool
is_some none = false
is_some (some a) = true

-- A cache of some capacity holds entries, the most recently used first. Inserting a key that it does
-- not contain puts it in front, and drops the last entry of a full cache.
pub record LruLaws (lru : LruCache) : Type 0 where
  pub entries : lru.C → Entries
  pub capacity : lru.C → ℕ
  pub created : (n : ℕ) → (entries (lru.create n) ≡ []) × (capacity (lru.create n) ≡ n)
  pub contained : (c : lru.C) (k : ℕ) → lru.contains c k ≡ is_some (lookup k (entries c))
  pub inserted :
      (c : lru.C) (k : ℕ) (v : UriOptions)
      → lru.contains c k ≡ false
      → (entries (lru.insert c k v) ≡ take (capacity c) ((k, v) ∷ entries c))
        × (capacity (lru.insert c k v) ≡ capacity c)
  pub got :
      (c : lru.C) (k : ℕ)
      → ((lru.get c k).0 ≡ lookup k (entries c))
        × (entries (lru.get c k).1 ≡ touch k (entries c))
        × (capacity (lru.get c k).1 ≡ capacity c)

abbrev pub bad_token : ℕ
bad_token = 0

-- The number 33 that the search begins with.
abbrev pub first_token : ℕ
first_token = 33

-- `cache`, `token_lock`, and how many random tokens were drawn.
pub record Tokens (C : Type 0) : Type 0 where
  pub cache : Option C
  pub mutex : Mutex
  pub drawn : ℕ

-- `draws` is the sequence of the results of `dist(g)`.
module _ (lru : LruCache) (draws : ℕ → ℕ) where
  open lru use {C}

  unfoldable pub token_init : ℕ → Tokens C → Tokens C
  token_init size ts = record ts { cache = some (lru.create size); mutex = initial }

  unfoldable pub token_deinit : Tokens C → Tokens C
  token_deinit ts = record ts { cache = none }

  -- `generate_token`, with the number of draws after it.
  unfoldable pub generate_token : ℕ → ℕ × ℕ
  generate_token drawn = (draws drawn, drawn + 1)

  -- The loop of `get_token` on fuel; `none` means that the fuel ran out.
  unfoldable pub find_token : ℕ → C → ℕ → ℕ → Option (ℕ × ℕ)
  unfolding generate_token
  find_token zero c token drawn = none
  find_token (suc fuel) c token drawn = elim (lru.contains c token || token == bad_token) [
    | false ↦ some (token, drawn)
    | true ↦ find_token fuel c (generate_token drawn).0 (generate_token drawn).1
  ]

  -- The part of `get_token` with the lock held, by thread `tid`.
  unfoldable pub issue : ℕ → ℕ → C → UriOptions → Mutex → Tokens C → Option (Outcome (ℕ × Tokens C))
  issue fuel tid c uri_options held ts = elim (find_token fuel c first_token ts.drawn) [
    | none ↦ none
    | some (token, drawn) ↦ some (
        returns (
          token,
          record {
            cache = some (lru.insert c token uri_options);
            mutex = unlock tid held;
            drawn = drawn;
          },
        ))
  ]

  unfoldable pub get_token : ℕ → ℕ → UriOptions → Tokens C → Option (Outcome (ℕ × Tokens C))
  unfolding issue
  get_token fuel tid uri_options ts =
      let locked = lock tid ts.mutex in
      if locked.0
      then elim ts.cache [ none ↦ some faults | some c ↦ issue fuel tid c uri_options locked.1 ts ]
      else some (returns (bad_token, ts))

  unfoldable pub query_token : ℕ → ℕ → Tokens C → Outcome (Option UriOptions × Tokens C)
  query_token tid token ts =
      let locked = lock tid ts.mutex in
      if token == bad_token
      then returns (none, ts)
      else (if locked.0
          then elim ts.cache [
            | none ↦ faults
            | some c ↦ returns (
              (lru.get c token).0,
              record ts { cache = some (lru.get c token).1; mutex = unlock tid locked.1 },
            )
          ]
          else returns (none, ts))
