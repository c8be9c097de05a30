-- ===== src/Bindings/Threads/Counts.antt =====
-- The use counts of flat_lru_cache.hpp while the calls of several threads interleave.
use gdal_warp_bindings.Base.{
  ℕ, zero, suc, ◌+◌, ◌%◌, ◌<◌, ◌≤◌, ◌≡◌, ◌≢◌, refl, sym, ap, ◌∙◌, inl, inr, List, [], ◌∷◌, ◌++◌,
  length, none, some, ◌==◌, get_elem?, update, get_elem?-update_self, get_elem?-update_ne,
  length-update, String, Bool-cases, Option-cases, replicate, if◌then◌else◌, arith,
}
use gdal_warp_bindings.Types.{UriOptions, uri_options_hash}
use gdal_warp_bindings.Gdal.{Gdal}
use gdal_warp_bindings.World.{World}
use gdal_warp_bindings.Dataset.{int_mod, dec, inc}
use gdal_warp_bindings.Dataset.Deletion.{deletable}
use gdal_warp_bindings.Dataset.Queries.Protocol.{perform-keeps}
use gdal_warp_bindings.Cache.{Slot, update_value, find_all, insert, new_cache, empty_slot}
use gdal_warp_bindings.Cache.Eviction.{insert_keeps_busy}
use gdal_warp_bindings.Cache.Pins.{Pinned, insert_one-Pinned, find_all-uses, length-find_all}
use gdal_warp_bindings.Cache.Uses.{
  use_of, uses, Bounded, raise_all, plus_one, minus_one, map-update_at, uses-update_there,
  raise_all-append, raise_all-Bounded, lower-raise_all, lower-raise_self,
}
use gdal_warp_bindings.Cache.Empty.{uses-new_cache, new_cache-IsSized}
use gdal_warp_bindings.Bindings.Threads.{
  Shared, Step, finds, finds_one, after_finds_one, inserts, queries, releases, Reachable, start,
  next, after_finds, after_inserts, after_queries, after_releases,
}

-- How many of the pointers are one slot.
unfoldable pub occurrences : ℕ → List ℕ → ℕ
occurrences j [] = 0
occurrences j (b ∷ held) = let rest = occurrences j held in if b == j then suc rest else rest

occurrences-le : (j : ℕ) (held : List ℕ) → occurrences j held ≤ length held
unfolding occurrences
occurrences-le j [] = omega arith
occurrences-le j (b ∷ held) = ground (arith, occurrences-le j held)

get_elem?-uses :
    (slots : List Slot) (j : ℕ) (t : Slot)
    → get_elem? slots j ≡ some t
    → get_elem? (uses slots) j ≡ some (use_of t)
get_elem?-uses [] j t there = cc
get_elem?-uses (s ∷ slots) zero t there =
    let same : s ≡ t = ground arith in ap (λ x. some (use_of x)) same
get_elem?-uses (s ∷ slots) (suc j) t there = get_elem?-uses slots j t there

get_elem?-update-none :
    (f : ℕ → ℕ) (b j : ℕ) (us : List ℕ) → get_elem? us j ≡ none → get_elem? (update f b us) j ≡ none
get_elem?-update-none f b j [] h = h
get_elem?-update-none f zero zero (u ∷ us) h = cc
get_elem?-update-none f zero (suc j) (u ∷ us) h = h
get_elem?-update-none f (suc b) zero (u ∷ us) h = cc
get_elem?-update-none f (suc b) (suc j) (u ∷ us) h = get_elem?-update-none f b j us h

get_elem?-raise_none :
    (held us : List ℕ) (j : ℕ) → get_elem? us j ≡ none → get_elem? (raise_all held us) j ≡ none
get_elem?-raise_none [] us j h = h
get_elem?-raise_none (b ∷ held) us j h =
    get_elem?-raise_none held (update plus_one b us) j (get_elem?-update-none plus_one b j us h)

new_cache-unused : (n j u : ℕ) → get_elem? (uses (replicate n empty_slot)) j ≡ some u → u ≡ 0
new_cache-unused zero j u h = cc
new_cache-unused (suc n) zero u h = ground arith
new_cache-unused (suc n) (suc j) u h = new_cache-unused n j u h

-- The count at one place after a round of `inc`.
get_elem?-raise_all :
    (held us : List ℕ) (j u : ℕ)
    → u < int_mod
    → get_elem? us j ≡ some u
    → get_elem? (raise_all held us) j ≡ some ((u + occurrences j held) % int_mod)
unfolding occurrences
get_elem?-raise_all [] us j u small there = there ∙ ap some (omega arith)
get_elem?-raise_all (b ∷ held) us j u small there = elim (Bool-cases (b == j)) [
  | inl here ↦
      let same : b ≡ j = ground arith in
      let raised : get_elem? (update plus_one b us) j ≡ some (plus_one u) =
        ap (λ k. get_elem? (update plus_one k us) j) same
        ∙ get_elem?-update_self plus_one j us there in
      rw (here, occurrences)
        (get_elem?-raise_all held (update plus_one b us) j (plus_one u) (omega arith) raised
          ∙ ap some (omega arith))
  | inr other ↦
      let ne : b ≢ j = ground arith in
      rw (other, occurrences)
        (get_elem?-raise_all held (update plus_one b us) j u small
          (get_elem?-update_ne plus_one b j us ne ∙ there))
]

lower-raise_among :
    (pre : List ℕ) (b : ℕ) (post us : List ℕ)
    → Bounded us
    → update minus_one b (raise_all (pre ++ b ∷ post) us) ≡ raise_all (pre ++ post) us
lower-raise_among pre b post us bound =
    let x = raise_all pre us in
    let bound' = raise_all-Bounded pre us bound in
    ap (update minus_one b) (raise_all-append pre (b ∷ post) us)
    ∙ lower-raise_all b post (update plus_one b x) (raise_all-Bounded (b ∷ []) x bound')
    ∙ ap (raise_all post) (lower-raise_self b x bound')
    ∙ sym (raise_all-append pre post us)

module _ (gdal : Gdal) (string_hash : String → ℕ) (capacity : ℕ) where
  Step-Pinned :
      (s t : Shared)
      → Step gdal string_hash s t
      → Pinned (new_cache capacity) s.cache s.held
      → Pinned (new_cache capacity) t.cache t.held
  unfolding dec inc after_finds after_finds_one after_inserts after_queries after_releases
  Step-Pinned s _ (finds key) p =
      let tag = uri_options_hash string_hash key in
      let r = find_all tag key 0 s.cache.time s.cache.slots in
      let us = uses (new_cache capacity).slots in
      record {
        counts =
            sym (find_all-uses tag key 0 s.cache.time [] s.cache.slots refl)
            ∙ ap (raise_all r.1) p.counts
            ∙ sym (raise_all-append s.held r.1 us);
        sized = length-find_all tag key 0 s.cache.time s.cache.slots ∙ p.sized;
      }
  Step-Pinned s _ (finds_one key j slot there hit) p =
      let us = uses (new_cache capacity).slots in
      record {
        counts =
            map-update_at _ plus_one j s.cache.slots (λ x. refl)
            ∙ ap (update plus_one j) p.counts
            ∙ sym (raise_all-append s.held (j ∷ []) us);
        sized = length-update _ j s.cache.slots ∙ p.sized;
      }
  Step-Pinned s _ (inserts key w) p =
      insert_one-Pinned gdal (uri_options_hash string_hash key) key (new_cache capacity) s.cache
        s.held w p
  Step-Pinned s _ (queries q b slot memory w there) p = record {
    counts =
        uses-update_there _ b s.cache.slots there
          (ap (λ d. d.use_count) (perform-keeps gdal q slot.value memory w))
        ∙ p.counts;
    sized = length-update _ b s.cache.slots ∙ p.sized;
  }
  Step-Pinned s _ (releases pre b post e) p =
      let us = uses (new_cache capacity).slots in
      record {
        counts =
            map-update_at (update_value dec) minus_one b s.cache.slots (λ x. refl)
            ∙ ap (update minus_one b) (p.counts ∙ ap (λ l. raise_all l us) e)
            ∙ lower-raise_among pre b post us (uses-new_cache capacity);
        sized = length-update (update_value dec) b s.cache.slots ∙ p.sized;
      }

  Reachable-Pinned :
      (s : Shared)
      → Reachable gdal string_hash capacity s
      → Pinned (new_cache capacity) s.cache s.held
  Reachable-Pinned _ start = record { counts = refl; sized = new_cache-IsSized capacity }
  Reachable-Pinned _ (next {s} {t} r step) = Step-Pinned s t step (Reachable-Pinned s r)

  -- Whatever the threads do, the use count of a slot is the number of pointers to it that their calls
  -- hold, modulo 2 ** 32.
  pub use_count_exact :
      (s : Shared) (j : ℕ) (t : Slot)
      → Reachable gdal string_hash capacity s
      → get_elem? s.cache.slots j ≡ some t
      → t.value.use_count ≡ occurrences j s.held % int_mod
  unfolding new_cache
  use_count_exact s j t r there =
      let p = Reachable-Pinned s r in
      let us = uses (new_cache capacity).slots in
      let now : get_elem? (raise_all s.held us) j ≡ some (use_of t) =
        ap (λ l. get_elem? l j) (sym p.counts) ∙ get_elem?-uses s.cache.slots j t there in
      elim (Option-cases (get_elem? us j)) [
        | inl outside ↦
            let missing = get_elem?-raise_none s.held us j outside in absurd (ground arith)
        | inr (u, inside) ↦
            let unused = new_cache-unused capacity j u inside in
            let raised = get_elem?-raise_all s.held us j u (omega arith) inside in ground arith
      ]

  -- While a call of some thread holds a pointer to a slot, and fewer than 2 ** 32 pointers are held at
  -- once, no `insert` changes that slot: its dataset is neither closed nor replaced.
  pub insert_keeps_held :
      (s : Shared) (j : ℕ) (t : Slot) (tag : ℕ) (key : UriOptions) (w : World gdal.G)
      → Reachable gdal string_hash capacity s
      → get_elem? s.cache.slots j ≡ some t
      → 0 < occurrences j s.held
      → length s.held < int_mod
      → get_elem? (insert gdal tag key s.cache w).0.1.slots j ≡ some t
  unfolding deletable
  insert_keeps_held s j t tag key w r there held few =
      let p = Reachable-Pinned s r in
      let exact = use_count_exact s j t r there in
      let bound = occurrences-le j s.held in
      let busy : t.value.use_count ≢ 0 = λ z. absurd (omega arith) in
      insert_keeps_busy gdal tag key s.cache w j t p.sized there (ground arith)
