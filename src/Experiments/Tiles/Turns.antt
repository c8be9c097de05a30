-- ===== src/Experiments/Tiles/Turns.antt =====
-- The rounds that the threads of rawthread.cpp have left, turn by turn.
use gdal_warp_bindings.Bindings.Threads.Counts.{occurrences}
use gdal_warp_bindings.Base.{
  map, update, ◌≢◌, if◌then◌else◌, ◌-◌, ◌∙◌, ℕ, zero, suc, ◌≡◌, refl, ap, inl, inr, List, [], ◌∷◌,
  Option, none, some, get_elem?, ◌==◌, set, Bool-cases, get_elem?-update_self, get_elem?-update_ne,
  arith,
}
use gdal_warp_bindings.Experiments.Tiles.{Thread}

abbrev pub minus_one : ℕ → ℕ
minus_one n = n - 1

-- One turn.
pub turn_at :
    (t u n : ℕ) (ls : List ℕ)
    → get_elem? ls u ≡ some n
    → get_elem? (update minus_one t ls) u ≡ some (n - (if t == u then 1 else 0))
turn_at t u n ls there = elim (Bool-cases (t == u)) [
  | inl own ↦
      let same : t ≡ u = ground arith in rw (own, same) (get_elem?-update_self minus_one u ls there)
  | inr other ↦
      let ne : t ≢ u = ground arith in
      rw other (get_elem?-update_ne minus_one t u ls ne ∙ there ∙ ap some (omega arith))
]

pub turns_sum :
    (t u n : ℕ) (schedule : List ℕ)
    → n - (if t == u then 1 else 0) - occurrences u schedule ≡ n - occurrences u (t ∷ schedule)
unfolding occurrences
turns_sum t u n schedule = ground arith

module _ {Generator : Type 0} where
  -- The rounds that the threads have left.
  abbrev pub lefts : List (Thread Generator) → List ℕ
  lefts threads = map (λ thread. thread.left) threads

  abbrev left_or : ℕ → Option (Thread Generator) → ℕ
  left_or d none = d
  left_or d (some thread) = thread.left

  pub lefts_idle :
      (t : ℕ) (threads : List (Thread Generator)) {generator : Generator}
      → get_elem? threads t ≡ some (record { left = 0; generator = generator })
      → update minus_one t (lefts threads) ≡ lefts threads
  lefts_idle t [] there = cc
  lefts_idle zero (thread ∷ threads) there =
      let e : thread.left ≡ 0 = ap (left_or 0) there in
      ap (λ n. n ∷ lefts threads) (omega (arith, e))
  lefts_idle (suc t) (thread ∷ threads) there = ap (◌∷◌ thread.left) (lefts_idle t threads there)

  pub lefts_nobody :
      (t : ℕ) (threads : List (Thread Generator))
      → get_elem? threads t ≡ none
      → update minus_one t (lefts threads) ≡ lefts threads
  lefts_nobody t [] there = refl
  lefts_nobody zero (thread ∷ threads) there = cc
  lefts_nobody (suc t) (thread ∷ threads) there =
      ap (◌∷◌ thread.left) (lefts_nobody t threads there)

  pub lefts-set :
      (t n : ℕ) (threads : List (Thread Generator)) (generator generator' : Generator)
      → get_elem? threads t ≡ some (record { left = suc n; generator = generator })
      → lefts (set threads t (record { left = n; generator = generator' }))
        ≡ update minus_one t (lefts threads)
  lefts-set t n [] generator generator' there = cc
  lefts-set zero n (thread ∷ threads) generator generator' there =
      let e : thread.left ≡ suc n = ap (left_or 0) there in
      ap (λ n. n ∷ lefts threads) (omega (arith, e))
  lefts-set (suc t) n (thread ∷ threads) generator generator' there =
      ap (◌∷◌ thread.left) (lefts-set t n threads generator generator' there)
