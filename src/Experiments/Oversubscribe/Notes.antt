-- ===== src/Experiments/Oversubscribe/Notes.antt =====
-- The statistics of oversubscribe.cpp.
use mathlib.Core.List.{Perm, Permᴰ}
use native.Mathlib.Nat.{ℕ_set}
use mathlib.Core.Logic.{∥∥₁_elim}
use gdal_warp_bindings.Base.{
  ℕ, zero, suc, ◌+◌, ◌%◌, ◌<◌, ◌≡◌, refl, sym, ap, ◌∙◌, List, [], ◌∷◌, ℤ, pos, negsuc, length,
  arith,
}
use gdal_warp_bindings.Dataset.{int_mod}
use gdal_warp_bindings.Experiments.Oversubscribe.{Statistics, note, note_all}

-- What a result adds to each of the statistics.
abbrev is_good : ℤ → ℕ
is_good (pos zero) = 0
is_good (pos (suc n)) = 1
is_good (negsuc n) = 0

abbrev is_bad : ℤ → ℕ
is_bad (pos zero) = 1
is_bad (pos (suc n)) = 0
is_bad (negsuc n) = 1

abbrev pub touches : ℤ → ℕ
touches (pos n) = n
touches (negsuc n) = 0

abbrev pub sum_of : (ℤ → ℕ) → List ℤ → ℕ
sum_of f [] = 0
sum_of f (code ∷ codes) = f code + sum_of f codes

sum_of-perm : (f : ℤ → ℕ) {xs ys : List ℤ} → Permᴰ xs ys → sum_of f xs ≡ sum_of f ys
sum_of-perm f Permᴰ.nil = refl
sum_of-perm f (Permᴰ.cons e p) = omega (arith, ap f e, sum_of-perm f p)
sum_of-perm f (Permᴰ.swap e e') = omega (arith, ap f e, ap f e')
sum_of-perm f (Permᴰ.trans p q) = sum_of-perm f p ∙ sum_of-perm f q

sum_of-perm_any : (f : ℤ → ℕ) (xs ys : List ℤ) → Perm xs ys → sum_of f xs ≡ sum_of f ys
sum_of-perm_any f xs ys p = ∥∥₁_elim p (ℕ_set _ _) (λ q. sum_of-perm f q)

good_or_bad : (codes : List ℤ) → sum_of is_good codes + sum_of is_bad codes ≡ length codes
good_or_bad [] = omega arith
good_or_bad (pos zero ∷ codes) = omega (arith, good_or_bad codes)
good_or_bad (pos (suc n) ∷ codes) = omega (arith, good_or_bad codes)
good_or_bad (negsuc n ∷ codes) = omega (arith, good_or_bad codes)

same_statistics :
    (st st' : Statistics)
    → st.good ≡ st'.good
    → st.bad ≡ st'.bad
    → st.touched ≡ st'.touched
    → st ≡ st'
same_statistics st st' e e' e'' =
    ap (λ n. record st { good = n }) e
    ∙ ap (λ n. record st' { bad = n; touched = st.touched }) e'
    ∙ ap (λ n. record st' { touched = n }) e''

-- The statistics after some sums.
abbrev added : ℕ → ℕ → ℕ → Statistics → Statistics
added g b t st = record {
  good = (st.good + g) % int_mod;
  bad = (st.bad + b) % int_mod;
  touched = (st.touched + t) % int_mod;
}

record InBounds (st : Statistics) : Type 0 where
  good : st.good < int_mod
  bad : st.bad < int_mod
  touched : st.touched < int_mod

note-added :
    (code : ℤ) (st : Statistics)
    → InBounds st
    → note code st ≡ added (is_good code) (is_bad code) (touches code) st
unfolding note
note-added (pos zero) st h =
    same_statistics _ _ (omega (arith, h.good)) (omega (arith, h.bad)) (omega (arith, h.touched))
note-added (pos (suc n)) st h =
    same_statistics _ _ (omega (arith, h.good)) (omega (arith, h.bad)) (omega (arith, h.touched))
note-added (negsuc n) st h =
    same_statistics _ _ (omega (arith, h.good)) (omega (arith, h.bad)) (omega (arith, h.touched))

added-InBounds : (g b t : ℕ) (st : Statistics) → InBounds (added g b t st)
added-InBounds g b t st = record { good = omega arith; bad = omega arith; touched = omega arith }

note_all-added :
    (codes : List ℤ) (st : Statistics)
    → InBounds st
    → note_all codes st
      ≡ added (sum_of is_good codes) (sum_of is_bad codes) (sum_of touches codes) st
unfolding note_all
note_all-added [] st h =
    same_statistics st _ (omega (arith, h.good)) (omega (arith, h.bad)) (omega (arith, h.touched))
note_all-added (code ∷ codes) st h =
    let st1 = added (is_good code) (is_bad code) (touches code) st in
    ap (note_all codes) (note-added code st h)
    ∙ note_all-added codes st1 (added-InBounds (is_good code) (is_bad code) (touches code) st)
    ∙ same_statistics _ _ (omega arith) (omega arith) (omega arith)

-- The statistics before a thread has started.
abbrev pub no_notes : Statistics
no_notes = record { good = 0; bad = 0; touched = 0 }

-- In whatever order the threads note their results, the statistics come out the same. With fewer
-- than 2 ** 32 results each one counts once, as good or as bad, and `touched` is the sum of the
-- positive results modulo 2 ** 32.
pub note_all-perm :
    (codes codes' : List ℤ)
    → Perm codes codes'
    → length codes < int_mod
    → (note_all codes no_notes ≡ note_all codes' no_notes)
      × ((note_all codes no_notes).good + (note_all codes no_notes).bad ≡ length codes)
      × ((note_all codes no_notes).touched ≡ sum_of touches codes % int_mod)
note_all-perm codes codes' p few =
    let h : InBounds no_notes = record {
      good = omega arith;
      bad = omega arith;
      touched = omega arith;
    } in
    let e = note_all-added codes no_notes h in
    let e' = note_all-added codes' no_notes h in
    (
      e
          ∙ same_statistics _ _ (omega (arith, sum_of-perm_any is_good codes codes' p))
              (omega (arith, sum_of-perm_any is_bad codes codes' p))
              (omega (arith, sum_of-perm_any touches codes codes' p))
          ∙ sym e',
      rw e (omega (arith, good_or_bad codes)),
      rw e (omega arith),
    )
