-- ===== src/Errno/Map.antt =====
-- `std::map` from threads to the last error number and its time stamp, as an association list.
use gdal_warp_bindings.Base.{
  ℕ, suc, ◌≤◌, ◌≡◌, refl, ◌≢◌, List, [], ◌∷◌, Option, none, some, ℤ, ◌==◌, length, arith,
  if◌then◌else◌,
}

abbrev pub Entry : Type 0
Entry = ℤ × ℕ

abbrev pub ErrnoMap : Type 0
ErrnoMap = List (ℕ × Entry)

-- `count` and `at`.
unfoldable pub find : ℕ → ErrnoMap → Option Entry
find tid [] = none
find tid ((t, x) ∷ m) = if t == tid then some x else find tid m

-- `operator[]` and the assignment to it.
unfoldable pub put : ℕ → Entry → ErrnoMap → ErrnoMap
put tid v [] = (tid, v) ∷ []
put tid v ((t, x) ∷ m) = if t == tid then (tid, v) ∷ m else (t, x) ∷ put tid v m

unfoldable pub erase : ℕ → ErrnoMap → ErrnoMap
erase tid [] = []
erase tid ((t, x) ∷ m) = if t == tid then m else (t, x) ∷ erase tid m

-- A map holds a key once.
abbrev pub Fresh : ℕ → ErrnoMap → Type 0
Fresh tid m = find tid m ≡ none

abbrev pub Distinct : ErrnoMap → Type 0
Distinct [] = Unit {0}
Distinct ((t, x) ∷ m) = Fresh t m × Distinct m

pub find-put :
    (u t : ℕ) (v : Entry) (m : ErrnoMap)
    → find u (put t v m) ≡ (if t == u then some v else find u m)
unfolding find put
find-put u t v [] = refl
find-put u t v ((s, x) ∷ m) = ground (arith, find-put u t v m)

pub find-erase_ne : (u t : ℕ) (m : ErrnoMap) → u ≢ t → find u (erase t m) ≡ find u m
unfolding find erase
find-erase_ne u t [] h = refl
find-erase_ne u t ((s, x) ∷ m) h = ground (arith, find-erase_ne u t m)

pub find-erase : (t : ℕ) (m : ErrnoMap) → Distinct m → find t (erase t m) ≡ none
unfolding find erase
find-erase t [] d = refl
find-erase t ((s, x) ∷ m) d = ground (arith, find-erase t m d.1)

pub put-Distinct : (t : ℕ) (v : Entry) (m : ErrnoMap) → Distinct m → Distinct (put t v m)
unfolding find put
put-Distinct t v [] d = (refl, tt)
put-Distinct t v ((s, x) ∷ m) d = ground (arith, put-Distinct t v m d.1, find-put s t v m)

pub erase-Distinct : (t : ℕ) (m : ErrnoMap) → Distinct m → Distinct (erase t m)
unfolding erase
erase-Distinct t [] d = tt
erase-Distinct t ((s, x) ∷ m) d = ground (arith, erase-Distinct t m d.1, find-erase_ne s t m)

pub length-put-le : (t : ℕ) (v : Entry) (m : ErrnoMap) → length (put t v m) ≤ suc (length m)
unfolding put
length-put-le t v [] = omega arith
length-put-le t v ((s, x) ∷ m) = ground (arith, length-put-le t v m)

pub length-erase-le : (t : ℕ) (m : ErrnoMap) → length (erase t m) ≤ length m
unfolding erase
length-erase-le t [] = omega arith
length-erase-le t ((s, x) ∷ m) = ground (arith, length-erase-le t m)
