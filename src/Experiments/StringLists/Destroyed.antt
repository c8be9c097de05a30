-- ===== src/Experiments/StringLists/Destroyed.antt =====
-- `CSLDestroy` frees the strings of a list and its array, each once, and nothing else.
use gdal_warp_bindings.Base.{
  ℕ, zero, suc, ◌+◌, ◌<◌, ◌≡◌, ◌≢◌, refl, ap, ◌∙◌, List, [], ◌∷◌, ◌++◌, map, Option, none, some,
  Bool, true, false, ◌||◌, length, get_elem?, ◌==◌, if◌then◌else◌, arith,
}
use gdal_warp_bindings.Errno.{returns}
use gdal_warp_bindings.Gdal.{Handle}
use gdal_warp_bindings.Experiments.StringLists.{
  Block, pointers, Heap, release, free, read_pointer, free_strings, csl_destroy,
}

abbrev pub is_among : ℕ → List ℕ → Bool
is_among q [] = false
is_among q (s ∷ ss) = q == s || is_among q ss

-- The strings of a list are allocated, each once, and none is its array.
abbrev pub Owned : ℕ → List ℕ → Heap → Type 0
Owned p [] heap = Unit {0}
Owned p (s ∷ ss) heap =
    (s ≢ p) × ((block : Block) × (heap s ≡ some block)) × (is_among s ss ≡ false) × Owned p ss heap

-- What is left after some are freed.
abbrev pub without : List ℕ → Heap → Heap
without ss heap q = if is_among q ss then none else heap q

-- An array of pointers to strings, which ends with NULL; what is behind that is not read.
abbrev pub string_list : List ℕ → List Handle → List Handle
string_list ss more = map some ss ++ (none ∷ more)

free_there :
    (p : ℕ) (heap : Heap) (block : Block)
    → heap p ≡ some block
    → free (some p) heap ≡ returns (release p heap)
unfolding free
free_there p heap block e = rw (free, e) refl

read_there :
    (p i : ℕ) (heap : Heap) (array : List Handle) (q : Handle)
    → heap p ≡ some (pointers array)
    → get_elem? array i ≡ some q
    → read_pointer p i heap ≡ returns q
unfolding read_pointer
read_there p i heap array q e e' = rw (read_pointer, e, e') refl

-- A string that is freed stays away from the others.
Owned-release :
    (p s : ℕ) (ss : List ℕ) (heap : Heap)
    → is_among s ss ≡ false
    → Owned p ss heap
    → Owned p ss (release s heap)
Owned-release p s [] heap other owned = tt
Owned-release p s (t ∷ ss) heap other (ne, (block, e), once, owned) =
    (ne, (block, ground (arith, e)), once, Owned-release p s ss heap (ground arith) owned)

step_frees :
    (fuel p i s : ℕ) (heap : Heap) (array : List Handle) (block : Block)
    → heap p ≡ some (pointers array)
    → get_elem? array i ≡ some (some s)
    → heap s ≡ some block
    → free_strings (suc fuel) p i heap ≡ free_strings fuel p (i + 1) (release s heap)
unfolding free_strings
step_frees fuel p i s heap array block there e e' =
    rw (free_strings, read_there p i heap array (some s) there e, free_there s heap block e') refl

stop_frees :
    (fuel p i : ℕ) (heap : Heap) (array : List Handle)
    → heap p ≡ some (pointers array)
    → get_elem? array i ≡ some none
    → free_strings (suc fuel) p i heap ≡ some (returns heap)
unfolding free_strings
stop_frees fuel p i heap array there e =
    rw (free_strings, read_there p i heap array none there e) refl

-- An array goes on from element `i` like a list.
abbrev GoesOn : List Handle → ℕ → List Handle → Type 0
GoesOn array i rest = (k : ℕ) → get_elem? array (i + k) ≡ get_elem? rest k

GoesOn-start :
    (array : List Handle) (i : ℕ) (rest : List Handle)
    → GoesOn array i rest
    → get_elem? array i ≡ get_elem? rest 0
GoesOn-start array i rest on = let e : i ≡ i + 0 = omega arith in ap (get_elem? array) e ∙ on 0

GoesOn-next :
    (array : List Handle) (i : ℕ) (q : Handle) (rest : List Handle)
    → GoesOn array i (q ∷ rest)
    → GoesOn array (i + 1) rest
GoesOn-next array i q rest on k =
    let e : i + 1 + k ≡ i + suc k = omega arith in ap (get_elem? array) e ∙ on (suc k)

-- Two tests after one another are one.
gone_or :
    (b c : Bool) (o : Option Block)
    → (if b then none else (if c then none else o)) ≡ (if c || b then none else o)
gone_or true true o = refl
gone_or true false o = refl
gone_or false true o = refl
gone_or false false o = refl

gone_at :
    (b c : Bool) (o : Option Block)
    → (if b then none else (if c then none else o)) ≡ (if b || c then none else o)
gone_at true true o = refl
gone_at true false o = refl
gone_at false true o = refl
gone_at false false o = refl

Owned-apart : (p : ℕ) (ss : List ℕ) (heap : Heap) → Owned p ss heap → is_among p ss ≡ false
Owned-apart p [] heap owned = refl
Owned-apart p (s ∷ ss) heap (ne, there, once, owned) =
    let rest = Owned-apart p ss heap owned in ground (arith, ne, rest)

loop_frees :
    (ss : List ℕ) (fuel p i : ℕ) (heap : Heap) (array more : List Handle)
    → GoesOn array i (string_list ss more)
    → length ss < fuel
    → heap p ≡ some (pointers array)
    → Owned p ss heap
    → (heap' : Heap) × (free_strings fuel p i heap ≡ some (returns heap'))
      × ((q : ℕ) → heap' q ≡ without ss heap q)
loop_frees ss zero p i heap array more on enough there owned = absurd (omega arith)
loop_frees [] (suc fuel) p i heap array more on enough there owned =
    (heap, stop_frees fuel p i heap array there (GoesOn-start array i (none ∷ more) on), λ q. refl)
loop_frees (s ∷ ss) (suc fuel) p i heap array more on enough there (ne, (block, e), once, owned) =
    let (heap', e', left) =
      loop_frees ss fuel p (i + 1) (release s heap) array more
        (GoesOn-next array i (some s) (string_list ss more) on) (omega arith)
        (ground (arith, there)) (Owned-release p s ss heap once owned) in
    (
      heap',
      step_frees fuel p i s heap array block there
            (GoesOn-start array i (some s ∷ string_list ss more) on) e
          ∙ e',
      λ q. left q ∙ gone_or (is_among q ss) (q == s) (heap q),
    )

-- Let a list be an array of pointers to strings with NULL behind them, let the strings be allocated,
-- each once, and let none of them be the array. Then `CSLDestroy` ends, with a round for each string
-- and one more, and without a fault: it frees the strings and the array, and nothing else.
pub csl_destroy_frees :
    (ss : List ℕ) (fuel p : ℕ) (heap : Heap) (more : List Handle)
    → length ss < fuel
    → heap p ≡ some (pointers (string_list ss more))
    → Owned p ss heap
    → (heap' : Heap) × (csl_destroy fuel (some p) heap ≡ some (returns heap'))
      × ((q : ℕ) → heap' q ≡ (if q == p || is_among q ss then none else heap q))
unfolding csl_destroy
csl_destroy_frees ss fuel p heap more enough there owned =
    let (heap', e, left) =
      loop_frees ss fuel p 0 heap (string_list ss more) more
        (λ k. ap (get_elem? (string_list ss more)) (omega arith)) enough there owned in
    let still : heap' p ≡ some (pointers (string_list ss more)) =
      left p ∙ ap (λ b. if b then none else heap p) (Owned-apart p ss heap owned) ∙ there in
    (
      release p heap',
      rw (csl_destroy, e) (ap some (free_there p heap' _ still)),
      λ q.
          ap (λ o. if q == p then none else o) (left q) ∙ gone_at (q == p) (is_among q ss) (heap q),
    )
