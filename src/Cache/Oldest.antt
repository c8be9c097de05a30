-- ===== src/Cache/Oldest.antt =====
-- The loop of `insert` in flat_lru_cache.hpp finds the least recently used slot that may go, and
-- leaves the others as they were.
use mathlib.Core.Bool.{false≢true}
use gdal_warp_bindings.Base.{
  subst, ℕ, zero, suc, ◌+◌, ◌≤◌, ◌<◌, ◌≡◌, refl, sym, ap, ◌∙◌, ◌⊎◌, inl, inr, List, Option, none,
  some, Bool, true, false, ltb, ◌&&◌, length, get_elem?, get_elem?_of_lt, update,
  get_elem?-update_ne, update-update, update_comm, update_agree, update_same, Bool-cases, arith,
}
use gdal_warp_bindings.Dataset.{lock_for_deletion, unlock_for_nondeletion}
use gdal_warp_bindings.Dataset.Deletion.{
  deletable, lock_for_deletion-true, lock_for_deletion-false, unlock-lock_for_deletion,
}
use gdal_warp_bindings.Cache.{
  Slot, Cache, Scan, max_atime, update_value, unlock_best, visit, scan_round, scan_from, scan,
}

-- A slot that may be evicted.
abbrev pub is_candidate : Slot → Bool
is_candidate slot = deletable slot.value && ltb slot.atime max_atime

-- The slot of the eviction candidate is locked.
abbrev pub lock_slot : ℕ → Slot → Slot
lock_slot tid slot = update_value (λ ds. record ds { mutex = some tid }) slot

abbrev pub lock_at : ℕ → Option ℕ → List Slot → List Slot
lock_at tid none slots = slots
lock_at tid (some b) slots = update (lock_slot tid) b slots

-- Among the slots before `i`: none may go, or `b` may and is the least recently used of those.
abbrev pub IsOldest : List Slot → ℕ → ℕ → Slot → Type 0
IsOldest slots i b s =
    (get_elem? slots b ≡ some s)
    × (is_candidate s ≡ true)
    × (b < i)
    × ((j : ℕ) (t : Slot)
        → j < i
        → get_elem? slots j ≡ some t
        → is_candidate t ≡ true
        → s.atime ≤ t.atime)

abbrev pub NoCandidate : List Slot → ℕ → Type 0
NoCandidate slots i =
    (j : ℕ) (t : Slot) → j < i → get_elem? slots j ≡ some t → is_candidate t ≡ false

abbrev Least : List Slot → ℕ → Option ℕ → ℕ → Type 0
Least slots i none a = (a ≡ max_atime) × NoCandidate slots i
Least slots i (some b) a = (s : Slot) × (a ≡ s.atime) × IsOldest slots i b s

-- The invariant of the loop.
record ScanInv (tid : ℕ) (slots : List Slot) (i : ℕ) (st : Scan) : Type 0 where
  shape : st.slots ≡ lock_at tid st.best_index slots
  least : Least slots i st.best_index st.best_atime

module _ (tid : ℕ) where
  visit_kept :
      (i : ℕ) (slot : Slot) (st : Scan)
      → get_elem? st.slots i ≡ some slot
      → (ltb slot.atime st.best_atime && deletable slot.value) ≡ false
      → visit tid i slot st ≡ st
  unfolding visit
  visit_kept i slot st there no_go =
      let same : deletable slot.value ≡ false
          → update (update_value (λ ds. (lock_for_deletion tid ds).1)) i st.slots ≡ st.slots =
        λ d.
          update_same _ i st.slots there
            (ap (λ r. record slot { value = r.1 }) (lock_for_deletion-false tid slot.value d)) in
      elim (Bool-cases (deletable slot.value)) [
        | inl d ↦ ground arith
        | inr d ↦ rw (visit, same d) (ground (arith, lock_for_deletion-false tid slot.value d))
      ]

  visit_taken :
      (i : ℕ) (slot : Slot) (st : Scan)
      → get_elem? st.slots i ≡ some slot
      → (ltb slot.atime st.best_atime && deletable slot.value) ≡ true
      → visit tid i slot st ≡ record {
        slots = unlock_best tid st.best_index (update (lock_slot tid) i st.slots);
        best_index = some i;
        best_atime = slot.atime;
      }
  unfolding visit
  visit_taken i slot st there go =
      let d : deletable slot.value ≡ true = ground arith in
      let locked = lock_for_deletion-true tid slot.value d in
      let agree : update (update_value (λ ds. (lock_for_deletion tid ds).1)) i st.slots
          ≡ update (lock_slot tid) i st.slots =
        update_agree _ _ i st.slots there (ap (λ r. record slot { value = r.1 }) locked) in
      rw (visit, agree) (ground (arith, locked))

  -- To lock the new candidate and then unlock the old one is to lock the new one only.
  swap_lock :
      (best : Option ℕ) (i a : ℕ) (slots : List Slot)
      → Least slots i best a
      → unlock_best tid best (update (lock_slot tid) i (lock_at tid best slots))
        ≡ update (lock_slot tid) i slots
  unfolding unlock_best
  swap_lock none i a slots least = refl
  swap_lock (some b) i a slots (s, _, (there, go, before, _)) =
      let unlock = update_value (unlock_for_nondeletion tid) in
      let back : update unlock b (update (lock_slot tid) b slots) ≡ slots =
        update-update (lock_slot tid) unlock b slots
        ∙ update_same _ b slots there (
            ap (λ ds. record s { value = ds })
              (unlock-lock_for_deletion tid s.value (ground arith))) in
      update_comm (lock_slot tid) unlock i b (update (lock_slot tid) b slots) (omega arith)
      ∙ ap (update (lock_slot tid) i) back

  still_there :
      (best : Option ℕ) (i a : ℕ) (slots : List Slot)
      → Least slots i best a
      → get_elem? (lock_at tid best slots) i ≡ get_elem? slots i
  still_there none i a slots least = refl
  still_there (some b) i a slots (s, _, (_, _, before, _)) =
      get_elem?-update_ne (lock_slot tid) b i slots (omega arith)

at_end : (i j : ℕ) → j < i + 1 → (j < i) ⊎ (j ≡ i)
at_end i j h = omega arith

-- A property of the slots before `i` and of slot `i` is one of the slots before `i + 1`.
extend {ℓ} :
    (P : Slot → Type ℓ) (slots : List Slot) (i : ℕ) (slot : Slot)
    → get_elem? slots i ≡ some slot
    → ((j : ℕ) (t : Slot) → j < i → get_elem? slots j ≡ some t → P t)
    → P slot
    → (j : ℕ) (t : Slot) → j < i + 1
    → get_elem? slots j ≡ some t
    → P t
extend P slots i slot there below here j t lt at = elim (at_end i j lt) [
  | inl before ↦ below j t before at
  | inr e ↦ let same : slot ≡ t = ground arith in subst P same here
]

-- The order that the loop keeps, with a slot that wins and one that does not.
Least-taken :
    (best : Option ℕ) (i a : ℕ) (slots : List Slot) (slot : Slot)
    → get_elem? slots i ≡ some slot
    → Least slots i best a
    → (ltb slot.atime a && deletable slot.value) ≡ true
    → Least slots (i + 1) (some i) slot.atime
Least-taken none i a slots slot there (top, not_one) go = (
  slot,
  refl,
  (
    there,
    ground arith,
    omega arith,
    extend (λ t. is_candidate t ≡ true → slot.atime ≤ t.atime) slots i slot there
        (λ j t lt at cand. absurd (false≢true (sym (not_one j t lt at) ∙ cand))) (λ _. omega arith),
  ),
)
Least-taken (some b) i a slots slot there (s, e, (at_b, go_b, before, least)) go = (
  slot,
  refl,
  (
    there,
    ground arith,
    omega arith,
    extend (λ t. is_candidate t ≡ true → slot.atime ≤ t.atime) slots i slot there
        (λ j t lt at cand. ground (arith, least j t lt at cand)) (λ _. omega arith),
  ),
)

Least-kept :
    (best : Option ℕ) (i a : ℕ) (slots : List Slot) (slot : Slot)
    → get_elem? slots i ≡ some slot
    → Least slots i best a
    → (ltb slot.atime a && deletable slot.value) ≡ false
    → Least slots (i + 1) best a
Least-kept none i a slots slot there (top, not_one) no_go =
    (top, extend (λ t. is_candidate t ≡ false) slots i slot there not_one (ground arith))
Least-kept (some b) i a slots slot there (s, e, (at_b, go_b, before, least)) no_go = (
  s,
  e,
  (
    at_b,
    go_b,
    omega arith,
    extend (λ t. is_candidate t ≡ true → s.atime ≤ t.atime) slots i slot there least
        (λ cand. ground arith),
  ),
)

module _ (tid : ℕ) (slots : List Slot) where
  round-ScanInv :
      (i : ℕ) (st : Scan)
      → i < length slots
      → ScanInv tid slots i st
      → ScanInv tid slots (i + 1) (scan_round tid i st)
  unfolding scan_round
  round-ScanInv i st lt inv =
      let (slot, there) = get_elem?_of_lt slots i lt in
      let here : get_elem? st.slots i ≡ some slot =
        ap (λ l. get_elem? l i) inv.shape
        ∙ still_there tid st.best_index i st.best_atime slots inv.least
        ∙ there in
      elim (Bool-cases (ltb slot.atime st.best_atime && deletable slot.value)) [
        | inl go ↦
            rw (here, scan_round, visit_taken tid i slot st here go)
              (record {
                shape =
                    ap (λ l. unlock_best tid st.best_index (update (lock_slot tid) i l)) inv.shape
                    ∙ swap_lock tid st.best_index i st.best_atime slots inv.least;
                least = Least-taken st.best_index i st.best_atime slots slot there inv.least go;
              })
        | inr stay ↦
            rw (here, scan_round, visit_kept tid i slot st here stay)
              (record {
                shape = inv.shape;
                least = Least-kept st.best_index i st.best_atime slots slot there inv.least stay;
              })
      ]

  scan_from-ScanInv :
      (n i : ℕ) (st : Scan)
      → i + n ≡ length slots
      → ScanInv tid slots i st
      → ScanInv tid slots (length slots) (scan_from tid n i st)
  unfolding scan_from
  scan_from-ScanInv zero i st e inv =
      let here : i ≡ length slots = omega arith in subst (λ k. ScanInv tid slots k st) here inv
  scan_from-ScanInv (suc n) i st e inv =
      scan_from-ScanInv n (i + 1) (scan_round tid i st) (omega arith)
        (round-ScanInv i st (omega arith) inv)

-- How a scan ends.
abbrev pub Scanned : ℕ → List Slot → Scan → Type 0
Scanned tid slots st =
    (NoCandidate slots (length slots) × (st.best_index ≡ none) × (st.slots ≡ slots))
    ⊎ ((b : ℕ) × (s : Slot) × IsOldest slots (length slots) b s
        × (st.best_index ≡ some b)
        × (st.slots ≡ update (lock_slot tid) b slots))

ScanInv-Scanned :
    (tid : ℕ) (slots : List Slot) (st : Scan) (best : Option ℕ)
    → st.best_index ≡ best
    → ScanInv tid slots (length slots) st
    → Scanned tid slots st
ScanInv-Scanned tid slots st none e inv = inl (
  (subst (λ o. Least slots (length slots) o st.best_atime) e inv.least).1,
  e,
  inv.shape ∙ ap (λ o. lock_at tid o slots) e,
)
ScanInv-Scanned tid slots st (some b) e inv =
    let (s, _, oldest) = subst (λ o. Least slots (length slots) o st.best_atime) e inv.least in
    inr (b, s, oldest, e, inv.shape ∙ ap (λ o. lock_at tid o slots) e)

-- In a cache with as many slots as its capacity says, the loop of `insert` locks the least recently
-- used of the slots that may go, and leaves every other slot, and all slots if none may go, as it
-- was.
pub scan-Scanned :
    (tid : ℕ) (c : Cache) → length c.slots ≡ c.capacity → Scanned tid c.slots (scan tid c)
unfolding scan
scan-Scanned tid c sized = ScanInv-Scanned tid c.slots _ _ refl (
    scan_from-ScanInv tid c.slots c.capacity 0 _ (omega arith)
      (record { shape = refl; least = (refl, λ j t lt at. absurd (omega arith)) }))
