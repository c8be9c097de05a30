-- ===== src/Cache/Insert.antt =====
-- `insert` of flat_lru_cache.hpp on every branch.
use gdal_warp_bindings.Base.{
  ℕ, ◌+◌, ◌%◌, ◌≡◌, refl, sym, ap, ◌∙◌, ◌⊎◌, inl, inr, List, [], Option, none, some, true, false,
  length, get_elem?, update, get_elem?-update_self, update-update, Bool-cases, arith,
}
use gdal_warp_bindings.Types.{UriOptions, size_mod}
use gdal_warp_bindings.Gdal.{Gdal}
use gdal_warp_bindings.World.{World}
use gdal_warp_bindings.Dataset.{LockedDataset, empty_dataset, valid, close, construct}
use gdal_warp_bindings.Dataset.Deletion.{deletable-free}
use gdal_warp_bindings.Dataset.Lifecycle.{
  Constructed, opened, unopened, unwarped, construct-Constructed,
}
use gdal_warp_bindings.Dataset.Moves.{construct-tid, destroy_null, destroy-close, move_assign_lem}
use gdal_warp_bindings.Cache.{Slot, Cache, tick, scan, replace, insert}
use gdal_warp_bindings.Cache.Oldest.{lock_slot, IsOldest, NoCandidate, scan-Scanned}

-- The slot of a value that was just stored.
abbrev pub fresh_slot : ℕ → ℕ → LockedDataset → Slot
fresh_slot tag time ds = record { tag = tag; atime = time; value = ds }

-- The cache with a new value in slot `b`.
abbrev pub stored : ℕ → ℕ → LockedDataset → Cache → Cache
stored tag b ds c = record c {
  slots = update (λ _. fresh_slot tag (tick c.time) ds) b c.slots;
  time = tick c.time;
  size = (c.size + 1) % size_mod;
}

-- The cache with slot `b` locked by a thread.
abbrev pub stuck : ℕ → ℕ → Cache → Cache
stuck tid b c = record c { slots = update (lock_slot tid) b c.slots }

Constructed-valid :
    (tid : ℕ) (key : UriOptions) (ds : LockedDataset)
    → Constructed tid key ds
    → valid ds ≡ true
    → record empty_dataset { source = ds.source; warped = ds.warped; uri_options = ds.uri_options }
      ≡ ds
unfolding valid
Constructed-valid tid key ds (opened s h e) v = ground arith
Constructed-valid tid key ds (unopened e) v = ground arith
Constructed-valid tid key ds (unwarped s e) v = ground arith

module _ (gdal : Gdal) (tag : ℕ) (key : UriOptions) where
  -- The value that `insert` constructs, and the world after that.
  abbrev pub made : World gdal.G → LockedDataset × World gdal.G
  made w = construct gdal key w

  replace-valid :
      (b : ℕ) (slot : Slot) (c : Cache) (w : World gdal.G)
      → slot.value.mutex ≡ some w.tid
      → slot.value.use_count ≡ 0
      → valid (made w).0 ≡ true
      → replace gdal tag key b slot c w
        ≡ ((some b, stored tag b (made w).0 c), (close gdal slot.value (made w).1).1)
  unfolding replace
  replace-valid b slot c w locked unused fine =
      let ds = (made w).0 in
      let w1 = (made w).1 in
      let moved =
        move_assign_lem gdal slot.value ds w1 (locked ∙ ap some (sym (construct-tid gdal key w)))
          unused in
      let whole = Constructed-valid w.tid key ds (construct-Constructed gdal key w) fine in
      rw (fine, replace, moved, whole)
        (ap (λ (r : Unit {0} × World gdal.G). ((some b, stored tag b ds c), r.1))
          (destroy_null gdal (record ds { source = none; warped = none; uri_options = ("", []) })
            (close gdal slot.value w1).1 refl))

  replace_invalid :
      (b : ℕ) (slot : Slot) (c : Cache) (w : World gdal.G)
      → valid (made w).0 ≡ false
      → replace gdal tag key b slot c w ≡ ((none, c), (close gdal (made w).0 (made w).1).1)
  unfolding replace
  replace_invalid b slot c w broken = rw (broken, replace, destroy-close gdal (made w).0 (made w).1)

  -- What `insert` does, by cases on the slots and on the new value.
  abbrev pub Inserted : Cache → World gdal.G → (Option ℕ × Cache) × World gdal.G → Type 0
  Inserted c w r =
      (NoCandidate c.slots (length c.slots) × (r ≡ ((none, c), w)))
      ⊎ ((b : ℕ) × (s : Slot) × IsOldest c.slots (length c.slots) b s
          × (((valid (made w).0 ≡ true)
                × (r ≡ (
                  (some b, stored tag b (made w).0 c),
                  (close gdal (lock_slot w.tid s).value (made w).1).1,
                )))
              ⊎ ((valid (made w).0 ≡ false)
                  × (r ≡ ((none, stuck w.tid b c), (close gdal (made w).0 (made w).1).1)))))

  stored-stuck :
      (tid b : ℕ) (ds : LockedDataset) (c : Cache)
      → stored tag b ds (stuck tid b c) ≡ stored tag b ds c
  stored-stuck tid b ds c =
      ap (λ (l : List Slot). record (stored tag b ds c) { slots = l })
        (update-update (lock_slot tid) (λ _. fresh_slot tag (tick c.time) ds) b c.slots)

  insert_full :
      (c : Cache) (w : World gdal.G)
      → (scan w.tid c).best_index ≡ none
      → (scan w.tid c).slots ≡ c.slots
      → insert gdal tag key c w ≡ ((none, c), w)
  unfolding insert
  insert_full c w at_none same = ground arith

  insert_at :
      (c : Cache) (w : World gdal.G) (b : ℕ) (s : Slot)
      → (scan w.tid c).best_index ≡ some b
      → (scan w.tid c).slots ≡ update (lock_slot w.tid) b c.slots
      → get_elem? c.slots b ≡ some s
      → insert gdal tag key c w ≡ replace gdal tag key b (lock_slot w.tid s) (stuck w.tid b c) w
  unfolding insert
  insert_at c w b s at_b locked there =
      ground (arith, get_elem?-update_self (lock_slot w.tid) b c.slots there)

  -- In a cache with as many slots as its capacity says: if no slot may go, `insert` returns null
  -- and changes nothing. Otherwise the least recently used slot that may go is closed and gets the
  -- new value, if that is valid, and no other slot changes; if it is not valid, null is returned
  -- and that slot stays locked.
  pub insert-Inserted :
      (c : Cache) (w : World gdal.G)
      → length c.slots ≡ c.capacity
      → Inserted c w (insert gdal tag key c w)
  insert-Inserted c w sized = elim (scan-Scanned w.tid c sized) [
    | inl (nothing, at_none, same) ↦ inl (nothing, insert_full c w at_none same)
    | inr (b, s, oldest, at_b, locked) ↦
        let there = insert_at c w b s at_b locked oldest.0 in
        let (_, unused) = deletable-free s.value (ground arith) in
        inr (
          b,
          s,
          oldest,
          elim (Bool-cases (valid (made w).0)) [
            | inl fine ↦ inl (
              fine,
              there
                  ∙ replace-valid b (lock_slot w.tid s) (stuck w.tid b c) w refl unused fine
                  ∙ ap
                      (λ (c' : Cache).
                        ((some b, c'), (close gdal (lock_slot w.tid s).value (made w).1).1))
                      (stored-stuck w.tid b (made w).0 c),
            )
            | inr broken ↦
                inr
                  (broken, there ∙ replace_invalid b (lock_slot w.tid s) (stuck w.tid b c) w broken)
          ],
        )
  ]
