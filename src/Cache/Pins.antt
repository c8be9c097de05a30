-- ===== src/Cache/Pins.antt =====
-- What `insert` and `get` of flat_lru_cache.hpp do to the use counts.
use mathlib.Core.List.{append_assoc}
use gdal_warp_bindings.Base.{
  ℕ, zero, suc, ◌+◌, ◌≡◌, refl, sym, ap, ◌∙◌, inl, inr, List, [], ◌∷◌, ◌++◌, Bool, length,
  length-append, update, length-update, String, ℤ, Bool-cases, Option-cases, arith,
}
use gdal_warp_bindings.Types.{UriOptions, uri_options_hash}
use gdal_warp_bindings.Gdal.{Gdal}
use gdal_warp_bindings.World.{World}
use gdal_warp_bindings.Dataset.{LockedDataset, inc}
use gdal_warp_bindings.Dataset.Deletion.{deletable-free}
use gdal_warp_bindings.Dataset.Lifecycle.{
  Constructed, opened, unopened, unwarped, construct-Constructed,
}
use gdal_warp_bindings.Cache.{
  Slot, Cache, tick, update_value, holds, find_all, insert, insert_one, insert_many, missing, get,
}
use gdal_warp_bindings.Cache.Oldest.{lock_slot}
use gdal_warp_bindings.Cache.Insert.{insert-Inserted}
use gdal_warp_bindings.Cache.Uses.{
  use_of, uses, IsSized, plus_one, raise_all, raise_all-append, map-update_at, uses-update_there,
}

Constructed-unused :
    (tid : ℕ) (key : UriOptions) (ds : LockedDataset) → Constructed tid key ds → ds.use_count ≡ 0
Constructed-unused tid key ds (opened s h e) = ap (λ d. d.use_count) e
Constructed-unused tid key ds (unopened e) = ap (λ d. d.use_count) e
Constructed-unused tid key ds (unwarped s e) = ap (λ d. d.use_count) e

-- A cache is as large as another, and its slots are as often in use.
pub record SameUses (c d : Cache) : Type 0 where
  pub counts : uses d.slots ≡ uses c.slots
  pub sized : IsSized d

-- A cache in which each index of `list` is in use once more.
pub record Pinned (c d : Cache) (list : List ℕ) : Type 0 where
  pub counts : uses d.slots ≡ raise_all list (uses c.slots)
  pub sized : IsSized d

module _ (gdal : Gdal) (tag : ℕ) (key : UriOptions) where
  -- `insert` changes no use count.
  pub insert-SameUses :
      (c : Cache) (w : World gdal.G) → IsSized c → SameUses c (insert gdal tag key c w).0.1
  insert-SameUses c w sized = elim (insert-Inserted gdal tag key c w sized) [
    | inl (nothing, e) ↦ rw e (record { counts = refl; sized = sized })
    | inr (b, s, (there, go, _, _), inl (fine, e)) ↦
        let unused = Constructed-unused w.tid key _ (construct-Constructed gdal key w) in
        let (_, free) = deletable-free s.value (ground arith) in
        rw e (record {
          counts = uses-update_there _ b c.slots there (unused ∙ sym free);
          sized = length-update _ b c.slots ∙ sized;
        })
    | inr (b, s, (there, go, _, _), inr (broken, e)) ↦ rw e (record {
      counts = uses-update_there (lock_slot w.tid) b c.slots there refl;
      sized = length-update (lock_slot w.tid) b c.slots ∙ sized;
    })
  ]

  pub insert_one-Pinned :
      (c d : Cache) (list : List ℕ) (w : World gdal.G)
      → Pinned c d list
      → let r = insert_one gdal tag key d list w in Pinned c r.0.1 r.0.0
  unfolding insert_one inc
  insert_one-Pinned c d list w p =
      let r = insert gdal tag key d w in
      let d' = r.0.1 in
      let same = insert-SameUses d w p.sized in
      elim (Option-cases r.0.0) [
        | inl nothing ↦
            rw (nothing, insert_one)
              (record { counts = same.counts ∙ p.counts; sized = same.sized })
        | inr (b, made) ↦
            rw (made, insert_one)
              (record {
                counts =
                    map-update_at (update_value inc) plus_one b d'.slots (λ s. refl)
                    ∙ ap (update plus_one b) (same.counts ∙ p.counts)
                    ∙ sym (raise_all-append list (b ∷ []) (uses c.slots));
                sized = length-update (update_value inc) b d'.slots ∙ same.sized;
              })
      ]

  insert_many-Pinned :
      (n : ℕ) (c d : Cache) (list : List ℕ) (w : World gdal.G)
      → Pinned c d list
      → let r = insert_many gdal n tag key d list w in Pinned c r.0.1 r.0.0
  unfolding insert_many
  insert_many-Pinned zero c d list w p = p
  insert_many-Pinned (suc n) c d list w p =
      let r = insert_one gdal tag key d list w in
      insert_many-Pinned n c r.0.1 r.0.0 r.1 (insert_one-Pinned c d list w p)

update-append :
    (f : ℕ → ℕ) (i u : ℕ) (pre us : List ℕ)
    → length pre ≡ i
    → update f i (pre ++ u ∷ us) ≡ pre ++ f u ∷ us
update-append f zero u [] us e = refl
update-append f zero u (x ∷ pre) us e = absurd (omega arith)
update-append f (suc i) u [] us e = absurd (omega arith)
update-append f (suc i) u (x ∷ pre) us e = ap (◌∷◌ x) (update-append f i u pre us (omega arith))

snoc : (pre us : List ℕ) (u : ℕ) → (pre ++ u ∷ []) ++ us ≡ pre ++ u ∷ us
snoc pre us u = append_assoc pre (u ∷ []) us

-- The first loop of `get`, over slots that follow others with the counts `pre`.
pub find_all-uses :
    (tag : ℕ) (key : UriOptions) (i time : ℕ) (pre : List ℕ) (slots : List Slot)
    → length pre ≡ i
    → let r = find_all tag key i time slots in raise_all r.1 (pre ++ uses slots) ≡ pre ++ uses r.0
unfolding find_all inc
find_all-uses tag key i time pre [] e = refl
find_all-uses tag key i time pre (s ∷ slots) e = elim (Bool-cases (holds tag key s)) [
  | inl hit ↦
      let us = uses slots in
      let u = plus_one (use_of s) in
      let r = find_all tag key (i + 1) (tick time) slots in
      let ih =
        find_all-uses tag key (i + 1) (tick time) (pre ++ u ∷ []) slots
          (omega (arith, length-append pre (u ∷ []))) in
      rw (hit, find_all)
        (ap (raise_all r.1) (update-append plus_one i (use_of s) pre us e ∙ sym (snoc pre us u))
          ∙ ih
          ∙ snoc pre (uses r.0) u)
  | inr miss ↦
      let us = uses slots in
      let u = use_of s in
      let r = find_all tag key (i + 1) time slots in
      let ih =
        find_all-uses tag key (i + 1) time (pre ++ u ∷ []) slots
          (omega (arith, length-append pre (u ∷ []))) in
      rw (miss, find_all) (ap (raise_all r.1) (sym (snoc pre us u)) ∙ ih ∙ snoc pre (uses r.0) u)
]

pub length-find_all :
    (tag : ℕ) (key : UriOptions) (i time : ℕ) (slots : List Slot)
    → length (find_all tag key i time slots).0 ≡ length slots
unfolding find_all
length-find_all tag key i time [] = refl
length-find_all tag key i time (s ∷ slots) = elim (Bool-cases (holds tag key s)) [
  | inl hit ↦ rw (hit, find_all) (ap suc (length-find_all tag key (i + 1) (tick time) slots))
  | inr miss ↦ rw (miss, find_all) (ap suc (length-find_all tag key (i + 1) time slots))
]

-- In a cache with as many slots as its capacity says, `get` raises the use count of a slot by one,
-- modulo 2 ** 32, for each time that it returns the slot, and changes no other count.
pub get-Pinned :
    (gdal : Gdal) (string_hash : String → ℕ) (writable : Bool) (key : UriOptions) (copies : ℤ)
    (c : Cache) (w : World gdal.G)
    → IsSized c
    → let r = get gdal string_hash writable key copies c w in Pinned c r.0.1 r.0.0
unfolding get
get-Pinned gdal string_hash writable key copies c w sized =
    let tag = uri_options_hash string_hash key in
    let r = find_all tag key 0 c.time c.slots in
    insert_many-Pinned gdal tag key (missing copies writable (length r.1)) c
      (record c { slots = r.0; time = r.2 }) r.1 w
      (record {
        counts = sym (find_all-uses tag key 0 c.time [] c.slots refl);
        sized = length-find_all tag key 0 c.time c.slots ∙ sized;
      })
