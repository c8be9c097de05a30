-- ===== src/Cache/Lookup.antt =====
-- `contains`, `count` and `get` of flat_lru_cache.hpp agree on what the cache holds.
use gdal_warp_bindings.Base.{
  ℕ, zero, suc, ◌+◌, ◌≤◌, ◌≡◌, refl, ap, inl, inr, List, [], ◌∷◌, length-append, String, Bool, ltb,
  ℤ, length, Bool-cases, Option-cases, arith,
}
use gdal_warp_bindings.Types.{UriOptions, uri_options_hash}
use gdal_warp_bindings.Gdal.{Gdal}
use gdal_warp_bindings.World.{World}
use gdal_warp_bindings.Cache.{
  Slot, Cache, tick, holds, contains_tag, count_tag, contains, count, find_all, missing, insert,
  insert_one, insert_many, get,
}

contains_tag-count_tag :
    (tag : ℕ) (key : UriOptions) (slots : List Slot)
    → contains_tag tag key slots ≡ ltb 0 (count_tag tag key slots)
unfolding contains_tag count_tag
contains_tag-count_tag tag key [] = refl
contains_tag-count_tag tag key (s ∷ slots) = ground (arith, contains_tag-count_tag tag key slots)

-- The cache contains a pair if and only if it holds it at least once.
pub contains-count :
    (string_hash : String → ℕ) (key : UriOptions) (c : Cache)
    → contains string_hash key c ≡ ltb 0 (count string_hash key c)
unfolding contains count
contains-count string_hash key c =
    contains_tag-count_tag (uri_options_hash string_hash key) key c.slots

-- The first loop of `get` finds as many slots as `count` counts.
find_all-length :
    (tag : ℕ) (key : UriOptions) (i time : ℕ) (slots : List Slot)
    → length (find_all tag key i time slots).1 ≡ count_tag tag key slots
unfolding find_all count_tag
find_all-length tag key i time [] = refl
find_all-length tag key i time (s ∷ slots) = elim (Bool-cases (holds tag key s)) [
  | inl hit ↦
      rw (hit, find_all, count_tag)
        (omega (arith, find_all-length tag key (i + 1) (tick time) slots))
  | inr miss ↦
      rw (miss, find_all, count_tag) (omega (arith, find_all-length tag key (i + 1) time slots))
]

module _ (gdal : Gdal) (tag : ℕ) (key : UriOptions) where
  -- A round adds at most one slot.
  insert_one-length :
      (c : Cache) (list : List ℕ) (w : World gdal.G)
      → let n = length (insert_one gdal tag key c list w).0.0 in
        (length list ≤ n) × (n ≤ length list + 1)
  unfolding insert_one
  insert_one-length c list w = elim (Option-cases (insert gdal tag key c w).0.0) [
    | inl nothing ↦ rw (nothing, insert_one) (omega arith, omega arith)
    | inr (b, made) ↦
        let longer = length-append list (b ∷ []) in rw (made, insert_one) (omega arith, omega arith)
  ]

  insert_many-length :
      (n : ℕ) (c : Cache) (list : List ℕ) (w : World gdal.G)
      → let m = length (insert_many gdal n tag key c list w).0.0 in
        (length list ≤ m) × (m ≤ length list + n)
  unfolding insert_many
  insert_many-length zero c list w = (omega arith, omega arith)
  insert_many-length (suc n) c list w =
      let r = insert_one gdal tag key c list w in
      let (least, most) = insert_one-length c list w in
      let (least', most') = insert_many-length n r.0.1 r.0.0 r.1 in (omega arith, omega arith)

-- `get` returns every slot that holds the pair, and no more than it may create besides.
pub get-count :
    (gdal : Gdal) (string_hash : String → ℕ) (writable : Bool) (key : UriOptions) (copies : ℤ)
    (c : Cache) (w : World gdal.G)
    → let found = count string_hash key c in
      let n = length (get gdal string_hash writable key copies c w).0.0 in
      (found ≤ n) × (n ≤ found + missing copies writable found)
unfolding get count
get-count gdal string_hash writable key copies c w =
    let tag = uri_options_hash string_hash key in
    let r = find_all tag key 0 c.time c.slots in
    let hits = find_all-length tag key 0 c.time c.slots in
    let d : Cache = record c { slots = r.0; time = r.2 } in
    let (least, most) =
      insert_many-length gdal tag key (missing copies writable (length r.1)) d r.1 w in
    let room = ap (missing copies writable) hits in (omega arith, omega arith)
