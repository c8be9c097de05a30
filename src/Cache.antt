-- ===== src/Cache.antt =====
-- src/flat_lru_cache.hpp, class `flat_lru_cache`. A pointer into `m_values` is the index of its slot.
-- Each method holds `m_cache_lock` while it reads or writes the slots, so that between its locks it
-- is one step; the lock itself is not part of the state.
pub mod Oldest
pub mod Insert
pub mod Uses
pub mod Pins
pub mod Eviction
pub mod Lookup
pub mod Empty
pub mod Found
pub mod Origins
use gdal_warp_bindings.Base.{
  ℕ, zero, suc, ◌+◌, ◌-◌, ◌%◌, ◌^◌, min, String, List, [], ◌∷◌, ◌++◌, Option, none, some, Bool,
  true, false, ◌&&◌, ℤ, pos, negsuc, ltb, ◌==◌, length, get_elem?, replicate, update, if◌then◌else◌,
}
use gdal_warp_bindings.Types.{UriOptions, uri_options_hash, size_mod}
use gdal_warp_bindings.Gdal.{Gdal}
use gdal_warp_bindings.World.{World, M, ◌>>=◌, ◌>>◌, pure}
use gdal_warp_bindings.Dataset.{
  LockedDataset, empty_dataset, matches, valid, inc, lock_for_deletion, unlock_for_nondeletion,
  construct, destroy, move_assign,
}

-- `m_tags[i]`, `m_atimes[i]` and `m_values[i]`.
pub record Slot : Type 0 where
  pub tag : ℕ
  pub atime : ℕ
  pub value : LockedDataset

pub record Cache : Type 0 where
  pub slots : List Slot
  pub time : ℕ
  pub capacity : ℕ
  pub size : ℕ

abbrev pub empty_slot : Slot
empty_slot = record { tag = 0; atime = 0; value = empty_dataset }

-- `++m_time`, a `uint64_t`.
abbrev pub tick : ℕ → ℕ
tick t = (t + 1) % size_mod

-- `size()`
unfoldable pub cache_size : Cache → ℕ
cache_size c = min c.capacity c.size

-- `m_tags[i] == tag && m_values[i] == key`
unfoldable pub holds : ℕ → UriOptions → Slot → Bool
holds tag key slot = slot.tag == tag && matches slot.value key

unfoldable pub contains_tag : ℕ → UriOptions → List Slot → Bool
contains_tag tag key [] = false
contains_tag tag key (slot ∷ slots) =
    if holds tag key slot then true else contains_tag tag key slots

unfoldable pub count_tag : ℕ → UriOptions → List Slot → ℕ
count_tag tag key [] = 0
count_tag tag key (slot ∷ slots) = (if holds tag key slot then 1 else 0) + count_tag tag key slots

module _ (string_hash : String → ℕ) where
  unfoldable pub contains : UriOptions → Cache → Bool
  contains key c = contains_tag (uri_options_hash string_hash key) key c.slots

  unfoldable pub count : UriOptions → Cache → ℕ
  count key c = count_tag (uri_options_hash string_hash key) key c.slots

-- The first loop of `get`, from slot `i`: the slots after it, the indices of the hits, the clock.
unfoldable pub find_all : ℕ → UriOptions → ℕ → ℕ → List Slot → List Slot × List ℕ × ℕ
find_all tag key i time [] = ([], [], time)
find_all tag key i time (slot ∷ slots) =
    let hit = holds tag key slot in
    let (slots', list, time') = find_all tag key (i + 1) (if hit then tick time else time) slots in
    if hit
    then (record slot { value = inc slot.value; atime = tick time } ∷ slots', i ∷ list, time')
    else (slot ∷ slots', list, time')

-- The state of the loop of `insert`; `best_index` is `none` for -1.
pub record Scan : Type 0 where
  pub slots : List Slot
  pub best_index : Option ℕ
  pub best_atime : ℕ

-- `atime_t best_atime = -1`
abbrev pub max_atime : ℕ
max_atime = size_mod - 1

abbrev pub update_value : (LockedDataset → LockedDataset) → Slot → Slot
update_value f slot = record slot { value = f slot.value }

unfoldable pub unlock_best : ℕ → Option ℕ → List Slot → List Slot
unlock_best tid none slots = slots
unlock_best tid (some b) slots = update (update_value (unlock_for_nondeletion tid)) b slots

-- One round of the loop at slot `i`, which is there.
unfoldable pub visit : ℕ → ℕ → Slot → Scan → Scan
visit tid i slot st =
    if ltb slot.atime st.best_atime
    then (let slots' = update (update_value (λ ds. (lock_for_deletion tid ds).1)) i st.slots in
        if (lock_for_deletion tid slot.value).0
        then record {
          slots = unlock_best tid st.best_index slots';
          best_index = some i;
          best_atime = slot.atime;
        }
        else record st { slots = slots' })
    else st

unfoldable pub scan_round : ℕ → ℕ → Scan → Scan
scan_round tid i st = elim (get_elem? st.slots i) [ none ↦ st | some slot ↦ visit tid i slot st ]

-- `n` rounds from slot `i`.
unfoldable pub scan_from : ℕ → ℕ → ℕ → Scan → Scan
scan_from tid zero i st = st
scan_from tid (suc n) i st = scan_from tid n (i + 1) (scan_round tid i st)

unfoldable pub scan : ℕ → Cache → Scan
scan tid c =
    scan_from tid c.capacity 0
      (record { slots = c.slots; best_index = none; best_atime = max_atime })

-- `copies2` as a number: 1 for a negative `copies`.
unfoldable pub hard_copies : ℤ → ℕ
hard_copies (pos n) = n
hard_copies (negsuc n) = 1

-- `-copies` where `copies <= 0`, and 0 otherwise.
unfoldable pub soft_copies : ℤ → ℕ
soft_copies (pos n) = 0
soft_copies (negsuc n) = suc n

-- How many values `get` tries to create when it has found `found`; `writable` says whether
-- `pthread_rwlock_trywrlock` obtains the lock.
unfoldable pub missing : ℤ → Bool → ℕ → ℕ
unfolding hard_copies soft_copies
missing copies writable found =
    if ltb found (hard_copies copies)
    then hard_copies copies - found
    else (if ltb found (soft_copies copies)
        then (if writable then soft_copies copies - found else 0)
        else 0)

-- The constructor, up to its call of `clear`.
unfoldable pub new_cache : ℕ → Cache
new_cache capacity = record {
  slots = replicate capacity empty_slot;
  time = 0;
  capacity = capacity;
  size = 0;
}

module _ (gdal : Gdal) where
  open gdal use {G}

  unfoldable pub clear_slot : Slot → M G Slot
  clear_slot slot w =
      (do
        (value, rest) ← move_assign gdal (lock_for_deletion w.tid slot.value).1 empty_dataset
        destroy gdal rest
        pure (record { tag = 0; atime = 0; value = value }))
        w

  unfoldable pub clear_slots : List Slot → M G (List Slot)
  unfolding clear_slot
  clear_slots [] = pure []
  clear_slots (slot ∷ slots) = do
    slot' ← clear_slot slot
    slots' ← clear_slots slots
    pure (slot' ∷ slots')

  -- `m_size` is reset by the rounds of the loop.
  unfoldable pub clear : Cache → M G Cache
  unfolding clear_slots
  clear c = do
    slots' ← clear_slots c.slots
    pure (record c { slots = slots'; size = if c.capacity == 0 then c.size else 0 })

  unfoldable pub create_cache : ℕ → M G Cache
  unfolding new_cache clear
  create_cache capacity = clear (new_cache capacity)

  -- The copy constructor: it takes over the clock, the capacity and the size, but no slot.
  unfoldable pub copy_cache : Cache → M G Cache
  unfolding clear
  copy_cache rhs = clear (record {
    slots = replicate rhs.capacity empty_slot;
    time = rhs.time;
    capacity = rhs.capacity;
    size = rhs.size;
  })

  -- The second half of `insert`, with slot `b` locked for deletion.
  unfoldable pub replace : ℕ → UriOptions → ℕ → Slot → Cache → M G (Option ℕ × Cache)
  replace tag key b slot c = do
    ds ← construct gdal key
    if valid ds
        then (do
          (value, rest) ← move_assign gdal slot.value ds
          destroy gdal rest
          let time = tick c.time
          pure (
            some b,
            record c {
              slots = update (λ _. record { tag = tag; atime = time; value = value }) b c.slots;
              time = time;
              size = (c.size + 1) % size_mod;
            },
          ))
        else (do destroy gdal ds; pure (none, c))

  unfoldable pub insert : ℕ → UriOptions → Cache → M G (Option ℕ × Cache)
  insert tag key c w =
      let st = scan w.tid c in
      let c' = record c { slots = st.slots } in
      elim st.best_index [
        | none ↦ ((none, c'), w)
        | some b ↦ elim (get_elem? st.slots b) [
          | none ↦ ((none, c'), w)
          | some slot ↦ replace tag key b slot c' w
        ]
      ]

  -- One round of the inserting loops of `get`.
  unfoldable pub insert_one : ℕ → UriOptions → Cache → List ℕ → M G (List ℕ × Cache)
  insert_one tag key c list = do
    (made, c') ← insert tag key c
    pure (elim made [
      | none ↦ (list, c')
      | some b ↦ (list ++ b ∷ [], record c' { slots = update (update_value inc) b c'.slots })
    ])

  unfoldable pub insert_many : ℕ → ℕ → UriOptions → Cache → List ℕ → M G (List ℕ × Cache)
  insert_many zero tag key c list = pure (list, c)
  insert_many (suc n) tag key c list = do
    (list', c') ← insert_one tag key c list
    insert_many n tag key c' list'

  unfoldable pub get : (String → ℕ) → Bool → UriOptions → ℤ → Cache → M G (List ℕ × Cache)
  unfolding missing
  get string_hash writable key copies c =
      let tag = uri_options_hash string_hash key in
      let (slots', list, time') = find_all tag key 0 c.time c.slots in
      insert_many (missing copies writable (length list)) tag key
        (record c { slots = slots'; time = time' }) list
