-- ===== src/Tests/Experiments.antt =====
-- The programs of src/experiments/thread/ on small data.
use gdal_warp_bindings.Base.{
  ℕ, ◌+◌, ◌-◌, ◌*◌, ◌<◌, ◌≡◌, refl, List, [], ◌∷◌, none, some, false, pos, ◌==◌, ◌||◌, ◌%◌, length,
  get_elem?, if◌then◌else◌, arith,
}
use gdal_warp_bindings.Errno.{returns}
use gdal_warp_bindings.Gdal.{Handle, Bytes}
use gdal_warp_bindings.Tokens.{Entries, Tokens, lookup}
use gdal_warp_bindings.Tokens.Fresh.{is_taken}
use gdal_warp_bindings.Bindings.Threads.Counts.{occurrences}
use gdal_warp_bindings.Jni.Returns.{IsLive}
use gdal_warp_bindings.Experiments.Random.{Random, InRange}
use gdal_warp_bindings.Experiments.Tiles.{
  tiles, Thread, expected_results, compare_tiles, second_dataset,
}
use gdal_warp_bindings.Experiments.Tiles.Table.{Shows, tile_hash, expected_results_table}
use gdal_warp_bindings.Experiments.Tiles.Turns.{lefts}
use gdal_warp_bindings.Experiments.Tiles.Readers.{compare_tiles_returns}
use gdal_warp_bindings.Experiments.Patterns.{Client, pattern_reader}
use gdal_warp_bindings.Experiments.Patterns.Returns.{Keeps, pattern_fuel, pattern_reader_returns}
use gdal_warp_bindings.Experiments.StringLists.{Heap, text, pointers, csl_destroy}
use gdal_warp_bindings.Experiments.StringLists.Destroyed.{
  is_among, string_list, Owned, csl_destroy_frees,
}
use gdal_warp_bindings.Tests.Mock.{mock, boost, draws, string_hash}
use gdal_warp_bindings.Tests.Data.{library, surroundings}

-- Draws the least and the greatest number in turn.
abbrev pub random : Random
random = record { Generator = ℕ; uniform = λ n g. (if g % 2 == 0 then 0 else n - 1, g + 1) }

pub random-InRange : InRange random
random-InRange = record { below = λ n g some_n. ground arith }

abbrev pub byte_hash : Bytes → ℕ
byte_hash bytes = length bytes + 1

abbrev pub sevens : ℕ → ℕ → Bytes
sevens i j = 7 ∷ []

shows : (band : Handle) → Shows mock byte_hash band sevens 1 2
shows band = record { shown = λ i j g h k. refl }

wide : tiles (pos 512) ≡ pos 1
unfolding tiles
wide = refl

high : tiles (pos 800) ≡ pos 2
unfolding tiles
high = refl

expected_results_table_example :
    (table : List ℕ) × (g' : ℕ) × (expected_results mock byte_hash (some 1) (pos 512) (pos 800) 5
      ≡ returns (table, g'))
    × (length table ≡ 1 * 2)
    × ((i j : ℕ)
        → i < 1
        → j < 2
        → get_elem? table (i + j * 1) ≡ some (tile_hash mock byte_hash (some 1) sevens 1 2 i j))
expected_results_table_example =
    expected_results_table mock byte_hash (some 1) sevens (pos 512) (pos 800) 1 2 5 wide high
      (omega arith) (shows (some 1))

abbrev two_threads : List (Thread ℕ)
two_threads = record { left = 2; generator = 0 } ∷ record { left = 1; generator = 0 } ∷ []

compare_tiles_returns_example :
    (threads' : List (Thread ℕ)) × (g' : ℕ) × (compare_tiles mock byte_hash random
        (some 1)
        (pos 512)
        (pos 800)
        1
        0
        2
        (0 ∷ 1 ∷ 0 ∷ [])
        two_threads
        5
      ≡ returns (threads', g'))
    × ((t n : ℕ)
        → get_elem? (lefts two_threads) t ≡ some n
        → get_elem? (lefts threads') t ≡ some (n - occurrences t (0 ∷ 1 ∷ 0 ∷ [])))
compare_tiles_returns_example =
    compare_tiles_returns mock byte_hash (some 1) sevens 1 2 random (pos 512) (pos 800) 1 0 2
      (0 ∷ 1 ∷ 0 ∷ []) two_threads 5 random-InRange wide high (omega arith) (omega arith)
      (omega arith) (shows (some 1)) (λ g. shows (second_dataset mock byte_hash random 1 0 2 g).0)

-- A token larger than all that are in use.
abbrev sum_keys : Entries → ℕ
sum_keys [] = 0
sum_keys ((k, v) ∷ es) = k + sum_keys es

lookup_large : (k : ℕ) (es : Entries) → sum_keys es < k → lookup k es ≡ none
lookup_large k [] large = refl
lookup_large k ((j, v) ∷ es) large = ground (arith, lookup_large k es)

abbrev token_fuel : Tokens (ℕ × Entries) → ℕ
token_fuel ts = elim ts.cache [ none ↦ 0 | some c ↦ sum_keys c.1 + 3 ]

enough :
    (ts : Tokens (ℕ × Entries)) (c : ℕ × Entries)
    → ts.cache ≡ some c
    → (m : ℕ) × (is_taken boost draws c (draws (ts.drawn + m)) ≡ false) × (m + 1 < token_fuel ts)
enough ts c live =
    let large : lookup (ts.drawn + (sum_keys c.1 + 1)) c.1 ≡ none =
      lookup_large (ts.drawn + (sum_keys c.1 + 1)) c.1 (omega arith) in
    (sum_keys c.1 + 1, rw large (ground arith), rw live (omega arith))

abbrev client : Client ℕ (ℕ × Entries) ℕ ℕ
client = record {
  lib = library;
  generator = 0;
  buf = [];
  transform = 0;
  scratch1 = pos 0;
  scratch2 = pos 0;
}

live : IsLive mock boost draws string_hash library
live = record {
  content = (4, (33, ("a.tif", "-tr" ∷ "30" ∷ [])) ∷ []);
  live = refl;
  unlocked = refl;
  bounded = (omega arith, (omega arith, tt));
  sized = refl;
}

pattern_reader_returns_example :
    (s' : Client ℕ (ℕ × Entries) ℕ ℕ) × (pattern_reader mock boost draws string_hash random
        token_fuel pattern_fuel
        (λ k i. surroundings)
        "a.tif"
        (pos 3)
        client
      ≡ some (returns (tt, s')))
    × Keeps mock boost draws string_hash random client s'
pattern_reader_returns_example =
    pattern_reader_returns mock boost draws string_hash random token_fuel enough
      (λ k i. surroundings) "a.tif" 3 client (omega arith) live

-- A list of two strings at 10, and a block at 4 that is not part of it.
abbrev heap : Heap
heap p =
    if p == 10
    then some (pointers (string_list (1 ∷ 2 ∷ []) []))
    else (if p == 1 || (p == 2 || p == 4) then some (text []) else none)

owned : Owned 10 (1 ∷ 2 ∷ []) heap
owned = (
  λ e. absurd (omega arith),
  (text [], refl),
  refl,
  (λ e. absurd (omega arith), (text [], refl), refl, tt),
)

csl_destroy_frees_example :
    (heap' : Heap) × (csl_destroy 3 (some 10) heap ≡ some (returns heap'))
    × ((q : ℕ) → heap' q ≡ (if q == 10 || is_among q (1 ∷ 2 ∷ []) then none else heap q))
csl_destroy_frees_example = csl_destroy_frees (1 ∷ 2 ∷ []) 3 10 heap [] (omega arith) refl owned
