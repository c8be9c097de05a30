-- ===== src/Experiments/Wrapped.antt =====
-- src/experiments/thread/wrapthread.cpp: its readers compare tiles that they read through the library
-- with the table, which is filled as in rawthread.cpp.
pub mod Agrees
pub mod Leakers
pub mod Setup
pub mod Main
use gdal_warp_bindings.Base.{
  ◌&&◌, ℕ, zero, suc, ◌+◌, ◌*◌, String, List, Option, none, some, true, false, ℤ, pos, negsuc, ◌==◌,
  ltb_ℤ, get_elem?, if◌then◌else◌,
}
use gdal_warp_bindings.Errno.{Outcome, returns, exits, faults}
use gdal_warp_bindings.Gdal.{Gdal, Bytes}
use gdal_warp_bindings.Dataset.Queries.{warped_index}
use gdal_warp_bindings.Tokens.{LruCache}
use gdal_warp_bindings.Bindings.{Surroundings}
use gdal_warp_bindings.Bindings.Entries.{Library, Left}
use gdal_warp_bindings.Bindings.Entries
use gdal_warp_bindings.Jni.{N, ◌>>=◌, ◌>>◌, pure}
use gdal_warp_bindings.Experiments.Random.{Random}
use gdal_warp_bindings.Experiments.Arguments.{steps}
use gdal_warp_bindings.Experiments.Tiles.{c_string, read_window, tile_size, gdt_byte, rounds}

-- COPIES
abbrev pub wrapthread_copies : ℤ
wrapthread_copies = negsuc 3

-- The library, with the random numbers of a reader.
pub record Wrapped (G C Generator : Type 0) : Type 0 where
  pub lib : Library G C
  pub generator : Generator

module _ (gdal : Gdal) (lru : LruCache) (draws : ℕ → ℕ) (string_hash : String → ℕ) (random : Random)
    (hash : Bytes → ℕ) where
  open gdal use {G}
  open lru use {C}
  open random use {Generator}

  -- The test of the result and the two assertions.
  unfoldable pub check_pixels :
      List ℕ → ℕ → Generator → Left G C Bytes → Outcome (Unit {0} × Wrapped G C Generator)
  check_pixels table at generator (code, buffer, lib) = elim (ltb_ℤ (pos 0) code) [
    | false ↦ faults
    | true ↦ elim (get_elem? table at) [
      | none ↦ faults
      | some e ↦
          if hash (c_string buffer) == e
          then returns (tt, record { lib = lib; generator = generator })
          else faults
    ]
  ]

  -- `get_data` for tile `i`, `j`, with the buffer as it was.
  unfoldable pub get_tile :
      ℕ → Surroundings → ℕ → ℕ → ℕ → Bytes → Library G C → Option (Outcome (Left G C Bytes))
  get_tile fuel env token i j buffer =
      Entries.get_data gdal lru draws string_hash 0 warped_index (read_window i j) tile_size (pos 1)
        gdt_byte fuel env token (pos 0) wrapthread_copies buffer

  unfoldable pub wrap_round :
      ℕ → Surroundings → ℕ → List ℕ → ℕ → ℕ → Bytes → N (Wrapped G C Generator) (Unit {0})
  wrap_round fuel env token table x y buffer s =
      let (i, generator) = random.uniform x s.generator in
      let (j, generator') = random.uniform y generator in
      elim (get_tile fuel env token i j buffer s.lib) [
        | none ↦ none
        | some exits ↦ some exits
        | some faults ↦ some faults
        | some (returns left) ↦ some (check_pixels table (i + j * x) generator' left)
      ]

  -- The loop of `reader`, with the rounds that are left, by which the surroundings differ.
  unfoldable pub wrap_rounds :
      ℕ → (ℕ → Surroundings) → ℕ → List ℕ → ℕ → ℕ → Bytes → ℕ → N (Wrapped G C Generator) (Unit {0})
  wrap_rounds fuel env token table x y buffer zero = pure tt
  wrap_rounds fuel env token table x y buffer (suc n) = do
    wrap_round fuel (env n) token table x y buffer
    wrap_rounds fuel env token table x y buffer n

  -- `reader`; a distribution on an empty range is refused.
  unfoldable pub wrap_reader :
      ℕ → (ℕ → Surroundings) → ℕ → List ℕ → ℤ → ℤ → Bytes → ℤ → N (Wrapped G C Generator) (Unit {0})
  wrap_reader fuel env token table x y buffer lg_steps s =
      elim (ltb_ℤ (pos 0) x && ltb_ℤ (pos 0) y) [
        | false ↦ some faults
        | true ↦ elim (steps lg_steps) [
          | exits ↦ some exits
          | faults ↦ some faults
          | returns n ↦ wrap_rounds fuel env token table (rounds x) (rounds y) buffer n s
        ]
      ]
