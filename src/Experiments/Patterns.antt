-- ===== src/Experiments/Patterns.antt =====
-- src/experiments/thread/pattern.cpp: threads that ask for tokens of a good and of a bad file, or take
-- a token that was not given out, and make five queries on it. A step gives `none` where its fuel ran
-- out.
pub mod Returns
use gdal_warp_bindings.Base.{
  ℕ, zero, suc, ◌%◌, String, List, [], ◌∷◌, Option, none, some, ℤ, pos, negsuc, ◌==◌, if◌then◌else◌,
}
use gdal_warp_bindings.Types.{Options, UriOptions}
use gdal_warp_bindings.Errno.{Outcome, returns, exits, faults}
use gdal_warp_bindings.Gdal.{Gdal, Bytes}
use gdal_warp_bindings.Dataset.Queries.{Which, source_index, warped_index}
use gdal_warp_bindings.Dataset.Queries.Band.{Flagged}
use gdal_warp_bindings.Tokens.{LruCache, Tokens}
use gdal_warp_bindings.Tokens
use gdal_warp_bindings.Bindings.{Surroundings}
use gdal_warp_bindings.Bindings.Entries.{Library, Left, Entry}
use gdal_warp_bindings.Bindings.Entries
use gdal_warp_bindings.Jni.{N, ◌>>=◌, ◌>>◌, pure}
use gdal_warp_bindings.Experiments.Random.{Random}
use gdal_warp_bindings.Experiments.Arguments.{steps}

abbrev pub bad_uri : String
bad_uri = "HOPEFULLY_THERE_IS_NO_FILE_WITH_THIS_NAME"

abbrev pub pattern_options : Options
pattern_options = "-tap" ∷ "-tr" ∷ "5" ∷ "7" ∷ "-r" ∷ "bilinear" ∷ "-t_srs" ∷ "epsg:3857" ∷ []

-- BUFFERSIZE, ATTEMPTS and COPIES
abbrev pub buffer_size : ℕ
buffer_size = 65536

abbrev pub pattern_attempts : ℤ
pattern_attempts = pos 1048576

abbrev pub pattern_copies : ℤ
pattern_copies = negsuc 3

abbrev pub pattern_src_window : List ℤ
pattern_src_window = pos 0 ∷ pos 0 ∷ pos 256 ∷ pos 256 ∷ []

abbrev pub pattern_dst_window : List ℤ
pattern_dst_window = pos 256 ∷ pos 256 ∷ []

-- The variables of `reader`, of `transform` the first element, with the library that it calls.
pub record Client (G C Double Generator : Type 0) : Type 0 where
  pub lib : Library G C
  pub generator : Generator
  pub buf : Bytes
  pub transform : Double
  pub scratch1 : ℤ
  pub scratch2 : ℤ

-- `token % 2`
unfoldable pub dataset_of : ℕ → Which
dataset_of token = if token % 2 == 0 then source_index else warped_index

-- A reader calls with the surroundings `env` of its calls, DOIT with `fuel`, and `get_token` with fuel by the
-- state of the tokens.
module _ (gdal : Gdal) (lru : LruCache) (draws : ℕ → ℕ) (string_hash : String → ℕ)
    (random : Random) where
  open gdal use {G, Double}
  open lru use {C}
  open random use {Generator}

  abbrev pub State : Type 0
  State = Client G C Double Generator

  unfoldable pub draw : ℕ → N State ℕ
  draw n s =
      let (d, generator') = random.uniform n s.generator in
      pure d (record s { generator = generator' })

  unfoldable pub ask_for_token : (Tokens C → ℕ) → UriOptions → N State ℕ
  ask_for_token token_fuel key s =
      elim (Tokens.get_token lru draws (token_fuel s.lib.tokens) s.lib.world.tid key s.lib.tokens) [
        | none ↦ none
        | some exits ↦ some exits
        | some faults ↦ some faults
        | some (returns (token, tokens)) ↦
            some (returns (token, record s { lib = record s.lib { tokens = tokens } }))
      ]

  -- The `switch`.
  unfoldable pub choose : (Tokens C → ℕ) → String → ℕ → N State ℕ
  choose token_fuel argv1 zero = pure 1
  choose token_fuel argv1 (suc zero) = ask_for_token token_fuel (bad_uri, pattern_options)
  choose token_fuel argv1 (suc (suc d)) = ask_for_token token_fuel (argv1, pattern_options)

  -- One call on memory that is read and written back so.
  unfoldable pub on_memory :
      {S : Type 0}
      → (State → S)
      → (State → S → State)
      → (S → Library G C → Option (Outcome (Left G C S)))
      → N State ℤ
  on_memory read write f s = elim (f (read s) s.lib) [
    | none ↦ none
    | some exits ↦ some exits
    | some faults ↦ some faults
    | some (returns (code, memory, lib)) ↦
        some (returns (code, record (write s memory) { lib = lib }))
  ]

  abbrev pub on_buf : (Bytes → Library G C → Option (Outcome (Left G C Bytes))) → N State ℤ
  on_buf = on_memory (λ s. s.buf) (λ s b. record s { buf = b })

  abbrev pub on_nodata :
      (Flagged Double → Library G C → Option (Outcome (Left G C (Flagged Double)))) → N State ℤ
  on_nodata =
      on_memory (λ s. record { value = s.transform; success = s.scratch1 })
        (λ s m. record s { transform = m.value; scratch1 = m.success })

  abbrev pub on_sizes : (ℤ × ℤ → Library G C → Option (Outcome (Left G C (ℤ × ℤ)))) → N State ℤ
  on_sizes =
      on_memory (λ s. (s.scratch1, s.scratch2)) (λ s m. record s { scratch1 = m.0; scratch2 = m.1 })

  module _ (fuel : ℕ) (env : ℕ → Surroundings) (attempts copies : ℤ) where
    -- The five calls of one round, in their order.
    unfoldable pub ask_crs_wkt : ℕ → N State ℤ
    ask_crs_wkt token = on_buf (
        Entries.get_crs_wkt gdal lru draws string_hash (dataset_of token) buffer_size fuel (env 0)
          token attempts copies)

    unfoldable pub ask_crs_proj4 : ℕ → N State ℤ
    ask_crs_proj4 token = on_buf (
        Entries.get_crs_proj4 gdal lru draws string_hash (dataset_of token) buffer_size fuel (env 1)
          token attempts copies)

    unfoldable pub ask_band_nodata : ℕ → N State ℤ
    ask_band_nodata token = on_nodata (
        Entries.get_band_nodata gdal lru draws string_hash (dataset_of token) (pos 1) fuel (env 2)
          token attempts copies)

    unfoldable pub ask_width_height : ℕ → N State ℤ
    ask_width_height token = on_sizes (
        Entries.get_width_height gdal lru draws string_hash (dataset_of token) fuel (env 3) token
          attempts copies)

    unfoldable pub ask_data : ℕ → N State ℤ
    ask_data token = on_buf (
        Entries.get_data gdal lru draws string_hash 0 (dataset_of token) pattern_src_window
          pattern_dst_window (pos 1) (pos 1) fuel (env 4) token attempts copies)

  unfoldable pub pattern_round :
      (Tokens C → ℕ) → ℕ → (ℕ → Surroundings) → String → N State (Unit {0})
  pattern_round token_fuel fuel env argv1 = do
    d ← draw 1000
    token ← choose token_fuel argv1 d
    ask_crs_wkt fuel env pattern_attempts pattern_copies token
    ask_crs_proj4 fuel env pattern_attempts pattern_copies token
    ask_band_nodata fuel env pattern_attempts pattern_copies token
    ask_width_height fuel env pattern_attempts pattern_copies token
    ask_data fuel env pattern_attempts pattern_copies token
    pure tt

  -- The loop with the rounds that are left, by which the surroundings differ.
  unfoldable pub pattern_rounds :
      (Tokens C → ℕ) → ℕ → (ℕ → ℕ → Surroundings) → String → ℕ → N State (Unit {0})
  pattern_rounds token_fuel fuel env argv1 zero = pure tt
  pattern_rounds token_fuel fuel env argv1 (suc n) = do
    pattern_round token_fuel fuel (env n) argv1
    pattern_rounds token_fuel fuel env argv1 n

  unfoldable pub pattern_reader :
      (Tokens C → ℕ) → ℕ → (ℕ → ℕ → Surroundings) → String → ℤ → N State (Unit {0})
  pattern_reader token_fuel fuel env argv1 lg_steps s = elim (steps lg_steps) [
    | exits ↦ some exits
    | faults ↦ some faults
    | returns n ↦ pattern_rounds token_fuel fuel env argv1 n s
  ]
