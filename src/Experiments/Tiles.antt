-- ===== src/Experiments/Tiles.antt =====
-- src/experiments/thread/rawthread.cpp: a table of the hashes of a dataset's tiles, and threads that
-- compare tiles of a second dataset with it, by plain calls of GDAL, whose own handler takes
-- the errors. The buffer is what GDALRasterIO writes, and a zero byte behind it. The source is open.
pub mod Table
pub mod Turns
pub mod Readers
use gdal_warp_bindings.Base.{
  ℕ, zero, suc, ◌+◌, ◌-◌, ◌*◌, ◌/◌, ◌^◌, List, [], ◌∷◌, Option, none, some, Bool, true, false, ℤ,
  pos, negsuc, neg, ◌==◌, ltb, length, get_elem?, set, replicate, ltb_ℤ, ◌&&◌, if◌then◌else◌,
}
use gdal_warp_bindings.Errno.{Outcome, returns, exits, faults, ◌>>=◌}
use gdal_warp_bindings.Errno.Strings.{ce_none}
use gdal_warp_bindings.Gdal.{Gdal, Handle, Bytes}
use gdal_warp_bindings.Experiments.Random.{Random}
use gdal_warp_bindings.Experiments.Arguments.{steps}

-- WINDOW_SIZE and TILE_SIZE
abbrev pub window_size : ℕ
window_size = 256

-- `(width / WINDOW_SIZE) - 1`; the division of C truncates.
unfoldable pub tiles : ℤ → ℤ
tiles (pos n) = if n / window_size == 0 then negsuc 0 else pos (n / window_size - 1)
tiles (negsuc n) = negsuc (suc n / window_size)

-- The rounds of `for (int i = 0; i < n; ++i)`.
unfoldable pub rounds : ℤ → ℕ
rounds (pos n) = n
rounds (negsuc n) = 0

-- `std::string(buffer)`, up to the first zero byte.
unfoldable pub c_string : Bytes → Bytes
c_string [] = []
c_string (b ∷ bytes) = elim (b == 0) [ true ↦ [] | false ↦ b ∷ c_string bytes ]

-- `expected.resize(x * y)` on an empty vector: a negative product is too large a size, and one past
-- the range of `int` is undefined.
unfoldable pub resize : ℤ → ℤ → Outcome (List ℕ)
resize (pos x) (pos y) = if ltb (x * y) (2 ^ 31) then returns (replicate (x * y) 0) else faults
resize (pos x) (negsuc y) = if x == 0 then returns [] else faults
resize (negsuc x) (pos y) = if y == 0 then returns [] else faults
resize (negsuc x) (negsuc y) =
    if ltb (suc x * suc y) (2 ^ 31) then returns (replicate (suc x * suc y) 0) else faults

-- The arguments of GDALRasterIO for tile `i`, `j`.
abbrev pub read_window : ℕ → ℕ → List ℤ
read_window i j =
    pos (i * window_size) ∷ pos (j * window_size) ∷ pos window_size ∷ pos window_size ∷ []

abbrev pub tile_size : List ℤ
tile_size = pos 256 ∷ pos 256 ∷ []

-- GDT_Byte
abbrev pub gdt_byte : ℤ
gdt_byte = pos 1

-- What a reader thread still has to do.
pub record Thread (Generator : Type 0) : Type 0 where
  pub left : ℕ
  pub generator : Generator

module _ (gdal : Gdal) (hash : Bytes → ℕ) where
  open gdal use {G}

  -- GDALRasterIO and its test, then the string in the buffer.
  unfoldable pub read_tile : Handle → ℕ → ℕ → G → Outcome (Bytes × G)
  read_tile band i j g =
      let r = gdal.raster_io band (read_window i j) tile_size gdt_byte g in
      elim r.0.0 [ ce_none ↦ returns (c_string r.0.1, r.2) | _ ↦ exits ]

  -- `expected[i + j * x] = hash(s)`
  unfoldable pub fill_tile : Handle → ℕ → ℕ → ℕ → List ℕ × G → Outcome (List ℕ × G)
  fill_tile band x i j (table, g) = read_tile band i j g >>= λ (s, g').
      if ltb (i + j * x) (length table)
      then returns (set table (i + j * x) (hash s), g')
      else faults

  -- The loop over `j`, with the rounds that are left.
  unfoldable pub fill_column : Handle → ℕ → ℕ → ℕ → ℕ → List ℕ × G → Outcome (List ℕ × G)
  fill_column band x i zero j t = returns t
  fill_column band x i (suc n) j t = fill_tile band x i j t >>= fill_column band x i n (j + 1)

  -- The loop over `i`, with the rounds that are left.
  unfoldable pub fill_columns : Handle → ℕ → ℕ → ℕ → ℕ → List ℕ × G → Outcome (List ℕ × G)
  fill_columns band x y zero i t = returns t
  fill_columns band x y (suc n) i t = fill_column band x i y 0 t >>= fill_columns band x y n (i + 1)

  -- The table for a dataset of some width and height.
  unfoldable pub expected_results : Handle → ℤ → ℤ → G → Outcome (List ℕ × G)
  expected_results band width height g =
      let x = tiles width in
      let y = tiles height in
      resize x y >>= λ table. fill_columns band (rounds x) (rounds y) (rounds x) 0 (table, g)

  module _ (random : Random) where
    open random use {Generator}

    -- `assert(h == expected[i + j * x])`
    unfoldable pub check_tile : List ℕ → ℕ → Bytes × G → Outcome G
    check_tile table at (s, g) = elim (get_elem? table at) [
      | none ↦ faults
      | some e ↦ if hash s == e then returns g else faults
    ]

    -- One round of `reader`.
    unfoldable pub read_round : Handle → List ℕ → ℕ → ℕ → Generator × G → Outcome (Generator × G)
    read_round band table x y (generator, g) =
        let (i, generator') = random.uniform x generator in
        let (j, generator'') = random.uniform y generator' in
        read_tile band i j g >>= check_tile table (i + j * x) >>= λ g'. returns (generator'', g')

    -- `reader`, with the rounds that are left.
    unfoldable pub read_rounds :
        Handle → List ℕ → ℕ → ℕ → ℕ → Generator × G → Outcome (Generator × G)
    read_rounds band table x y zero st = returns st
    read_rounds band table x y (suc n) st =
        read_round band table x y st >>= read_rounds band table x y n

    -- `reader`; a distribution on an empty range is refused.
    unfoldable pub reader : Handle → List ℕ → ℤ → ℤ → ℤ → Generator × G → Outcome (Generator × G)
    reader band table x y lg_steps st = elim (ltb_ℤ (pos 0) x && ltb_ℤ (pos 0) y) [
      | false ↦ faults
      | true ↦ steps lg_steps >>= λ n. read_rounds band table (rounds x) (rounds y) n st
    ]

    -- One round of thread `t`, if it has one left, as one step: GDAL is taken to serve one call after
    -- the other.
    unfoldable pub thread_step :
        Handle
        → List ℕ
        → ℕ
        → ℕ
        → ℕ
        → List (Thread Generator) × G
        → Outcome (List (Thread Generator) × G)
    thread_step band table x y t (threads, g) = elim (get_elem? threads t) [
      | none ↦ returns (threads, g)
      | some thread ↦ elim thread.left [
        | zero ↦ returns (threads, g)
        | suc n ↦ read_round band table x y (thread.generator, g) >>= λ (generator, g').
            returns (set threads t (record { left = n; generator = generator }), g')
      ]
    ]

    -- The rounds of the threads in the order of a schedule.
    unfoldable pub run_threads :
        Handle
        → List ℕ
        → ℕ
        → ℕ
        → List ℕ
        → List (Thread Generator) × G
        → Outcome (List (Thread Generator) × G)
    run_threads band table x y [] st = returns st
    run_threads band table x y (t ∷ schedule) st =
        thread_step band table x y t st >>= run_threads band table x y schedule

    -- `main` after the first dataset is there: the table, then the first dataset is closed and the
    -- source is warped again, then the threads run in the order of a schedule.
    unfoldable pub second_dataset : ℕ → ℕ → ℕ → G → Handle × G
    second_dataset dataset source app_options g =
        let warped = gdal.warp source app_options (gdal.close dataset g).2 in
        let band = gdal.get_raster_band warped.0 (pos 1) warped.2 in (band.0, band.2)

    unfoldable pub compare_tiles :
        Handle
        → ℤ
        → ℤ
        → ℕ
        → ℕ
        → ℕ
        → List ℕ
        → List (Thread Generator)
        → G
        → Outcome (List (Thread Generator) × G)
    compare_tiles band width height dataset source app_options schedule threads g =
        expected_results band width height g >>= λ (table, g').
        let (band', g'') = second_dataset dataset source app_options g' in
        run_threads band' table (rounds (tiles width)) (rounds (tiles height)) schedule
          (threads, g'')
