-- ===== src/Experiments/Tiles/Table.antt =====
-- The table that rawthread.cpp fills holds the hash of each tile at the tile's place.
use native.Mathlib.Decide.{dec_lt}
use gdal_warp_bindings.Base.{
  true, ℕ, zero, suc, ◌+◌, ◌*◌, ◌^◌, ◌<◌, ◌≡◌, ◌≢◌, subst, refl, sym, ap, ◌∙◌, ◌⊎◌, inl, inr, List,
  some, ℤ, pos, length, length-set, length-replicate, get_elem?, set, get_elem?-set_self,
  get_elem?-set_ne, get_elem?_of_lt, replicate, ltb, arith,
}
use gdal_warp_bindings.Errno.{returns}
use gdal_warp_bindings.Errno.Strings.{ce_none}
use gdal_warp_bindings.Gdal.{Gdal, Handle, Bytes}
use gdal_warp_bindings.Experiments.Tiles.{
  tiles, rounds, c_string, resize, read_window, tile_size, gdt_byte, read_tile, fill_tile,
  fill_column, fill_columns, expected_results,
}

pub index_lt : (x y i j : ℕ) → i < x → j < y → i + j * x < x * y
index_lt x zero i j h k = absurd (omega arith)
index_lt x (suc y) i zero h k = omega arith
index_lt x (suc y) i (suc j) h k = omega (arith, index_lt x y i j h (omega arith))

-- Two tiles have different places.
pub index_injective : (x i j a b : ℕ) → i < x → a < x → i + j * x ≡ a + b * x → (i ≡ a) × (j ≡ b)
index_injective x i zero a zero h k e = (omega arith, refl)
index_injective x i zero a (suc b) h k e = absurd (omega arith)
index_injective x i (suc j) a zero h k e = absurd (omega arith)
index_injective x i (suc j) a (suc b) h k e =
    let (same, below) = index_injective x i j a b h k (omega arith) in (same, ap suc below)

-- Tile `a`, `b` comes before tile `i`, `j` in the order of the loops.
abbrev Before : ℕ → ℕ → ℕ → ℕ → Type 0
Before i j a b = (a < i) ⊎ ((a ≡ i) × (b < j))

-- The tile that the last round wrote is `i`, `j`, or an earlier round wrote it.
Before-step : (i j a b : ℕ) → Before i (j + 1) a b → Before i j a b ⊎ ((a ≡ i) × (b ≡ j))
Before-step i j a b (inl column) = inl (inl column)
Before-step i j a b (inr (same, row)) = elim (dec_lt b j) [
  | yes above ↦ inl (inr (same, above))
  | no below ↦ inr (same, omega arith)
]

Before-next : (i y a b : ℕ) → b < y → Before (i + 1) 0 a b → Before i y a b
Before-next i y a b k (inl column) = elim (dec_lt a i) [
  | yes earlier ↦ inl earlier
  | no last ↦ inr (omega arith, k)
]
Before-next i y a b k (inr (_, row)) = elim row [ ]

Before-other : (x i j a b : ℕ) → i < x → a < x → Before i j a b → i + j * x ≢ a + b * x
Before-other x i j a b h h' before e =
    let (same, same') = index_injective x i j a b h h' e in
    elim before [ inl column ↦ absurd (omega arith) | inr (_, row) ↦ absurd (omega arith) ]

module _ (gdal : Gdal) (hash : Bytes → ℕ) (band : Handle) (pixels : ℕ → ℕ → Bytes) (x y : ℕ) where
  open gdal use {G}

  -- GDAL reads the same pixels of a tile every time.
  pub record Shows : Type 0 where
    pub shown :
        (i j : ℕ) (g : G)
        → i < x
        → j < y
        → (gdal.raster_io band (read_window i j) tile_size gdt_byte g).0 ≡ (ce_none, pixels i j)

  -- The hash that belongs at the place of a tile.
  abbrev pub tile_hash : ℕ → ℕ → ℕ
  tile_hash i j = hash (c_string (pixels i j))

  -- The places of the tiles before `i`, `j` hold their hashes.
  record Filled (i j : ℕ) (table : List ℕ) : Type 0 where
    sized : length table ≡ x * y
    entries :
        (a b : ℕ)
        → a < x
        → b < y
        → Before i j a b
        → get_elem? table (a + b * x) ≡ some (tile_hash a b)

  read_shown :
      (i j : ℕ) (g : G)
      → (gdal.raster_io band (read_window i j) tile_size gdt_byte g).0 ≡ (ce_none, pixels i j)
      → read_tile gdal hash band i j g
        ≡ returns
            (c_string (pixels i j), (gdal.raster_io band (read_window i j) tile_size gdt_byte g).2)
  unfolding read_tile
  read_shown i j g e = rw (read_tile, ap (λ r. r.0) e, ap (λ r. r.1) e) refl

  module _ (shows : Shows) where
    pub read_tile-Shows :
        (i j : ℕ) (g : G)
        → i < x
        → j < y
        → (g' : G) × (read_tile gdal hash band i j g ≡ returns (c_string (pixels i j), g'))
    unfolding read_tile
    read_tile-Shows i j g h k =
        let r = gdal.raster_io band (read_window i j) tile_size gdt_byte g in
        (r.2, read_shown i j g (shows.shown i j g h k))

    set-Filled :
        (i j : ℕ) (table : List ℕ)
        → i < x
        → j < y
        → Filled i j table
        → Filled i (j + 1) (set table (i + j * x) (tile_hash i j))
    set-Filled i j table h k f = record {
      sized = length-set table (i + j * x) (tile_hash i j) ∙ f.sized;
      entries = λ a b h' k' before. elim (Before-step i j a b before) [
        | inl earlier ↦
            get_elem?-set_ne table (i + j * x) (a + b * x) (tile_hash i j)
              (Before-other x i j a b h h' earlier)
            ∙ f.entries a b h' k' earlier
        | inr (same, same') ↦
            ap (λ n. get_elem? (set table (i + j * x) (tile_hash i j)) n)
              (omega (arith, same, ap (λ n. n * x) same'))
            ∙ get_elem?-set_self table (i + j * x) (tile_hash i j)
                (get_elem?_of_lt table (i + j * x) (omega (arith, f.sized, index_lt x y i j h k))).1
            ∙ ap some (ap (λ n. tile_hash n j) (sym same) ∙ ap (λ n. tile_hash a n) (sym same'))
      ];
    }

    fill_tile-Filled :
        (i j : ℕ) (table : List ℕ) (g : G)
        → i < x
        → j < y
        → Filled i j table
        → (table' : List ℕ) × (g' : G) × (fill_tile gdal hash band x i j (table, g)
            ≡ returns (table', g'))
          × Filled i (j + 1) table'
    unfolding fill_tile
    fill_tile-Filled i j table g h k f =
        let (g', e) = read_tile-Shows i j g h k in
        let there : ltb (i + j * x) (length table) ≡ true =
          ground (arith, f.sized, index_lt x y i j h k) in
        (
          set table (i + j * x) (tile_hash i j),
          g',
          rw (fill_tile, e, there) refl,
          set-Filled i j table h k f,
        )

    fill_column-Filled :
        (n i j : ℕ) (table : List ℕ) (g : G)
        → i < x
        → j + n ≡ y
        → Filled i j table
        → (table' : List ℕ) × (g' : G) × (fill_column gdal hash band x i n j (table, g)
            ≡ returns (table', g'))
          × Filled i y table'
    unfolding fill_column
    fill_column-Filled zero i j table g h e f =
        (table, g, refl, subst (λ m. Filled i m table) (omega (arith, e)) f)
    fill_column-Filled (suc n) i j table g h e f =
        let (table1, g1, e1, f1) = fill_tile-Filled i j table g h (omega arith) f in
        let (table2, g2, e2, f2) = fill_column-Filled n i (j + 1) table1 g1 h (omega arith) f1 in
        (table2, g2, rw (fill_column, e1) e2, f2)

    next_column : (i : ℕ) (table : List ℕ) → Filled i y table → Filled (i + 1) 0 table
    next_column i table f = record {
      sized = f.sized;
      entries = λ a b h k before. f.entries a b h k (Before-next i y a b k before);
    }

    fill_columns-Filled :
        (n i : ℕ) (table : List ℕ) (g : G)
        → i + n ≡ x
        → Filled i 0 table
        → (table' : List ℕ) × (g' : G) × (fill_columns gdal hash band x y n i (table, g)
            ≡ returns (table', g'))
          × Filled x 0 table'
    unfolding fill_columns
    fill_columns-Filled zero i table g e f =
        (table, g, refl, subst (λ m. Filled m 0 table) (omega (arith, e)) f)
    fill_columns-Filled (suc n) i table g e f =
        let (table1, g1, e1, f1) = fill_column-Filled y i 0 table g (omega arith) (omega arith) f in
        let (table2, g2, e2, f2) =
          fill_columns-Filled n (i + 1) table1 g1 (omega arith) (next_column i table1 f1) in
        (table2, g2, rw (fill_columns, e1) e2, f2)

resize_in_range :
    (x y : ℕ) → x * y < 2 ^ 31 → resize (pos x) (pos y) ≡ returns (replicate (x * y) 0)
unfolding resize
resize_in_range x y h = ground arith

module _ (gdal : Gdal) (hash : Bytes → ℕ) (band : Handle) (pixels : ℕ → ℕ → Bytes)
    (width height : ℤ) (x y : ℕ) where
  open gdal use {G}

  -- Let a dataset be `x + 1` tiles wide and `y + 1` tiles high, as `tiles` counts them, with `x * y`
  -- in the range of `int`, and let GDAL read the same pixels of each tile every time. Then the loops
  -- end without a fault, and for each tile `i < x`, `j < y` the table holds the hash of its text at
  -- `i + j * x`, and it has no other places.
  pub expected_results_table :
      (g : G)
      → tiles width ≡ pos x
      → tiles height ≡ pos y
      → x * y < 2 ^ 31
      → Shows gdal hash band pixels x y
      → (table : List ℕ) × (g' : G) × (expected_results gdal hash band width height g
          ≡ returns (table, g'))
        × (length table ≡ x * y)
        × ((i j : ℕ)
            → i < x
            → j < y
            → get_elem? table (i + j * x) ≡ some (tile_hash gdal hash band pixels x y i j))
  unfolding expected_results rounds
  expected_results_table g wide high fits shows =
      let start : Filled gdal hash band pixels x y 0 0 (replicate (x * y) 0) = record {
        sized = length-replicate (x * y) 0;
        entries = λ a b h k before. elim before [
          | inl column ↦ elim column [ ]
          | inr (_, row) ↦ elim row [ ]
        ];
      } in
      let (table, g', e, f) =
        fill_columns-Filled gdal hash band pixels x y shows x 0 (replicate (x * y) 0) g
          (omega arith) start in
      (
        table,
        g',
        rw (expected_results, wide, high, resize_in_range x y fits) e,
        f.sized,
        λ i j h k. f.entries i j h k (inl h),
      )
