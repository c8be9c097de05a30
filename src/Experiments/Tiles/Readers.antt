-- ===== src/Experiments/Tiles/Readers.antt =====
-- The reader threads of rawthread.cpp: their assertion holds.
use gdal_warp_bindings.Bindings.Threads.Counts.{occurrences}
use gdal_warp_bindings.Base.{
  update, ◌-◌, ◌∙◌, sym, ℕ, zero, suc, ◌+◌, ◌*◌, ◌^◌, ◌<◌, ◌≡◌, refl, ap, inl, inr, List, [], ◌∷◌,
  some, true, ℤ, pos, get_elem?, ltb, ◌==◌, set, Option-cases, arith,
}
use gdal_warp_bindings.Errno.{returns}
use gdal_warp_bindings.Gdal.{Gdal, Handle, Bytes}
use gdal_warp_bindings.Experiments.Random.{Random, InRange}
use gdal_warp_bindings.Experiments.Arguments.{steps}
use gdal_warp_bindings.Experiments.Tiles.{
  Thread, c_string, rounds, check_tile, read_round, read_rounds, reader, thread_step, run_threads,
  second_dataset, compare_tiles, tiles,
}
use gdal_warp_bindings.Experiments.Tiles.Turns.{
  minus_one, turn_at, turns_sum, lefts, lefts_idle, lefts_nobody, lefts-set,
}
use gdal_warp_bindings.Experiments.Tiles.Table.{
  Shows, tile_hash, read_tile-Shows, expected_results_table,
}

module _ (gdal : Gdal) (hash : Bytes → ℕ) (band : Handle) (pixels : ℕ → ℕ → Bytes) (x y : ℕ)
    (random : Random) (table : List ℕ) where
  open gdal use {G}
  open random use {Generator}

  -- The table holds the hash of each tile at the tile's place.
  abbrev pub IsExpected : Type 0
  IsExpected =
      (i j : ℕ)
      → i < x
      → j < y
      → get_elem? table (i + j * x) ≡ some (tile_hash gdal hash band pixels x y i j)

  checked :
      (s : Bytes) (at : ℕ) (g : G)
      → get_elem? table at ≡ some (hash s)
      → check_tile gdal hash random table at (s, g) ≡ returns g
  unfolding check_tile
  checked s at g e =
      let same : (hash s == hash s) ≡ true = ground arith in rw (check_tile, e, same) refl

  module _ (range : InRange random) (expected : IsExpected)
      (shows : Shows gdal hash band pixels x y) (wide : 0 < x) (high : 0 < y) where
    read_round_returns :
        (generator : Generator) (g : G)
        → (generator' : Generator) × (g' : G) × (read_round gdal hash random band table x y
              (generator, g)
            ≡ returns (generator', g'))
    unfolding read_round
    read_round_returns generator g =
        let (i, generator1) = random.uniform x generator in
        let (j, generator2) = random.uniform y generator1 in
        let h = range.below x generator wide in
        let k = range.below y generator1 high in
        let (g', e) = read_tile-Shows gdal hash band pixels x y shows i j g h k in
        (
          generator2,
          g',
          rw (read_round, e, checked (c_string (pixels i j)) (i + j * x) g' (expected i j h k))
              refl,
        )

    read_rounds_returns :
        (n : ℕ) (generator : Generator) (g : G)
        → (generator' : Generator) × (g' : G) × (read_rounds gdal hash random band table x y n
              (generator, g)
            ≡ returns (generator', g'))
    unfolding read_rounds
    read_rounds_returns zero generator g = (generator, g, refl)
    read_rounds_returns (suc n) generator g =
        let (generator1, g1, e1) = read_round_returns generator g in
        let (generator2, g2, e2) = read_rounds_returns n generator1 g1 in
        (generator2, g2, rw (read_rounds, e1) e2)

    -- A round of a thread that has one left.
    stepped :
        (t n : ℕ) (threads : List (Thread Generator)) (g : G) (generator : Generator)
        → get_elem? threads t ≡ some (record { left = suc n; generator = generator })
        → (generator' : Generator) × (g' : G) × (thread_step gdal hash random band table x y t
              (threads, g)
            ≡ returns (set threads t (record { left = n; generator = generator' }), g'))
    unfolding thread_step
    stepped t n threads g generator there =
        let (generator', g', e) = read_round_returns generator g in
        (generator', g', rw (there, e, thread_step) refl)

    -- A step of thread `t` returns, and takes one from what thread `t` has left.
    abbrev StepsTo : ℕ → List (Thread Generator) → G → Type 0
    StepsTo t threads g =
        (threads' : List (Thread Generator)) × (g' : G) × (thread_step gdal hash random band table x
            y t (threads, g)
          ≡ returns (threads', g'))
        × (lefts threads' ≡ update minus_one t (lefts threads))

    thread_step_on :
        (t n : ℕ) (threads : List (Thread Generator)) (g : G) (generator : Generator)
        → get_elem? threads t ≡ some (record { left = n; generator = generator })
        → StepsTo t threads g
    unfolding thread_step
    thread_step_on t zero threads g generator there =
        (threads, g, rw (there, thread_step) refl, sym (lefts_idle t threads there))
    thread_step_on t (suc n) threads g generator there =
        let (generator', g', e) = stepped t n threads g generator there in
        (_, g', e, lefts-set t n threads generator generator' there)

    thread_step_returns : (t : ℕ) (threads : List (Thread Generator)) (g : G) → StepsTo t threads g
    unfolding thread_step
    thread_step_returns t threads g = elim (Option-cases (get_elem? threads t)) [
      | inl nobody ↦
          (threads, g, rw (nobody, thread_step) refl, sym (lefts_nobody t threads nobody))
      | inr (thread, there) ↦ thread_step_on t thread.left threads g thread.generator there
    ]

    -- The threads in any order.
    pub run_threads_returns :
        (schedule : List ℕ) (threads : List (Thread Generator)) (g : G)
        → (threads' : List (Thread Generator)) × (g' : G) × (run_threads gdal hash random band table
              x y schedule
              (threads, g)
            ≡ returns (threads', g'))
          × ((t n : ℕ)
              → get_elem? (lefts threads) t ≡ some n
              → get_elem? (lefts threads') t ≡ some (n - occurrences t schedule))
    unfolding run_threads occurrences
    run_threads_returns [] threads g =
        (threads, g, refl, λ t n there. there ∙ ap some (omega arith))
    run_threads_returns (t ∷ schedule) threads g =
        let (threads1, g1, e1, turn) = thread_step_returns t threads g in
        let (threads2, g2, e2, later) = run_threads_returns schedule threads1 g1 in
        (
          threads2,
          g2,
          rw (run_threads, e1) e2,
          λ u n there.
              later u _ (ap (λ l. get_elem? l u) turn ∙ turn_at t u n (lefts threads) there)
              ∙ ap some (turns_sum t u n schedule),
        )

    -- A reader by itself.
    pub reader_returns :
        (lg_steps : ℕ) (generator : Generator) (g : G)
        → lg_steps < 31
        → (generator' : Generator) × (g' : G) × (reader gdal hash random band table
              (pos x)
              (pos y)
              (pos lg_steps)
              (generator, g)
            ≡ returns (generator', g'))
    unfolding reader steps rounds
    reader_returns lg_steps generator g few =
        let (generator', g', e) = read_rounds_returns (2 ^ lg_steps) generator g in
        let some_x : ltb 0 x ≡ true = ground arith in
        let some_y : ltb 0 y ≡ true = ground arith in
        let in_range : ltb lg_steps 31 ≡ true = ground arith in
        (generator', g', rw (some_x, some_y, in_range, reader) e)

module _ (gdal : Gdal) (hash : Bytes → ℕ) (band : Handle) (pixels : ℕ → ℕ → Bytes) (x y : ℕ)
    (random : Random) (width height : ℤ) (dataset source app_options : ℕ) where
  open gdal use {G}
  open random use {Generator}

  -- Let a dataset be `x + 1` tiles wide and `y + 1` tiles high, as `tiles` counts them, with `x` and
  -- `y` positive and `x * y` in the range of `int`. Let GDAL read the same pixels of each tile
  -- from the dataset every time, and from the dataset that the source is warped to later. Then the
  -- program fills its table, and whatever the order is in which the threads have their turns, none
  -- of their assertions fails and no call exits. Each thread has its rounds less its turns left.
  pub compare_tiles_returns :
      (schedule : List ℕ) (threads : List (Thread Generator)) (g : G)
      → InRange random
      → tiles width ≡ pos x
      → tiles height ≡ pos y
      → 0 < x
      → 0 < y
      → x * y < 2 ^ 31
      → Shows gdal hash band pixels x y
      → ((g : G)
          → Shows gdal hash
              (second_dataset gdal hash random dataset source app_options g).0
              pixels
              x
              y)
      → (threads' : List (Thread Generator)) × (g' : G) × (compare_tiles gdal hash random band width
            height dataset source app_options schedule threads g
          ≡ returns (threads', g'))
        × ((t n : ℕ)
            → get_elem? (lefts threads) t ≡ some n
            → get_elem? (lefts threads') t ≡ some (n - occurrences t schedule))
  unfolding compare_tiles rounds
  compare_tiles_returns schedule threads g range wide high some_x some_y fits shows again =
      let (table, g1, e1, sized, holds) =
        expected_results_table gdal hash band pixels width height x y g wide high fits shows in
      let (band', g2) = second_dataset gdal hash random dataset source app_options g1 in
      let (threads', g3, e3, turns) =
        run_threads_returns gdal hash band' pixels x y random table range holds (again g1) some_x
          some_y schedule threads g2 in
      (threads', g3, rw (compare_tiles, e1, wide, high) e3, turns)
