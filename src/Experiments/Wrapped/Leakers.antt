-- ===== src/Experiments/Wrapped/Leakers.antt =====
-- The threads of wrapthread.cpp that leak datasets, while `main` reads and after it has cleared
-- `keep_going`. GDAL is taken to serve one call after the other, and a test of `keep_going` to see the
-- last value written; what `main` itself does with GDAL meanwhile is not part of this.
pub mod Ended
use gdal_warp_bindings.Base.{
  ℕ, zero, suc, String, List, [], ◌∷◌, none, some, Bool, true, false, replicate, if◌then◌else◌,
}
use gdal_warp_bindings.Gdal.{Gdal, Handle, Call}

-- Where a leaker stands, with its variables `source` and `dataset`: before GDALOpen, before GDALWarp,
-- in its loop, and after it.
pub data Leaker : Type 0 where
  starting : Leaker
  opened : Handle → Leaker
  sleeping : Handle → Handle → Leaker
  ended : Handle → Handle → Leaker

-- `warp_null` is GDALWarp where the source is a null pointer.
module _ (gdal : Gdal) (warp_null : ℕ → Call gdal.G Handle) (argv1 : String) (app_options : ℕ) where
  open gdal use {G}

  -- GDALWarp on what GDALOpen returned.
  unfoldable pub warp_source : Handle → G → Leaker × G
  warp_source none g = let warped = warp_null app_options g in (sleeping none warped.0, warped.2)
  warp_source (some s) g =
      let warped = gdal.warp s app_options g in (sleeping (some s) warped.0, warped.2)

  -- `leaker`, up to its next call or its next test of `keep_going`.
  unfoldable pub leaker_step : Bool → Leaker → G → Leaker × G
  unfolding warp_source
  leaker_step keep_going starting g =
      let source = gdal.open_read_only argv1 g in (opened source.0, source.2)
  leaker_step keep_going (opened source) g = warp_source source g
  leaker_step true (sleeping source dataset) g = (sleeping source dataset, g)
  leaker_step false (sleeping source dataset) g = (ended source dataset, g)
  leaker_step keep_going (ended source dataset) g = (ended source dataset, g)

  -- A step of the leaker with number `t`, if there is one.
  unfoldable pub leaker_turn : Bool → ℕ → List Leaker × G → List Leaker × G
  unfolding leaker_step
  leaker_turn keep_going t ([], g) = ([], g)
  leaker_turn keep_going zero (l ∷ ls, g) =
      let (l', g') = leaker_step keep_going l g in (l' ∷ ls, g')
  leaker_turn keep_going (suc t) (l ∷ ls, g) =
      let (ls', g') = leaker_turn keep_going t (ls, g) in (l ∷ ls', g')

  -- The steps in the order of a schedule.
  unfoldable pub leaker_turns : Bool → List ℕ → List Leaker × G → List Leaker × G
  unfolding leaker_turn
  leaker_turns keep_going [] st = st
  leaker_turns keep_going (t ∷ schedule) st =
      leaker_turns keep_going schedule (leaker_turn keep_going t st)

  -- `main` starts `n` leakers. It clears `keep_going` between the two schedules, and the second lasts
  -- until it has joined the leakers.
  unfoldable pub leak : List ℕ → List ℕ → ℕ → G → List Leaker × G
  unfolding leaker_turns
  leak during joining n g =
      leaker_turns false joining (leaker_turns true during (replicate n starting, g))
