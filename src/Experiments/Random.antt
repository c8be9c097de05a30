-- ===== src/Experiments/Random.antt =====
-- The random numbers of src/experiments/thread/, from Boost and the standard library, which are not
-- part of the repository: a generator, and draws from 0, ..., n - 1.
use gdal_warp_bindings.Base.{ℕ, ◌<◌}

pub record Random : Type 1 where
  pub Generator : Type 0
  pub uniform : ℕ → Generator → ℕ × Generator

-- A uniform distribution stays in its range.
pub record InRange (random : Random) : Type 0 where
  pub below : (n : ℕ) (g : random.Generator) → 0 < n → (random.uniform n g).0 < n
