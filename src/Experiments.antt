-- ===== src/Experiments.antt =====
-- src/experiments/thread/: programs that run the library, or GDAL itself, from many threads. Their
-- assertions are taken to be on. `exits` is a call of `exit`; `faults` is an assertion that fails, an
-- exception that nobody catches, or undefined behaviour.
pub mod Random
pub mod Arguments
pub mod Tiles
pub mod Patterns
pub mod Wrapped
pub mod StringLists
pub mod Oversubscribe
