-- ===== src/Tests.antt =====
-- Concrete runs: a small GDAL and a small token cache that the theorems are applied to.
mod Mock
mod Data
mod Runs
mod Java
mod Items
mod Histories
mod Parts
mod Loops
mod Answers
mod Experiments
mod Wrapped
mod Setup
