-- ===== src/Base.antt =====
-- The names that the modules share: the libraries', passed on, and those of five children.
mod Tests
mod Lists
mod Int
mod Update
mod Slices
pub use Tests.*
pub use Lists.*
pub use Int.*
pub use Update.*
pub use Slices.*
pub use Prim.Native.Nat.{ℕ, zero, suc, ◌+◌, ◌-◌, ◌*◌, ◌/◌, ◌%◌, ◌^◌, ◌≤◌, ◌<◌, min}
pub use Prim.Native.String.{String}
pub use mathlib.Core.Path.{◌≡◌, refl, sym, ap, subst, ◌∙◌}
pub use mathlib.Core.Logic.{◌≢◌, ◌↔◌, ◌⊎◌, inl, inr}
pub use mathlib.Core.Bool.{Bool, true, false, not, ◌&&◌, ◌||◌, or_assoc}
pub use mathlib.Core.Option.{Option, none, some}
pub use mathlib.Core.List.{
  List, [], ◌∷◌, ◌++◌, map, map-append, append-nil, append_assoc, reverse, reverse-append,
  reverse-reverse,
}
pub use native.Mathlib.Omega.{arith}
