-- ===== src/Common.antt =====
-- The names that every module shares: the libraries', passed on, and those of the children, for
-- conditionals, equality, texts, lists, association lists and failing computations.
mod Logic
mod Equality
mod Lists
pub mod Dict
pub mod Int
pub use Logic.*
unfoldable pub use Equality.*
pub use Lists.*
pub use Prim.Native.Nat.{ℕ, zero, suc, ◌+◌, ◌-◌, ◌≤◌, ◌<◌}
pub use Prim.Native.String.{String}
pub use mathlib.Core.Path.{◌≡◌, refl, sym, ap, ◌∙◌}
pub use mathlib.Core.Logic.{◌≢◌, ◌↔◌, ◌⊎◌, inl, inr}
pub use mathlib.Core.Bool.{Bool, true, false, not, ◌&&◌, ◌||◌}
pub use mathlib.Core.Option.{Option, none, some}
pub use mathlib.Core.List.{List, [], ◌∷◌, ◌++◌, map, append-nil, append_assoc, map-append}
pub use native.Mathlib.Omega.{arith}
