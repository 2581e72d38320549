-- ===== src/Common.antt =====
-- What the other modules share: the libraries' names, passed on, Boolean tests on native numbers,
-- lists measured and indexed by native numbers (a C array is such a list), and fixed-width words.
mod Tests
mod Lists
mod Words
mod Int
pub use Tests.*
pub use Lists.*
pub use Words.*
unfoldable pub use Int.*
pub use Prim.Native.Nat.{ℕ, zero, suc, ◌+◌, ◌-◌, ◌*◌, ◌/◌, ◌%◌, ◌^◌, ◌≤◌, ◌<◌}
pub use mathlib.Core.Path.{◌≡◌, refl, sym, ap, ap₂, ◌∙◌, subst}
pub use mathlib.Core.Logic.{◌≢◌, ◌↔◌, ◌⊎◌, inl, inr}
pub use mathlib.Core.Bool.{Bool, true, false, not, ◌&&◌, ◌||◌}
pub use mathlib.Core.Option.{Option, none, some}
pub use mathlib.Core.List.{List, [], ◌∷◌, ◌++◌, append-nil, append_assoc, map}
pub use native.Mathlib.Omega.{arith}
