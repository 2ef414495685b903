-- ===== src/Base.antt =====
-- Names, tests and lemmas that every component shares: the libraries' names passed on, Boolean
-- tests on native numbers, and lists measured by native numbers.
mod Tests
mod Lists
mod Sets
mod Sort
mod Options
pub use Tests.*
pub use Lists.*
unfoldable pub use Sort.*
pub use Sets.*
pub use Options.*
pub use Prim.Native.Nat.{ℕ, zero, suc, ◌+◌, ◌-◌, ◌*◌, ◌/◌, ◌%◌, ◌^◌, ◌≤◌, ◌<◌}
pub use mathlib.Core.Path.{◌≡◌, refl, sym, ap, ◌∙◌, subst}
pub use mathlib.Core.Logic.{◌≢◌, ◌↔◌, ◌⊎◌, inl, inr}
pub use mathlib.Core.Bool.{Bool, true, false, not, ◌&&◌, ◌||◌}
pub use mathlib.Core.Option.{Option, none, some}
pub use mathlib.Core.List.{List, [], ◌∷◌, ◌++◌, map, append-nil, append_assoc}
pub use native.Mathlib.Omega.{arith}
