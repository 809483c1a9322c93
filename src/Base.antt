-- ===== src/Base.antt =====
-- The names that the other modules share: the libraries', passed on, and those of the children
-- (equality tests, orders, integers, text, lists, and the error and state monad).
mod Tests
mod Int
pub mod Text
mod Lists
pub mod Sort
pub mod TextOrder
pub mod Strings
pub use Tests.*
pub use Int.*
unfoldable pub use Int.{int_beq}
pub use Text.{str_ltb, ◌<>◌}
unfoldable pub use Text.{lower, trim, to_int?, of_int}
unfoldable pub use Sort.{sort_by}
pub use Lists.*
pub use Prim.Native.Nat.{ℕ, zero, suc, ◌+◌, ◌-◌, ◌*◌, ◌/◌, ◌%◌, ◌^◌, ◌≤◌, ◌<◌}
pub use Prim.Native.String.{String, len}
pub use mathlib.Core.Path.{◌≡◌, refl, sym, ap, ◌∙◌}
pub use mathlib.Core.Logic.{◌≢◌, ◌↔◌, ◌⊎◌, inl, inr}
pub use mathlib.Core.Bool.{Bool, true, false, not, ◌&&◌, ◌||◌}
pub use mathlib.Core.Option.{Option, none, some}
pub use mathlib.Core.List.{List, [], ◌∷◌, ◌++◌, map, reverse}
pub use native.Mathlib.Omega.{arith}
