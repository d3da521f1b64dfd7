-- ===== src/Prelude.antt =====
-- The names that every module shares: the libraries', passed on, and those of the children.
-- `Prelude.Text` decides equality of ids, `Prelude.Map` is the Go map with string keys,
-- `Prelude.Int` the Go int where it can be negative.
mod Tests
mod Lists
mod Text
mod Int
pub mod Map
pub mod Channels
pub mod Handles
pub use Tests.*
pub use Lists.*
unfoldable pub use Text.{str_dec, str_le, sort_strings, is_one_of, dedup}
pub use Text.{
  not-sort_strings-nil, is_one_of-sort_strings, is_one_of-dedup, dedup-is_one_of, is_one_of-append,
}
pub use Int.*
pub use Prim.Native.Nat.{ℕ, zero, suc, ◌+◌, ◌-◌, ◌*◌, ◌/◌, ◌%◌, ◌^◌, ◌≤◌, ◌<◌}
pub use Prim.Native.String.{String}
pub use mathlib.Core.Path.{◌≡◌, refl, sym, ap, subst, ◌∙◌}
pub use mathlib.Core.Logic.{◌≢◌, ◌↔◌, ◌⊎◌, inl, inr, ite, if_pos, if_neg}
pub use mathlib.Core.Bool.{Bool, true, false, not, ◌&&◌, ◌||◌}
pub use mathlib.Core.Option.{Option, none, some}
pub use mathlib.Core.List.{List, [], ◌∷◌, ◌++◌, map}
pub use native.Mathlib.Omega.{arith}
unfoldable pub use native.Mathlib.Decide.{dec_lt, dec_le, ℕ_discrete}
