-- ===== src/Common.antt =====
-- The names that the modules of the library share: those of the standard library, passed on, and
-- those of the children below. No code of the repository is modelled here, but for Go's own
-- `strings` and `unicode` functions in `Common/Text.antt`.
mod Tests
mod Lists
mod Classes
mod Rows
pub mod Text
pub use Tests.*
pub use Lists.*
unfoldable pub use Classes.*
pub use Rows.*
pub use Prim.Native.Nat.{ℕ, zero, suc, ◌+◌, ◌-◌, ◌*◌, ◌/◌, ◌%◌, ◌^◌, ◌≤◌, ◌<◌, min}
pub use Prim.Native.String.{String}
pub use mathlib.Core.Path.{◌≡◌, refl, sym, ap, ◌∙◌, ◌≡⟨◌⟩◌, ◌∎, subst}
pub use mathlib.Core.Logic.{◌≢◌, ◌↔◌, ◌⊎◌, inl, inr}
pub use mathlib.Core.Bool.{Bool, true, false, ◌&&◌, ◌||◌, not}
pub use mathlib.Core.Option.{Option, none, some}
pub use mathlib.Core.List.{List, [], ◌∷◌, ◌++◌, append-nil, append_assoc, Memᴰ}
pub use native.Mathlib.Omega.{arith}
