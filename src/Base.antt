-- ===== src/Base.antt =====
-- What the models of the client's modules share: the library names they use, Python's equality,
-- dicts, errors and values, and the parts of Python's standard library that the client calls.
mod Equality
mod Logic
mod Outcome
pub mod Dict
pub mod Decimal
pub mod Value
pub mod Quote
pub mod Reply
pub mod Emitted
pub mod Json
unfoldable pub use Equality.*
pub use Logic.*
pub use Outcome.*
pub use Prim.Native.Nat.{ℕ, zero, suc, ◌+◌, ◌-◌, ◌*◌, ◌/◌, ◌%◌, ◌^◌, ◌≤◌, ◌<◌}
pub use Prim.Native.String.{String, ◌++◌ as ◌<>◌}
pub use mathlib.Core.Path.{◌≡◌, refl, sym, ap, subst, ◌∙◌}
pub use mathlib.Core.Logic.{◌≢◌, ◌↔◌, ◌⊎◌, inl, inr}
pub use mathlib.Core.Bool.{Bool, true, false, not, ◌&&◌, ◌||◌}
pub use mathlib.Core.Option.{Option, none, some}
pub use mathlib.Core.List.{List, [], ◌∷◌, ◌++◌, map}
pub use native.Mathlib.Omega.{arith}
