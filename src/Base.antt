-- ===== src/Base.antt =====
-- The names that the other modules share: the libraries', passed on, tests, lists, machine words
-- and the monad of C code (include/gabs/core/util.h, and the C language itself).
mod Tests
mod Lists
mod Words
pub mod Run
pub use Tests.*
pub use Lists.*
pub use Words.*
pub use Prim.Native.Nat.{ℕ, zero, suc, ◌+◌, ◌-◌, ◌*◌, ◌/◌, ◌%◌, ◌^◌, ◌≤◌, ◌<◌, min}
pub use mathlib.Core.Path.{◌≡◌, refl, sym, ap, ap₂, subst, subst₂, ◌∙◌, fun_ext}
pub use mathlib.Core.Logic.{◌≢◌, ◌↔◌, ◌⊎◌, inl, inr}
pub use mathlib.Core.Bool.{Bool, true, false, not, ◌&&◌, ◌||◌}
pub use mathlib.Core.Option.{Option, none, some, none-ne-some, some-injective}
pub use mathlib.Core.List.{Memᴰ}
pub use mathlib.Core.List.{List, [], ◌∷◌, ◌++◌, map, append-nil, append_assoc}
pub use native.Mathlib.Omega.{arith}
pub use native.Mathlib.Decide.{dec_lt, dec_le, ℕ_discrete}
