-- ===== src/Base/Words.antt =====
-- Unsigned machine arithmetic with its wrap-around, on an LP64 platform: `size_t` and `uint64_t`
-- have 64 bits, `unsigned int` has 32.
use Prim.Native.Nat.{ℕ, ◌+◌, ◌-◌, ◌%◌, ◌^◌, ◌≤◌, ◌<◌}
use mathlib.Core.Path.{◌≡◌}
use native.Mathlib.Omega.{arith}

abbrev pub add64 : ℕ → ℕ → ℕ
add64 a b = (a + b) % 2 ^ 64

abbrev pub sub64 : ℕ → ℕ → ℕ
sub64 a b = (a + 2 ^ 64 - b) % 2 ^ 64

abbrev pub add32 : ℕ → ℕ → ℕ
add32 a b = (a + b) % 2 ^ 32

abbrev pub sub32 : ℕ → ℕ → ℕ
sub32 a b = (a + 2 ^ 32 - b) % 2 ^ 32

pub add64_lem : (a b : ℕ) → a + b < 2 ^ 64 → add64 a b ≡ a + b
add64_lem a b h = omega arith

pub sub64_lem : (a b : ℕ) → a < 2 ^ 64 → b ≤ a → sub64 a b ≡ a - b
sub64_lem a b h k = omega arith
