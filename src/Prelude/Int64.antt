-- ===== src/Prelude/Int64.antt =====
-- Go's int64 by its bit pattern: a number below 2 ^ 64, with the sign in the highest bit.
use Prim.Native.Nat.{ℕ, ◌+◌, ◌-◌, ◌%◌, ◌^◌, ◌<◌}
use mathlib.Core.Path.{◌≡◌}
use mathlib.Core.Bool.{Bool}
use native.Mathlib.Omega.{arith}
use component_cli.Prelude.Tests.{ltb}

abbrev pub modulus : ℕ
modulus = 2 ^ 64

abbrev pub add : ℕ → ℕ → ℕ
add a b = (a + b) % modulus

abbrev pub sub : ℕ → ℕ → ℕ
sub a b = (a + (modulus - b % modulus)) % modulus

-- The signed order.
abbrev pub lt : ℕ → ℕ → Bool
lt a b = ltb ((a + 2 ^ 63) % modulus) ((b + 2 ^ 63) % modulus)

pub add-lt-modulus : (a b : ℕ) → add a b < modulus
add-lt-modulus a b = omega arith

pub add-sub : (a b c : ℕ) → (sub a b + b) % modulus ≡ a % modulus
add-sub a b c = omega arith
