-- ===== src/Prelude/Int64.antt =====
-- Go's int64 as its bit pattern, a number below 2 ^ 64; a pattern from 2 ^ 63 on is negative.
use Prim.Native.Nat.{ℕ, ◌+◌, ◌-◌, ◌%◌, ◌^◌, ◌≤◌, ◌<◌}
use mathlib.Core.Path.{◌≡◌}
use mathlib.Core.Bool.{Bool}
use native.Mathlib.Omega.{arith}
use musicbox.Prelude.Tests.{ltb, leb}

abbrev pub modulus : ℕ
modulus = 2 ^ 64

abbrev pub sign_bit : ℕ
sign_bit = 2 ^ 63

-- a + b and a - b wrap.
unfoldable pub add : ℕ → ℕ → ℕ
add a b = (a + b) % 2 ^ 64

unfoldable pub sub : ℕ → ℕ → ℕ
sub a b = (a + 2 ^ 64 - b) % 2 ^ 64

-- The signed order: adding 2 ^ 63 moves the negative patterns below the others.
unfoldable pub lt : ℕ → ℕ → Bool
lt a b = ltb ((a + 2 ^ 63) % 2 ^ 64) ((b + 2 ^ 63) % 2 ^ 64)

unfoldable pub le : ℕ → ℕ → Bool
le a b = leb ((a + 2 ^ 63) % 2 ^ 64) ((b + 2 ^ 63) % 2 ^ 64)

pub add_small : (a b : ℕ) → a + b < sign_bit → add a b ≡ a + b
unfolding add
add_small a b h = omega arith

pub sub_small : (a b : ℕ) → b ≤ a → a < sign_bit → sub a b ≡ a - b
unfolding sub
sub_small a b h k = omega arith

pub lt_small : (a b : ℕ) → a < sign_bit → b < sign_bit → lt a b ≡ ltb a b
unfolding lt
lt_small a b h k = ground arith

pub le_small : (a b : ℕ) → a < sign_bit → b < sign_bit → le a b ≡ leb a b
unfolding le
le_small a b h k = ground arith
