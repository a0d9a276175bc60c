-- ===== src/Prelude/Words.antt =====
-- `u64` and `u128` arithmetic. A release build wraps on overflow (Cargo.toml asks for no
-- overflow checks), so `+`, `-` and `*` are modulo the width; the `checked_` and `saturating_`
-- operations are the standard library's.
use Prim.Native.Nat.{ℕ, ◌+◌, ◌-◌, ◌*◌, ◌%◌, ◌≤◌, ◌<◌}
use mathlib.Core.Path.{◌≡◌}
use mathlib.Core.Option.{Option, none, some}
use native.Mathlib.Omega.{arith}
use is_a_chain.Prelude.Tests.{ltb, if◌then◌else◌}

-- 2 ^ 64 and 2 ^ 128.
abbrev pub u64_mod : ℕ
u64_mod = 18_446_744_073_709_551_616

abbrev pub u128_mod : ℕ
u128_mod = 340_282_366_920_938_463_463_374_607_431_768_211_456

unfoldable pub add_u64 : ℕ → ℕ → ℕ
add_u64 a b = (a + b) % u64_mod

unfoldable pub add_u128 : ℕ → ℕ → ℕ
add_u128 a b = (a + b) % u128_mod

unfoldable pub sub_u128 : ℕ → ℕ → ℕ
sub_u128 a b = (a + u128_mod - b) % u128_mod

unfoldable pub mul_u128 : ℕ → ℕ → ℕ
mul_u128 a b = (a * b) % u128_mod

unfoldable pub checked_add : ℕ → ℕ → Option ℕ
checked_add a b = if ltb (a + b) u128_mod then some (a + b) else none

unfoldable pub checked_mul : ℕ → ℕ → Option ℕ
checked_mul a b = if ltb (a * b) u128_mod then some (a * b) else none

unfoldable pub saturating_add : ℕ → ℕ → ℕ
saturating_add a b = if ltb (a + b) u128_mod then a + b else u128_mod - 1

unfoldable pub saturating_mul : ℕ → ℕ → ℕ
saturating_mul a b = if ltb (a * b) u128_mod then a * b else u128_mod - 1

-- Subtraction on ℕ stops at 0.
abbrev pub saturating_sub : ℕ → ℕ → ℕ
saturating_sub a b = a - b

pub add_u64-eq : (a b : ℕ) → a + b < u64_mod → add_u64 a b ≡ a + b
unfolding add_u64
add_u64-eq a b h = omega arith

pub add_u128-eq : (a b : ℕ) → a + b < u128_mod → add_u128 a b ≡ a + b
unfolding add_u128
add_u128-eq a b h = omega arith

pub sub_u128-eq : (a b : ℕ) → b ≤ a → a < u128_mod → sub_u128 a b ≡ a - b
unfolding sub_u128
sub_u128-eq a b h k = omega arith
