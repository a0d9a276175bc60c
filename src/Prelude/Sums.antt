-- ===== src/Prelude/Sums.antt =====
-- `iter().sum()` on 128-bit numbers, sums that saturate, and division into shares.
use Prim.Native.Nat.{ℕ, ◌%◌, ◌+◌, ◌-◌, ◌*◌, ◌/◌, ◌≤◌, ◌<◌}
use mathlib.Core.Path.{◌≡◌}
use mathlib.Core.List.{List, [], ◌∷◌, ◌++◌}
use native.Mathlib.Omega.{arith}
use native.Mathlib.Nat.{div-add-mod, mod-lt}
use is_a_chain.Prelude.Lists.{All, length, sum_of, sum_of-append}
use is_a_chain.Prelude.Tests.{ltb, if◌then◌else◌}
use is_a_chain.Prelude.Words.{add_u128, saturating_add, u128_mod}

pub quotient_bounds : (v d : ℕ) → 0 < d → (v / d * d ≤ v) × (v < v / d * d + d)
quotient_bounds v d h = grind (arith, div-add-mod v d, mod-lt v h)

pub mod_le : (a b : ℕ) → 0 < b → a % b ≤ a
mod_le a b h = grind arith

pub div_mono : (a b d : ℕ) → 0 < d → a ≤ b → a / d ≤ b / d
div_mono a b d h le = grind (arith, quotient_bounds a d h, quotient_bounds b d h)

pub cancel_le : (a b c : ℕ) → 0 < c → a * c ≤ b * c → a ≤ b
cancel_le a b c h le = grind arith

module _ {ℓ} {A : Type ℓ} (f : A → ℕ) where
  unfoldable pub sum_from : ℕ → List A → ℕ
  sum_from acc [] = acc
  sum_from acc (x ∷ xs) = sum_from (add_u128 acc (f x)) xs

  abbrev pub sum_u128 : List A → ℕ
  sum_u128 = sum_from 0

  pub sum_from-eq :
      (acc : ℕ) (xs : List A) → acc + sum_of f xs < u128_mod → sum_from acc xs ≡ acc + sum_of f xs
  unfolding sum_from add_u128
  sum_from-eq acc [] h = omega arith
  sum_from-eq acc (x ∷ xs) h = ground (arith, sum_from-eq (acc + f x) xs)

  pub sum_u128-eq : (xs : List A) → sum_of f xs < u128_mod → sum_u128 xs ≡ sum_of f xs
  sum_u128-eq xs h = omega (arith, sum_from-eq 0 xs (omega arith))

  -- The shares of `total` in the proportion of `f`, each rounded down.
  pub shares_sum :
      (total whole : ℕ) (xs : List A)
      → 0 < whole
      → (sum_of (λ x. total * f x / whole) xs * whole ≤ total * sum_of f xs)
        × (total * sum_of f xs ≤ sum_of (λ x. total * f x / whole) xs * whole + length xs * whole)
  shares_sum total whole [] h = grind arith
  shares_sum total whole (x ∷ xs) h =
      grind (arith, quotient_bounds (total * f x) whole h, shares_sum total whole xs h)

-- The largest `u128` in place of a larger number.
abbrev pub saturated : ℕ → ℕ
saturated n = if ltb n u128_mod then n else u128_mod - 1

module _ {ℓ} {A : Type ℓ} where
  -- A saturating total goes on being the sum of what is listed, cut off at the largest `u128`.
  pub saturated-append :
      (f : A → ℕ) (xs : List A) (x : A) (total : ℕ)
      → total ≡ saturated (sum_of f xs)
      → saturating_add total (f x) ≡ saturated (sum_of f (xs ++ x ∷ []))
  unfolding saturating_add
  saturated-append f xs x total h = ground (arith, sum_of-append f xs (x ∷ []))

  pub All-append {κ} :
      (P : A → Type κ) (xs : List A) (x : A) → All P xs → P x → All P (xs ++ x ∷ [])
  All-append P [] x h p = (p, tt)
  All-append P (y ∷ ys) x h p = (h.0, All-append P ys x h.1 p)
