-- ===== src/AgentToken/Root.antt =====
-- The integer square root of core/blockchain/src/agent_token/curve.rs.
use native.Mathlib.Nat.{mul-le-mul, div_self}
use is_a_chain.Prelude.{
  ℕ, zero, suc, ◌+◌, ◌-◌, ◌*◌, ◌/◌, ◌≤◌, ◌<◌, ◌≡◌, ◌==◌, ltb, leb, Bool-cases, inl, inr, arith,
  quotient_bounds, add_u128, u128_mod,
}
use is_a_chain.AgentToken.Curve.{isqrt_loop, isqrt, half_up}

gap_product : (a d b : ℕ) → b ≤ a + 2 * d → a * b ≤ (a + d) * (a + d)
gap_product a d b h =
    let more : a * b ≤ a * (a + 2 * d) = mul-le-mul {n₁ = a} {n₂ = a} (omega arith) h in grind arith

-- A product is at most the square of the mean of its factors.
mean_product : (a b c : ℕ) → a + b ≤ 2 * c → a * b ≤ c * c
mean_product a b c h = elim (Bool-cases (leb a c)) [
  | inl low ↦
      let c_eq : c ≡ a + (c - a) = ground arith in rw c_eq (gap_product a (c - a) b (ground arith))
  | inr high ↦
      let c_eq : c ≡ b + (c - b) = ground arith in
      let swapped = gap_product b (c - b) a (ground arith) in rw c_eq (grind arith)
]

-- One step of the loop.
abbrev next : (n x : ℕ) → ℕ
next n x = (x + n / x) / 2

next-above : (n x : ℕ) → 0 < x → n < (next n x + 1) * (next n x + 1)
next-above n x h =
    let q = n / x in
    let product = mean_product (q + 1) x (next n x + 1) (omega arith) in
    let below : n < (q + 1) * x = grind (arith, quotient_bounds n x h) in
    omega (arith, product, below)

sum_le_product : (a b : ℕ) → 0 < a → 0 < b → a + b ≤ a * b + 1
sum_le_product zero b h k = omega arith
sum_le_product (suc a) zero h k = omega arith
sum_le_product (suc a) (suc b) h k = grind arith

-- No step of the loop wraps.
sum_fits : (n y : ℕ) → 0 < y → y ≤ n → y + n / y ≤ n + 1
sum_fits n y h le =
    let q = n / y in
    elim (Bool-cases (q == 0)) [
      | inl none_ ↦ ground arith
      | inr some_ ↦
          let less = sum_le_product y q h (ground arith) in grind (arith, quotient_bounds n y h)
    ]

-- Reading of the root: its square is at most the number, and the next square is above.
abbrev pub IsRoot : (n x : ℕ) → Type 0
IsRoot n x = (x * x ≤ n) × (n < (x + 1) * (x + 1))

isqrt_loop-IsRoot :
    (fuel n x y : ℕ)
    → x ≤ fuel
    → 0 < n
    → n + 1 < u128_mod
    → 0 < x
    → x ≤ n
    → n < (x + 1) * (x + 1)
    → y ≡ next n x
    → IsRoot n (isqrt_loop fuel n x y)
unfolding isqrt_loop add_u128
isqrt_loop-IsRoot zero n x y enough some_ fits positive le above y_eq = omega arith
isqrt_loop-IsRoot (suc fuel) n x y enough some_ fits positive le above y_eq =
    elim (Bool-cases (ltb y x)) [
      | inl e ↦
          let above' : n < (y + 1) * (y + 1) = rw y_eq (next-above n x positive) in
          let positive' : 0 < y = grind arith in
          let less : y < x = ground arith in
          let y'_eq : add_u128 y (n / y) / 2 ≡ next n y =
            omega (arith, sum_fits n y positive' (omega arith)) in
          let rest =
            isqrt_loop-IsRoot fuel n y (add_u128 y (n / y) / 2) (omega arith) some_ fits positive'
              (omega arith) above' y'_eq in
          rw (e, isqrt_loop) rest
      | inr e ↦
          let ended : x ≤ y = ground arith in
          let le_quotient : x ≤ n / x = omega arith in
          let square : x * x ≤ n = grind (arith, quotient_bounds n x positive) in
          rw (e, isqrt_loop) (square, above)
    ]

-- The loop of `isqrt` ends with the root, rounded down, of a number below 2 ^ 128 - 1.
pub isqrt-IsRoot : (n : ℕ) → n + 1 < u128_mod → IsRoot n (isqrt n)
unfolding isqrt
isqrt-IsRoot n fits = elim (Bool-cases (n == 0)) [
  | inl e ↦ let n_eq : n ≡ 0 = ground arith in rw (n_eq, isqrt) (omega arith, omega arith)
  | inr e ↦
      let some_ : 0 < n = ground arith in
      let one : n / n ≡ 1 = div_self some_ in
      let above : n < (n + 1) * (n + 1) = grind arith in
      let root =
        isqrt_loop-IsRoot n n n (half_up n) (omega arith) some_ fits some_ (omega arith) above
          (omega arith) in
      rw (e, isqrt) root
]
