-- ===== src/AgentToken/Prices.antt =====
-- Buying and selling along the curves of core/blockchain/src/agent_token/curve.rs.
use native.Mathlib.Nat.{mul-le-mul, mul-le-mul_left}
use is_a_chain.Prelude.{
  ◌%◌, ap, ℕ, zero, suc, ◌+◌, ◌-◌, ◌*◌, ◌/◌, ◌≤◌, ◌<◌, ◌≡◌, ◌==◌, leb, Bool-cases, inl, inr, arith,
  refl, quotient_bounds, add_u128, sub_u128, mul_u128, u128_mod,
}
use is_a_chain.AgentToken.Curve.{
  BondingCurve, linear, quadratic, sigmoid, scale, buy_cost, sell_proceeds, buy_area, sell_area,
  sigmoid_area, sigmoid_price, linear_area, tokens_for_isa, isa_tokens, isqrt,
}
use is_a_chain.AgentToken.Search.{binary_search-IsLastPaid}
use is_a_chain.AgentToken.Root.{isqrt-IsRoot}

area_back :
    (curve : BondingCurve) (low high tokens : ℕ)
    → sell_area curve high low tokens ≡ buy_area curve low high tokens
unfolding sigmoid_area add_u128
area_back (linear slope) low high tokens = refl
area_back (quadratic coefficient) low high tokens = refl
area_back (sigmoid max_price midpoint) low high tokens =
    let comm : sigmoid_price max_price midpoint high + sigmoid_price max_price midpoint low
        ≡ sigmoid_price max_price midpoint low + sigmoid_price max_price midpoint high =
      omega arith in
    ap (λ p. mul_u128 (p % u128_mod) tokens / 2) comm

-- Tokens that were just bought are sold back for exactly what they cost, along any curve, where the
-- new supply is below 2 ^ 128.
pub buy_then_sell :
    (curve : BondingCurve) (supply tokens : ℕ)
    → supply + tokens < u128_mod
    → sell_proceeds curve (add_u128 supply tokens) tokens ≡ buy_cost curve supply tokens
unfolding buy_cost sell_proceeds add_u128 sub_u128
buy_then_sell curve supply tokens fits =
    let back : sub_u128 (add_u128 supply tokens) tokens ≡ supply = omega arith in
    ground (arith, back, area_back curve supply (add_u128 supply tokens) tokens)

root_above : (n supply r : ℕ) → supply * supply ≤ n → n < (r + 1) * (r + 1) → supply ≤ r
root_above n supply r le above = elim (Bool-cases (leb supply r)) [
  | inl e ↦ ground arith
  | inr e ↦
      let more : r + 1 ≤ supply = ground arith in
      let squares : (r + 1) * (r + 1) ≤ supply * supply = mul-le-mul more more in omega arith
]

square-le : (r : ℕ) → r ≤ r * r
square-le zero = omega arith
square-le (suc r) = grind arith

-- What a step along the linear curve costs.
linear_cost-le :
    (slope supply isa r : ℕ)
    → 0 < slope
    → supply * supply + 2 * scale * isa + 1 < u128_mod
    → supply ≤ r
    → r * r ≤ supply * supply + 2 * scale * isa / slope
    → buy_cost (linear slope) supply (r - supply) ≤ isa
unfolding buy_cost linear_area add_u128 mul_u128 sub_u128
linear_cost-le slope supply isa r positive fits le root =
    let addition = 2 * scale * isa / slope in
    let quotient = quotient_bounds (2 * scale * isa) slope positive in
    let addition_le : addition ≤ 2 * scale * isa = grind arith in
    let r_fits : r < u128_mod = omega (arith, square-le r) in
    let r_eq : add_u128 supply (r - supply) ≡ r = omega arith in
    let gap = r * r - supply * supply in
    let squares : supply * supply ≤ r * r = mul-le-mul le le in
    let gap_eq : sub_u128 (mul_u128 r r) (mul_u128 supply supply) ≡ gap = omega arith in
    let more = mul-le-mul_left {m = gap} {n = addition} slope (omega arith) in
    let product : slope * gap ≤ 2 * scale * isa = grind arith in
    let area : linear_area slope supply r ≤ isa = rw (gap_eq, linear_area) (omega arith) in
    elim (Bool-cases (r - supply == 0)) [
      | inl e ↦ rw (e, buy_cost) (omega arith)
      | inr e ↦ rw (e, buy_cost) (rw (r_eq) area)
    ]

linear_tokens-affordable :
    (slope supply isa : ℕ)
    → supply * supply + 2 * scale * isa + 1 < u128_mod
    → buy_cost (linear slope) supply (isa_tokens (linear slope) supply isa) ≤ isa
unfolding add_u128 mul_u128 buy_cost
linear_tokens-affordable slope supply isa fits = elim (Bool-cases (slope == 0)) [
  | inl e ↦ rw (e, isa_tokens) (omega arith)
  | inr e ↦
      let positive : 0 < slope = ground arith in
      let addition = 2 * scale * isa / slope in
      let quotient = quotient_bounds (2 * scale * isa) slope positive in
      let addition_le : addition ≤ 2 * scale * isa = grind arith in
      let n = supply * supply + addition in
      let product : mul_u128 (2 * scale) isa ≡ 2 * scale * isa = omega arith in
      let n_eq : add_u128 (mul_u128 supply supply) (mul_u128 (2 * scale) isa / slope) ≡ n =
        rw product (omega arith) in
      let root = isqrt-IsRoot n (omega arith) in
      let le = root_above n supply (isqrt n) (omega arith) root.1 in
      rw (e, n_eq, isa_tokens) (linear_cost-le slope supply isa (isqrt n) positive fits le root.0)
]

isa_tokens-affordable :
    (curve : BondingCurve) (supply isa : ℕ)
    → supply * supply + 2 * scale * isa + 1 < u128_mod
    → buy_cost curve supply (isa_tokens curve supply isa) ≤ isa
unfolding buy_cost
isa_tokens-affordable (linear slope) supply isa fits =
    linear_tokens-affordable slope supply isa fits
isa_tokens-affordable (quadratic coefficient) supply isa fits =
    let found = binary_search-IsLastPaid (quadratic coefficient) supply isa (omega arith) in
    elim (Bool-cases (coefficient == 0)) [
      | inl e ↦ rw (e, isa_tokens) (omega arith)
      | inr e ↦ rw (e, isa_tokens) found.0
    ]
isa_tokens-affordable (sigmoid max_price midpoint) supply isa fits =
    (binary_search-IsLastPaid (sigmoid max_price midpoint) supply isa (omega arith)).0

-- The tokens that an amount buys cost no more than the amount, along any curve, where the square of
-- the supply and two million times the amount are together below 2 ^ 128 - 1.
pub tokens_affordable :
    (curve : BondingCurve) (supply isa : ℕ)
    → supply * supply + 2 * scale * isa + 1 < u128_mod
    → buy_cost curve supply (tokens_for_isa curve supply isa) ≤ isa
unfolding tokens_for_isa buy_cost
tokens_affordable curve supply isa fits = elim (Bool-cases (isa == 0)) [
  | inl e ↦ rw (e, tokens_for_isa) (omega arith)
  | inr e ↦ rw (e, tokens_for_isa) (isa_tokens-affordable curve supply isa fits)
]
