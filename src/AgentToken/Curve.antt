-- ===== src/AgentToken/Curve.antt =====
-- core/blockchain/src/agent_token/curve.rs: prices along a bonding curve.
use is_a_chain.Prelude.{
  ℕ, zero, suc, ◌+◌, ◌*◌, ◌/◌, ◌==◌, ◌||◌, true, false, ltb, leb, min, if◌then◌else◌, add_u128,
  sub_u128, mul_u128, saturating_mul, saturating_sub,
}

abbrev pub scale : ℕ
scale = 1_000_000

pub data BondingCurve : Type 0 where
  linear : (slope : ℕ) → BondingCurve
  quadratic : (coefficient : ℕ) → BondingCurve
  sigmoid : (max_price midpoint : ℕ) → BondingCurve

unfoldable pub sigmoid_price : (max_price midpoint supply : ℕ) → ℕ
sigmoid_price max_price midpoint supply =
    let low = midpoint / 5 in
    let high = mul_u128 midpoint 4 / 5 in
    if leb supply low
    then max_price / 20
    else if leb high supply
    then mul_u128 max_price 19 / 20
    else let price_range = mul_u128 max_price 9 / 10 in
      add_u128 (max_price / 20) (mul_u128 price_range (sub_u128 supply low) / sub_u128 high low)

unfoldable pub price_at : BondingCurve → (supply : ℕ) → ℕ
unfolding sigmoid_price
price_at (linear slope) supply = mul_u128 slope supply / scale
price_at (quadratic coefficient) supply =
    mul_u128 (mul_u128 coefficient supply / scale) supply / scale
price_at (sigmoid max_price midpoint) supply = sigmoid_price max_price midpoint supply

abbrev pub cube : ℕ → ℕ
cube n = saturating_mul (saturating_mul n n) n

-- What lies on the curve between two supplies, the lower one first.
unfoldable pub linear_area : (slope lower upper : ℕ) → ℕ
linear_area slope lower upper =
    mul_u128 slope (sub_u128 (mul_u128 upper upper) (mul_u128 lower lower)) / (2 * scale)

unfoldable pub quadratic_area : (coefficient lower upper : ℕ) → ℕ
quadratic_area coefficient lower upper =
    saturating_mul coefficient (saturating_sub (cube (upper / scale)) (cube (lower / scale))) / 3

-- The mean of the prices at the two ends.
unfoldable pub sigmoid_area : (max_price midpoint start end tokens : ℕ) → ℕ
unfolding sigmoid_price
sigmoid_area max_price midpoint start end tokens =
    mul_u128
      (add_u128 (sigmoid_price max_price midpoint start) (sigmoid_price max_price midpoint end))
      tokens
    / 2

abbrev pub buy_area : BondingCurve → (current_supply new_supply tokens : ℕ) → ℕ
buy_area (linear slope) current_supply new_supply tokens =
    linear_area slope current_supply new_supply
buy_area (quadratic coefficient) current_supply new_supply tokens =
    quadratic_area coefficient current_supply new_supply
buy_area (sigmoid max_price midpoint) current_supply new_supply tokens =
    sigmoid_area max_price midpoint current_supply new_supply tokens

unfoldable pub buy_cost : BondingCurve → (current_supply tokens : ℕ) → ℕ
unfolding linear_area quadratic_area sigmoid_area
buy_cost curve current_supply tokens =
    if tokens == 0 then 0 else buy_area curve current_supply (add_u128 current_supply tokens) tokens

abbrev pub sell_area : BondingCurve → (current_supply new_supply tokens : ℕ) → ℕ
sell_area (linear slope) current_supply new_supply tokens =
    linear_area slope new_supply current_supply
sell_area (quadratic coefficient) current_supply new_supply tokens =
    quadratic_area coefficient new_supply current_supply
sell_area (sigmoid max_price midpoint) current_supply new_supply tokens =
    sigmoid_area max_price midpoint current_supply new_supply tokens

unfoldable pub sell_proceeds : BondingCurve → (current_supply tokens : ℕ) → ℕ
unfolding linear_area quadratic_area sigmoid_area
sell_proceeds curve current_supply tokens =
    if (tokens == 0) || ltb current_supply tokens
    then 0
    else sell_area curve current_supply (sub_u128 current_supply tokens) tokens

-- `n.div_ceil(2)`
abbrev pub half_up : ℕ → ℕ
half_up n = (n + 1) / 2

-- The loop of `isqrt`. Its variable `x` gets smaller each time: `x` is fuel enough.
unfoldable pub isqrt_loop : (fuel n x y : ℕ) → ℕ
isqrt_loop zero n x y = x
isqrt_loop (suc fuel) n x y = elim (ltb y x) [
  | true ↦ isqrt_loop fuel n y (add_u128 y (n / y) / 2)
  | false ↦ x
]

unfoldable pub isqrt : ℕ → ℕ
unfolding isqrt_loop
isqrt n = if n == 0 then 0 else isqrt_loop n n n (half_up n)

-- The loop of the search: `hi - lo` is fuel enough.
unfoldable pub search_loop : (fuel : ℕ) → BondingCurve → (current_supply isa_amount lo hi : ℕ) → ℕ
search_loop zero curve current_supply isa_amount lo hi = lo
search_loop (suc fuel) curve current_supply isa_amount lo hi =
    let mid = add_u128 lo (half_up (sub_u128 hi lo)) in
    elim (ltb lo hi) [
      | true ↦ elim (leb (buy_cost curve current_supply mid) isa_amount) [
        | true ↦ search_loop fuel curve current_supply isa_amount mid hi
        | false ↦ search_loop fuel curve current_supply isa_amount lo (sub_u128 mid 1)
      ]
      | false ↦ lo
    ]

-- `max(1)`
abbrev pub at_least_one : ℕ → ℕ
at_least_one n = if n == 0 then 1 else n

unfoldable pub binary_search_tokens : BondingCurve → (current_supply isa_amount : ℕ) → ℕ
unfolding price_at search_loop
binary_search_tokens curve current_supply isa_amount =
    let price = at_least_one (price_at curve current_supply) in
    let hi = min (add_u128 (isa_amount / price) 1) (add_u128 isa_amount 1) in
    search_loop hi curve current_supply isa_amount 0 hi

abbrev pub isa_tokens : BondingCurve → (current_supply isa_amount : ℕ) → ℕ
isa_tokens (linear slope) current_supply isa_amount =
    if slope == 0
    then 0
    else let old_sq = mul_u128 current_supply current_supply in
      let addition = mul_u128 (2 * scale) isa_amount / slope in
      saturating_sub (isqrt (add_u128 old_sq addition)) current_supply
isa_tokens (quadratic coefficient) current_supply isa_amount =
    if coefficient == 0
    then 0
    else binary_search_tokens (quadratic coefficient) current_supply isa_amount
isa_tokens (sigmoid max_price midpoint) current_supply isa_amount =
    binary_search_tokens (sigmoid max_price midpoint) current_supply isa_amount

unfoldable pub tokens_for_isa : BondingCurve → (current_supply isa_amount : ℕ) → ℕ
unfolding isqrt binary_search_tokens
tokens_for_isa curve current_supply isa_amount =
    if isa_amount == 0 then 0 else isa_tokens curve current_supply isa_amount
