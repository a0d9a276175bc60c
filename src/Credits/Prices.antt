-- ===== src/Credits/Prices.antt =====
-- Conversions between ISA and credits in core/blockchain/src/credits/system.rs.
use native.Mathlib.Nat.{div-add-mod, mod-lt}
use is_a_chain.Prelude.{ℕ, ◌+◌, ◌*◌, ◌/◌, ◌≤◌, ◌<◌, arith, u128_mod, checked_mul, saturating_mul}
use is_a_chain.Credits.{get_credits_for_isa, get_isa_cost_for_credits, credits_for_isa}

quotient_bounds : (v d : ℕ) → 0 < d → (v / d * d ≤ v) × (v < v / d * d + d)
quotient_bounds v d h = grind (arith, div-add-mod v d, mod-lt v h)

-- Where price and product fit 128 bits and credits have a price, the credits for an amount of ISA
-- are its value in dollars over the price of a credit, rounded down.
pub conversion_rounds_down :
    (isa_amount isa_price credit_price : ℕ)
    → 0 < credit_price
    → credit_price * 1_000_000 < u128_mod
    → isa_amount * isa_price < u128_mod
    → let credits = get_credits_for_isa isa_amount isa_price credit_price in
      (credits * (credit_price * 1_000_000) ≤ isa_amount * isa_price)
      × (isa_amount * isa_price < credits * (credit_price * 1_000_000) + credit_price * 1_000_000)
unfolding get_credits_for_isa checked_mul saturating_mul
conversion_rounds_down isa_amount isa_price credit_price positive price_fits fits =
    ground
      (arith, quotient_bounds (isa_amount * isa_price) (credit_price * 1_000_000) (omega arith))

-- Paying the cost quoted for a number of credits at the default price buys at most a millionth of
-- them, where the number times the price fits 128 bits: the quote leaves out the scale of the
-- conversion.
pub quote_buys_a_millionth :
    (credits isa_price : ℕ)
    → credits * 100 < u128_mod
    → credits_for_isa (get_isa_cost_for_credits credits isa_price) isa_price * 1_000_000 ≤ credits
unfolding get_credits_for_isa get_isa_cost_for_credits checked_mul saturating_mul
quote_buys_a_millionth credits isa_price fits = ground (
  arith,
  quotient_bounds (credits * 100) isa_price,
  quotient_bounds (credits * 100 / isa_price * isa_price) (100 * 1_000_000) (omega arith),
)
