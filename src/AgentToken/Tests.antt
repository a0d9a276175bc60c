-- ===== src/AgentToken/Tests.antt =====
-- Tests of the bonding curves and the tokens, and their theorems at concrete inputs.
use is_a_chain.Prelude.{
  ◌-◌, ◌+◌, ◌/◌, ◌%◌, ◌≡◌, ◌≤◌, refl, List, [], ◌∷◌, arith, total, u128_mod, mul_u128, add_u128,
  sub_u128, err, AllValues, saturating_mul,
}
use is_a_chain.AgentToken.Curve.{
  BondingCurve, linear, quadratic, sigmoid, price_at, sigmoid_price, buy_cost, sell_proceeds,
  linear_area, quadratic_area, sigmoid_area, isqrt, isqrt_loop, search_loop, binary_search_tokens,
  tokens_for_isa, at_least_one,
}
use is_a_chain.AgentToken.Search.{IsLastPaid, binary_search-IsLastPaid}
use is_a_chain.AgentToken.Prices.{tokens_affordable}
use is_a_chain.AgentToken.Factory.{
  insufficient_funds, Call, creates, buys, sells, new, get_balance, create_token, buy, buy_from,
  sell, sell_to, run,
}
use is_a_chain.AgentToken.Holders.{same, supply_is_held}

roots : (isqrt 99 ≡ 9) × (isqrt 100 ≡ 10)
unfolding isqrt isqrt_loop add_u128
roots = (refl, refl)

abbrev bend : BondingCurve
bend = sigmoid 100 1000

binary_search-IsLastPaid_example :
    IsLastPaid bend 500 900
      (900 / at_least_one (price_at bend 500) + 1)
      (binary_search_tokens bend 500 900)
binary_search-IsLastPaid_example = binary_search-IsLastPaid bend 500 900 (omega arith)

found : binary_search_tokens bend 500 900 ≡ 17
unfolding binary_search_tokens search_loop price_at sigmoid_price buy_cost sigmoid_area add_u128
    sub_u128 mul_u128
found = refl

-- The search stops at its bound of 6 tokens though 1000 cost nothing, and at the largest amount the
-- bound wraps to 0.
stops_at_bound :
    (binary_search_tokens (quadratic 6) 0 5 ≡ 6)
    × (buy_cost (quadratic 6) 0 1000 ≡ 0)
    × (binary_search_tokens (quadratic 6) 0 (u128_mod - 1) ≡ 0)
unfolding binary_search_tokens search_loop price_at buy_cost quadratic_area saturating_mul add_u128
    sub_u128 mul_u128
stops_at_bound = (refl, refl, refl)

tokens_affordable_example :
    buy_cost (linear 1_000_000) 10 (tokens_for_isa (linear 1_000_000) 10 30) ≤ 30
tokens_affordable_example = tokens_affordable (linear 1_000_000) 10 30 (omega arith)

-- 6 * (3 ^ 3 - 1) / 3, and nothing at all within a step of a million.
costs :
    (buy_cost (quadratic 6) 1_000_000 2_000_000 ≡ 52)
    × (buy_cost (quadratic 6) 1_000_000 999_999 ≡ 0)
unfolding buy_cost quadratic_area saturating_mul add_u128
costs = (refl, refl)

abbrev calls : List Call
calls = creates 1 (linear 1_000_000) 9 0 ∷ buys 1 7 1 ∷ buys 1 7 2 ∷ []

-- Each purchase is rounded down, so the reserve does not pay for both at once.
stuck :
    (get_balance 1 7 (run new calls) ≡ 2)
    × ((sell 1 7 2 (run new calls)).0 ≡ err insufficient_funds)
unfolding create_token buy buy_from sell sell_to tokens_for_isa isqrt isqrt_loop buy_cost
    sell_proceeds linear_area mul_u128 add_u128 sub_u128
stuck = (refl, refl)

supply_is_held_example :
    AllValues
      (λ token. token.total_supply ≡ total same token.holders % u128_mod)
      (run new (creates 1 (linear 1_000_000) 9 0 ∷ buys 1 7 8 ∷ sells 1 7 3 ∷ [])).tokens
supply_is_held_example =
    supply_is_held (creates 1 (linear 1_000_000) 9 0 ∷ buys 1 7 8 ∷ sells 1 7 3 ∷ [])
      (tt, (tt, (omega arith, tt)))
