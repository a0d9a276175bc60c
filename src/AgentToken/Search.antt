-- ===== src/AgentToken/Search.antt =====
-- The search of core/blockchain/src/agent_token/curve.rs.
use is_a_chain.Prelude.{
  sym, subst, ◌⊎◌, ℕ, zero, suc, ◌+◌, ◌-◌, ◌/◌, ◌≤◌, ◌<◌, ◌≡◌, ltb, leb, min, Bool-cases, inl, inr,
  arith, refl, quotient_bounds, add_u128, sub_u128, u128_mod,
}
use is_a_chain.AgentToken.Curve.{
  BondingCurve, buy_cost, search_loop, binary_search_tokens, half_up, price_at, at_least_one,
}

-- The end of the search from `hi`: `n` tokens cost no more than the amount, and one token more
-- costs more, if the search did not stop at its bound.
abbrev pub IsLastPaid : BondingCurve → (supply isa hi n : ℕ) → Type 0
IsLastPaid curve supply isa hi n =
    (buy_cost curve supply n ≤ isa) × ((n ≡ hi) ⊎ (isa < buy_cost curve supply (n + 1)))

-- The invariant of the search, that starts at `top`.
search_loop-IsLastPaid :
    (fuel : ℕ) (curve : BondingCurve) (supply isa lo hi top : ℕ)
    → hi ≤ fuel + lo
    → lo ≤ hi
    → hi < u128_mod
    → buy_cost curve supply lo ≤ isa
    → (hi ≡ top) ⊎ (isa < buy_cost curve supply (hi + 1))
    → IsLastPaid curve supply isa top (search_loop fuel curve supply isa lo hi)
unfolding search_loop add_u128 sub_u128
search_loop-IsLastPaid zero curve supply isa lo hi top enough le fits paid above =
    let ended : lo ≡ hi = omega arith in
    (paid, subst (λ n. (n ≡ top) ⊎ (isa < buy_cost curve supply (n + 1))) (sym ended) above)
search_loop-IsLastPaid (suc fuel) curve supply isa lo hi top enough le fits paid above =
    elim (Bool-cases (ltb lo hi)) [
      | inr e ↦
          let ended : lo ≡ hi = ground arith in
          rw (e, search_loop)
            (paid, subst (λ n. (n ≡ top) ⊎ (isa < buy_cost curve supply (n + 1))) (sym ended) above)
      | inl e ↦
          let mid = add_u128 lo (half_up (sub_u128 hi lo)) in
          let less : lo < hi = ground arith in
          let low : lo < mid = omega arith in
          let high : mid ≤ hi = omega arith in
          elim (Bool-cases (leb (buy_cost curve supply mid) isa)) [
            | inl f ↦
                rw (e, f, search_loop)
                  (search_loop-IsLastPaid fuel curve supply isa mid hi top (omega arith) high fits
                    (ground arith) above)
            | inr f ↦
                let pred_eq : sub_u128 mid 1 ≡ mid - 1 = omega arith in
                let next_eq : mid - 1 + 1 ≡ mid = omega arith in
                let dear : isa < buy_cost curve supply mid = ground arith in
                let above' : isa < buy_cost curve supply (mid - 1 + 1) =
                  subst (λ n. isa < buy_cost curve supply n) (sym next_eq) dear in
                rw (e, f, search_loop)
                  (subst
                    (λ h. IsLastPaid curve supply isa top (search_loop fuel curve supply isa lo h))
                    (sym pred_eq)
                    (search_loop-IsLastPaid fuel curve supply isa lo (mid - 1) top (omega arith)
                      (omega arith) (omega arith) paid (inr above')))
          ]
    ]

-- If the amount is below 2 ^ 128 - 1, the search ends with a number of tokens that the amount pays;
-- one token more it does not pay, or the number is the bound that the present price sets, in which
-- case the amount may pay for more.
pub binary_search-IsLastPaid :
    (curve : BondingCurve) (supply isa : ℕ)
    → isa + 1 < u128_mod
    → IsLastPaid curve supply isa
        (isa / at_least_one (price_at curve supply) + 1)
        (binary_search_tokens curve supply isa)
unfolding binary_search_tokens add_u128 buy_cost
binary_search-IsLastPaid curve supply isa fits =
    let price = at_least_one (price_at curve supply) in
    let positive : 0 < price = ground arith in
    let less : isa / price ≤ isa = grind (arith, quotient_bounds isa price positive) in
    let bound : min (add_u128 (isa / price) 1) (add_u128 isa 1) ≡ isa / price + 1 = omega arith in
    rw (bound, binary_search_tokens)
      (search_loop-IsLastPaid (isa / price + 1) curve supply isa 0 (isa / price + 1)
        (isa / price + 1) (omega arith) (omega arith) (omega arith) (omega arith) (inl refl))
