-- ===== src/Credits/Tests.antt =====
-- Tests of the credit ledger, and its theorems at concrete inputs.
use is_a_chain.Prelude.{
  ◌+◌, ◌≡◌, refl, List, [], ◌∷◌, arith, checked_mul, saturating_mul, add_u128, sub_u128,
}
use is_a_chain.Credits.{
  CreditSystem, Call, purchases, spends, prices, grants, new, get_credits_for_isa,
  get_isa_cost_for_credits, credits_for_isa, total_credits_in_circulation, purchase_credits,
  spend_credits, set_credit_price, grant_credits, get_balance, step, run, issued_by,
}
use is_a_chain.Credits.Ledger.{IsBalanced, held, credits_balance}

abbrev ledger : CreditSystem
ledger = new 100 100 9

abbrev history : List Call
history =
    purchases 1 1_000_000 500_000 3
    ∷ purchases 1 10 500_000 3
    ∷ spends 1 1200
    ∷ spends 2 1
    ∷ grants 2 70 9 4
    ∷ grants 2 70 8 4
    ∷ prices 50 9
    ∷ purchases 2 100_000 500_000 5
    ∷ []

run-history :
    (get_balance 1 (run ledger history) ≡ 3800)
    × (get_balance 2 (run ledger history) ≡ 1070)
    × (issued_by ledger history ≡ 6070)
unfolding run issued_by step purchase_credits spend_credits set_credit_price grant_credits
    get_balance get_credits_for_isa checked_mul saturating_mul add_u128 sub_u128
run-history = (refl, refl, refl)

credits_balance_example :
    let s' = run ledger history in
    IsBalanced s'
    × (s'.total_credits_issued ≡ ledger.total_credits_issued + issued_by ledger history)
    × (total_credits_in_circulation s' ≡ held s')
unfolding run issued_by step purchase_credits spend_credits set_credit_price grant_credits
    get_credits_for_isa checked_mul saturating_mul add_u128 sub_u128
credits_balance_example =
    credits_balance ledger history
      (record {
        settled = tt;
        issued_sum = refl;
        burned_sum = refl;
        held_sum = refl;
        fits = omega arith;
      })
      (omega arith)

-- The quote for a billion credits at half a dollar is 200 000 and buys 1 000.
quote_of_a_billion :
    (get_isa_cost_for_credits 1_000_000_000 500_000 ≡ 200_000)
    × (credits_for_isa 200_000 500_000 ≡ 1000)
unfolding get_credits_for_isa get_isa_cost_for_credits checked_mul saturating_mul
quote_of_a_billion = (refl, refl)
