-- ===== src/Treasury/Tests.antt =====
-- Tests of the treasury, and its theorems at concrete inputs.
use is_a_chain.Prelude.{
  ◌<◌, ◌+◌, ◌≡◌, ◌≤◌, refl, List, [], ◌∷◌, arith, length, sum_of, add_u128, sub_u128, mul_u128,
  sum_from,
}
use is_a_chain.Treasury.{
  Payment, amount_of, ProtocolTreasury, Distribution, Call, collects, deposits, distributes,
  distributes_proportional, splits, sets_fee_rate, new, calculate_fee, collect_fee, deposit,
  distribute, shares, distribute_shares, distribute_proportional, distribute_with_split,
  set_fee_rate, step, run, income_of,
}
use is_a_chain.Treasury.Funds.{Books, treasury_balances}
use is_a_chain.Treasury.Shares.{proportional_rounding}

abbrev stakers : List Payment
stakers = (1, 1) ∷ (2, 1) ∷ (3, 1) ∷ []

abbrev history : List Call
history =
    collects 40_000
    ∷ deposits 900
    ∷ distributes_proportional stakers 1000 5 9
    ∷ distributes ((4, 500) ∷ (5, 1) ∷ []) 6 9
    ∷ splits stakers 7 9
    ∷ sets_fee_rate 20_000 9
    ∷ []

-- 1 000 in three parts is 999; 40 percent of the 400 that are left go out as 159.
run-history :
    let t = run (new 250 9) history in
    (t.balance ≡ 241) × (t.total_collected ≡ 1900) × (t.fee_rate_bps ≡ 250)
unfolding run step collect_fee calculate_fee deposit distribute distribute_proportional
    distribute_with_split distribute_shares shares set_fee_rate add_u128 sub_u128 mul_u128 sum_from
run-history = (refl, refl, refl)

treasury_balances_example :
    Books (new 250 9) (run (new 250 9) history) (income_of (new 250 9) history)
unfolding run step collect_fee calculate_fee deposit distribute distribute_proportional
    distribute_with_split distribute_shares shares set_fee_rate add_u128 sub_u128 mul_u128 sum_from
treasury_balances_example =
    treasury_balances (new 250 9) history (omega arith)
      (tt, (tt, (omega arith, (tt, (omega arith, (tt, tt)))))) (omega arith)

abbrev funded : ProtocolTreasury
funded = record (new 250 9) { balance = 1000; total_collected = 1000 }

abbrev thirds : Distribution
thirds = record { recipients = (1, 333) ∷ (2, 333) ∷ (3, 333) ∷ []; total_amount = 999; height = 5 }

proportional_rounding_example :
    (999 ≡ sum_of amount_of thirds.recipients)
    × (thirds.total_amount ≤ 1000)
    × (1000 < thirds.total_amount + length stakers)
unfolding distribute_proportional distribute_shares shares mul_u128 sum_from add_u128
proportional_rounding_example =
    proportional_rounding stakers 1000 5 9 funded thirds (omega arith) (omega arith) (omega arith)
      refl
