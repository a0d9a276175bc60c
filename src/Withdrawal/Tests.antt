-- ===== src/Withdrawal/Tests.antt =====
-- Tests of the withdrawals, and their theorem at a concrete input.
use is_a_chain.Prelude.{
  ℕ, ◌≡◌, ◌≤◌, false, refl, List, [], ◌∷◌, arith, err, is_ok, sum_of, be_bytes, le_bytes,
  saturating_add, checked_mul,
}
use is_a_chain.Withdrawal.{
  WithdrawalManager, WithdrawalRequest, daily_limit_exceeded, requested, finished, new,
  calculate_isa, calculate_fee, user_pending_credits, initiate_withdrawal, complete_withdrawal,
  cancel_withdrawal, initiates, cancels, step, run,
}
use is_a_chain.Withdrawal.Lifecycle.{paid_once}

-- A hash for the tests: the sum of the bytes.
abbrev sum_bytes : List ℕ → ℕ
sum_bytes = sum_of (λ b. b)

abbrev empty : WithdrawalManager
empty = new 50 100 1000 100_000 100

abbrev opened : WithdrawalManager
opened = run sum_bytes empty (initiates 7 65_536 50 10 ∷ [])

abbrev request : WithdrawalRequest
request = requested 18 7 65_536 50 10 empty

-- Half a percent is the fee, and the limit counts what is pending.
amounts :
    (request.fee ≡ 327)
    × (request.isa_to_receive ≡ 130_418)
    × (request.cooldown_ends ≡ 110)
    × (user_pending_credits 7 opened ≡ 65_536)
    × ((initiate_withdrawal sum_bytes 7 40_000 50 11 opened).0
        ≡ err (daily_limit_exceeded 100_000 65_536))
unfolding step initiate_withdrawal user_pending_credits calculate_fee calculate_isa saturating_add
    checked_mul be_bytes le_bytes
amounts = (refl, refl, refl, refl, refl)

paid_once_example :
    let m' =
      run sum_bytes
        (complete_withdrawal 18 9 110 opened).1
        (cancels 18 ∷ initiates 7 1000 50 111 ∷ []) in
    (request.cooldown_ends ≤ 110)
    × (is_ok (complete_withdrawal 18 9 200 m').0 ≡ false)
    × (is_ok (cancel_withdrawal 18 m').0 ≡ false)
unfolding step initiate_withdrawal user_pending_credits calculate_fee calculate_isa saturating_add
    checked_mul complete_withdrawal be_bytes le_bytes
paid_once_example =
    paid_once sum_bytes 18 opened (finished 9 110 request) 9 110
      (cancels 18 ∷ initiates 7 1000 50 111 ∷ []) refl (ground arith, tt) 9 200
