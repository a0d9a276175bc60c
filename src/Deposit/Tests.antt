-- ===== src/Deposit/Tests.antt =====
-- Tests of the deposits, and their theorem at a concrete input.
use is_a_chain.Prelude.{
  ℕ, ◌≡◌, false, refl, List, [], ◌∷◌, ok, err, is_ok, sum_of, saturating_mul, checked_mul, be_bytes,
  le_bytes,
}
use is_a_chain.Deposit.{
  DepositManager, already_processed, calculate_credits_inner, new, initiate_deposit,
  complete_deposit, fail_deposit, refund_deposit, initiates, fails, refunds, step, run,
}
use is_a_chain.Deposit.Lifecycle.{settled_once}

-- A hash for the tests: the sum of the bytes.
abbrev sum_bytes : List ℕ → ℕ
sum_bytes = sum_of (λ b. b)

-- The deposit has the identifier 1 + 7 + 10.
abbrev failed_one : DepositManager
failed_one = run sum_bytes (new 100) (initiates 7 65_536 500_000 10 ∷ fails 18 "no burn" ∷ [])

refund :
    (calculate_credits_inner 2_000_000 500_000 100 ≡ 10_000)
    × ((refund_deposit 18 failed_one).0 ≡ ok 65_536)
    × ((complete_deposit 18 3 11 failed_one).0 ≡ err already_processed)
unfolding step initiate_deposit complete_deposit fail_deposit refund_deposit calculate_credits_inner
    saturating_mul checked_mul be_bytes le_bytes
refund = (refl, refl, refl)

settled_once_example :
    let m' =
      run sum_bytes (step sum_bytes failed_one (refunds 18)) (fails 18 "late" ∷ refunds 18 ∷ []) in
    (is_ok (complete_deposit 18 3 12 m').0 ≡ false) × (is_ok (refund_deposit 18 m').0 ≡ false)
unfolding step initiate_deposit complete_deposit fail_deposit refund_deposit calculate_credits_inner
    saturating_mul checked_mul be_bytes le_bytes
settled_once_example =
    settled_once sum_bytes 18 failed_one (refunds 18) (fails 18 "late" ∷ refunds 18 ∷ [])
      (refl, refl) tt 3 12
