-- ===== src/Account/Tests.antt =====
-- Tests of the account operations, and its theorem at a concrete input.
use is_a_chain.Prelude.{◌≡◌, refl, List, [], ◌∷◌, arith, add_u64, add_u128, sub_u128}
use is_a_chain.Account.{
  Call, deducts, adds_balance, increments, delegates, undelegates, processes, new_external,
  deduct_balance, add_balance, increment_nonce, delegate_to_validator, undelegate_from_validator,
  process_unbonding, drain, step, run,
}
use is_a_chain.Account.Stake.{Accounts, held, staking_books}

abbrev history : List Call
history =
    adds_balance 10
    ∷ delegates 7 500 1
    ∷ deducts 3
    ∷ increments
    ∷ undelegates 7 200 5 21
    ∷ undelegates 7 400 5 21
    ∷ processes 25
    ∷ []

-- The chunk of 200 matures at height 26; to undelegate 400 of the 300 left fails.
run-history :
    ((run (new_external 100) history).account.balance ≡ 107)
    × (held (run (new_external 100) history).account ≡ 607)
unfolding run step deduct_balance add_balance increment_nonce delegate_to_validator
    undelegate_from_validator process_unbonding drain add_u64 add_u128 sub_u128
run-history = (refl, refl)

run_matured :
    (run
      (new_external 100)
      (delegates 7 500 1 ∷ undelegates 7 500 5 21 ∷ processes 26 ∷ [])).account.balance
    ≡ 600
unfolding run step delegate_to_validator undelegate_from_validator process_unbonding drain add_u64
    add_u128 sub_u128
run_matured = refl

staking_books_example : Accounts (new_external 100) (run (new_external 100) history)
unfolding run step deduct_balance add_balance increment_nonce delegate_to_validator
    undelegate_from_validator process_unbonding drain add_u64 add_u128 sub_u128
staking_books_example = staking_books (new_external 100) history (omega arith) (omega arith)
