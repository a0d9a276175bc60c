-- ===== src/Budget/Tests.antt =====
-- Tests of the budget manager, and its theorems at concrete inputs.
use is_a_chain.Prelude.{
  saturating_add, add_u128, le_bytes, be_bytes, ◌+◌, ℕ, ◌≡◌, refl, List, [], ◌∷◌, arith, sum_of,
  none, some, get,
}
use is_a_chain.Budget.{
  id_input, expired, storage, custom, BudgetDelegation, BudgetManager, Call, creates, spends,
  pauses, resumes, increases, created, new, create_delegation, spend, spend_from, pause, resume,
  increase_budget, check_expired, step, run, drawn_by,
}
use is_a_chain.Budget.Limits.{AreWithin, spent_on, spending_adds_up}

abbrev hash_data : List ℕ → ℕ
hash_data = sum_of (λ b. b)

-- Delegator 1 grants 500 to agent 2 at height 4: the identifier is 7.
abbrev history : List Call
history =
    creates 1 2 500 300 (some (storage ∷ custom "gpu" ∷ [])) 90 4
    ∷ spends 7 300 (custom "gpu") 10
    ∷ spends 7 50 (custom "cpu") 10
    ∷ spends 7 400 storage 11
    ∷ pauses 7 1
    ∷ spends 7 10 storage 12
    ∷ resumes 7 1
    ∷ spends 7 200 storage 13
    ∷ increases 7 100 1
    ∷ spends 7 60 storage 91
    ∷ []

abbrev after : BudgetDelegation
after = record (created 7 1 2 600 300 (some (storage ∷ custom "gpu" ∷ [])) 90 4) {
  spent = 500;
  status = expired;
}

run-history : get 7 (run hash_data new history).delegations ≡ some after
unfolding run step create_delegation spend spend_from pause resume increase_budget check_expired
    id_input be_bytes le_bytes add_u128 saturating_add
run-history = refl

drawn_by-history : drawn_by hash_data 7 new history ≡ 500
unfolding drawn_by run step create_delegation spend spend_from pause resume increase_budget
    check_expired id_input be_bytes le_bytes add_u128 saturating_add
drawn_by-history = refl

spending_adds_up_example :
    AreWithin (run hash_data new history)
    × (spent_on 7 (run hash_data new history) ≡ spent_on 7 new + drawn_by hash_data 7 new history)
spending_adds_up_example =
    spending_adds_up hash_data 7 new history tt
      (omega arith, (tt, (tt, (tt, (tt, (tt, (tt, (tt, (tt, (tt, tt))))))))))

abbrev two_left : List Call
two_left = resumes 7 1 ∷ increases 7 5 1 ∷ spends 7 1 storage 5 ∷ []

abbrev ended : BudgetManager
ended = record new { delegations = (7, after) ∷ [] }

abbrev fresh : BudgetDelegation
fresh = created 7 1 2 500 300 none 90 4

abbrev open_manager : BudgetManager
open_manager = record new { delegations = (7, fresh) ∷ [] }
