-- ===== src/Budget/History.antt =====
-- Histories of calls of core/blockchain/src/budget/manager.rs, and what they draw.
use is_a_chain.Prelude.{ℕ, List, [], ◌∷◌, Option, ◌==◌, if◌then◌else◌, ok, err, ◌+◌}
use is_a_chain.Budget.Data.{ServiceType, BudgetManager}
use is_a_chain.Budget.Manager.{
  create_delegation, spend, pause, resume, revoke, increase_budget, check_expired,
}

-- A call of a method that writes the manager.
pub data Call : Type 0 where
  creates :
      (delegator agent total_budget per_tx_limit : ℕ)
      → Option (List ServiceType)
      → (expires_at height : ℕ) → Call
  spends : (id amount : ℕ) → ServiceType → (height : ℕ) → Call
  pauses resumes revokes : (id delegator : ℕ) → Call
  increases : (id additional delegator : ℕ) → Call
  checks : (id height : ℕ) → Call

-- What a call has drawn from the delegation `id`.
abbrev pub drawn : ℕ → Call → BudgetManager → ℕ
drawn id (spends j amount service height) m = elim (spend j amount service height m).0 [
  | ok _ ↦ if j == id then amount else 0
  | err _ ↦ 0
]
drawn id _ m = 0

module _ (hash_data : List ℕ → ℕ) where
  unfoldable pub step : BudgetManager → Call → BudgetManager
  unfolding create_delegation
  step m (creates delegator agent total_budget per_tx_limit services expires_at height) =
      (create_delegation hash_data delegator agent total_budget per_tx_limit services expires_at
        height m).1
  step m (spends id amount service height) = (spend id amount service height m).1
  step m (pauses id delegator) = (pause id delegator m).1
  step m (resumes id delegator) = (resume id delegator m).1
  step m (revokes id delegator) = (revoke id delegator m).1
  step m (increases id additional delegator) = (increase_budget id additional delegator m).1
  step m (checks id height) = (check_expired id height m).1

  unfoldable pub run : BudgetManager → List Call → BudgetManager
  unfolding step
  run m [] = m
  run m (c ∷ cs) = run (step m c) cs

  -- What a history of calls has drawn from the delegation `id`.
  unfoldable pub drawn_by : ℕ → BudgetManager → List Call → ℕ
  unfolding step
  drawn_by id m [] = 0
  drawn_by id m (c ∷ cs) = drawn id c m + drawn_by id (step m c) cs
