-- ===== src/Budget/Data.antt =====
-- core/blockchain/src/budget/types.rs, and the service types of core/blockchain/src/settlement.
use is_a_chain.Prelude.{same_text, ℕ, Bool, true, false, List, [], Option, String, HashMap, Result}

-- settlement/types.rs
pub data ServiceType : Type 0 where
  model_inference tool_execution compute_usage storage agent_runtime : ServiceType
  custom : String → ServiceType

-- The derived `==`.
abbrev pub same_service : ServiceType → ServiceType → Bool
same_service model_inference model_inference = true
same_service tool_execution tool_execution = true
same_service compute_usage compute_usage = true
same_service storage storage = true
same_service agent_runtime agent_runtime = true
same_service (custom s) (custom t) = same_text s t
same_service _ _ = false

pub data DelegationStatus : Type 0 where
  active paused exhausted expired revoked : DelegationStatus

pub record BudgetDelegation : Type 0 where
  pub id : ℕ
  pub delegator : ℕ
  pub agent : ℕ
  pub total_budget : ℕ
  pub spent : ℕ
  pub per_tx_limit : ℕ
  pub allowed_services : Option (List ServiceType)
  pub expires_at : ℕ
  pub status : DelegationStatus
  pub created_at : ℕ

pub data BudgetError : Type 0 where
  delegation_not_found : (id : ℕ) → BudgetError
  budget_exhausted : BudgetError
  exceeds_per_tx_limit : (limit requested : ℕ) → BudgetError
  exceeds_budget : (remaining requested : ℕ) → BudgetError
  delegation_expired delegation_not_active : BudgetError
  unauthorized_delegator : (address : ℕ) → BudgetError
  service_not_allowed invalid_amount duplicate_delegation : BudgetError

pub record BudgetManager : Type 0 where
  pub delegations : HashMap BudgetDelegation
  pub by_delegator : HashMap (List ℕ)
  pub by_agent : HashMap (List ℕ)

abbrev pub new : BudgetManager
new = record { delegations = []; by_delegator = []; by_agent = [] }

abbrev pub Outcome : Type 0 → Type 0
Outcome A = Result A BudgetError × BudgetManager
