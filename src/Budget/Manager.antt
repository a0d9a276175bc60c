-- ===== src/Budget/Manager.antt =====
-- core/blockchain/src/budget/manager.rs: the operations. A `get_mut` followed by writes is a `get`
-- and an `insert`.
use is_a_chain.Prelude.{
  ℕ, Bool, true, false, not, ◌&&◌, List, [], ◌∷◌, ◌++◌, Option, none, some, ltb, leb, ◌==◌,
  if◌then◌else◌, HashMap, get, contains_key, insert, push_item, Result, ok, err, add_u128,
  saturating_add, saturating_sub, be_bytes, le_bytes,
}
use is_a_chain.Budget.Data.{
  ServiceType, DelegationStatus, BudgetDelegation, BudgetError, BudgetManager, Outcome,
  same_service, active, paused, exhausted, expired, revoked, delegation_not_found, budget_exhausted,
  exceeds_per_tx_limit, exceeds_budget, delegation_expired, delegation_not_active,
  unauthorized_delegator, service_not_allowed, invalid_amount, duplicate_delegation,
}

abbrev pub created :
    (id delegator agent total_budget per_tx_limit : ℕ)
    → Option (List ServiceType)
    → (expires_at height : ℕ) → BudgetDelegation
created id delegator agent total_budget per_tx_limit allowed_services expires_at height = record {
  id = id;
  delegator = delegator;
  agent = agent;
  total_budget = total_budget;
  spent = 0;
  per_tx_limit = per_tx_limit;
  allowed_services = allowed_services;
  expires_at = expires_at;
  status = active;
  created_at = height;
}

-- The bytes that a delegation's identifier is the hash of.
unfoldable pub id_input : ℕ → ℕ → ℕ → List ℕ
id_input delegator agent height = be_bytes 20 delegator ++ (be_bytes 20 agent ++ le_bytes 8 height)

-- Blake3, as `Hash::hash_data` calls it, is a parameter.
module _ (hash_data : List ℕ → ℕ) where
  unfoldable pub create_delegation :
      (delegator agent total_budget per_tx_limit : ℕ)
      → Option (List ServiceType)
      → (expires_at height : ℕ) → BudgetManager
      → Outcome ℕ
  create_delegation delegator agent total_budget per_tx_limit services expires_at height m =
      if total_budget == 0
      then (err invalid_amount, m)
      else if per_tx_limit == 0
      then (err invalid_amount, m)
      else let id = hash_data (id_input delegator agent height) in
        if contains_key id m.delegations then (err duplicate_delegation, m) else (
          ok id,
          record m {
            delegations =
                insert id
                  (created id delegator agent total_budget per_tx_limit services expires_at height)
                  m.delegations;
            by_delegator = push_item delegator id m.by_delegator;
            by_agent = push_item agent id m.by_agent;
          },
        )

abbrev pub put : BudgetManager → ℕ → BudgetDelegation → BudgetManager
put m id d = record m { delegations = insert id d m.delegations }

abbrev pub is_active : DelegationStatus → Bool
is_active active = true
is_active _ = false

unfoldable pub check_expired : ℕ → ℕ → BudgetManager → Bool × BudgetManager
check_expired id current_height m = elim (get id m.delegations) [
  | none ↦ (false, m)
  | some d ↦
      if ltb d.expires_at current_height && is_active d.status
      then (true, put m id (record d { status = expired }))
      else (false, m)
]

-- What `spend` answers to a status; `none` lets it go on.
abbrev pub refusal : DelegationStatus → Option BudgetError
refusal active = none
refusal paused = some delegation_not_active
refusal exhausted = some budget_exhausted
refusal expired = some delegation_expired
refusal revoked = some delegation_not_active

abbrev pub lists : List ServiceType → ServiceType → Bool
lists [] s = false
lists (t ∷ ts) s = if same_service t s then true else lists ts s

abbrev pub allows : Option (List ServiceType) → ServiceType → Bool
allows none s = true
allows (some services) s = lists services s

-- The delegation after `amount` is spent.
abbrev pub charged : ℕ → BudgetDelegation → BudgetDelegation
charged amount d =
    let spent' = add_u128 d.spent amount in
    record d { spent = spent'; status = if leb d.total_budget spent' then exhausted else d.status }

-- The part of `spend` after the delegation is found.
unfoldable pub spend_from :
    ℕ → ℕ → ServiceType → BudgetDelegation → BudgetManager → Outcome (Unit {0})
spend_from id amount service d m = elim (refusal d.status) [
  | some e ↦ (err e, m)
  | none ↦
      if ltb d.per_tx_limit amount
      then (err (exceeds_per_tx_limit d.per_tx_limit amount), m)
      else let remaining = saturating_sub d.total_budget d.spent in
        if ltb remaining amount
        then (err (exceeds_budget remaining amount), m)
        else if not (allows d.allowed_services service)
        then (err service_not_allowed, m)
        else (ok tt, put m id (charged amount d))
]

-- Expiry is marked before the delegation is read.
unfoldable pub spend : ℕ → ℕ → ServiceType → ℕ → BudgetManager → Outcome (Unit {0})
unfolding check_expired spend_from
spend id amount service current_height m =
    if amount == 0
    then (err invalid_amount, m)
    else let m' = (check_expired id current_height m).1 in
      elim (get id m'.delegations) [
        | none ↦ (err (delegation_not_found id), m')
        | some d ↦ spend_from id amount service d m'
      ]

-- `ids.iter().filter_map(|id| self.delegations.get(id))`
unfoldable pub delegations_of : BudgetManager → List ℕ → List BudgetDelegation
delegations_of m [] = []
delegations_of m (id ∷ ids) = elim (get id m.delegations) [
  | none ↦ delegations_of m ids
  | some d ↦ d ∷ delegations_of m ids
]

abbrev pub budgets_at : ℕ → HashMap (List ℕ) → BudgetManager → List BudgetDelegation
budgets_at key index m = elim (get key index) [ none ↦ [] | some ids ↦ delegations_of m ids ]

abbrev pub get_delegator_budgets : ℕ → BudgetManager → List BudgetDelegation
get_delegator_budgets delegator m = budgets_at delegator m.by_delegator m

abbrev pub get_agent_budgets : ℕ → BudgetManager → List BudgetDelegation
get_agent_budgets agent m = budgets_at agent m.by_agent m

unfoldable pub get_available_budget : ℕ → ℕ → BudgetManager → Result ℕ BudgetError
get_available_budget id current_height m = elim (get id m.delegations) [
  | none ↦ err (delegation_not_found id)
  | some d ↦
      if ltb d.expires_at current_height then ok 0 else ok (saturating_sub d.total_budget d.spent)
]

-- `get_mut`, the check of the delegator, a check of the status, and the write.
abbrev as_delegator :
    ℕ
    → ℕ
    → (DelegationStatus → Bool)
    → (BudgetDelegation → BudgetDelegation)
    → BudgetManager
    → Outcome (Unit {0})
as_delegator id delegator permitted change m = elim (get id m.delegations) [
  | none ↦ (err (delegation_not_found id), m)
  | some d ↦
      if not (d.delegator == delegator)
      then (err (unauthorized_delegator delegator), m)
      else if not (permitted d.status)
      then (err delegation_not_active, m)
      else (ok tt, put m id (change d))
]

abbrev pub is_paused : DelegationStatus → Bool
is_paused paused = true
is_paused _ = false

-- Neither revoked nor expired.
abbrev pub is_running : DelegationStatus → Bool
is_running revoked = false
is_running expired = false
is_running _ = true

unfoldable pub pause : ℕ → ℕ → BudgetManager → Outcome (Unit {0})
pause id delegator m = as_delegator id delegator is_active (λ d. record d { status = paused }) m

unfoldable pub resume : ℕ → ℕ → BudgetManager → Outcome (Unit {0})
resume id delegator m = as_delegator id delegator is_paused (λ d. record d { status = active }) m

unfoldable pub revoke : ℕ → ℕ → BudgetManager → Outcome (Unit {0})
revoke id delegator m = as_delegator id delegator is_running (λ d. record d { status = revoked }) m

abbrev pub reactivated : DelegationStatus → Bool → DelegationStatus
reactivated exhausted true = active
reactivated status _ = status

abbrev pub increased : ℕ → BudgetDelegation → BudgetDelegation
increased additional d =
    let total = saturating_add d.total_budget additional in
    record d { total_budget = total; status = reactivated d.status (ltb d.spent total) }

unfoldable pub increase_budget : ℕ → ℕ → ℕ → BudgetManager → Outcome (Unit {0})
increase_budget id additional delegator m =
    if additional == 0
    then (err invalid_amount, m)
    else as_delegator id delegator is_running (increased additional) m
