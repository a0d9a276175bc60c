-- ===== src/Budget/Ends.antt =====
-- When core/blockchain/src/budget/manager.rs lets an agent spend, and which delegations are over.
use is_a_chain.Prelude.{
  if◌then◌else◌, err, ◌≢◌, ℕ, ◌≡◌, inl, inr, Bool, true, false, ◌&&◌, Bool-cases, arith, Option,
  some, get, get-insert, List, is_ok, leb, saturating_sub,
}
use is_a_chain.Budget.{
  expired, unauthorized_delegator, ServiceType, BudgetDelegation, BudgetManager, Call, run, created,
  charged, id_input, create_delegation, put, spend, spend_from, is_running, is_active, allows,
  check_expired, pause, resume, revoke, increase_budget,
}
use is_a_chain.Budget.Writes.{Keeps, run-keeps}

over-Keeps :
    (id : ℕ) (d : BudgetDelegation)
    → is_running d.status ≡ false
    → (m : BudgetManager) → get id m.delegations ≡ some d
    → Keeps (λ m'. get id m'.delegations ≡ some d) m
over-Keeps id d over m found j e e' there f =
    ground (arith, f.running, get-insert id j e' m.delegations)

over-create :
    (hash_data : List ℕ → ℕ) (id : ℕ) (d : BudgetDelegation) (m : BudgetManager)
    → get id m.delegations ≡ some d
    → (delegator agent total per_tx : ℕ) (services : Option (List ServiceType))
      (expires_at height : ℕ)
    → get id
        (create_delegation hash_data delegator agent total per_tx services expires_at height
          m).1.delegations
      ≡ some d
unfolding create_delegation
over-create hash_data id d m found delegator agent total per_tx services expires_at height =
    let j = hash_data (id_input delegator agent height) in
    ground (
      arith,
      get-insert id j (created j delegator agent total per_tx services expires_at height)
          m.delegations,
    )

-- A delegation that is revoked or expired stays as it is in every history of calls: nothing more is
-- spent from it, it is not resumed, increased or created again.
pub over_for_good :
    (hash_data : List ℕ → ℕ) (m : BudgetManager) (cs : List Call) (id : ℕ) (d : BudgetDelegation)
    → get id m.delegations ≡ some d
    → is_running d.status ≡ false
    → get id (run hash_data m cs).delegations ≡ some d
over_for_good hash_data m cs id d found over =
    run-keeps (λ m'. get id m'.delegations ≡ some d) hash_data (over-Keeps id d over)
      (over-create hash_data id d) m found cs

-- The delegation permits the agent to spend this amount on this service at this height.
abbrev pub permits : ℕ → ServiceType → ℕ → BudgetDelegation → Bool
permits amount service height d =
    is_active d.status
    && leb height d.expires_at
    && leb amount d.per_tx_limit
    && leb amount (saturating_sub d.total_budget d.spent)
    && allows d.allowed_services service

spend_from_decides :
    (id amount : ℕ) (service : ServiceType) (height : ℕ) (d : BudgetDelegation) (m : BudgetManager)
    → leb height d.expires_at ≡ true
    → let (r, m') = spend_from id amount service d m in
      (is_ok r ≡ permits amount service height d)
      × (m' ≡ (if permits amount service height d then put m id (charged amount d) else m))
unfolding spend_from
spend_from_decides id amount service height d m early =
    elim (Bool-cases (allows d.allowed_services service)) [
      | inl allowed ↦ ground arith
      | inr refused ↦ ground arith
    ]

-- To spend a positive amount from a delegation that exists succeeds exactly if it is active, not past its
-- last height, and amount and service are within its limits; then the amount is added to what it
-- has spent, and a failure leaves the manager as the mark of the expiry alone would.
pub spend_decides :
    (id amount : ℕ) (service : ServiceType) (height : ℕ) (d : BudgetDelegation) (m : BudgetManager)
    → amount ≢ 0
    → get id m.delegations ≡ some d
    → let (r, m') = spend id amount service height m in
      (is_ok r ≡ permits amount service height d)
      × (m' ≡ (
          if permits amount service height d
          then put m id (charged amount d)
          else (check_expired id height m).1))
unfolding spend check_expired spend_from
spend_decides id amount service height d m positive found =
    elim (Bool-cases (leb height d.expires_at)) [
      | inl early ↦ ground (arith, found, spend_from_decides id amount service height d m early)
      | inr late ↦
          ground (arith, found, get-insert id id (record d { status = expired }) m.delegations)
    ]

-- Only the delegator can pause, resume, revoke or increase a delegation: called by anybody else, the
-- four operations fail and leave the manager as it was.
pub delegator_only :
    (id other additional : ℕ) (d : BudgetDelegation) (m : BudgetManager)
    → get id m.delegations ≡ some d
    → d.delegator ≢ other
    → additional ≢ 0
    → (pause id other m ≡ (err (unauthorized_delegator other), m))
      × (resume id other m ≡ (err (unauthorized_delegator other), m))
      × (revoke id other m ≡ (err (unauthorized_delegator other), m))
      × (increase_budget id additional other m ≡ (err (unauthorized_delegator other), m))
unfolding pause resume revoke increase_budget
delegator_only id other additional d m found different positive = ground (arith, found)
