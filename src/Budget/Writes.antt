-- ===== src/Budget/Writes.antt =====
-- What the operations of core/blockchain/src/budget/manager.rs write: a property of managers that
-- one write to a running delegation keeps is kept by every operation but `create_delegation`.
use is_a_chain.Prelude.{
  ◌∷◌, Option, List, ℕ, ◌≡◌, inl, inr, true, Bool-cases, arith, Option-cases, List, [], ◌∷◌, Option,
  some, get,
}
use is_a_chain.Budget.{
  creates, Call, step, run, create_delegation, ServiceType, BudgetDelegation, BudgetManager, active,
  paused, expired, revoked, charged, increased, put, check_expired, spend, spend_from, pause,
  resume, revoke, increase_budget, creates, spends, pauses, resumes, revokes, increases, checks,
  Call, step, run, create_delegation, is_running, allows,
}

-- `d'` is a later version of `d`, which was neither revoked nor expired.
pub record Follows (d d' : BudgetDelegation) : Type 0 where
  pub same_delegator : d'.delegator ≡ d.delegator
  pub same_agent : d'.agent ≡ d.agent
  pub running : is_running d.status ≡ true

abbrev pub Keeps : (BudgetManager → Type 0) → BudgetManager → Type 0
Keeps P m =
    (j : ℕ) (d d' : BudgetDelegation) → get j m.delegations ≡ some d → Follows d d' → P (put m j d')

module _ (P : BudgetManager → Type 0) where
  module _ (m : BudgetManager) (p : P m) (keeps : Keeps P m) where
    pub check_expired-keeps : (j height : ℕ) → P (check_expired j height m).1
    unfolding check_expired
    check_expired-keeps j height = elim (Option-cases (get j m.delegations)) [
      | inl missing ↦ ground (arith, p)
      | inr (d, found) ↦ ground (arith, p, keeps j d (record d { status = expired }) found)
    ]

    pub pause-keeps : (j delegator : ℕ) → P (pause j delegator m).1
    unfolding pause
    pause-keeps j delegator = elim (Option-cases (get j m.delegations)) [
      | inl missing ↦ ground (arith, p)
      | inr (d, found) ↦ ground (arith, p, keeps j d (record d { status = paused }) found)
    ]

    pub resume-keeps : (j delegator : ℕ) → P (resume j delegator m).1
    unfolding resume
    resume-keeps j delegator = elim (Option-cases (get j m.delegations)) [
      | inl missing ↦ ground (arith, p)
      | inr (d, found) ↦ ground (arith, p, keeps j d (record d { status = active }) found)
    ]

    pub revoke-keeps : (j delegator : ℕ) → P (revoke j delegator m).1
    unfolding revoke
    revoke-keeps j delegator = elim (Option-cases (get j m.delegations)) [
      | inl missing ↦ ground (arith, p)
      | inr (d, found) ↦ ground (arith, p, keeps j d (record d { status = revoked }) found)
    ]

    pub increase-keeps :
        (j additional delegator : ℕ) → P (increase_budget j additional delegator m).1
    unfolding increase_budget
    increase-keeps j additional delegator = elim (Option-cases (get j m.delegations)) [
      | inl missing ↦ ground (arith, p)
      | inr (d, found) ↦ ground (arith, p, keeps j d (increased additional d) found)
    ]

    pub spend_from-keeps :
        (j amount : ℕ) (service : ServiceType) (d : BudgetDelegation)
        → get j m.delegations ≡ some d
        → P (spend_from j amount service d m).1
    unfolding spend_from
    spend_from-keeps j amount service d found =
        elim (Bool-cases (allows d.allowed_services service)) [
          | inl allowed ↦ ground (arith, p, keeps j d (charged amount d) found)
          | inr refused ↦ ground (arith, p)
        ]

  pub spend-keeps :
      (m : BudgetManager)
      → P m
      → ((m' : BudgetManager) → P m' → Keeps P m')
      → (j amount : ℕ) (service : ServiceType) (height : ℕ) → P (spend j amount service height m).1
  unfolding spend
  spend-keeps m p keeps j amount service height =
      let m' = (check_expired j height m).1 in
      let p' = check_expired-keeps m p (keeps m p) j height in
      elim (Option-cases (get j m'.delegations)) [
        | inl missing ↦ ground (arith, p, p')
        | inr (d, found) ↦
            ground (arith, p, p', spend_from-keeps m' p' (keeps m' p') j amount service d found)
      ]

  module _ (hash_data : List ℕ → ℕ) (keeps : (m : BudgetManager) → P m → Keeps P m)
      (creates_keep : (m : BudgetManager)
        → P m
        → (delegator agent total per_tx : ℕ) (services : Option (List ServiceType))
        → (expires_at height : ℕ)
        → P
            (create_delegation hash_data delegator agent total per_tx services expires_at height
              m).1) where
    step-keeps : (m : BudgetManager) → P m → (c : Call) → P (step hash_data m c)
    unfolding step
    step-keeps m p (creates delegator agent total per_tx services expires_at height) =
        creates_keep m p delegator agent total per_tx services expires_at height
    step-keeps m p (spends j amount service height) = spend-keeps m p keeps j amount service height
    step-keeps m p (pauses j delegator) = pause-keeps m p (keeps m p) j delegator
    step-keeps m p (resumes j delegator) = resume-keeps m p (keeps m p) j delegator
    step-keeps m p (revokes j delegator) = revoke-keeps m p (keeps m p) j delegator
    step-keeps m p (increases j additional delegator) =
        increase-keeps m p (keeps m p) j additional delegator
    step-keeps m p (checks j height) = check_expired-keeps m p (keeps m p) j height

    pub run-keeps : (m : BudgetManager) → P m → (cs : List Call) → P (run hash_data m cs)
    unfolding run
    run-keeps m p [] = p
    run-keeps m p (c ∷ cs) = run-keeps (step hash_data m c) (step-keeps m p c) cs
