-- ===== src/Budget/Limits.antt =====
-- No more is spent from a delegation of core/blockchain/src/budget than its budget.
use is_a_chain.Prelude.{
  Bool-cases, err, ok, ◌==◌, if◌then◌else◌, ℕ, ◌+◌, ◌≤◌, ◌<◌, ◌≡◌, inl, inr, Bool, true, false,
  ◌&&◌, List, [], ◌∷◌, arith, All, Option, Option-cases, some, leb, get, at_or_zero, get-insert,
  AllValues, AllValues-insert, AllValues-get, add_u128, u128_mod, saturating_add,
}
use is_a_chain.Budget.{
  allows, id_input, ServiceType, BudgetDelegation, BudgetManager, DelegationStatus, active, paused,
  expired, revoked, created, charged, increased, put, create_delegation, check_expired, spend,
  spend_from, pause, resume, revoke, increase_budget, Call, creates, spends, pauses, resumes,
  revokes, increases, checks, drawn, step, run, drawn_by, new,
}

-- Active or paused.
abbrev pub is_open : DelegationStatus → Bool
is_open active = true
is_open paused = true
is_open _ = false

-- The spending is within the budget, and below it while the delegation is active or paused.
pub record IsWithin (d : BudgetDelegation) : Type 0 where
  pub within : d.spent ≤ d.total_budget
  pub fits : d.total_budget < u128_mod
  pub has_room : (is_open d.status && leb d.total_budget d.spent) ≡ false

abbrev pub AreWithin : BudgetManager → Type 0
AreWithin m = AllValues IsWithin m.delegations

abbrev pub spent_on : ℕ → BudgetManager → ℕ
spent_on id m = at_or_zero (λ d. d.spent) id m.delegations

-- The budget of a call is a 128-bit number.
abbrev pub IsTyped : Call → Type 0
IsTyped (creates delegator agent total per_tx services expires_at height) = total < u128_mod
IsTyped _ = Unit

charged-IsWithin :
    (amount : ℕ) (d : BudgetDelegation)
    → IsWithin d
    → d.status ≡ active
    → d.spent + amount ≤ d.total_budget
    → IsWithin (charged amount d)
unfolding add_u128
charged-IsWithin amount d w a h = ground arith

increased-IsWithin :
    (additional : ℕ) (d : BudgetDelegation) → IsWithin d → IsWithin (increased additional d)
unfolding saturating_add
increased-IsWithin additional d w = ground arith

-- What a call does to the limits and to what is spent on one delegation.
module _ (hash_data : List ℕ → ℕ) (id : ℕ) (m : BudgetManager) (w : AreWithin m) where
  abbrev Charges : Call → Type 0
  Charges c =
      AreWithin (step hash_data m c)
      × (spent_on id (step hash_data m c) ≡ spent_on id m + drawn id c m)

  -- A write to one delegation that is there.
  put-Charges :
      (j : ℕ) (d d' : BudgetDelegation) (amount : ℕ)
      → get j m.delegations ≡ some d
      → IsWithin d'
      → d'.spent ≡ d.spent + amount
      → AreWithin (put m j d')
        × (spent_on id (put m j d') ≡ spent_on id m + (if j == id then amount else 0))
  put-Charges j d d' amount found w' e = (
    AllValues-insert IsWithin j d' m.delegations w w',
    ground (arith, get-insert id j d' m.delegations),
  )

  found-IsWithin : (j : ℕ) (d : BudgetDelegation) → get j m.delegations ≡ some d → IsWithin d
  found-IsWithin j d e = AllValues-get IsWithin j d m.delegations w e

  check_expired-Charges :
      (j height : ℕ)
      → AreWithin (check_expired j height m).1
        × (spent_on id (check_expired j height m).1 ≡ spent_on id m)
  unfolding check_expired
  check_expired-Charges j height = elim (Option-cases (get j m.delegations)) [
    | inl missing ↦ ground (arith, w)
    | inr (d, found) ↦ ground (
      arith,
      w,
      found-IsWithin j d found,
      put-Charges j d (record d { status = expired }) 0 found,
    )
  ]

  check-Charges : (j height : ℕ) → Charges (checks j height)
  unfolding step
  check-Charges j height = ground (arith, check_expired-Charges j height)

  pause-Charges : (j delegator : ℕ) → Charges (pauses j delegator)
  unfolding step pause
  pause-Charges j delegator = elim (Option-cases (get j m.delegations)) [
    | inl missing ↦ ground (arith, w)
    | inr (d, found) ↦
        ground (
          arith,
          w,
          found-IsWithin j d found,
          put-Charges j d (record d { status = paused }) 0 found,
        )
  ]

  resume-Charges : (j delegator : ℕ) → Charges (resumes j delegator)
  unfolding step resume
  resume-Charges j delegator = elim (Option-cases (get j m.delegations)) [
    | inl missing ↦ ground (arith, w)
    | inr (d, found) ↦
        ground (
          arith,
          w,
          found-IsWithin j d found,
          put-Charges j d (record d { status = active }) 0 found,
        )
  ]

  revoke-Charges : (j delegator : ℕ) → Charges (revokes j delegator)
  unfolding step revoke
  revoke-Charges j delegator = elim (Option-cases (get j m.delegations)) [
    | inl missing ↦ ground (arith, w)
    | inr (d, found) ↦ ground (
      arith,
      w,
      found-IsWithin j d found,
      put-Charges j d (record d { status = revoked }) 0 found,
    )
  ]

  increase-Charges : (j additional delegator : ℕ) → Charges (increases j additional delegator)
  unfolding step increase_budget
  increase-Charges j additional delegator = elim (Option-cases (get j m.delegations)) [
    | inl missing ↦ ground (arith, w)
    | inr (d, found) ↦ ground (
      arith,
      w,
      increased-IsWithin additional d (found-IsWithin j d found),
      put-Charges j d (increased additional d) 0 found,
    )
  ]

  create-Charges :
      (delegator agent total per_tx : ℕ) (services : Option (List ServiceType))
      (expires_at height : ℕ)
      → total < u128_mod
      → Charges (creates delegator agent total per_tx services expires_at height)
  unfolding step create_delegation
  create-Charges delegator agent total per_tx services expires_at height fits =
      let j = hash_data (id_input delegator agent height) in
      let d = created j delegator agent total per_tx services expires_at height in
      elim (Option-cases (get j m.delegations)) [
        | inl missing ↦ ground (
          arith,
          w,
          AllValues-insert IsWithin j d m.delegations w,
          get-insert id j d m.delegations,
        )
        | inr (d', found) ↦ ground (arith, w)
      ]

  -- `spend` once the expiry is marked.
  spend_from-Charges :
      (j amount : ℕ) (service : ServiceType) (d : BudgetDelegation)
      → get j m.delegations ≡ some d
      → let (r, m') = spend_from j amount service d m in
        AreWithin m'
        × (spent_on id m'
            ≡ spent_on id m + (elim r [ ok _ ↦ if j == id then amount else 0 | err _ ↦ 0 ]))
  unfolding spend_from add_u128
  spend_from-Charges j amount service d found =
      let within = found-IsWithin j d found in
      elim (Bool-cases (allows d.allowed_services service)) [
        | inl allowed ↦ ground (
          arith,
          w,
          within,
          charged-IsWithin amount d within,
          put-Charges j d (charged amount d) amount found,
        )
        | inr refused ↦ ground (arith, w)
      ]

module _ (hash_data : List ℕ → ℕ) (id : ℕ) where
  spend-Charges :
      (m : BudgetManager) (w : AreWithin m) (j amount : ℕ) (service : ServiceType) (height : ℕ)
      → Charges hash_data id m w (spends j amount service height)
  unfolding step spend
  spend-Charges m w j amount service height =
      let m' = (check_expired j height m).1 in
      let (w', same) = check_expired-Charges hash_data id m w j height in
      elim (Option-cases (get j m'.delegations)) [
        | inl missing ↦ ground (arith, w, w', same)
        | inr (d, found) ↦
            ground
              (arith, w, w', same, spend_from-Charges hash_data id m' w' j amount service d found)
      ]

  step-Charges :
      (m : BudgetManager) (w : AreWithin m) (c : Call) → IsTyped c → Charges hash_data id m w c
  step-Charges m w (creates delegator agent total per_tx services expires_at height) fits =
      create-Charges hash_data id m w delegator agent total per_tx services expires_at height fits
  step-Charges m w (spends j amount service height) t = spend-Charges m w j amount service height
  step-Charges m w (pauses j delegator) t = pause-Charges hash_data id m w j delegator
  step-Charges m w (resumes j delegator) t = resume-Charges hash_data id m w j delegator
  step-Charges m w (revokes j delegator) t = revoke-Charges hash_data id m w j delegator
  step-Charges m w (increases j additional delegator) t =
      increase-Charges hash_data id m w j additional delegator
  step-Charges m w (checks j height) t = check-Charges hash_data id m w j height

  -- From a manager whose delegations are within their budgets, any history of calls with 128-bit
  -- budgets leaves them within their budgets, and what is recorded as spent on a delegation has
  -- grown by exactly the amounts of the calls of `spend` on it that succeeded.
  pub spending_adds_up :
      (m : BudgetManager) (cs : List Call)
      → AreWithin m
      → All IsTyped cs
      → AreWithin (run hash_data m cs)
        × (spent_on id (run hash_data m cs) ≡ spent_on id m + drawn_by hash_data id m cs)
  unfolding run drawn_by
  spending_adds_up m [] w t = (w, omega arith)
  spending_adds_up m (c ∷ cs) w t =
      let (w', e) = step-Charges m w c t.0 in
      let (w'', e') = spending_adds_up (step hash_data m c) cs w' t.1 in (w'', omega arith)

  -- From an empty manager, the calls of `spend` on a delegation that succeed add up to no more
  -- than its total budget at the end, increases included, whatever other calls come between them.
  pub drawn_within_budget :
      (cs : List Call) (d : BudgetDelegation)
      → All IsTyped cs
      → get id (run hash_data new cs).delegations ≡ some d
      → drawn_by hash_data id new cs ≤ d.total_budget
  drawn_within_budget cs d t found =
      let (w, e) = spending_adds_up new cs tt t in
      let within = AllValues-get IsWithin id d (run hash_data new cs).delegations w found in
      ground (arith, within.within, e)
