-- ===== src/Budget/Indices.antt =====
-- The indices by delegator and by agent of core/blockchain/src/budget/manager.rs list exactly the
-- delegations they are for, each once.
use is_a_chain.Prelude.{
  ℕ, ◌≡◌, inl, inr, List, arith, Option, Option-cases, none, some, get, get-insert, count, listed,
  listed-push_item, push_item, insert, if◌then◌else◌, ◌==◌,
}
use is_a_chain.Budget.{
  ServiceType, BudgetDelegation, BudgetManager, created, put, id_input, create_delegation, Call,
  run,
}
use is_a_chain.Budget.Writes.{run-keeps}

-- 1 if the delegation `id` exists and is of this delegator, or of this agent, else 0.
abbrev pub granted : ℕ → ℕ → BudgetManager → ℕ
granted id who m = elim (get id m.delegations) [
  | none ↦ 0
  | some d ↦ if d.delegator == who then 1 else 0
]

abbrev pub received : ℕ → ℕ → BudgetManager → ℕ
received id who m = elim (get id m.delegations) [
  | none ↦ 0
  | some d ↦ if d.agent == who then 1 else 0
]

pub record IsIndexed (m : BudgetManager) : Type 0 where
  pub delegators : (id who : ℕ) → count id (listed who m.by_delegator) ≡ granted id who m
  pub agents : (id who : ℕ) → count id (listed who m.by_agent) ≡ received id who m

module _ (m : BudgetManager) (x : IsIndexed m) where
  -- A write that keeps the two parties.
  put-IsIndexed :
      (j : ℕ) (d d' : BudgetDelegation)
      → get j m.delegations ≡ some d
      → d'.delegator ≡ d.delegator
      → d'.agent ≡ d.agent
      → IsIndexed (put m j d')
  put-IsIndexed j d d' found same_delegator same_agent = record {
    delegators = λ id who. ground (arith, x.delegators id who, get-insert id j d' m.delegations);
    agents = λ id who. ground (arith, x.agents id who, get-insert id j d' m.delegations);
  }

  create-IsIndexed :
      (j delegator agent total per_tx : ℕ) (services : Option (List ServiceType))
      (expires_at height : ℕ)
      → get j m.delegations ≡ none
      → IsIndexed (record m {
        delegations =
            insert j
              (created j delegator agent total per_tx services expires_at height)
              m.delegations;
        by_delegator = push_item delegator j m.by_delegator;
        by_agent = push_item agent j m.by_agent;
      })
  create-IsIndexed j delegator agent total per_tx services expires_at height free =
      let d = created j delegator agent total per_tx services expires_at height in
      record {
        delegators = λ id who. ground (
          arith,
          x.delegators id who,
          get-insert id j d m.delegations,
          listed-push_item who delegator j m.by_delegator id,
        );
        agents = λ id who. ground (
          arith,
          x.agents id who,
          get-insert id j d m.delegations,
          listed-push_item who agent j m.by_agent id,
        );
      }

create_delegation-IsIndexed :
    (hash_data : List ℕ → ℕ) (m : BudgetManager)
    → IsIndexed m
    → (delegator agent total per_tx : ℕ) (services : Option (List ServiceType))
      (expires_at height : ℕ)
    → IsIndexed
        (create_delegation hash_data delegator agent total per_tx services expires_at height m).1
unfolding create_delegation
create_delegation-IsIndexed hash_data m x delegator agent total per_tx services expires_at height =
    let j = hash_data (id_input delegator agent height) in
    elim (Option-cases (get j m.delegations)) [
      | inl missing ↦ ground (
        arith,
        x,
        create-IsIndexed m x j delegator agent total per_tx services expires_at height missing,
      )
      | inr (d, found) ↦ ground (arith, x)
    ]

-- Any history of calls keeps the two indices exact: a delegation is listed once under its delegator
-- and once under its agent, and nowhere else.
pub run-IsIndexed :
    (hash_data : List ℕ → ℕ) (m : BudgetManager) (cs : List Call)
    → IsIndexed m
    → IsIndexed (run hash_data m cs)
run-IsIndexed hash_data m cs x =
    run-keeps IsIndexed hash_data
      (λ m' x' j d d' found f. put-IsIndexed m' x' j d d' found f.same_delegator f.same_agent)
      (create_delegation-IsIndexed hash_data) m x cs
