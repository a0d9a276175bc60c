-- ===== src/Account/Stake.antt =====
-- What one account of core/blockchain/src/account owns over histories of calls.
use is_a_chain.Prelude.{
  ℕ, ◌+◌, ◌<◌, ◌≡◌, refl, inl, inr, Option, none, some, List, [], ◌∷◌, arith, Option-cases, sum_of,
  sum_of-append, get, total, total-insert, total-remove, at_or_zero-le-total, u128_mod, add_u64,
  add_u128, sub_u128,
}
use is_a_chain.Account.{
  Account, StakingInfo, Delegation, UnbondingDelegation, ValidatorAccount, Call, Books,
  ValidatorDescription, deducts, adds_balance, increments, becomes_validator, delegates,
  undelegates, processes, deduct_balance, add_balance, increment_nonce, become_validator,
  delegate_to_validator, undelegate_from_validator, process_unbonding, drain, staking_or_new,
  delegation_or_new, step, run,
}

abbrev delegated : Delegation → ℕ
delegated d = d.amount

abbrev queued : List UnbondingDelegation → ℕ
queued = sum_of (λ u. u.amount)

abbrev self_staked : Option ValidatorAccount → ℕ
self_staked none = 0
self_staked (some v) = v.self_delegation

abbrev in_stake : StakingInfo → ℕ
in_stake info = total delegated info.delegations + self_staked info.validator

-- The balance, the stake and what is unbonding.
abbrev pub held : Account → ℕ
held a =
    let info = staking_or_new a.staking_info in a.balance + in_stake info + queued info.unbonding

-- The running total of the stake is the sum of the delegations and the self-delegation.
pub record IsSound (a : Account) : Type 0 where
  pub summed :
      (staking_or_new a.staking_info).total_staked ≡ in_stake (staking_or_new a.staking_info)
  pub fits : held a < u128_mod

abbrev pub Accounts : Account → Books → Type 0
Accounts a m = IsSound m.account × (held m.account + m.deducted ≡ held a + m.added + m.staked)

drain_sum :
    (height unbonded : ℕ) (us : List UnbondingDelegation)
    → unbonded + queued us < u128_mod
    → let (r, kept) = drain height unbonded us in r + queued kept ≡ unbonded + queued us
unfolding drain add_u128
drain_sum height unbonded [] h = refl
drain_sum height unbonded (u ∷ us) h =
    ground (arith, drain_sum height (add_u128 unbonded u.amount) us, drain_sum height unbonded us)

module _ (a : Account) (s : IsSound a) where
  abbrev Booked : Call → Type 0
  Booked c = held a + (step a c).added + (step a c).staked < u128_mod → Accounts a (step a c)

  deduct-books : (amount : ℕ) → Booked (deducts amount)
  unfolding step deduct_balance sub_u128
  deduct-books amount h = ground arith

  add-books : (amount : ℕ) → Booked (adds_balance amount)
  unfolding step add_balance add_u128
  add-books amount h = ground arith

  increment-books : Booked increments
  unfolding step increment_nonce
  increment-books h = ground arith

  become-books :
      (public_key : List ℕ) (rate minimum self : ℕ) (description : ValidatorDescription)
      (height : ℕ)
      → Booked (becomes_validator public_key rate minimum self description height)
  unfolding step become_validator add_u128
  become-books public_key rate minimum self description height h =
      elim (Option-cases (staking_or_new a.staking_info).validator) [
        | inl absent ↦ ground arith
        | inr (v, found) ↦ ground arith
      ]

  delegate-books : (validator amount height : ℕ) → Booked (delegates validator amount height)
  unfolding step delegate_to_validator add_u128
  delegate-books validator amount height h =
      let info = staking_or_new a.staking_info in
      let d = delegation_or_new height (get validator info.delegations) in
      elim (Option-cases (get validator info.delegations)) [
        | inl missing ↦ ground (
          arith,
          total-insert delegated validator (record d { amount = add_u128 d.amount amount })
              info.delegations,
        )
        | inr (old, found) ↦ ground (
          arith,
          at_or_zero-le-total delegated validator info.delegations,
          total-insert delegated validator (record d { amount = add_u128 d.amount amount })
              info.delegations,
        )
      ]

  undelegate-books :
      (validator amount height period : ℕ) → Booked (undelegates validator amount height period)
  unfolding step undelegate_from_validator sub_u128
  undelegate-books validator amount height period h = elim (Option-cases a.staking_info) [
    | inl absent ↦ ground arith
    | inr (info, present) ↦ elim (Option-cases (get validator info.delegations)) [
      | inl missing ↦ ground arith
      | inr (d, found) ↦
          let chunk : UnbondingDelegation = record {
            validator = validator;
            amount = amount;
            unbonding_height = height;
            completion_height = add_u64 height period;
          } in
          ground (
            arith,
            at_or_zero-le-total delegated validator info.delegations,
            sum_of-append (λ u. u.amount) info.unbonding (chunk ∷ []),
            total-remove delegated validator info.delegations,
            total-insert delegated validator (record d { amount = sub_u128 d.amount amount })
                info.delegations,
          )
    ]
  ]

  process-books : (height : ℕ) → Booked (processes height)
  unfolding step process_unbonding add_u128
  process-books height h = elim (Option-cases a.staking_info) [
    | inl absent ↦ ground arith
    | inr (info, found) ↦ ground (arith, drain_sum height 0 info.unbonding)
  ]

  step-books : (c : Call) → Booked c
  step-books (deducts amount) = deduct-books amount
  step-books (adds_balance amount) = add-books amount
  step-books increments = increment-books
  step-books (becomes_validator public_key rate minimum self description height) =
      become-books public_key rate minimum self description height
  step-books (delegates validator amount height) = delegate-books validator amount height
  step-books (undelegates validator amount height period) =
      undelegate-books validator amount height period
  step-books (processes height) = process-books height

-- From an account whose running total is the sum of its delegations and self-delegation, after any
-- history of calls that adds and stakes less than 128 bits hold, the total is that sum again, and
-- balance, stake and unbonding chunks together have grown by what was added to the balance and
-- by what was staked, less what was deducted: to stake takes nothing from the balance.
pub staking_books :
    (a : Account) (cs : List Call)
    → IsSound a
    → held a + (run a cs).added + (run a cs).staked < u128_mod
    → Accounts a (run a cs)
unfolding run
staking_books a [] s h = (s, omega arith)
staking_books a (c ∷ cs) s h =
    let first = step a c in
    let (sound, kept) = step-books a s c (omega arith) in
    let (sound', kept') = staking_books first.account cs sound (omega arith) in
    (sound', omega arith)
