-- ===== src/Account/Operations.antt =====
-- core/blockchain/src/account: the methods that write an account.
use is_a_chain.Prelude.{
  ℕ, ◌+◌, List, [], ◌∷◌, ◌++◌, Option, none, some, ltb, leb, ◌==◌, if◌then◌else◌, get, insert,
  remove, Result, ok, err, add_u64, add_u128, sub_u128,
}
use is_a_chain.Account.Data.{
  Account, StakingInfo, Delegation, UnbondingDelegation, ValidatorAccount, ValidatorDescription,
  AccountError, insufficient_balance, already_validator, insufficient_self_delegation,
  no_staking_info, no_delegation, insufficient_delegation, active, is_validator,
}

abbrev pub Outcome : Type 0 → Type 0
Outcome A = Result A AccountError × Account

unfoldable pub deduct_balance : ℕ → Account → Outcome (Unit {0})
deduct_balance amount a =
    if ltb a.balance amount
    then (err (insufficient_balance a.balance amount), a)
    else (ok tt, record a { balance = sub_u128 a.balance amount })

unfoldable pub add_balance : ℕ → Account → Account
add_balance amount a = record a { balance = add_u128 a.balance amount }

unfoldable pub increment_nonce : Account → Account
increment_nonce a = record a { nonce = add_u64 a.nonce 1 }

-- `staking_info.get_or_insert_with(…)`
abbrev pub staking_or_new : Option StakingInfo → StakingInfo
staking_or_new (some info) = info
staking_or_new none = record {
  validator = none;
  delegations = [];
  total_staked = 0;
  pending_rewards = 0;
  unbonding = [];
}

unfoldable pub become_validator :
    (public_key : List ℕ) (commission_rate min_self_delegation self_delegation : ℕ)
    → ValidatorDescription
    → (height : ℕ) → Account
    → Outcome (Unit {0})
become_validator public_key commission_rate min_self_delegation self_delegation description height
      a =
    if is_validator a
    then (err already_validator, a)
    else if ltb self_delegation min_self_delegation
    then (err (insufficient_self_delegation min_self_delegation self_delegation), a)
    else let info = staking_or_new a.staking_info in
      let v : ValidatorAccount = record {
        public_key = public_key;
        commission_rate = commission_rate;
        commission_rewards = 0;
        min_self_delegation = min_self_delegation;
        self_delegation = self_delegation;
        total_delegation = self_delegation;
        status = active;
        description = description;
        signed_blocks = 0;
        missed_blocks = 0;
        last_active_height = height;
        total_slashed = 0;
      } in
      (
        ok tt,
        record a {
          staking_info = some (record info {
            validator = some v;
            total_staked = add_u128 info.total_staked self_delegation;
          });
        },
      )

-- `delegations.entry(validator).or_insert(…)`
abbrev pub delegation_or_new : ℕ → Option Delegation → Delegation
delegation_or_new height (some d) = d
delegation_or_new height none = record {
  amount = 0;
  delegated_at = height;
  rewards = 0;
  last_reward_height = height;
}

unfoldable pub delegate_to_validator : ℕ → ℕ → ℕ → Account → Outcome (Unit {0})
delegate_to_validator validator amount height a =
    let info = staking_or_new a.staking_info in
    let d = delegation_or_new height (get validator info.delegations) in
    (
      ok tt,
      record a {
        staking_info = some (record info {
          delegations =
              insert validator (record d { amount = add_u128 d.amount amount }) info.delegations;
          total_staked = add_u128 info.total_staked amount;
        });
      },
    )

-- A delegation that falls to zero is removed from the map.
unfoldable pub undelegate_from_validator : ℕ → ℕ → ℕ → ℕ → Account → Outcome (Unit {0})
undelegate_from_validator validator amount height unbonding_period a = elim a.staking_info [
  | none ↦ (err no_staking_info, a)
  | some info ↦ elim (get validator info.delegations) [
    | none ↦ (err (no_delegation validator), a)
    | some d ↦
        if ltb d.amount amount
        then (err (insufficient_delegation d.amount amount), a)
        else let left = sub_u128 d.amount amount in
          (
            ok tt,
            record a {
              staking_info = some (record info {
                delegations =
                    if left == 0
                    then remove validator info.delegations
                    else insert validator (record d { amount = left }) info.delegations;
                total_staked = sub_u128 info.total_staked amount;
                unbonding =
                    info.unbonding
                    ++ record {
                      validator = validator;
                      amount = amount;
                      unbonding_height = height;
                      completion_height = add_u64 height unbonding_period;
                    }
                      ∷ [];
              });
            },
          )
  ]
]

-- The `retain` of `process_unbonding`: the unbonded sum so far and the chunks that stay.
unfoldable pub drain : ℕ → ℕ → List UnbondingDelegation → ℕ × List UnbondingDelegation
drain current_height unbonded [] = (unbonded, [])
drain current_height unbonded (u ∷ us) =
    let done = leb u.completion_height current_height in
    let (sum, kept) =
      drain current_height (if done then add_u128 unbonded u.amount else unbonded) us in
    (sum, if done then kept else u ∷ kept)

unfoldable pub process_unbonding : ℕ → Account → ℕ × Account
process_unbonding current_height a = elim a.staking_info [
  | none ↦ (0, a)
  | some info ↦
      let (total_unbonded, kept) = drain current_height 0 info.unbonding in
      (
        total_unbonded,
        record a {
          balance = add_u128 a.balance total_unbonded;
          staking_info = some (record info { unbonding = kept });
        },
      )
]

-- A call of a method that writes the account.
pub data Call : Type 0 where
  deducts adds_balance : (amount : ℕ) → Call
  increments : Call
  becomes_validator :
      (public_key : List ℕ) (commission_rate min_self_delegation self_delegation : ℕ)
      → ValidatorDescription
      → (height : ℕ) → Call
  delegates : (validator amount height : ℕ) → Call
  undelegates : (validator amount height unbonding_period : ℕ) → Call
  processes : (current_height : ℕ) → Call

-- The account after some calls, with what was added to its balance, what was deducted from it, and
-- what was staked, by delegating or as a validator.
pub record Books : Type 0 where
  pub account : Account
  pub added : ℕ
  pub deducted : ℕ
  pub staked : ℕ

abbrev pub deducted_if_ok : Outcome (Unit {0}) → ℕ → Books
deducted_if_ok (ok _, a) amount = record { account = a; added = 0; deducted = amount; staked = 0 }
deducted_if_ok (err _, a) _ = record { account = a; added = 0; deducted = 0; staked = 0 }

abbrev pub staked_if_ok : Outcome (Unit {0}) → ℕ → Books
staked_if_ok (ok _, a) amount = record { account = a; added = 0; deducted = 0; staked = amount }
staked_if_ok (err _, a) _ = record { account = a; added = 0; deducted = 0; staked = 0 }

unfoldable pub step : Account → Call → Books
step a (deducts amount) = deducted_if_ok (deduct_balance amount a) amount
step a (adds_balance amount) = record {
  account = add_balance amount a;
  added = amount;
  deducted = 0;
  staked = 0;
}
step a increments = record { account = increment_nonce a; added = 0; deducted = 0; staked = 0 }
step a (becomes_validator public_key commission_rate minimum self_delegation description height) =
    staked_if_ok
      (become_validator public_key commission_rate minimum self_delegation description height a)
      self_delegation
step a (delegates validator amount height) =
    staked_if_ok (delegate_to_validator validator amount height a) amount
step a (undelegates validator amount height unbonding_period) =
    staked_if_ok (undelegate_from_validator validator amount height unbonding_period a) 0
step a (processes current_height) = record {
  account = (process_unbonding current_height a).1;
  added = 0;
  deducted = 0;
  staked = 0;
}

unfoldable pub run : Account → List Call → Books
run a [] = record { account = a; added = 0; deducted = 0; staked = 0 }
run a (c ∷ cs) =
    let first = step a c in
    let rest = run first.account cs in
    record {
      account = rest.account;
      added = first.added + rest.added;
      deducted = first.deducted + rest.deducted;
      staked = first.staked + rest.staked;
    }
