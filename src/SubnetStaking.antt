-- ===== src/SubnetStaking.antt =====
-- core/blockchain/src/subnet_staking: the stakes of the providers in the subnets. `types.rs` is the
-- data, `manager.rs` the manager.
pub mod Entries
pub mod Funds
mod Tests
use is_a_chain.Prelude.{
  ℕ, ◌+◌, ◌-◌, ◌*◌, ◌/◌, ◌==◌, not, ltb, leb, Bool, List, [], ◌∷◌, ◌++◌, Option, none, some,
  if◌then◌else◌, min, Result, ok, err, HashMap, get, insert, contains_key, push_item, listed,
  at_or_zero, retain, add_u64, add_u128, saturating_mul, sum_u128, suc,
}
use is_a_chain.Subnet.{SubnetId, discriminant}

pub record SubnetUnbonding : Type 0 where
  pub amount : ℕ
  pub completion_height : ℕ

pub record SubnetStake : Type 0 where
  pub provider : ℕ
  pub subnet_id : SubnetId
  pub amount : ℕ
  pub staked_at : ℕ
  pub unbonding : List SubnetUnbonding

pub data SubnetStakingError : Type 0 where
  insufficient_stake : (required provided : ℕ) → SubnetStakingError
  no_stake_found subnet_not_found insufficient_balance already_staked : SubnetStakingError

pub record SubnetStakingManager : Type 0 where
  pub stakes : HashMap SubnetStake
  pub total_by_subnet : HashMap ℕ
  pub provider_subnets : HashMap (List ℕ)
  pub unbonding_period : ℕ

abbrev pub new : (unbonding_period : ℕ) → SubnetStakingManager
new unbonding_period = record {
  stakes = [];
  total_by_subnet = [];
  provider_subnets = [];
  unbonding_period = unbonding_period;
}

abbrev pub Outcome : Type 0 → Type 0
Outcome A = Result A SubnetStakingError × SubnetStakingManager

-- The pair of a subnet and a provider, as one number: there are six subnets.
abbrev pub key : SubnetId → (provider : ℕ) → ℕ
key subnet_id provider = discriminant subnet_id + provider * 6

-- `*total_by_subnet.entry(subnet).or_insert(0) += amount`
abbrev pub raised : (subnet amount : ℕ) → HashMap ℕ → HashMap ℕ
raised subnet amount totals =
    insert subnet (add_u128 (at_or_zero (λ n. n) subnet totals) amount) totals

-- The total of a subnet, if there is one, less an amount.
abbrev pub lowered : (subnet amount : ℕ) → HashMap ℕ → HashMap ℕ
lowered subnet amount totals = elim (get subnet totals) [
  | none ↦ totals
  | some total ↦ insert subnet (total - amount) totals
]

unfoldable pub stake :
    (provider : ℕ)
    → SubnetId
    → (amount min_stake height : ℕ) → SubnetStakingManager
    → Outcome (Unit {0})
stake provider subnet_id amount min_stake height m =
    if ltb amount min_stake
    then (err (insufficient_stake min_stake amount), m)
    else if contains_key (key subnet_id provider) m.stakes
    then (err already_staked, m)
    else (
      ok tt,
      record m {
        stakes =
            insert (key subnet_id provider)
              (record {
                provider = provider;
                subnet_id = subnet_id;
                amount = amount;
                staked_at = height;
                unbonding = [];
              })
              m.stakes;
        total_by_subnet = raised (discriminant subnet_id) amount m.total_by_subnet;
        provider_subnets = push_item provider (discriminant subnet_id) m.provider_subnets;
      },
    )

unfoldable pub add_stake :
    (provider : ℕ) → SubnetId → (amount : ℕ) → SubnetStakingManager → Outcome (Unit {0})
add_stake provider subnet_id amount m = elim (get (key subnet_id provider) m.stakes) [
  | none ↦ (err no_stake_found, m)
  | some entry ↦ (
    ok tt,
    record m {
      stakes =
          insert (key subnet_id provider) (record entry { amount = add_u128 entry.amount amount })
            m.stakes;
      total_by_subnet = raised (discriminant subnet_id) amount m.total_by_subnet;
    },
  )
]

unfoldable pub begin_unstake :
    (provider : ℕ) → SubnetId → (amount height : ℕ) → SubnetStakingManager → Outcome (Unit {0})
begin_unstake provider subnet_id amount height m = elim (get (key subnet_id provider) m.stakes) [
  | none ↦ (err no_stake_found, m)
  | some entry ↦ if ltb entry.amount amount then (err insufficient_balance, m) else (
    ok tt,
    record m {
      stakes =
          insert (key subnet_id provider)
            (record entry {
              amount = entry.amount - amount;
              unbonding =
                  entry.unbonding
                  ++ record {
                    amount = amount;
                    completion_height = add_u64 height m.unbonding_period;
                  }
                    ∷ [];
            })
            m.stakes;
      total_by_subnet = lowered (discriminant subnet_id) amount m.total_by_subnet;
    },
  )
]

abbrev pub is_due : (current_height : ℕ) → SubnetUnbonding → Bool
is_due current_height u = leb u.completion_height current_height

-- Where the entry is in the map, the code changes it in place.
unfoldable pub complete_unbonding :
    (provider : ℕ)
    → SubnetId
    → (current_height : ℕ) → SubnetStakingManager
    → ℕ × SubnetStakingManager
complete_unbonding provider subnet_id current_height m =
    elim (get (key subnet_id provider) m.stakes) [
      | none ↦ (0, m)
      | some entry ↦ (
        sum_u128 (λ u. u.amount) (retain (is_due current_height) entry.unbonding),
        record m {
          stakes =
              insert (key subnet_id provider)
                (record entry {
                  unbonding = retain (λ u. not (is_due current_height u)) entry.unbonding;
                })
                m.stakes;
        },
      )
    ]

abbrev max_slash_percent : ℕ
max_slash_percent = 5000

unfoldable pub slash_amount : (amount percent_bps : ℕ) → ℕ
slash_amount amount percent_bps = saturating_mul amount (min percent_bps max_slash_percent) / 10_000

unfoldable pub slash :
    (provider : ℕ) → SubnetId → (percent_bps : ℕ) → SubnetStakingManager → Outcome ℕ
slash provider subnet_id percent_bps m = elim (get (key subnet_id provider) m.stakes) [
  | none ↦ (err no_stake_found, m)
  | some entry ↦
      let amount = slash_amount entry.amount percent_bps in
      (
        ok amount,
        record m {
          stakes =
              insert (key subnet_id provider) (record entry { amount = entry.amount - amount })
                m.stakes;
          total_by_subnet = lowered (discriminant subnet_id) amount m.total_by_subnet;
        },
      )
]

unfoldable pub get_stake : (provider : ℕ) → SubnetId → SubnetStakingManager → Option SubnetStake
get_stake provider subnet_id m = get (key subnet_id provider) m.stakes

-- The sum runs over the keys, whose second part is the provider.
abbrev pub staked_by : (provider total : ℕ) → HashMap SubnetStake → ℕ
staked_by provider total [] = total
staked_by provider total ((k, entry) ∷ rest) =
    staked_by provider (if k / 6 == provider then add_u128 total entry.amount else total) rest

unfoldable pub get_provider_total_stake : (provider : ℕ) → SubnetStakingManager → ℕ
get_provider_total_stake provider m = staked_by provider 0 m.stakes

unfoldable pub get_subnet_total_stake : SubnetId → SubnetStakingManager → ℕ
get_subnet_total_stake subnet_id m = at_or_zero (λ n. n) (discriminant subnet_id) m.total_by_subnet

unfoldable pub get_provider_subnets : (provider : ℕ) → SubnetStakingManager → List ℕ
get_provider_subnets provider m = listed provider m.provider_subnets

unfoldable pub is_staked : (provider : ℕ) → SubnetId → SubnetStakingManager → Bool
is_staked provider subnet_id m = contains_key (key subnet_id provider) m.stakes

-- A call of a method that writes the manager.
pub data Call : Type 0 where
  stakes : (provider : ℕ) (subnet_id : SubnetId) (amount min_stake height : ℕ) → Call
  adds : (provider : ℕ) (subnet_id : SubnetId) (amount : ℕ) → Call
  unstakes : (provider : ℕ) (subnet_id : SubnetId) (amount height : ℕ) → Call
  completes : (provider : ℕ) (subnet_id : SubnetId) (current_height : ℕ) → Call
  slashes : (provider : ℕ) (subnet_id : SubnetId) (percent_bps : ℕ) → Call

-- The manager, what it took in and what it gave back or slashed.
pub record Books : Type 0 where
  pub manager : SubnetStakingManager
  pub taken_in : ℕ
  pub paid_out : ℕ

abbrev pub opened : (unbonding_period : ℕ) → Books
opened unbonding_period = record { manager = new unbonding_period; taken_in = 0; paid_out = 0 }

abbrev pub with_intake : (amount : ℕ) → Outcome (Unit {0}) → Books → Books
with_intake amount (ok _, m) b = record b { manager = m; taken_in = b.taken_in + amount }
with_intake amount (err e, m) b = record b { manager = m }

abbrev pub with_slash : Outcome ℕ → Books → Books
with_slash (ok amount, m) b = record b { manager = m; paid_out = b.paid_out + amount }
with_slash (err e, m) b = record b { manager = m }

unfoldable pub step : Books → Call → Books
unfolding stake add_stake begin_unstake complete_unbonding slash
step b (stakes provider subnet_id amount min_stake height) =
    with_intake amount (stake provider subnet_id amount min_stake height b.manager) b
step b (adds provider subnet_id amount) =
    with_intake amount (add_stake provider subnet_id amount b.manager) b
step b (unstakes provider subnet_id amount height) =
    with_intake 0 (begin_unstake provider subnet_id amount height b.manager) b
step b (completes provider subnet_id current_height) =
    let released = complete_unbonding provider subnet_id current_height b.manager in
    record b { manager = released.1; paid_out = b.paid_out + released.0 }
step b (slashes provider subnet_id percent_bps) =
    with_slash (slash provider subnet_id percent_bps b.manager) b

abbrev pub run : Books → List Call → Books
run b [] = b
run b (c ∷ cs) = run (step b c) cs
