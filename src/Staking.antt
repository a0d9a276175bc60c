-- ===== src/Staking.antt =====
-- core/blockchain/src/staking.rs: the vault of staked collateral and its unbonding queues.
pub mod Funds
pub mod Unbonding
mod Tests
use is_a_chain.Prelude.{
  ℕ, ◌/◌, min, Bool, List, [], ◌∷◌, ◌++◌, Option, none, some, ltb, leb, if◌then◌else◌, HashMap, get,
  contains_key, insert, Result, ok, err, add_u64, add_u128, sub_u128, saturating_mul, ◌+◌,
}

pub data StakingError : Type 0 where
  insufficient_stake : (min_stake provided : ℕ) → StakingError
  insufficient_balance : (requested available : ℕ) → StakingError
  no_stake_found stake_already_exists unbonding_in_progress : StakingError

pub record UnbondingEntry : Type 0 where
  pub amount : ℕ
  pub completion_height : ℕ

pub record StakeEntry : Type 0 where
  pub amount : ℕ
  pub staked_at : ℕ
  pub unbonding : List UnbondingEntry

pub record StakingVault : Type 0 where
  pub stakes : HashMap StakeEntry
  pub total_staked : ℕ
  pub min_stake : ℕ
  pub unbonding_period : ℕ

-- types/constants.rs
abbrev pub validator_min_stake : ℕ
validator_min_stake = 32_000_000_000_000_000_000_000

abbrev pub max_slash_percent : ℕ
max_slash_percent = 5000

abbrev pub new : ℕ → ℕ → StakingVault
new min_stake unbonding_period = record {
  stakes = [];
  total_staked = 0;
  min_stake = min_stake;
  unbonding_period = unbonding_period;
}

abbrev pub default_vault : StakingVault
default_vault = new validator_min_stake 100

abbrev pub Outcome : Type 0 → Type 0
Outcome A = Result A StakingError × StakingVault

unfoldable pub stake : ℕ → ℕ → ℕ → StakingVault → Outcome (Unit {0})
stake address amount height v =
    if ltb amount v.min_stake
    then (err (insufficient_stake v.min_stake amount), v)
    else if contains_key address v.stakes
    then (err stake_already_exists, v)
    else (
      ok tt,
      record v {
        stakes =
            insert address (record { amount = amount; staked_at = height; unbonding = [] })
              v.stakes;
        total_staked = add_u128 v.total_staked amount;
      },
    )

unfoldable pub add_stake : ℕ → ℕ → StakingVault → Outcome (Unit {0})
add_stake address amount v = elim (get address v.stakes) [
  | none ↦ (err no_stake_found, v)
  | some entry ↦ (
    ok tt,
    record v {
      stakes = insert address (record entry { amount = add_u128 entry.amount amount }) v.stakes;
      total_staked = add_u128 v.total_staked amount;
    },
  )
]

unfoldable pub begin_unstake : ℕ → ℕ → ℕ → StakingVault → Outcome (Unit {0})
begin_unstake address amount current_height v = elim (get address v.stakes) [
  | none ↦ (err no_stake_found, v)
  | some entry ↦
      if ltb entry.amount amount then (err (insufficient_balance amount entry.amount), v) else (
        ok tt,
        record v {
          stakes =
              insert address
                (record entry {
                  amount = sub_u128 entry.amount amount;
                  unbonding =
                      entry.unbonding
                      ++ record {
                        amount = amount;
                        completion_height = add_u64 current_height v.unbonding_period;
                      }
                        ∷ [];
                })
                v.stakes;
          total_staked = sub_u128 v.total_staked amount;
        },
      )
]

-- The `retain` of `complete_unbonding`: the released sum so far and the entries that stay.
unfoldable pub drain : ℕ → ℕ → List UnbondingEntry → ℕ × List UnbondingEntry
drain current_height released [] = (released, [])
drain current_height released (u ∷ us) =
    let matured = leb u.completion_height current_height in
    let (total, kept) =
      drain current_height (if matured then add_u128 released u.amount else released) us in
    (total, if matured then kept else u ∷ kept)

unfoldable pub complete_unbonding : ℕ → ℕ → StakingVault → ℕ × StakingVault
complete_unbonding address current_height v = elim (get address v.stakes) [
  | none ↦ (0, v)
  | some entry ↦
      let (released, kept) = drain current_height 0 entry.unbonding in
      (released, record v { stakes = insert address (record entry { unbonding = kept }) v.stakes })
]

-- What `slash` takes from a stake: the rate is capped, and the quotient rounds down.
unfoldable pub slash_amount : ℕ → ℕ → ℕ
slash_amount amount percent_bps = saturating_mul amount (min percent_bps max_slash_percent) / 10_000

unfoldable pub slash : ℕ → ℕ → StakingVault → Outcome ℕ
slash address percent_bps v = elim (get address v.stakes) [
  | none ↦ (err no_stake_found, v)
  | some entry ↦
      let taken = slash_amount entry.amount percent_bps in
      (
        ok taken,
        record v {
          stakes = insert address (record entry { amount = sub_u128 entry.amount taken }) v.stakes;
          total_staked = sub_u128 v.total_staked taken;
        },
      )
]

abbrev pub get_stake : StakingVault → ℕ → Option StakeEntry
get_stake v address = get address v.stakes

abbrev pub get_total_staked : StakingVault → ℕ
get_total_staked v = v.total_staked

abbrev pub is_staked : StakingVault → ℕ → Bool
is_staked v address = contains_key address v.stakes

-- A call of a method that writes the vault.
pub data Call : Type 0 where
  stakes : (address amount height : ℕ) → Call
  adds : (address amount : ℕ) → Call
  unstakes : (address amount height : ℕ) → Call
  completes : (address height : ℕ) → Call
  slashes : (address percent_bps : ℕ) → Call

-- The vault after some calls, with the funds that came in and those that were handed out, by
-- release or by slashing.
pub record Books : Type 0 where
  pub vault : StakingVault
  pub deposited : ℕ
  pub paid : ℕ

abbrev pub taken_in : {A : Type 0} → Outcome A → ℕ → Books
taken_in (ok _, v) amount = record { vault = v; deposited = amount; paid = 0 }
taken_in (err _, v) _ = record { vault = v; deposited = 0; paid = 0 }

abbrev paid_out : Outcome ℕ → Books
paid_out (ok amount, v) = record { vault = v; deposited = 0; paid = amount }
paid_out (err _, v) = record { vault = v; deposited = 0; paid = 0 }

unfoldable pub step : StakingVault → Call → Books
step v (stakes address amount height) = taken_in (stake address amount height v) amount
step v (adds address amount) = taken_in (add_stake address amount v) amount
step v (unstakes address amount height) = taken_in (begin_unstake address amount height v) 0
step v (completes address height) =
    let (released, v') = complete_unbonding address height v in
    record { vault = v'; deposited = 0; paid = released }
step v (slashes address percent_bps) = paid_out (slash address percent_bps v)

unfoldable pub run : StakingVault → List Call → Books
run v [] = record { vault = v; deposited = 0; paid = 0 }
run v (c ∷ cs) =
    let first = step v c in
    let rest = run first.vault cs in
    record {
      vault = rest.vault;
      deposited = first.deposited + rest.deposited;
      paid = first.paid + rest.paid;
    }
