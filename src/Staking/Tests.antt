-- ===== src/Staking/Tests.antt =====
-- Tests of the staking vault, and its theorems at concrete inputs.
use is_a_chain.Prelude.{
  add_u64, add_u128, sub_u128, saturating_mul, ◌≡◌, refl, List, [], ◌∷◌, arith,
}
use is_a_chain.Staking.{
  StakingVault, StakeEntry, Call, stakes, adds, unstakes, completes, slashes, step, stake,
  add_stake, drain, slash_amount, begin_unstake, complete_unbonding, slash, run, new,
}
use is_a_chain.Staking.Funds.{Accounts, vault_conserves}

abbrev history : List Call
history =
    stakes 1 400 0
    ∷ stakes 2 100 1
    ∷ adds 2 50
    ∷ unstakes 1 150 5
    ∷ slashes 1 8000
    ∷ completes 1 10
    ∷ completes 1 15
    ∷ []

-- Address 1 has 250 left and loses half of it; its 150 come out at height 15, not at 10.
run-history :
    let m = run (new 100 10) history in
    (m.deposited ≡ 550) × (m.paid ≡ 275) × (m.vault.total_staked ≡ 275)
unfolding run step stake add_stake begin_unstake drain complete_unbonding slash slash_amount add_u64
    add_u128 sub_u128 saturating_mul
run-history = (refl, refl, refl)

abbrev vault : StakingVault
vault = record (new 100 10) {
  stakes =
      (
        1,
        record {
          amount = 400;
          staked_at = 0;
          unbonding = record { amount = 7; completion_height = 3 } ∷ [];
        },
      )
      ∷ (2, record { amount = 100; staked_at = 1; unbonding = [] })
      ∷ [];
  total_staked = 500;
}

vault_conserves_example : Accounts vault (run vault history)
unfolding run step stake add_stake begin_unstake drain complete_unbonding slash slash_amount add_u64
    add_u128 sub_u128 saturating_mul
vault_conserves_example = vault_conserves vault history (omega arith) (omega arith)

abbrev first_entry : StakeEntry
first_entry = record {
  amount = 400;
  staked_at = 0;
  unbonding = record { amount = 7; completion_height = 3 } ∷ [];
}
