-- ===== src/SubnetStaking/Tests.antt =====
-- Tests of the subnet stakes, and their theorem at a concrete input.
use is_a_chain.Prelude.{
  ◌≡◌, ◌+◌, false, refl, List, [], ◌∷◌, err, total, add_u64, add_u128, saturating_mul, sum_from,
  arith,
}
use is_a_chain.Subnet.{SubnetId, discriminant, compute, storage}
use is_a_chain.SubnetStaking.{
  Books, Call, stake, add_stake, begin_unstake, complete_unbonding, slash, slash_amount,
  already_staked, insufficient_balance, get_subnet_total_stake, get_provider_total_stake, is_staked,
  opened, step, run, stakes, adds, unstakes, completes, slashes,
}
use is_a_chain.SubnetStaking.Entries.{active, active_in, queued}
use is_a_chain.SubnetStaking.Funds.{subnet_books_balance}

abbrev calls : List Call
calls =
    stakes 7 compute 1000 500 1
    ∷ adds 7 compute 200
    ∷ stakes 7 storage 50 20 2
    ∷ unstakes 7 compute 400 3
    ∷ slashes 7 compute 9000
    ∷ completes 7 compute 103
    ∷ []

abbrev after : Books
after = run (opened 100) calls

stakes_and_slash :
    (get_subnet_total_stake compute after.manager ≡ 400)
    × (get_provider_total_stake 7 after.manager ≡ 450)
    × (after.paid_out ≡ 800)
    × ((stake 7 compute 500 500 9 after.manager).0 ≡ err already_staked)
    × ((begin_unstake 7 compute 401 9 after.manager).0 ≡ err insufficient_balance)
    × (is_staked 8 compute after.manager ≡ false)
unfolding step stake add_stake begin_unstake complete_unbonding slash slash_amount
    get_subnet_total_stake get_provider_total_stake is_staked add_u64 add_u128 saturating_mul
    sum_from
stakes_and_slash = (refl, refl, refl, refl, refl, refl)

subnet_books_balance_example :
    let d = after.manager.stakes in
    ((s : SubnetId) → get_subnet_total_stake s after.manager ≡ total (active_in (discriminant s)) d)
    × (total active d + total queued d + after.paid_out ≡ after.taken_in)
subnet_books_balance_example = subnet_books_balance 100 calls (omega arith)
