-- ===== src/Staking/Unbonding.antt =====
-- The waiting time of core/blockchain/src/staking.rs: when unbonded funds come out, and the
-- bound on a slash.
use is_a_chain.Prelude.{
  ℕ, Bool, ◌&&◌, ◌==◌, at_or_zero, get-insert, ◌+◌, ◌-◌, ◌*◌, ◌≤◌, ◌<◌, ◌≡◌, refl, inl, inr, not,
  List, [], ◌∷◌, ◌++◌, arith, Option-cases, leb, if◌then◌else◌, some, ok, get, insert, retain,
  u128_mod, u64_mod, add_u64, add_u64-eq, add_u128, sub_u128, at_or_zero-le-total,
}
use is_a_chain.Staking.{
  StakingVault, StakeEntry, UnbondingEntry, begin_unstake, drain, complete_unbonding, slash,
}
use is_a_chain.Staking.Funds.{
  queued, active, unbonding, begin_unstake-IsSound, IsSound, slash_amount-le,
}

abbrev pub is_due : ℕ → UnbondingEntry → Bool
is_due height u = leb u.completion_height height

-- The queue is split exactly by maturity: the due chunks are paid, the others stay in order.
pub drain_split :
    (height released : ℕ) (us : List UnbondingEntry)
    → released + queued us < u128_mod
    → ((drain height released us).0 ≡ released + queued (retain (is_due height) us))
      × ((drain height released us).1 ≡ retain (λ u. not (is_due height u)) us)
unfolding drain add_u128
drain_split height released [] h = (omega arith, refl)
drain_split height released (u ∷ us) h =
    ground
      (arith, drain_split height (add_u128 released u.amount) us, drain_split height released us)

queued-retain-le :
    (p : UnbondingEntry → Bool) (us : List UnbondingEntry) → queued (retain p us) ≤ queued us
queued-retain-le p [] = omega arith
queued-retain-le p (u ∷ us) = ground (arith, queued-retain-le p us)

retain-append :
    (p : UnbondingEntry → Bool) (us : List UnbondingEntry) (u : UnbondingEntry)
    → queued (retain p (us ++ u ∷ [])) ≡ queued (retain p us) + (if p u then u.amount else 0)
retain-append p [] u = ground arith
retain-append p (w ∷ us) u = ground (arith, retain-append p us u)

-- What a release at `height` pays to the owner of an entry.
abbrev pub due : ℕ → StakeEntry → ℕ
due height e = queued (retain (is_due height) e.unbonding)

payout-due :
    (address height : ℕ) (v : StakingVault)
    → IsSound v
    → (complete_unbonding address height v).0 ≡ at_or_zero (due height) address v.stakes
unfolding complete_unbonding
payout-due address height v s = elim (Option-cases (get address v.stakes)) [
  | inl missing ↦ ground arith
  | inr (e, found) ↦ ground (
    arith,
    s.fits,
    at_or_zero-le-total unbonding address v.stakes,
    drain_split height 0 e.unbonding,
  )
]

due-unstake :
    (address amount height later b : ℕ) (v : StakingVault)
    → height + v.unbonding_period < u64_mod
    → (begin_unstake address amount height v).0 ≡ ok tt
    → at_or_zero (due later) b (begin_unstake address amount height v).1.stakes
      ≡ at_or_zero (due later) b v.stakes
        + (if b == address && leb (height + v.unbonding_period) later then amount else 0)
unfolding begin_unstake
due-unstake address amount height later b v fits accepted =
    elim (Option-cases (get address v.stakes)) [
      | inl missing ↦ ground arith
      | inr (e, found) ↦
          let chunk : UnbondingEntry = record {
            amount = amount;
            completion_height = add_u64 height v.unbonding_period;
          } in
          let e' : StakeEntry = record e {
            amount = sub_u128 e.amount amount;
            unbonding = e.unbonding ++ chunk ∷ [];
          } in
          ground (
            arith,
            add_u64-eq height v.unbonding_period,
            get-insert b address e' v.stakes,
            retain-append (is_due later) e.unbonding chunk,
          )
    ]

-- In a sound vault, after an accepted unstake, with block heights below 2 ^ 64, a release pays
-- its owner the amount on top of what it would have paid, once the unbonding period is over and
-- not a block earlier, and pays every other address the same.
pub unstake_timelock :
    (address amount height later b : ℕ) (v : StakingVault)
    → IsSound v
    → height + v.unbonding_period < u64_mod
    → (begin_unstake address amount height v).0 ≡ ok tt
    → (complete_unbonding b later (begin_unstake address amount height v).1).0
      ≡ (complete_unbonding b later v).0
        + (if b == address && leb (height + v.unbonding_period) later then amount else 0)
unstake_timelock address amount height later b v s fits accepted =
    rw
      (
        payout-due b later v s,
        payout-due b later (begin_unstake address amount height v).1
            (begin_unstake-IsSound v s address amount height),
      )
      (due-unstake address amount height later b v fits accepted)

-- In a sound vault a slash takes at most half of the active stake, takes it out of the vault's
-- running total too, and leaves the unbonding queue and every other address alone.
pub slash_at_most_half :
    (address percent_bps taken : ℕ) (e : StakeEntry) (v : StakingVault)
    → IsSound v
    → get address v.stakes ≡ some e
    → (slash address percent_bps v).0 ≡ ok taken
    → let v' = (slash address percent_bps v).1 in
      (taken * 2 ≤ e.amount)
      × (v'.stakes ≡ insert address (record e { amount = e.amount - taken }) v.stakes)
      × (v'.total_staked + taken ≡ v.total_staked)
unfolding slash sub_u128
slash_at_most_half address percent_bps taken e v s found done = ground (
  arith,
  s.fits,
  s.summed,
  slash_amount-le e.amount percent_bps,
  at_or_zero-le-total active address v.stakes,
)
