-- ===== src/Staking/Funds.antt =====
-- The funds in the vault of core/blockchain/src/staking.rs over whole histories of calls.
use is_a_chain.Prelude.{
  subst, ok, err, ℕ, ◌+◌, ◌*◌, ◌≤◌, ◌<◌, ◌≡◌, refl, inl, inr, List, [], ◌∷◌, ◌++◌, arith,
  Option-cases, sum_of, sum_of-append, HashMap, get, insert, at_or_zero, total, total-insert,
  at_or_zero-le-total, u128_mod, add_u64, add_u128, sub_u128, saturating_mul, min,
}
use is_a_chain.Staking.{
  Outcome, taken_in, StakingVault, StakeEntry, UnbondingEntry, Books, Call, stakes, adds, unstakes,
  completes, slashes, stake, add_stake, begin_unstake, drain, complete_unbonding, slash,
  slash_amount, step, run,
}

abbrev pub queued : List UnbondingEntry → ℕ
queued = sum_of (λ u. u.amount)

abbrev pub active : StakeEntry → ℕ
active e = e.amount

abbrev pub unbonding : StakeEntry → ℕ
unbonding e = queued e.unbonding

-- All that the vault owes: active stakes and chunks in the unbonding queues.
abbrev pub held : StakingVault → ℕ
held v = total active v.stakes + total unbonding v.stakes

pub record IsSound (v : StakingVault) : Type 0 where
  pub summed : v.total_staked ≡ total active v.stakes
  pub fits : held v < u128_mod

pub drain_sum :
    (height released : ℕ) (us : List UnbondingEntry)
    → released + queued us < u128_mod
    → let (r, kept) = drain height released us in r + queued kept ≡ released + queued us
unfolding drain add_u128
drain_sum height released [] h = refl
drain_sum height released (u ∷ us) h =
    ground (arith, drain_sum height (add_u128 released u.amount) us, drain_sum height released us)

mul_le : (a b c : ℕ) → b ≤ c → a * b ≤ a * c
mul_le a b c h = grind arith

pub slash_amount-le : (amount percent_bps : ℕ) → slash_amount amount percent_bps * 2 ≤ amount
unfolding slash_amount saturating_mul
slash_amount-le amount percent_bps = ground (arith, mul_le amount (min percent_bps 5000) 5000)

-- A write of one entry moves both totals by what the entry gained or lost.
entry_totals :
    (address : ℕ) (e : StakeEntry) (d : HashMap StakeEntry)
    → (total active (insert address e d) + at_or_zero active address d ≡ total active d + e.amount)
      × (total unbonding (insert address e d) + at_or_zero unbonding address d
          ≡ total unbonding d + queued e.unbonding)
entry_totals address e d = (total-insert active address e d, total-insert unbonding address e d)

-- What the books of one call must show.
abbrev pub Accounts : StakingVault → Books → Type 0
Accounts v m = IsSound m.vault × (held m.vault + m.paid ≡ held v + m.deposited)

taken_in-zero :
    {A : Type 0} (o : Outcome A) → ((taken_in o 0).vault ≡ o.1) × ((taken_in o 0).deposited ≡ 0)
taken_in-zero (ok a, v) = (refl, refl)
taken_in-zero (err e, v) = (refl, refl)

module _ (v : StakingVault) (s : IsSound v) where
  stake-books :
      (address amount height : ℕ)
      → held v + (step v (stakes address amount height)).deposited < u128_mod
      → Accounts v (step v (stakes address amount height))
  unfolding step stake add_u128
  stake-books address amount height h = ground (
    arith,
    entry_totals address (record { amount = amount; staked_at = height; unbonding = [] }) v.stakes,
  )

  add_stake-books :
      (address amount : ℕ)
      → held v + (step v (adds address amount)).deposited < u128_mod
      → Accounts v (step v (adds address amount))
  unfolding step add_stake add_u128
  add_stake-books address amount h = elim (Option-cases (get address v.stakes)) [
    | inl missing ↦ ground arith
    | inr (e, found) ↦ ground (
      arith,
      at_or_zero-le-total active address v.stakes,
      entry_totals address (record e { amount = add_u128 e.amount amount }) v.stakes,
    )
  ]

  begin_unstake-books :
      (address amount height : ℕ)
      → held v + (step v (unstakes address amount height)).deposited < u128_mod
      → Accounts v (step v (unstakes address amount height))
  unfolding step begin_unstake sub_u128
  begin_unstake-books address amount height h = elim (Option-cases (get address v.stakes)) [
    | inl missing ↦ ground arith
    | inr (e, found) ↦
        let chunk : UnbondingEntry = record {
          amount = amount;
          completion_height = add_u64 height v.unbonding_period;
        } in
        ground (
          arith,
          at_or_zero-le-total active address v.stakes,
          sum_of-append (λ u. u.amount) e.unbonding (chunk ∷ []),
          entry_totals address
              (record e {
                amount = sub_u128 e.amount amount;
                unbonding = e.unbonding ++ chunk ∷ [];
              })
              v.stakes,
        )
  ]

  pub begin_unstake-IsSound :
      (address amount height : ℕ) → IsSound (begin_unstake address amount height v).1
  unfolding step
  begin_unstake-IsSound address amount height =
      let e = taken_in-zero (begin_unstake address amount height v) in
      subst IsSound e.0 (begin_unstake-books address amount height (omega (arith, s.fits, e.1))).0

  complete_unbonding-books :
      (address height : ℕ)
      → held v + (step v (completes address height)).deposited < u128_mod
      → Accounts v (step v (completes address height))
  unfolding step complete_unbonding
  complete_unbonding-books address height h = elim (Option-cases (get address v.stakes)) [
    | inl missing ↦ ground arith
    | inr (e, found) ↦ ground (
      arith,
      at_or_zero-le-total unbonding address v.stakes,
      drain_sum height 0 e.unbonding,
      entry_totals address (record e { unbonding = (drain height 0 e.unbonding).1 }) v.stakes,
    )
  ]

  slash-books :
      (address percent_bps : ℕ)
      → held v + (step v (slashes address percent_bps)).deposited < u128_mod
      → Accounts v (step v (slashes address percent_bps))
  unfolding step slash sub_u128
  slash-books address percent_bps h = elim (Option-cases (get address v.stakes)) [
    | inl missing ↦ ground arith
    | inr (e, found) ↦
        let taken = slash_amount e.amount percent_bps in
        ground (
          arith,
          at_or_zero-le-total active address v.stakes,
          slash_amount-le e.amount percent_bps,
          entry_totals address (record e { amount = sub_u128 e.amount taken }) v.stakes,
        )
  ]

  step-books : (c : Call) → held v + (step v c).deposited < u128_mod → Accounts v (step v c)
  step-books (stakes address amount height) = stake-books address amount height
  step-books (adds address amount) = add_stake-books address amount
  step-books (unstakes address amount height) = begin_unstake-books address amount height
  step-books (completes address height) = complete_unbonding-books address height
  step-books (slashes address percent_bps) = slash-books address percent_bps

-- From a sound vault, after any history of calls whose deposits do not overflow 128 bits, the
-- running total is the sum of the active stakes, and what the vault holds and what it has handed
-- out, by release or slashing, add up to what it held and what was deposited.
pub vault_conserves :
    (v : StakingVault) (cs : List Call)
    → IsSound v
    → held v + (run v cs).deposited < u128_mod
    → Accounts v (run v cs)
unfolding run
vault_conserves v [] s h = (s, omega arith)
vault_conserves v (c ∷ cs) s h =
    let first = step v c in
    let (sound, kept) = step-books v s c (omega arith) in
    let (sound', kept') = vault_conserves first.vault cs sound (omega arith) in
    (sound', omega arith)
