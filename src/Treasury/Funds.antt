-- ===== src/Treasury/Funds.antt =====
-- The balance of core/blockchain/src/treasury/treasury.rs over histories of calls.
use is_a_chain.Prelude.{
  Bool-cases, ℕ, ◌+◌, ◌*◌, ◌/◌, ◌≤◌, ◌<◌, ◌≡◌, inl, inr, List, [], ◌∷◌, arith, All, sum_of,
  u128_mod, add_u128, sub_u128, mul_u128, sum_u128, sum_u128-eq, ◌==◌,
}
use is_a_chain.Treasury.{
  Payment, amount_of, ProtocolTreasury, Distribution, collect_fee, deposit, distribute, shares,
  distribute_shares, distribute_proportional, staker_total, distribute_with_split, set_fee_rate,
  paid, Call, collects, deposits, distributes, distributes_proportional, splits, sets_fee_rate,
  step, run, income, income_of,
}
use is_a_chain.Treasury.Shares.{shares-le-total}

-- The balance is what was collected and not yet distributed.
pub record IsBalanced (t : ProtocolTreasury) : Type 0 where
  pub kept : t.balance + t.total_distributed ≡ t.total_collected
  pub fits : t.total_collected < u128_mod
  pub share_fits : t.staker_share_bps ≤ 10_000

-- The stakes of a call add up to less than 2 ^ 128.
abbrev pub IsTyped : Call → Type 0
IsTyped (distributes_proportional stakers total height caller) = sum_of amount_of stakers < u128_mod
IsTyped (splits stakers height caller) = sum_of amount_of stakers < u128_mod
IsTyped _ = Unit

share-le : (balance share : ℕ) → share ≤ 10_000 → balance * share / 10_000 ≤ balance
share-le balance share h = grind arith

-- The state after some calls is balanced, and has collected the given income.
abbrev pub Books : ProtocolTreasury → ProtocolTreasury → ℕ → Type 0
Books t t' added = IsBalanced t' × (t'.total_collected ≡ t.total_collected + added)

module _ (t : ProtocolTreasury) (b : IsBalanced t) where
  paid-Books : (d : Distribution) → d.total_amount ≤ t.balance → Books t (paid d t) 0
  unfolding add_u128 sub_u128
  paid-Books d h = ground (arith, b)

  distribute_shares-Books :
      (total : ℕ) (stakers : List Payment) (height : ℕ)
      → total ≤ t.balance
      → sum_of amount_of stakers < u128_mod
      → Books t (distribute_shares total stakers height t).1 0
  unfolding distribute_shares
  distribute_shares-Books total stakers height h fits =
      let whole = sum_of amount_of stakers in
      let recipients = shares total whole stakers in
      let whole_eq = sum_u128-eq amount_of stakers fits in
      elim (Bool-cases (whole == 0)) [
        | inl none_ ↦ ground (arith, whole_eq, b)
        | inr some_ ↦
            let less = shares-le-total total stakers (ground arith) in
            let sum_eq =
              sum_u128-eq amount_of recipients (omega (arith, less, h, b.kept, b.fits)) in
            let d : Distribution = record {
              recipients = recipients;
              total_amount = sum_u128 amount_of recipients;
              height = height;
            } in
            let books = paid-Books d (omega (arith, sum_eq, less, h)) in
            rw whole_eq (ground (arith, b, books))
      ]

  staker_total-le : staker_total t ≤ t.balance
  unfolding mul_u128
  staker_total-le = grind (arith, b.share_fits, share-le t.balance t.staker_share_bps b.share_fits)

  step-Books :
      (c : Call)
      → IsTyped c
      → t.total_collected + income c t < u128_mod
      → Books t (step t c) (income c t)
  unfolding step collect_fee deposit distribute distribute_proportional distribute_with_split
      set_fee_rate add_u128
  step-Books (collects amount) typed h = ground (arith, b)
  step-Books (deposits amount) typed h = ground (arith, b)
  step-Books (distributes recipients height caller) typed h = ground (
    arith,
    b,
    paid-Books (record {
      recipients = recipients;
      total_amount = sum_u128 amount_of recipients;
      height = height;
    }),
  )
  step-Books (distributes_proportional stakers total height caller) typed h =
      ground (arith, b, distribute_shares-Books total stakers height)
  step-Books (splits stakers height caller) typed h =
      ground (arith, b, staker_total-le, distribute_shares-Books (staker_total t) stakers height)
  step-Books (sets_fee_rate new_rate caller) typed h = ground (arith, b)

-- From a balanced treasury, after any history of calls whose income does not overflow 128 bits and
-- whose stakes add up to less than 2 ^ 128, the balance is what was collected and not distributed, and
-- the collected total has grown by the income.
pub treasury_balances :
    (t : ProtocolTreasury) (cs : List Call)
    → IsBalanced t
    → All IsTyped cs
    → t.total_collected + income_of t cs < u128_mod
    → Books t (run t cs) (income_of t cs)
unfolding run
treasury_balances t [] b typed h = (b, omega arith)
treasury_balances t (c ∷ cs) b typed h =
    let (b', e) = step-Books t b c typed.0 (omega arith) in
    let (b'', e') = treasury_balances (step t c) cs b' typed.1 (omega (arith, e)) in
    (b'', omega (arith, e, e'))
