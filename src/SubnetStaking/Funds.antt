-- ===== src/SubnetStaking/Funds.antt =====
-- The totals and the funds of core/blockchain/src/subnet_staking/manager.rs.
use is_a_chain.Prelude.{
  err, ok, add_u64, ltb, sym, add_u128, subst, ℕ, ◌≡◌, ◌+◌, ◌-◌, ◌*◌, ◌≤◌, ◌<◌, refl, inl, inr,
  List, [], ◌∷◌, ◌++◌, sum_of, not, min, sum_of-append, Bool, Bool-cases, Option-cases, get, total,
  at_or_zero-le-total, u128_mod, add_u128-eq, sum_u128, sum_u128-eq, retain, saturating_mul, arith,
}
use is_a_chain.Subnet.{SubnetId, discriminant}
use is_a_chain.SubnetStaking.{
  opened, with_intake, with_slash, run, get_subnet_total_stake, Outcome, Call, is_due, slashes,
  completes, unstakes, stakes, adds, complete_unbonding, begin_unstake, slash, add_stake, stake,
  step, slash_amount, key, SubnetUnbonding, SubnetStake, Books,
}
use is_a_chain.SubnetStaking.Entries.{
  active, active_in, queued, IsBooked, entry-IsBooked, at_or_zero-raised, at_or_zero-lowered,
  total_bounds,
}

kept : (b b' : Books) → b' ≡ b → IsBooked b → IsBooked b'
kept b b' same x = subst IsBooked (sym same) x

stake-IsBooked :
    (b : Books) (p : ℕ) (s : SubnetId) (amount min_stake height : ℕ)
    → IsBooked b
    → b.taken_in + amount < u128_mod
    → IsBooked (step b (stakes p s amount min_stake height))
unfolding step stake
stake-IsBooked b p s amount min_stake height x fits = elim (Bool-cases (ltb amount min_stake)) [
  | inl low ↦ kept b (step b (stakes p s amount min_stake height)) (ground arith) x
  | inr enough ↦ elim (Option-cases (get (key s p) b.manager.stakes)) [
    | inr (e, found) ↦ kept b (step b (stakes p s amount min_stake height)) (ground arith) x
    | inl free ↦
        let e : SubnetStake = record {
          provider = p;
          subnet_id = s;
          amount = amount;
          staked_at = height;
          unbonding = [];
        } in
        let room = (total_bounds b s p x).0 in
        let subnet = discriminant s in
        entry-IsBooked b (step b (stakes p s amount min_stake height)) s p e x refl (ground arith)
          (λ t. ground (arith, room, at_or_zero-raised subnet t amount b.manager.total_by_subnet))
          (ground arith)
  ]
]

add_stake-IsBooked :
    (b : Books) (p : ℕ) (s : SubnetId) (amount : ℕ)
    → IsBooked b
    → b.taken_in + amount < u128_mod
    → IsBooked (step b (adds p s amount))
unfolding step add_stake
add_stake-IsBooked b p s amount x fits = elim (Option-cases (get (key s p) b.manager.stakes)) [
  | inl missing ↦ kept b (step b (adds p s amount)) (ground arith) x
  | inr (old, found) ↦
      let (room, least) = total_bounds b s p x in
      let sum : add_u128 old.amount amount ≡ old.amount + amount =
        add_u128-eq old.amount amount (ground arith) in
      let subnet = discriminant s in
      entry-IsBooked b (step b (adds p s amount)) s p
        (record old { amount = add_u128 old.amount amount }) x (x.keyed s p old found)
        (ground arith)
        (λ t.
          ground (arith, room, sum, at_or_zero-raised subnet t amount b.manager.total_by_subnet))
        (ground (arith, sum))
]

begin_unstake-IsBooked :
    (b : Books) (p : ℕ) (s : SubnetId) (amount height : ℕ)
    → IsBooked b
    → IsBooked (step b (unstakes p s amount height))
unfolding step begin_unstake
begin_unstake-IsBooked b p s amount height x =
    elim (Option-cases (get (key s p) b.manager.stakes)) [
      | inl missing ↦ kept b (step b (unstakes p s amount height)) (ground arith) x
      | inr (old, found) ↦ elim (Bool-cases (ltb old.amount amount)) [
        | inl much ↦ kept b (step b (unstakes p s amount height)) (ground arith) x
        | inr enough ↦
            let least = (total_bounds b s p x).1 in
            let u : SubnetUnbonding = record {
              amount = amount;
              completion_height = add_u64 height b.manager.unbonding_period;
            } in
            let subnet = discriminant s in
            entry-IsBooked b (step b (unstakes p s amount height)) s p
              (record old { amount = old.amount - amount; unbonding = old.unbonding ++ u ∷ [] }) x
              (x.keyed s p old found) (ground arith)
              (λ t.
                ground (arith, least, at_or_zero-lowered subnet t amount b.manager.total_by_subnet))
              (ground (arith, sum_of-append (λ u. u.amount) old.unbonding (u ∷ [])))
      ]
    ]

retain_sum :
    (due : SubnetUnbonding → Bool) (us : List SubnetUnbonding)
    → sum_of (λ u. u.amount) (retain due us) + sum_of (λ u. u.amount) (retain (λ u. not (due u)) us)
      ≡ sum_of (λ u. u.amount) us
retain_sum due [] = refl
retain_sum due (u ∷ us) = ground (arith, retain_sum due us)

complete_unbonding-IsBooked :
    (b : Books) (p : ℕ) (s : SubnetId) (height : ℕ)
    → IsBooked b
    → b.taken_in < u128_mod
    → IsBooked (step b (completes p s height))
unfolding step complete_unbonding
complete_unbonding-IsBooked b p s height x fits =
    elim (Option-cases (get (key s p) b.manager.stakes)) [
      | inl missing ↦ kept b (step b (completes p s height)) (ground arith) x
      | inr (old, found) ↦
          let due = retain (is_due height) old.unbonding in
          let split = retain_sum (is_due height) old.unbonding in
          let bound = at_or_zero-le-total queued (key s p) b.manager.stakes in
          let sum : sum_u128 (λ u. u.amount) due ≡ sum_of (λ u. u.amount) due =
            sum_u128-eq (λ u. u.amount) due (ground (arith, split, bound, x.funds)) in
          entry-IsBooked b (step b (completes p s height)) s p
            (record old { unbonding = retain (λ u. not (is_due height u)) old.unbonding }) x
            (x.keyed s p old found) (ground arith) (λ t. ground arith) (ground (arith, sum, split))
    ]

mul_le : (a b c : ℕ) → b ≤ c → a * b ≤ a * c
mul_le a b c h = grind arith

slash_amount-le : (amount percent_bps : ℕ) → slash_amount amount percent_bps ≤ amount
unfolding slash_amount saturating_mul
slash_amount-le amount percent_bps = ground (arith, mul_le amount (min percent_bps 5000) 5000)

slash-IsBooked :
    (b : Books) (p : ℕ) (s : SubnetId) (percent_bps : ℕ)
    → IsBooked b
    → IsBooked (step b (slashes p s percent_bps))
unfolding step slash
slash-IsBooked b p s percent_bps x = elim (Option-cases (get (key s p) b.manager.stakes)) [
  | inl missing ↦ kept b (step b (slashes p s percent_bps)) (ground arith) x
  | inr (old, found) ↦
      let amount = slash_amount old.amount percent_bps in
      let part = slash_amount-le old.amount percent_bps in
      let least = (total_bounds b s p x).1 in
      let subnet = discriminant s in
      entry-IsBooked b (step b (slashes p s percent_bps)) s p
        (record old { amount = old.amount - amount }) x (x.keyed s p old found) (ground arith)
        (λ t.
          ground (arith, part, least, at_or_zero-lowered subnet t amount b.manager.total_by_subnet))
        (ground (arith, part))
]

-- What a call offers to stake.
abbrev pub amount_of : Call → ℕ
amount_of (stakes provider subnet_id amount min_stake height) = amount
amount_of (adds provider subnet_id amount) = amount
amount_of (unstakes provider subnet_id amount height) = 0
amount_of (completes provider subnet_id current_height) = 0
amount_of (slashes provider subnet_id percent_bps) = 0

step-IsBooked :
    (b : Books) (c : Call) → IsBooked b → b.taken_in + amount_of c < u128_mod → IsBooked (step b c)
step-IsBooked b (stakes p s amount min_stake height) x fits =
    stake-IsBooked b p s amount min_stake height x fits
step-IsBooked b (adds p s amount) x fits = add_stake-IsBooked b p s amount x fits
step-IsBooked b (unstakes p s amount height) x fits = begin_unstake-IsBooked b p s amount height x
step-IsBooked b (completes p s height) x fits =
    complete_unbonding-IsBooked b p s height x (omega arith)
step-IsBooked b (slashes p s percent_bps) x fits = slash-IsBooked b p s percent_bps x

with_intake-le :
    (amount : ℕ) (o : Outcome (Unit {0})) (b : Books)
    → (with_intake amount o b).taken_in ≤ b.taken_in + amount
with_intake-le amount (ok done, m) b = omega arith
with_intake-le amount (err e, m) b = omega arith

with_slash-eq : (o : Outcome ℕ) (b : Books) → (with_slash o b).taken_in ≡ b.taken_in
with_slash-eq (ok amount, m) b = refl
with_slash-eq (err e, m) b = refl

-- A call takes in no more than it offers.
step_intake : (b : Books) (c : Call) → (step b c).taken_in ≤ b.taken_in + amount_of c
unfolding step
step_intake b (stakes p s amount min_stake height) =
    with_intake-le amount (stake p s amount min_stake height b.manager) b
step_intake b (adds p s amount) = with_intake-le amount (add_stake p s amount b.manager) b
step_intake b (unstakes p s amount height) =
    with_intake-le 0 (begin_unstake p s amount height b.manager) b
step_intake b (completes p s height) = omega arith
step_intake b (slashes p s percent_bps) =
    omega (arith, with_slash-eq (slash p s percent_bps b.manager) b)

run-IsBooked :
    (b : Books) (cs : List Call)
    → IsBooked b
    → b.taken_in + sum_of amount_of cs < u128_mod
    → IsBooked (run b cs)
run-IsBooked b [] x fits = x
run-IsBooked b (c ∷ cs) x fits =
    run-IsBooked (step b c) cs (step-IsBooked b c x (omega arith)) (omega (arith, step_intake b c))

-- If the amounts that the calls on a new manager offer to stake add up to less than 2 ^ 128, then
-- the total of each subnet is the sum of the active stakes in that subnet, and what the manager
-- took in is what is actively staked, what is queued for release, and what was released or slashed.
pub subnet_books_balance :
    (unbonding_period : ℕ) (cs : List Call)
    → sum_of amount_of cs < u128_mod
    → let b = run (opened unbonding_period) cs in
      let d = b.manager.stakes in
      ((s : SubnetId) → get_subnet_total_stake s b.manager ≡ total (active_in (discriminant s)) d)
      × (total active d + total queued d + b.paid_out ≡ b.taken_in)
unfolding get_subnet_total_stake
subnet_books_balance unbonding_period cs fits =
    let x =
      run-IsBooked (opened unbonding_period) cs
        record { keyed = λ s p e found. ground arith; totals = λ s. refl; funds = refl }
        (omega arith) in
    (λ s. x.totals (discriminant s), x.funds)
