-- ===== src/Treasury.antt =====
-- core/blockchain/src/treasury: protocol fees collected and distributed. `types.rs` is the data,
-- `treasury.rs` the treasury.
pub mod Funds
pub mod Shares
mod Tests
use is_a_chain.Prelude.{
  false, true, ℕ, ◌/◌, ◌+◌, Bool, not, List, [], ◌∷◌, ◌++◌, Option, ltb, ◌==◌, if◌then◌else◌,
  Result, ok, err, add_u128, sub_u128, mul_u128, sum_u128,
}

pub data TreasuryError : Type 0 where
  insufficient_balance : TreasuryError
  invalid_fee_rate : (rate : ℕ) → TreasuryError
  zero_amount no_recipients : TreasuryError
  unauthorized_admin : (address : ℕ) → TreasuryError

-- An address and an amount.
abbrev pub Payment : Type 0
Payment = ℕ × ℕ

abbrev pub amount_of : Payment → ℕ
amount_of p = p.1

pub record Distribution : Type 0 where
  pub recipients : List Payment
  pub total_amount : ℕ
  pub height : ℕ

pub record ProtocolTreasury : Type 0 where
  pub balance : ℕ
  pub total_collected : ℕ
  pub total_distributed : ℕ
  pub fee_rate_bps : ℕ
  pub distributions : List Distribution
  pub admin : ℕ
  pub staker_share_bps : ℕ
  pub treasury_share_bps : ℕ

abbrev pub new : ℕ → ℕ → ProtocolTreasury
new fee_rate_bps admin = record {
  balance = 0;
  total_collected = 0;
  total_distributed = 0;
  fee_rate_bps = fee_rate_bps;
  distributions = [];
  admin = admin;
  staker_share_bps = 4000;
  treasury_share_bps = 6000;
}

abbrev pub Outcome : Type 0 → Type 0
Outcome A = Result A TreasuryError × ProtocolTreasury

unfoldable pub calculate_fee : ℕ → ProtocolTreasury → ℕ
calculate_fee gross_amount t = mul_u128 gross_amount t.fee_rate_bps / 10_000

abbrev pub collected : ℕ → ProtocolTreasury → ProtocolTreasury
collected amount t = record t {
  balance = add_u128 t.balance amount;
  total_collected = add_u128 t.total_collected amount;
}

unfoldable pub collect_fee : ℕ → ProtocolTreasury → Outcome ℕ
unfolding calculate_fee
collect_fee gross_amount t =
    if gross_amount == 0
    then (err zero_amount, t)
    else let fee = calculate_fee gross_amount t in
      if fee == 0 then (err zero_amount, t) else (ok fee, collected fee t)

unfoldable pub deposit : ℕ → ProtocolTreasury → Outcome (Unit {0})
deposit amount t = if amount == 0 then (err zero_amount, t) else (ok tt, collected amount t)

abbrev pub is_nil : List Payment → Bool
is_nil [] = true
is_nil (_ ∷ _) = false

-- The distribution is taken from the balance and recorded.
abbrev pub paid : Distribution → ProtocolTreasury → ProtocolTreasury
paid d t = record t {
  balance = sub_u128 t.balance d.total_amount;
  total_distributed = add_u128 t.total_distributed d.total_amount;
  distributions = t.distributions ++ d ∷ [];
}

unfoldable pub distribute :
    List Payment → (height caller : ℕ) → ProtocolTreasury → Outcome Distribution
distribute recipients height caller t =
    if not (caller == t.admin)
    then (err (unauthorized_admin caller), t)
    else if is_nil recipients
    then (err no_recipients, t)
    else let total_amount = sum_u128 amount_of recipients in
      if total_amount == 0
      then (err zero_amount, t)
      else if ltb t.balance total_amount
      then (err insufficient_balance, t)
      else let d : Distribution = record {
        recipients = recipients;
        total_amount = total_amount;
        height = height;
      } in
        (ok d, paid d t)

-- The `filter_map` over the stakers: shares rounded down, empty ones left out.
unfoldable pub shares : (total total_stake : ℕ) → List Payment → List Payment
shares total total_stake [] = []
shares total total_stake ((address, stake) ∷ stakers) =
    let share = mul_u128 total stake / total_stake in
    if ltb 0 share
    then (address, share) ∷ shares total total_stake stakers
    else shares total total_stake stakers

-- What `distribute_proportional` and `distribute_with_split` do once `total` is known.
unfoldable pub distribute_shares :
    (total : ℕ) → List Payment → (height : ℕ) → ProtocolTreasury → Outcome Distribution
unfolding shares
distribute_shares total stakers height t =
    let total_stake = sum_u128 amount_of stakers in
    if total_stake == 0
    then (err zero_amount, t)
    else let recipients = shares total total_stake stakers in
      if is_nil recipients
      then (err zero_amount, t)
      else let d : Distribution = record {
        recipients = recipients;
        total_amount = sum_u128 amount_of recipients;
        height = height;
      } in
        (ok d, paid d t)

unfoldable pub distribute_proportional :
    List Payment → (total_to_distribute height caller : ℕ) → ProtocolTreasury → Outcome Distribution
unfolding distribute_shares
distribute_proportional stakers total_to_distribute height caller t =
    if not (caller == t.admin)
    then (err (unauthorized_admin caller), t)
    else if is_nil stakers
    then (err no_recipients, t)
    else if total_to_distribute == 0
    then (err zero_amount, t)
    else if ltb t.balance total_to_distribute
    then (err insufficient_balance, t)
    else distribute_shares total_to_distribute stakers height t

-- The part of the balance that `distribute_with_split` gives to the stakers.
abbrev pub staker_total : ProtocolTreasury → ℕ
staker_total t = mul_u128 t.balance t.staker_share_bps / 10_000

-- The second distribution returned is what the treasury keeps: it is neither paid nor recorded.
unfoldable pub distribute_with_split :
    List Payment → (height caller : ℕ) → ProtocolTreasury → Outcome (Distribution × Distribution)
unfolding distribute_shares
distribute_with_split stakers height caller t =
    if not (caller == t.admin)
    then (err (unauthorized_admin caller), t)
    else if is_nil stakers
    then (err no_recipients, t)
    else if t.balance == 0
    then (err insufficient_balance, t)
    else if staker_total t == 0
    then (err zero_amount, t)
    else let retained = sub_u128 t.balance (staker_total t) in
      let kept : Distribution = record {
        recipients = (t.admin, retained) ∷ [];
        total_amount = retained;
        height = height;
      } in
      let (r, t') = distribute_shares (staker_total t) stakers height t in
      elim r [ ok d ↦ (ok (d, kept), t') | err e ↦ (err e, t') ]

unfoldable pub set_fee_rate : (new_rate caller : ℕ) → ProtocolTreasury → Outcome (Unit {0})
set_fee_rate new_rate caller t =
    if not (caller == t.admin)
    then (err (unauthorized_admin caller), t)
    else if ltb 10_000 new_rate
    then (err (invalid_fee_rate new_rate), t)
    else (ok tt, record t { fee_rate_bps = new_rate })

-- A call of a method that writes the treasury.
pub data Call : Type 0 where
  collects deposits : (amount : ℕ) → Call
  distributes : List Payment → (height caller : ℕ) → Call
  distributes_proportional : List Payment → (total height caller : ℕ) → Call
  splits : List Payment → (height caller : ℕ) → Call
  sets_fee_rate : (new_rate caller : ℕ) → Call

unfoldable pub step : ProtocolTreasury → Call → ProtocolTreasury
unfolding collect_fee deposit distribute distribute_proportional distribute_with_split set_fee_rate
step t (collects amount) = (collect_fee amount t).1
step t (deposits amount) = (deposit amount t).1
step t (distributes recipients height caller) = (distribute recipients height caller t).1
step t (distributes_proportional stakers total height caller) =
    (distribute_proportional stakers total height caller t).1
step t (splits stakers height caller) = (distribute_with_split stakers height caller t).1
step t (sets_fee_rate new_rate caller) = (set_fee_rate new_rate caller t).1

unfoldable pub run : ProtocolTreasury → List Call → ProtocolTreasury
unfolding step
run t [] = t
run t (c ∷ cs) = run (step t c) cs

-- What a call adds to the balance.
abbrev pub income : Call → ProtocolTreasury → ℕ
income (collects amount) t = elim (collect_fee amount t).0 [ ok fee ↦ fee | err _ ↦ 0 ]
income (deposits amount) t = amount
income _ t = 0

abbrev pub income_of : ProtocolTreasury → List Call → ℕ
income_of t [] = 0
income_of t (c ∷ cs) = income c t + income_of (step t c) cs
