-- ===== src/Emission.antt =====
-- core/blockchain/src/emission: the block reward and its distribution to subnets and providers.
-- `types.rs` is the data, `controller.rs` the controller.
pub mod Gcd
pub mod Distribution
pub mod Rewards
pub mod Books
mod Tests
use is_a_chain.Prelude.{
  false, true, ℕ, ◌/◌, ◌%◌, ◌+◌, ◌^◌, zero, suc, Bool, not, List, [], ◌∷◌, ◌++◌, Option, ltb, leb,
  min, ◌==◌, ◌&&◌, if◌then◌else◌, Result, ok, err, add_u128, mul_u128, sum_u128, sum_of, HashMap,
  get, insert, none, some, ◌||◌,
}
use is_a_chain.Subnet.{SubnetId, discriminant}

pub record EmissionSchedule : Type 0 where
  pub base_reward_per_block : ℕ
  pub halving_interval : ℕ
  pub min_reward : ℕ
  pub total_emitted : ℕ
  pub last_emission_height : ℕ

pub record SubnetEmission : Type 0 where
  pub subnet_id : SubnetId
  pub amount : ℕ
  pub height : ℕ
  pub provider_shares : List (ℕ × ℕ)

pub data EmissionError : Type 0 where
  no_subnets invalid_weights zero_reward : EmissionError
  already_emitted : (height : ℕ) → EmissionError

-- A map whose keys are subnets has their discriminants for keys.
pub record EmissionController : Type 0 where
  pub schedule : EmissionSchedule
  pub emission_history : List SubnetEmission
  pub subnet_totals : HashMap ℕ

-- The entries of `subnet_weights` and of `provider_stakes`, in the order of iteration.
abbrev pub Weights : Type 0
Weights = List (SubnetId × ℕ)

abbrev pub Stakes : Type 0
Stakes = List ((SubnetId × ℕ) × ℕ)

abbrev pub new : (base_reward halving_interval min_reward : ℕ) → EmissionController
new base_reward halving_interval min_reward = record {
  schedule = record {
    base_reward_per_block = base_reward;
    halving_interval = halving_interval;
    min_reward = min_reward;
    total_emitted = 0;
    last_emission_height = 0;
  };
  emission_history = [];
  subnet_totals = [];
}

abbrev pub max : ℕ → ℕ → ℕ
max a b = if ltb a b then b else a

unfoldable pub halvings : ℕ → EmissionSchedule → ℕ
halvings height s = if s.halving_interval == 0 then 0 else min (height / s.halving_interval) 127

unfoldable pub calculate_reward : ℕ → EmissionController → ℕ
calculate_reward height c =
    max (c.schedule.base_reward_per_block / 2 ^ halvings height c.schedule) c.schedule.min_reward

-- The loop ends, since its second variable gets smaller: that variable is fuel enough.
unfoldable pub gcd_loop : (fuel a b : ℕ) → ℕ
gcd_loop zero a b = a
gcd_loop (suc fuel) a b = elim (b == 0) [ true ↦ a | false ↦ gcd_loop fuel b (a % b) ]

unfoldable pub gcd : (a b : ℕ) → ℕ
gcd a b = let g = gcd_loop b a b in if g == 0 then 1 else g

-- The part of `total` for one stake, with the fraction reduced twice before the product.
unfoldable pub share_of : (total total_stake stake : ℕ) → ℕ
share_of total total_stake stake =
    let g = gcd total total_stake in
    let reduced_total = total / g in
    let reduced_denom = total_stake / g in
    let g2 = gcd stake reduced_denom in mul_u128 reduced_total (stake / g2) / (reduced_denom / g2)

-- The providers with a stake in the subnet.
abbrev pub stakers_in : SubnetId → Stakes → List (ℕ × ℕ)
stakers_in subnet_id [] = []
stakers_in subnet_id (((sid, address), stake) ∷ stakes) =
    if (discriminant sid == discriminant subnet_id) && ltb 0 stake
    then (address, stake) ∷ stakers_in subnet_id stakes
    else stakers_in subnet_id stakes

abbrev pub stake_of : ℕ × ℕ → ℕ
stake_of p = p.1

abbrev pub is_nil : {A : Type 0} → List A → Bool
is_nil [] = true
is_nil (_ ∷ _) = false

abbrev pub split : (total total_stake : ℕ) → List (ℕ × ℕ) → List (ℕ × ℕ)
split total total_stake [] = []
split total total_stake ((address, stake) ∷ stakers) =
    (address, share_of total total_stake stake) ∷ split total total_stake stakers

unfoldable pub split_by_stake : SubnetId → (total : ℕ) → Stakes → List (ℕ × ℕ)
split_by_stake subnet_id total provider_stakes =
    let stakers = stakers_in subnet_id provider_stakes in
    if is_nil stakers
    then []
    else let total_stake = sum_u128 stake_of stakers in
      if total_stake == 0 then [] else split total total_stake stakers

abbrev pub weight_of : SubnetId × ℕ → ℕ
weight_of p = p.1

-- `sum()` on `u32`.
abbrev pub sum_weights : Weights → ℕ
sum_weights weights = sum_of weight_of weights % 4_294_967_296

abbrev pub total_of : ℕ → HashMap ℕ → ℕ
total_of key totals = elim (get key totals) [ none ↦ 0 | some amount ↦ amount ]

-- The loop over the weights: the emissions and the totals of the subnets.
unfoldable pub distribute_to :
    (height block_reward weight_sum : ℕ)
    → Stakes
    → Weights
    → HashMap ℕ
    → List SubnetEmission × HashMap ℕ
distribute_to height block_reward weight_sum stakes [] totals = ([], totals)
distribute_to height block_reward weight_sum stakes ((subnet_id, weight) ∷ weights) totals =
    let amount = mul_u128 block_reward weight / weight_sum in
    let key = discriminant subnet_id in
    let e : SubnetEmission = record {
      subnet_id = subnet_id;
      amount = amount;
      height = height;
      provider_shares = split_by_stake subnet_id amount stakes;
    } in
    let (es, totals') =
      distribute_to height block_reward weight_sum stakes weights
        (insert key (add_u128 (total_of key totals) amount) totals) in
    (e ∷ es, totals')

abbrev pub amount_of : SubnetEmission → ℕ
amount_of e = e.amount

abbrev pub has_height : ℕ → List SubnetEmission → Bool
has_height height [] = false
has_height height (e ∷ es) = (e.height == height) || has_height height es

-- The controller once the emissions are booked.
abbrev pub booked : ℕ → List SubnetEmission × HashMap ℕ → EmissionController → EmissionController
booked height (emissions, totals) c = record {
  schedule = record c.schedule {
    total_emitted = add_u128 c.schedule.total_emitted (sum_u128 amount_of emissions);
    last_emission_height = height;
  };
  emission_history = c.emission_history ++ emissions;
  subnet_totals = totals;
}

abbrev pub Outcome : Type 0
Outcome = Result (List SubnetEmission) EmissionError × EmissionController

unfoldable pub emit : ℕ → Weights → Stakes → EmissionController → Outcome
unfolding calculate_reward distribute_to
emit height weights stakes c =
    if has_height height c.emission_history
    then (err (already_emitted height), c)
    else if (height == c.schedule.last_emission_height) && not (is_nil c.emission_history)
    then (err (already_emitted height), c)
    else if is_nil weights
    then (err no_subnets, c)
    else if sum_weights weights == 0
    then (err invalid_weights, c)
    else let block_reward = calculate_reward height c in
      if block_reward == 0
      then (err zero_reward, c)
      else let emitted =
          distribute_to height block_reward (sum_weights weights) stakes weights c.subnet_totals in
        (ok emitted.0, booked height emitted c)

-- The emissions that are recorded for a height.
abbrev pub at_height : ℕ → List SubnetEmission → List SubnetEmission
at_height height [] = []
at_height height (e ∷ es) =
    if e.height == height then e ∷ at_height height es else at_height height es

abbrev pub get_emission_at : ℕ → EmissionController → Option (List SubnetEmission)
get_emission_at height c =
    let records = at_height height c.emission_history in
    if is_nil records then none else some records

abbrev pub get_subnet_total : SubnetId → EmissionController → ℕ
get_subnet_total subnet_id c = total_of (discriminant subnet_id) c.subnet_totals

-- A call of `emit`.
pub record Call : Type 0 where
  pub height : ℕ
  pub weights : Weights
  pub stakes : Stakes

abbrev pub step : EmissionController → Call → EmissionController
step c k = (emit k.height k.weights k.stakes c).1

abbrev pub run : EmissionController → List Call → EmissionController
run c [] = c
run c (k ∷ ks) = run (step c k) ks
