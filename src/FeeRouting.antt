-- ===== src/FeeRouting.antt =====
-- core/blockchain/src/fee_routing.rs: fees split between the protocol, a subnet's pool and the
-- provider.
pub mod Split
pub mod Pools
pub mod History
mod Tests
use is_a_chain.Prelude.{
  ℕ, ◌+◌, ◌*◌, ◌/◌, ◌%◌, ◌==◌, Bool, List, [], ◌∷◌, ◌++◌, Option, none, some, if◌then◌else◌, ltb,
  Result, ok, err, HashMap, get, insert, contains_key, add_u128, sub_u128, mul_u128, sum_u128,
}
use is_a_chain.Subnet.{SubnetId, discriminant}

pub record FeeRoute : Type 0 where
  pub subnet_id : SubnetId
  pub gross_amount : ℕ
  pub protocol_fee : ℕ
  pub subnet_fee : ℕ
  pub provider_amount : ℕ
  pub height : ℕ

pub record SubnetFeePool : Type 0 where
  pub subnet_id : SubnetId
  pub balance : ℕ
  pub total_collected : ℕ
  pub total_distributed : ℕ

pub data FeeRoutingError : Type 0 where
  subnet_not_found invalid_amount insufficient_pool invalid_fee_config : FeeRoutingError

-- A pool is kept under the discriminant of its subnet.
pub record FeeRouter : Type 0 where
  pub pools : HashMap SubnetFeePool
  pub routes : List FeeRoute
  pub protocol_fee_bps : ℕ
  pub subnet_fee_bps : ℕ
  pub total_routed : ℕ

abbrev pub new : (protocol_fee_bps subnet_fee_bps : ℕ) → FeeRouter
new protocol_fee_bps subnet_fee_bps = record {
  pools = [];
  routes = [];
  protocol_fee_bps = protocol_fee_bps;
  subnet_fee_bps = subnet_fee_bps;
  total_routed = 0;
}

abbrev pub empty_pool : SubnetId → SubnetFeePool
empty_pool subnet_id = record {
  subnet_id = subnet_id;
  balance = 0;
  total_collected = 0;
  total_distributed = 0;
}

abbrev pub initialize_all : List SubnetId → HashMap SubnetFeePool → HashMap SubnetFeePool
initialize_all [] pools = pools
initialize_all (s ∷ subnets) pools = initialize_all subnets (
    if contains_key (discriminant s) pools
    then pools
    else insert (discriminant s) (empty_pool s) pools)

abbrev pub initialize_pools : List SubnetId → FeeRouter → FeeRouter
initialize_pools subnets r = record r { pools = initialize_all subnets r.pools }

abbrev pub Outcome : Type 0 → Type 0
Outcome A = Result A FeeRoutingError × FeeRouter

-- `bps` ten-thousandths of the amount.
unfoldable pub cut : (gross_amount bps : ℕ) → ℕ
cut gross_amount bps = mul_u128 gross_amount bps / 10_000

-- The split of an amount.
unfoldable pub split_fee : SubnetId → (gross_amount height : ℕ) → FeeRouter → FeeRoute
unfolding cut
split_fee subnet_id gross_amount height r =
    let protocol_fee = cut gross_amount r.protocol_fee_bps in
    let subnet_fee = cut gross_amount r.subnet_fee_bps in
    record {
      subnet_id = subnet_id;
      gross_amount = gross_amount;
      protocol_fee = protocol_fee;
      subnet_fee = subnet_fee;
      provider_amount = sub_u128 (sub_u128 gross_amount protocol_fee) subnet_fee;
      height = height;
    }

abbrev pub with_fee : ℕ → SubnetFeePool → SubnetFeePool
with_fee fee pool = record pool {
  balance = add_u128 pool.balance fee;
  total_collected = add_u128 pool.total_collected fee;
}

-- The fees are added as `u32`.
unfoldable pub route_fee : SubnetId → (gross_amount height : ℕ) → FeeRouter → Outcome FeeRoute
unfolding split_fee
route_fee subnet_id gross_amount height r =
    if gross_amount == 0
    then (err invalid_amount, r)
    else if ltb 10_000 ((r.protocol_fee_bps + r.subnet_fee_bps) % 4_294_967_296)
    then (err invalid_fee_config, r)
    else elim (get (discriminant subnet_id) r.pools) [
      | none ↦ (err subnet_not_found, r)
      | some pool ↦
          let route = split_fee subnet_id gross_amount height r in
          (
            ok route,
            record r {
              pools = insert (discriminant subnet_id) (with_fee route.subnet_fee pool) r.pools;
              routes = r.routes ++ route ∷ [];
              total_routed = add_u128 r.total_routed gross_amount;
            },
          )
    ]

abbrev pub amount_of : ℕ × ℕ → ℕ
amount_of p = p.1

abbrev pub drained : ℕ → SubnetFeePool → SubnetFeePool
drained amount pool = record pool {
  balance = sub_u128 pool.balance amount;
  total_distributed = add_u128 pool.total_distributed amount;
}

unfoldable pub distribute_pool : SubnetId → List (ℕ × ℕ) → FeeRouter → Outcome ℕ
distribute_pool subnet_id recipients r =
    let amount = sum_u128 amount_of recipients in
    elim (get (discriminant subnet_id) r.pools) [
      | none ↦ (err subnet_not_found, r)
      | some pool ↦ if ltb pool.balance amount then (err insufficient_pool, r) else (
        ok amount,
        record r { pools = insert (discriminant subnet_id) (drained amount pool) r.pools },
      )
    ]

abbrev pub get_pool_balance : SubnetId → FeeRouter → ℕ
get_pool_balance subnet_id r = elim (get (discriminant subnet_id) r.pools) [
  | none ↦ 0
  | some pool ↦ pool.balance
]

abbrev pub routes_at : ℕ → List FeeRoute → List FeeRoute
routes_at height [] = []
routes_at height (route ∷ routes) =
    if route.height == height then route ∷ routes_at height routes else routes_at height routes

abbrev pub get_routes_at_height : ℕ → FeeRouter → List FeeRoute
get_routes_at_height height r = routes_at height r.routes

-- A call of a method that writes the router.
pub data Call : Type 0 where
  initializes : List SubnetId → Call
  routes_fee : SubnetId → (gross_amount height : ℕ) → Call
  distributes : SubnetId → List (ℕ × ℕ) → Call

abbrev pub step : FeeRouter → Call → FeeRouter
step r (initializes subnets) = initialize_pools subnets r
step r (routes_fee subnet_id gross_amount height) = (route_fee subnet_id gross_amount height r).1
step r (distributes subnet_id recipients) = (distribute_pool subnet_id recipients r).1

abbrev pub run : FeeRouter → List Call → FeeRouter
run r [] = r
run r (c ∷ cs) = run (step r c) cs
