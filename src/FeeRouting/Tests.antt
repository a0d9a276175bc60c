-- ===== src/FeeRouting/Tests.antt =====
-- Tests of the fee router, and its theorems at concrete inputs.
use is_a_chain.Prelude.{
  ◌+◌, ◌*◌, ◌/◌, ◌≡◌, refl, List, [], ◌∷◌, arith, total, sum_of, AllValues, mul_u128, add_u128,
  sub_u128, sum_from,
}
use is_a_chain.Subnet.{model, tools, compute}
use is_a_chain.FeeRouting.{
  FeeRouter, Call, initializes, routes_fee, distributes, new, cut, split_fee, route_fee,
  distribute_pool, get_pool_balance, run,
}
use is_a_chain.FeeRouting.Split.{split_fee_lem}
use is_a_chain.FeeRouting.Pools.{IsPool, routed, paid_out, collected_of}
use is_a_chain.FeeRouting.History.{fees_conserved}

abbrev calls : List Call
calls =
    initializes (model ∷ tools ∷ [])
    ∷ routes_fee model 10_001 1
    ∷ routes_fee compute 500 1
    ∷ routes_fee tools 400 2
    ∷ distributes model ((7, 100) ∷ (8, 50) ∷ [])
    ∷ distributes tools ((7, 13) ∷ [])
    ∷ []

abbrev router : FeeRouter
router = run (new 250 300) calls

-- The subnet without a pool is refused, and so is the distribution above the balance.
balances :
    (get_pool_balance model router ≡ 150)
    × (get_pool_balance tools router ≡ 12)
    × (router.total_routed ≡ 10_401)
unfolding route_fee split_fee cut distribute_pool mul_u128 add_u128 sub_u128 sum_from
balances = (refl, refl, refl)

fees_conserved_example :
    (total collected_of router.pools + sum_of paid_out router.routes ≡ router.total_routed)
    × (router.total_routed ≡ routed router)
    × AllValues IsPool router.pools
unfolding route_fee split_fee cut distribute_pool mul_u128 add_u128 sub_u128 sum_from
fees_conserved_example = fees_conserved 250 300 calls (omega arith) (omega arith)

split_fee_lem_example :
    let route = split_fee model 10_001 1 router in
    (route.protocol_fee + route.subnet_fee + route.provider_amount ≡ 10_001)
    × (route.protocol_fee ≡ 10_001 * router.protocol_fee_bps / 10_000)
    × (route.subnet_fee ≡ 10_001 * router.subnet_fee_bps / 10_000)
unfolding route_fee split_fee cut distribute_pool mul_u128 add_u128 sub_u128 sum_from
split_fee_lem_example = split_fee_lem model 10_001 1 router (omega arith) (omega arith)
