-- ===== src/FeeRouting/History.antt =====
-- The pools of core/blockchain/src/fee_routing.rs over histories of calls.
use is_a_chain.Prelude.{
  ℕ, ◌+◌, ◌*◌, ◌≤◌, ◌<◌, ◌≡◌, inl, inr, List, [], ◌∷◌, total, AllValues, arith, sum_of,
  sum_of-append, u128_mod, subst, sym,
}
use is_a_chain.Subnet.{SubnetId}
use is_a_chain.FeeRouting.{
  SubnetFeePool, FeeRouter, new, Call, initializes, routes_fee, distributes, step, run,
  distribute_pool, split_fee,
}
use is_a_chain.FeeRouting.Pools.{
  IsSound, IsPool, routed, gross_of, paid_out, collected_of, routed_by, route_fee-cases,
  initialize_pools-IsSound, distribute_pool-IsSound, routed_by-IsSound,
}

distribute_pool-routed :
    (s : SubnetId) (recipients : List (ℕ × ℕ)) (r : FeeRouter)
    → routed (distribute_pool s recipients r).1 ≡ routed r
unfolding distribute_pool
distribute_pool-routed s recipients r = ground arith

routed_by-routed :
    (r : FeeRouter) (s : SubnetId) (gross height : ℕ) (pool : SubnetFeePool)
    → routed (routed_by s gross height pool r) ≡ routed r + gross
unfolding split_fee
routed_by-routed r s gross height pool =
    omega (arith, sum_of-append gross_of r.routes (split_fee s gross height r ∷ []))

step-routed : (r : FeeRouter) (c : Call) → routed r ≤ routed (step r c)
step-routed r (initializes subnets) = omega arith
step-routed r (distributes s recipients) = omega (arith, distribute_pool-routed s recipients r)
step-routed r (routes_fee s gross height) = elim (route_fee-cases s gross height r) [
  | inl same ↦ subst (λ x. routed r ≤ routed x) (sym same) (omega arith)
  | inr (pool, found, done) ↦
      subst (λ x. routed r ≤ routed x) (sym done)
        (omega (arith, routed_by-routed r s gross height pool))
]

run-routed : (r : FeeRouter) (cs : List Call) → routed r ≤ routed (run r cs)
run-routed r [] = omega arith
run-routed r (c ∷ cs) = omega (arith, step-routed r c, run-routed (step r c) cs)

step-IsSound :
    (r : FeeRouter) (c : Call)
    → IsSound r
    → routed (step r c) * 10_000 < u128_mod
    → IsSound (step r c)
step-IsSound r (initializes subnets) sound fits = initialize_pools-IsSound r sound subnets
step-IsSound r (distributes s recipients) sound fits =
    distribute_pool-IsSound r sound s recipients
      (omega (arith, distribute_pool-routed s recipients r))
step-IsSound r (routes_fee s gross height) sound fits = elim (route_fee-cases s gross height r) [
  | inl same ↦ subst IsSound (sym same) sound
  | inr (pool, found, done) ↦
      let fits' = subst (λ x. routed x * 10_000 < u128_mod) done fits in
      let enough : (routed r + gross) * 10_000 < u128_mod =
        omega (arith, routed_by-routed r s gross height pool) in
      subst IsSound (sym done) (routed_by-IsSound r sound s gross height pool found enough)
]

run-IsSound :
    (r : FeeRouter) (cs : List Call)
    → IsSound r
    → routed (run r cs) * 10_000 < u128_mod
    → IsSound (run r cs)
run-IsSound r [] sound fits = sound
run-IsSound r (c ∷ cs) sound fits =
    let first : routed (step r c) * 10_000 < u128_mod = omega (arith, run-routed (step r c) cs) in
    run-IsSound (step r c) cs (step-IsSound r c sound first) fits

-- After any calls, all that was routed went to the protocol, to providers or to the pools of the
-- subnets, and each pool holds what it collected and has not distributed, where the two rates are
-- together at most 10 000 and 10 000 times all that was routed is below 2 ^ 128.
pub fees_conserved :
    (protocol_fee_bps subnet_fee_bps : ℕ) (calls : List Call)
    → protocol_fee_bps + subnet_fee_bps ≤ 10_000
    → routed (run (new protocol_fee_bps subnet_fee_bps) calls) * 10_000 < u128_mod
    → let r = run (new protocol_fee_bps subnet_fee_bps) calls in
      (total collected_of r.pools + sum_of paid_out r.routes ≡ r.total_routed)
      × (r.total_routed ≡ routed r)
      × AllValues IsPool r.pools
fees_conserved protocol_fee_bps subnet_fee_bps calls rates fits =
    let fresh : IsSound (new protocol_fee_bps subnet_fee_bps) = record {
      rates = rates;
      split = omega arith;
      counted = omega arith;
      pools = tt;
    } in
    let sound = run-IsSound (new protocol_fee_bps subnet_fee_bps) calls fresh fits in
    (omega (arith, sound.split, sound.counted), sound.counted, sound.pools)
