-- ===== src/FeeRouting/Pools.antt =====
-- What one call of core/blockchain/src/fee_routing.rs does to the pools.
use is_a_chain.Prelude.{
  ◌⊎◌, sym, subst, ℕ, ◌+◌, ◌*◌, ◌≤◌, ◌<◌, ◌%◌, ◌≡◌, ◌==◌, ◌++◌, refl, some, inl, inr, List, [], ◌∷◌,
  HashMap, get, insert, contains_key, total, total-insert, at_or_zero-le-total, AllValues,
  AllValues-insert, AllValues-get, Bool-cases, Option-cases, arith, sum_of, sum_of-append, sum_u128,
  u128_mod, add_u128, sub_u128, ltb,
}
use is_a_chain.Subnet.{SubnetId, discriminant}
use is_a_chain.FeeRouting.{
  FeeRoute, SubnetFeePool, FeeRouter, empty_pool, initialize_all, initialize_pools, split_fee,
  with_fee, route_fee, amount_of, drained, distribute_pool,
}
use is_a_chain.FeeRouting.Split.{split_fee_lem}

abbrev pub gross_of : FeeRoute → ℕ
gross_of route = route.gross_amount

-- What the routes took for the protocol and gave to providers.
abbrev pub paid_out : FeeRoute → ℕ
paid_out route = route.protocol_fee + route.provider_amount

abbrev pub collected_of : SubnetFeePool → ℕ
collected_of pool = pool.total_collected

-- What was routed.
abbrev pub routed : FeeRouter → ℕ
routed r = sum_of gross_of r.routes

-- A pool holds what it collected and has not distributed.
abbrev pub IsPool : SubnetFeePool → Type 0
IsPool pool = pool.balance + pool.total_distributed ≡ pool.total_collected

-- What was routed went to the protocol, to providers, or to pools that account for it.
pub record IsSound (r : FeeRouter) : Type 0 where
  pub rates : r.protocol_fee_bps + r.subnet_fee_bps ≤ 10_000
  pub split : total collected_of r.pools + sum_of paid_out r.routes ≡ routed r
  pub counted : r.total_routed ≡ routed r
  pub pools : AllValues IsPool r.pools

initialize_all-total :
    (subnets : List SubnetId) (pools : HashMap SubnetFeePool)
    → total collected_of (initialize_all subnets pools) ≡ total collected_of pools
initialize_all-total [] pools = refl
initialize_all-total (s ∷ subnets) pools = elim (Option-cases (get (discriminant s) pools)) [
  | inl missing ↦
      let more = insert (discriminant s) (empty_pool s) pools in
      ground (
        arith,
        initialize_all-total subnets more,
        total-insert collected_of (discriminant s) (empty_pool s) pools,
      )
  | inr (pool, found) ↦ ground (arith, initialize_all-total subnets pools)
]

initialize_all-AllValues :
    (subnets : List SubnetId) (pools : HashMap SubnetFeePool)
    → AllValues IsPool pools
    → AllValues IsPool (initialize_all subnets pools)
initialize_all-AllValues [] pools h = h
initialize_all-AllValues (s ∷ subnets) pools h =
    elim (Bool-cases (contains_key (discriminant s) pools)) [
      | inl e ↦ rw e (initialize_all-AllValues subnets pools h)
      | inr e ↦ rw e (
          initialize_all-AllValues subnets (insert (discriminant s) (empty_pool s) pools)
            (AllValues-insert IsPool (discriminant s) (empty_pool s) pools h refl))
    ]

-- The router once a route is booked.
abbrev pub routed_by : SubnetId → (gross height : ℕ) → SubnetFeePool → FeeRouter → FeeRouter
routed_by s gross height pool r =
    let route = split_fee s gross height r in
    record r {
      pools = insert (discriminant s) (with_fee route.subnet_fee pool) r.pools;
      routes = r.routes ++ route ∷ [];
      total_routed = add_u128 r.total_routed gross;
    }

-- A fee is refused, or booked on the pool of its subnet.
pub route_fee-cases :
    (s : SubnetId) (gross height : ℕ) (r : FeeRouter)
    → ((route_fee s gross height r).1 ≡ r)
      ⊎ ((pool : SubnetFeePool) × (get (discriminant s) r.pools ≡ some pool)
          × ((route_fee s gross height r).1 ≡ routed_by s gross height pool r))
unfolding route_fee
route_fee-cases s gross height r = elim (Option-cases (get (discriminant s) r.pools)) [
  | inl missing ↦ inl (ground arith)
  | inr (pool, found) ↦ elim (Bool-cases (gross == 0)) [
    | inl e ↦ inl (ground arith)
    | inr e ↦
        elim (Bool-cases (ltb 10_000 ((r.protocol_fee_bps + r.subnet_fee_bps) % 4_294_967_296))) [
          | inl f ↦ inl (ground arith)
          | inr f ↦ inr (pool, found, ground arith)
        ]
  ]
]

module _ (r : FeeRouter) (sound : IsSound r) where
  pub initialize_pools-IsSound : (subnets : List SubnetId) → IsSound (initialize_pools subnets r)
  initialize_pools-IsSound subnets = record {
    rates = sound.rates;
    split = omega (arith, initialize_all-total subnets r.pools, sound.split);
    counted = sound.counted;
    pools = initialize_all-AllValues subnets r.pools sound.pools;
  }

  pub distribute_pool-IsSound :
      (s : SubnetId) (recipients : List (ℕ × ℕ))
      → routed r < u128_mod
      → IsSound (distribute_pool s recipients r).1
  unfolding distribute_pool add_u128 sub_u128
  distribute_pool-IsSound s recipients fits =
      let amount = sum_u128 amount_of recipients in
      elim (Option-cases (get (discriminant s) r.pools)) [
        | inl missing ↦
            let same : (distribute_pool s recipients r).1 ≡ r = ground arith in
            subst IsSound (sym same) sound
        | inr (pool, found) ↦ elim (Bool-cases (ltb pool.balance amount)) [
          | inl e ↦
              let same : (distribute_pool s recipients r).1 ≡ r = ground arith in
              subst IsSound (sym same) sound
          | inr e ↦
              let key = discriminant s in
              let pool' = drained amount pool in
              let done : (distribute_pool s recipients r).1
                  ≡ record r { pools = insert key pool' r.pools } =
                ground arith in
              let holds = AllValues-get IsPool key pool r.pools sound.pools found in
              let held : pool.total_collected ≤ total collected_of r.pools =
                ground (arith, at_or_zero-le-total collected_of key r.pools) in
              let keeps = total-insert collected_of key pool' r.pools in
              let after : IsSound (record r { pools = insert key pool' r.pools }) = record {
                rates = sound.rates;
                split = ground (arith, keeps, sound.split);
                counted = sound.counted;
                pools =
                    AllValues-insert IsPool key pool' r.pools sound.pools
                      (ground (arith, sound.split));
              } in
              subst IsSound (sym done) after
        ]
      ]

  pub routed_by-IsSound :
      (s : SubnetId) (gross height : ℕ) (pool : SubnetFeePool)
      → get (discriminant s) r.pools ≡ some pool
      → (routed r + gross) * 10_000 < u128_mod
      → IsSound (routed_by s gross height pool r)
  unfolding add_u128 split_fee
  routed_by-IsSound s gross height pool found fits =
      let key = discriminant s in
      let route = split_fee s gross height r in
      let pool' = with_fee route.subnet_fee pool in
      let parts = split_fee_lem s gross height r sound.rates (omega arith) in
      let holds = AllValues-get IsPool key pool r.pools sound.pools found in
      let held : pool.total_collected ≤ total collected_of r.pools =
        ground (arith, at_or_zero-le-total collected_of key r.pools) in
      let taken : collected_of pool' ≡ pool.total_collected + route.subnet_fee =
        omega (arith, sound.split) in
      let keeps : total collected_of (insert key pool' r.pools)
          ≡ total collected_of r.pools + route.subnet_fee =
        ground (arith, total-insert collected_of key pool' r.pools) in
      let kept : IsPool pool' = omega (arith, sound.split) in
      let grossed = sum_of-append gross_of r.routes (route ∷ []) in
      let paid = sum_of-append paid_out r.routes (route ∷ []) in
      record {
        rates = sound.rates;
        split = omega (arith, sound.split);
        counted = omega (arith, sound.counted);
        pools = AllValues-insert IsPool key pool' r.pools sound.pools kept;
      }
