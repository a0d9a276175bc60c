-- ===== src/FeeRouting/Split.antt =====
-- The split of a fee in core/blockchain/src/fee_routing.rs.
use native.Mathlib.Nat.{mul-le-mul_left, mul-add}
use is_a_chain.Prelude.{
  ℕ, ◌+◌, ◌*◌, ◌/◌, ◌≤◌, ◌<◌, ◌≡◌, arith, u128_mod, sub_u128, mul_u128, quotient_bounds,
}
use is_a_chain.Subnet.{SubnetId}
use is_a_chain.FeeRouting.{FeeRouter, split_fee, cut}

cut-eq : (gross bps : ℕ) → gross * bps < u128_mod → cut gross bps ≡ gross * bps / 10_000
unfolding cut mul_u128
cut-eq gross bps h = omega arith

fits_bps : (gross bps : ℕ) → bps ≤ 10_000 → gross * 10_000 < u128_mod → gross * bps < u128_mod
fits_bps gross bps h fits = grind arith

-- Two cuts of at most the whole.
two_cuts : (gross p s : ℕ) → p + s ≤ 10_000 → gross * p / 10_000 + gross * s / 10_000 ≤ gross
two_cuts gross p s h =
    let more = mul-le-mul_left gross h in
    let sum_eq = mul-add gross p s in
    omega (
      arith,
      quotient_bounds (gross * p) 10_000 (omega arith),
      quotient_bounds (gross * s) 10_000 (omega arith),
    )

-- The three parts of a fee add up to the amount, each is the exact one rounded down, and the
-- rounding is the provider's gain, where the two rates are together at most 10 000 and 10 000 times
-- the amount is below 2 ^ 128.
pub split_fee_lem :
    (subnet_id : SubnetId) (gross height : ℕ) (r : FeeRouter)
    → r.protocol_fee_bps + r.subnet_fee_bps ≤ 10_000
    → gross * 10_000 < u128_mod
    → let route = split_fee subnet_id gross height r in
      (route.protocol_fee + route.subnet_fee + route.provider_amount ≡ gross)
      × (route.protocol_fee ≡ gross * r.protocol_fee_bps / 10_000)
      × (route.subnet_fee ≡ gross * r.subnet_fee_bps / 10_000)
unfolding split_fee sub_u128
split_fee_lem subnet_id gross height r rates fits =
    let p = r.protocol_fee_bps in
    let s = r.subnet_fee_bps in
    let p_eq = cut-eq gross p (fits_bps gross p (omega arith) fits) in
    let s_eq = cut-eq gross s (fits_bps gross s (omega arith) fits) in
    let within = two_cuts gross p s rates in (omega arith, p_eq, s_eq)
