-- ===== src/Settlement/Totals.antt =====
-- The totals of core/blockchain/src/settlement/engine.rs, and the amounts of its records.
use is_a_chain.Prelude.{
  ℕ, ◌≡◌, ◌≢◌, ◌+◌, ◌*◌, ◌/◌, ◌≤◌, ◌<◌, refl, List, All, All-append, sum_of, saturated,
  saturated-append, saturating_mul, quotient_bounds, cancel_le, arith, ◌==◌, false,
}
use is_a_chain.Settlement.{
  settlement, recorded, new, ServiceType, run, Call, calculate_split, SettlementRecord,
  SettlementEngine, run_keeps,
}

-- The record pays another party a positive amount, and the fee and the payment add up to it.
abbrev pub IsFair : SettlementRecord → Type 0
IsFair r =
    (r.user ≢ r.provider) × (0 < r.gross_amount) × (r.fee_amount + r.net_amount ≡ r.gross_amount)

-- A fee of at most 100% is at most the amount, whether or not the product saturates.
split_lem : (gross rate : ℕ) → rate ≤ 10_000 → saturating_mul gross rate / 10_000 ≤ gross
unfolding saturating_mul
split_lem gross rate h =
    let product = saturating_mul gross rate in
    let below : product ≤ gross * rate = ground arith in
    let scaled : gross * rate ≤ gross * 10_000 = grind arith in
    cancel_le (product / 10_000) gross 10_000 (omega arith)
      (omega (arith, (quotient_bounds product 10_000 (omega arith)).0, below, scaled))

record IsBooked (e : SettlementEngine) : Type 0 where
  pub settled : e.total_settled ≡ saturated (sum_of (λ r. r.gross_amount) e.records)
  pub fees : e.total_fees ≡ saturated (sum_of (λ r. r.fee_amount) e.records)
  pub rate : e.fee_rate_bps ≤ 10_000
  pub fair : All IsFair e.records

settle-IsBooked :
    (hash_data : List ℕ → ℕ) (e : SettlementEngine) (user provider gross_amount : ℕ)
    (service_type : ServiceType) (height timestamp : ℕ)
    → (gross_amount == 0) ≡ false
    → (user == provider) ≡ false
    → IsBooked e
    → IsBooked (
        recorded
          (settlement hash_data user provider gross_amount service_type height timestamp e)
          e)
unfolding calculate_split
settle-IsBooked hash_data e user provider gross service_type height timestamp positive other b =
    let r = settlement hash_data user provider gross service_type height timestamp e in
    let at_most = split_lem gross e.fee_rate_bps b.rate in
    record {
      settled = saturated-append (λ r. r.gross_amount) e.records r e.total_settled b.settled;
      fees = saturated-append (λ r. r.fee_amount) e.records r e.total_fees b.fees;
      rate = b.rate;
      fair =
          All-append IsFair e.records r b.fair (ground arith, ground arith, omega (arith, at_most));
    }

-- An engine that charges at most 100% of an amount keeps its books: whatever calls are made of it,
-- every record pays another party a positive gross amount of which the fee and the net amount are
-- the two parts, the total settled is the sum of the gross amounts and the total of the fees the
-- sum of the fees, each cut off at the largest `u128`.
pub books_add_up :
    (hash_data : List ℕ → ℕ) (fee_rate_bps : ℕ) (cs : List Call)
    → fee_rate_bps ≤ 10_000
    → let e = run hash_data (new fee_rate_bps) cs in
      (e.total_settled ≡ saturated (sum_of (λ r. r.gross_amount) e.records))
      × (e.total_fees ≡ saturated (sum_of (λ r. r.fee_amount) e.records))
      × All IsFair e.records
books_add_up hash_data fee_rate_bps cs h =
    let b =
      run_keeps IsBooked hash_data (settle-IsBooked hash_data) (new fee_rate_bps) cs
        record { settled = refl; fees = refl; rate = h; fair = tt } in
    (b.settled, b.fees, b.fair)
