-- ===== src/Treasury/Shares.antt =====
-- The shares that core/blockchain/src/treasury/treasury.rs pays to stakers.
use is_a_chain.Prelude.{
  subst, sym, quotient_bounds, mod_le, div_mono, cancel_le, Bool-cases, ℕ, ◌==◌, Bool-cases, ◌+◌,
  ◌*◌, ◌/◌, ◌%◌, ◌≤◌, ◌<◌, ◌≡◌, refl, inl, inr, List, [], ◌∷◌, arith, All, length, sum_of, ok,
  u128_mod, mul_u128, sum_u128-eq, shares_sum,
}
use is_a_chain.Treasury.{
  Payment, amount_of, shares, Distribution, ProtocolTreasury, distribute_proportional,
  distribute_shares,
}

-- The exact shares.
abbrev exact : (total whole : ℕ) → List Payment → ℕ
exact total whole = sum_of (λ p. total * amount_of p / whole)

-- A product that wraps only lowers a share.
sum_of-shares-le :
    (total whole : ℕ) (stakers : List Payment)
    → 0 < whole
    → sum_of amount_of (shares total whole stakers) ≤ exact total whole stakers
unfolding shares mul_u128
sum_of-shares-le total whole [] h = omega arith
sum_of-shares-le total whole ((address, stake) ∷ stakers) h = ground (
  arith,
  sum_of-shares-le total whole stakers h,
  div_mono (total * stake % u128_mod) (total * stake) whole h
      (mod_le (total * stake) u128_mod (omega arith)),
)

-- What is paid to the stakers is within the total.
pub shares-le-total :
    (total : ℕ) (stakers : List Payment)
    → 0 < sum_of amount_of stakers
    → sum_of amount_of (shares total (sum_of amount_of stakers) stakers) ≤ total
shares-le-total total stakers h =
    let whole = sum_of amount_of stakers in
    cancel_le (sum_of amount_of (shares total whole stakers)) total whole h (
      grind
        (arith, sum_of-shares-le total whole stakers h, shares_sum amount_of total whole stakers h))

sum_of-shares-eq :
    (total whole : ℕ) (stakers : List Payment)
    → 0 < whole
    → All (λ p. total * amount_of p < u128_mod) stakers
    → sum_of amount_of (shares total whole stakers) ≡ exact total whole stakers
unfolding shares mul_u128
sum_of-shares-eq total whole [] h f = refl
sum_of-shares-eq total whole ((address, stake) ∷ stakers) h f =
    ground (arith, sum_of-shares-eq total whole stakers h f.1)

cancel_lt : (a b c : ℕ) → a * c < b * c → a < b
cancel_lt a b c lt = grind arith

short_of_lem :
    (total whole paid n : ℕ)
    → 0 < n
    → total * whole + n ≤ paid * whole + n * whole
    → total < paid + n
short_of_lem total whole paid n h lost = cancel_lt total (paid + n) whole (grind arith)

-- Rounding down loses less than one unit for each staker.
exact-gt :
    (total whole : ℕ) (stakers : List Payment)
    → 0 < whole
    → total * sum_of amount_of stakers + length stakers
      ≤ exact total whole stakers * whole + length stakers * whole
exact-gt total whole [] h = grind arith
exact-gt total whole (p ∷ stakers) h =
    grind (arith, quotient_bounds (total * amount_of p) whole h, exact-gt total whole stakers h)

-- If there is a staker, what is paid falls short of the total by less than one unit for each.
total-lt-shares :
    (total : ℕ) (stakers : List Payment)
    → 0 < sum_of amount_of stakers
    → All (λ p. total * amount_of p < u128_mod) stakers
    → total < sum_of amount_of (shares total (sum_of amount_of stakers) stakers) + length stakers
total-lt-shares total [] h products = omega arith
total-lt-shares total (p ∷ stakers) h products =
    let whole = sum_of amount_of (p ∷ stakers) in
    let n = length (p ∷ stakers) in
    let paid = sum_of amount_of (shares total whole (p ∷ stakers)) in
    let paid_eq = sum_of-shares-eq total whole (p ∷ stakers) h products in
    let lost = exact-gt total whole (p ∷ stakers) h in
    short_of_lem total whole paid n (omega arith)
      (subst (λ e. total * whole + n ≤ e * whole + n * whole) (sym paid_eq) lost)

-- A proportional distribution that succeeds pays no more than the amount to distribute, and falls
-- short of it by less than one unit for each staker, where the stakes add up to less than 2 ^ 128 and
-- so does each of them times the amount.
pub proportional_rounding :
    (stakers : List Payment) (total height caller : ℕ) (t : ProtocolTreasury) (d : Distribution)
    → sum_of amount_of stakers < u128_mod
    → All (λ p. total * amount_of p < u128_mod) stakers
    → total < u128_mod
    → (distribute_proportional stakers total height caller t).0 ≡ ok d
    → (d.total_amount ≡ sum_of amount_of d.recipients)
      × (d.total_amount ≤ total)
      × (total < d.total_amount + length stakers)
unfolding distribute_proportional distribute_shares
proportional_rounding stakers total height caller t d fits products total_fits done =
    let whole = sum_of amount_of stakers in
    let whole_eq = sum_u128-eq amount_of stakers fits in
    elim (Bool-cases (whole == 0)) [
      | inl none_ ↦ ground (arith, whole_eq)
      | inr some_ ↦
          let positive : 0 < whole = ground arith in
          let less = shares-le-total total stakers positive in
          let more = total-lt-shares total stakers positive products in
          let sum_eq = sum_u128-eq amount_of (shares total whole stakers) (omega (arith, less)) in
          ground (arith, whole_eq, less, more, sum_eq)
    ]
