-- ===== src/VeIsa/Power.antt =====
-- The voting power of core/blockchain/src/veisa/system.rs.
use native.Mathlib.Nat.{mul-le-mul_left, div-le_of_le-mul}
use is_a_chain.Prelude.{
  ℕ, ◌+◌, ◌-◌, ◌*◌, ◌/◌, ◌≤◌, ◌≡◌, ◌==◌, some, inl, inr, get, Bool-cases, arith, saturating_mul,
  div_mono,
}
use is_a_chain.VeIsa.{VeIsaLock, VeIsaSystem, calculate_voting_power, get_voting_power}

saturating_mul_mono : (a b c : ℕ) → b ≤ c → saturating_mul a b ≤ saturating_mul a c
unfolding saturating_mul
saturating_mul_mono a b c h = ground (arith, mul-le-mul_left {m = b} {n = c} a h)

power_mono :
    (amount remaining more max_duration : ℕ)
    → remaining ≤ more
    → calculate_voting_power amount remaining max_duration
      ≤ calculate_voting_power amount more max_duration
unfolding calculate_voting_power
power_mono amount remaining more max_duration h = elim (Bool-cases (max_duration == 0)) [
  | inl e ↦ ground arith
  | inr e ↦
      let grown =
        div_mono (saturating_mul amount remaining) (saturating_mul amount more) max_duration
          (ground arith) (saturating_mul_mono amount remaining more h) in
      ground (arith, grown)
]

-- A lock gives at most its amount.
power_le_amount :
    (amount remaining max_duration : ℕ)
    → remaining ≤ max_duration
    → calculate_voting_power amount remaining max_duration ≤ amount
unfolding calculate_voting_power saturating_mul
power_le_amount amount remaining max_duration h = elim (Bool-cases (max_duration == 0)) [
  | inl e ↦ ground arith
  | inr e ↦
      let product = mul-le-mul_left {m = remaining} {n = max_duration} amount h in
      let below : saturating_mul amount remaining ≤ amount * max_duration = ground arith in
      let quotient : saturating_mul amount remaining / max_duration ≤ amount =
        div-le_of_le-mul max_duration (grind arith) in
      ground (arith, quotient)
]

-- Without a call the voting power of an owner never rises with the height, and it is at most the
-- locked amount once no more than the longest duration is left.
pub power_decays :
    (owner now later : ℕ) (s : VeIsaSystem) (l : VeIsaLock)
    → get owner s.locks ≡ some l
    → now ≤ later
    → l.lock_end ≤ now + s.max_lock_duration
    → (get_voting_power owner later s ≤ get_voting_power owner now s)
      × (get_voting_power owner now s ≤ l.amount)
unfolding get_voting_power
power_decays owner now later s l found le near = ground (
  arith,
  power_mono l.amount (l.lock_end - later) (l.lock_end - now) s.max_lock_duration,
  power_le_amount l.amount (l.lock_end - now) s.max_lock_duration,
)
