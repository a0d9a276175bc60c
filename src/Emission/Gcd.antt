-- ===== src/Emission/Gcd.antt =====
-- Euclid's loop of core/blockchain/src/emission/controller.rs, and the share computed with it.
use Prim.Native.Nat.{ℕ, ◌∣◌}
use native.Mathlib.Nat.{
  dvd-zero, dvd-mod_iff, dvd_refl, eq-zero_of_zero-dvd, div-mul_cancel, mul-div-mul_right, mod-lt,
  mul-mul-mul_comm,
}
use is_a_chain.Prelude.{
  Bool-cases, ℕ, zero, suc, ◌≡◌, ◌≤◌, ◌<◌, ◌+◌, ◌*◌, ◌/◌, ◌%◌, ◌==◌, ◌↔◌, inl, inr, arith, sym,
  subst, mul_u128, u128_mod,
}
use is_a_chain.Emission.{gcd_loop, gcd, share_of}

-- The divisors of what the loop returns.
Divides-gcd_loop : (fuel a b d : ℕ) → b ≤ fuel → (d ∣ gcd_loop fuel a b) ↔ ((d ∣ a) × (d ∣ b))
unfolding gcd_loop
Divides-gcd_loop zero a b d h =
    let b_eq : b ≡ 0 = omega arith in rw b_eq (λ p. (p, dvd-zero d), λ p. p.0)
Divides-gcd_loop (suc fuel) a b d h = elim (Bool-cases (b == 0)) [
  | inl e ↦ let b_eq : b ≡ 0 = ground arith in rw (b_eq, gcd_loop) (λ p. (p, dvd-zero d), λ p. p.0)
  | inr e ↦
      let positive : 0 < b = ground arith in
      let less : a % b ≤ fuel = omega (arith, mod-lt a positive) in
      let rest = Divides-gcd_loop fuel b (a % b) d less in
      rw (e, gcd_loop)
        (
          λ p. let q = rest.0 p in ((dvd-mod_iff d q.0).0 q.1, q.0),
          λ p. rest.1 (p.1, (dvd-mod_iff d p.1).1 p.0),
        )
]

-- `gcd` returns the greatest common divisor of two numbers that are not both 0: its divisors are
-- the common divisors of the two.
pub gcd_lem : (a b d : ℕ) → 0 < a + b → (d ∣ gcd a b) ↔ ((d ∣ a) × (d ∣ b))
unfolding gcd
gcd_lem a b d h = elim (Bool-cases (gcd_loop b a b == 0)) [
  | inl e ↦
      let zero_ : gcd_loop b a b ≡ 0 = ground arith in
      let both =
        (Divides-gcd_loop b a b 0 (omega arith)).0 (subst (λ x. 0 ∣ x) (sym zero_) (dvd_refl 0)) in
      let a_eq = eq-zero_of_zero-dvd both.0 in let b_eq = eq-zero_of_zero-dvd both.1 in ground arith
  | inr e ↦ rw e (Divides-gcd_loop b a b d (omega arith))
]

gcd-positive : (a b : ℕ) → 0 < gcd a b
unfolding gcd
gcd-positive a b = ground arith

-- What `gcd` returns divides both numbers.
gcd-Divides : (a b : ℕ) → 0 < a + b → (gcd a b ∣ a) × (gcd a b ∣ b)
gcd-Divides a b h = (gcd_lem a b (gcd a b) h).0 (dvd_refl (gcd a b))

-- Reduced fractions, expanded again.
mul-expand : (p q g h : ℕ) {a b : ℕ} → p * g ≡ a → q * h ≡ b → p * q * (g * h) ≡ a * b
mul-expand p q g h a_eq b_eq = rw (sym a_eq, sym b_eq) (mul-mul-mul_comm p q g h)

mul-expand_twice : (d g h : ℕ) {b c : ℕ} → d * h ≡ b → b * g ≡ c → d * (g * h) ≡ c
mul-expand_twice d g h b_eq c_eq = rw (sym c_eq, sym b_eq) (grind arith)

-- The share computed with the fraction reduced twice is the exact one rounded down, where the
-- total stake is not 0 and the product of the reduced numbers is below 2 ^ 128.
pub share_of_lem :
    (total total_stake stake : ℕ)
    → 0 < total_stake
    → total / gcd total total_stake * (stake / gcd stake (total_stake / gcd total total_stake))
      < u128_mod
    → share_of total total_stake stake ≡ total * stake / total_stake
unfolding share_of mul_u128
share_of_lem total total_stake stake positive fits =
    let g = gcd total total_stake in
    let first = gcd-Divides total total_stake (omega arith) in
    let denom = total_stake / g in
    let total_eq : total / g * g ≡ total = div-mul_cancel g first.0 in
    let denom_eq : denom * g ≡ total_stake = div-mul_cancel g first.1 in
    let denom_positive : 0 < denom = grind arith in
    let g2 = gcd stake denom in
    let second = gcd-Divides stake denom (omega arith) in
    let stake_eq : stake / g2 * g2 ≡ stake = div-mul_cancel g2 second.0 in
    let denom2_eq : denom / g2 * g2 ≡ denom = div-mul_cancel g2 second.1 in
    let scale_positive : 0 < g * g2 =
      grind (arith, gcd-positive total total_stake, gcd-positive stake denom) in
    let numerator = mul-expand (total / g) (stake / g2) g g2 total_eq stake_eq in
    let denominator = mul-expand_twice (denom / g2) g g2 denom2_eq denom_eq in
    let wrap : mul_u128 (total / g) (stake / g2) ≡ total / g * (stake / g2) = omega arith in
    let reduced = mul-div-mul_right (total / g * (stake / g2)) (denom / g2) scale_positive in cc
