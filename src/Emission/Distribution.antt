-- ===== src/Emission/Distribution.antt =====
-- The loop of `emit` in core/blockchain/src/emission/controller.rs.
use is_a_chain.Prelude.{
  ◌⊎◌, ℕ, Bool-cases, ◌≤◌, ◌<◌, ◌≡◌, ◌+◌, ◌*◌, ◌/◌, ◌%◌, ◌==◌, if◌then◌else◌, at_or_zero-le-total,
  inl, inr, arith, List, [], ◌∷◌, ◌++◌, sum_of, HashMap, total, total-insert, add_u128, mul_u128,
  u128_mod, shares_sum, mod_le, div_mono, cancel_le, refl, false, ◌&&◌, not, ◌⊎◌, insert,
}
use is_a_chain.Subnet.{discriminant}
use is_a_chain.Emission.{
  EmissionController, SubnetEmission, calculate_reward, Weights, Stakes, weight_of, sum_weights,
  distribute_to, amount_of, has_height, at_height, emit, Call, step, total_of, booked, is_nil,
}

abbrev pub same : ℕ → ℕ
same n = n

-- What the records say was emitted at a height.
abbrev pub emitted_at : ℕ → List SubnetEmission → ℕ
emitted_at height es = sum_of amount_of (at_height height es)

pub emitted_at-append :
    (h : ℕ) (es fs : List SubnetEmission)
    → emitted_at h (es ++ fs) ≡ emitted_at h es + emitted_at h fs
emitted_at-append h [] fs = omega arith
emitted_at-append h (e ∷ es) fs = ground (arith, emitted_at-append h es fs)

pub emitted_at-no_height :
    (h : ℕ) (es : List SubnetEmission) → has_height h es ≡ false → emitted_at h es ≡ 0
emitted_at-no_height h [] none_ = refl
emitted_at-no_height h (e ∷ es) none_ = ground (arith, emitted_at-no_height h es)

-- The loop over the weights.
module _ (height reward weight_sum : ℕ) (stakes : Stakes) where
  -- A product that wraps only lowers an amount.
  distributed-le :
      (weights : Weights) (totals : HashMap ℕ)
      → 0 < weight_sum
      → sum_of amount_of (distribute_to height reward weight_sum stakes weights totals).0
        ≤ sum_of (λ p. reward * weight_of p / weight_sum) weights
  unfolding distribute_to mul_u128
  distributed-le [] totals h = omega arith
  distributed-le ((s, weight) ∷ weights) totals h =
      let amount = mul_u128 reward weight / weight_sum in
      let totals' =
        insert (discriminant s) (add_u128 (total_of (discriminant s) totals) amount) totals in
      ground (
        arith,
        distributed-le weights totals' h,
        div_mono (reward * weight % u128_mod) (reward * weight) weight_sum h
            (mod_le (reward * weight) u128_mod (omega arith)),
      )

  -- All that the loop emits is at its height.
  pub distributed-emitted_at :
      (asked : ℕ) (weights : Weights) (totals : HashMap ℕ)
      → let es = (distribute_to height reward weight_sum stakes weights totals).0 in
        emitted_at asked es ≡ (if height == asked then sum_of amount_of es else 0)
  unfolding distribute_to
  distributed-emitted_at asked [] totals = ground arith
  distributed-emitted_at asked ((s, weight) ∷ weights) totals =
      let amount = mul_u128 reward weight / weight_sum in
      let totals' =
        insert (discriminant s) (add_u128 (total_of (discriminant s) totals) amount) totals in
      ground (arith, distributed-emitted_at asked weights totals')

  pub distributed-total :
      (weights : Weights) (totals : HashMap ℕ)
      → let r = distribute_to height reward weight_sum stakes weights totals in
        total same totals + sum_of amount_of r.0 < u128_mod
        → total same r.1 ≡ total same totals + sum_of amount_of r.0
  unfolding distribute_to add_u128
  distributed-total [] totals fits = omega arith
  distributed-total ((s, weight) ∷ weights) totals fits =
      let amount = mul_u128 reward weight / weight_sum in
      let old = total_of (discriminant s) totals in
      let totals' = insert (discriminant s) (add_u128 old amount) totals in
      let before = at_or_zero-le-total same (discriminant s) totals in
      let added = total-insert same (discriminant s) (add_u128 old amount) totals in
      ground (arith, before, added, distributed-total weights totals')

-- An emission that succeeds emits no more than the reward of the block, where the weights add up to
-- less than 2 ^ 32.
pub distributed-le-reward :
    (height reward : ℕ) (stakes : Stakes) (weights : Weights) (totals : HashMap ℕ)
    → sum_of weight_of weights < 4_294_967_296
    → 0 < sum_of weight_of weights
    → sum_of amount_of
        (distribute_to height reward (sum_of weight_of weights) stakes weights totals).0
      ≤ reward
distributed-le-reward height reward stakes weights totals fits positive =
    let whole = sum_of weight_of weights in
    cancel_le (sum_of amount_of (distribute_to height reward whole stakes weights totals).0) reward
      whole positive
      (grind (
        arith,
        distributed-le height reward whole stakes weights totals positive,
        shares_sum weight_of reward whole weights positive,
      ))

-- An emission is refused, or books what the loop emits.
pub emit-cases :
    (k : Call) (c : EmissionController)
    → (step c k ≡ c)
      ⊎ ((has_height k.height c.emission_history ≡ false)
          × (0 < sum_weights k.weights)
          × (step c k
              ≡ booked k.height
                  (distribute_to k.height
                    (calculate_reward k.height c)
                    (sum_weights k.weights)
                    k.stakes
                    k.weights
                    c.subnet_totals)
                  c))
unfolding emit
emit-cases k c =
    let again = (k.height == c.schedule.last_emission_height) && not (is_nil c.emission_history) in
    elim (Bool-cases (has_height k.height c.emission_history)) [
      | inl e ↦ inl (ground arith)
      | inr e ↦ elim (Bool-cases again) [
        | inl f ↦ inl (ground arith)
        | inr f ↦ elim (Bool-cases (is_nil k.weights)) [
          | inl g ↦ inl (ground arith)
          | inr g ↦ elim (Bool-cases (sum_weights k.weights == 0)) [
            | inl s ↦ inl (ground arith)
            | inr s ↦ elim (Bool-cases (calculate_reward k.height c == 0)) [
              | inl r ↦ inl (ground arith)
              | inr r ↦ inr (e, ground arith, ground arith)
            ]
          ]
        ]
      ]
    ]
