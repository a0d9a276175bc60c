-- ===== src/Emission/Books.antt =====
-- What core/blockchain/src/emission/controller.rs emits, over histories of calls.
use is_a_chain.Prelude.{
  ap, ◌∙◌, ◌⊎◌, sym, subst, ℕ, Bool-cases, ◌≤◌, ◌<◌, ◌≡◌, ◌==◌, inl, inr, arith, List, [], ◌∷◌,
  ◌++◌, sum_of, sum_u128-eq, total, add_u128, u128_mod, All, sum_of-append,
}
use is_a_chain.Emission.{
  new, halvings, EmissionController, calculate_reward, weight_of, sum_weights, distribute_to,
  amount_of, Call, step, run, booked,
}
use is_a_chain.Emission.Distribution.{
  same, emitted_at, emitted_at-append, emitted_at-no_height, distributed-le-reward,
  distributed-emitted_at, distributed-total, emit-cases,
}

-- No height has emitted more than its reward.
abbrev pub IsCapped : EmissionController → Type 0
IsCapped c = (height : ℕ) → emitted_at height c.emission_history ≤ calculate_reward height c

-- The weights of a call add up to less than 2 ^ 32.
abbrev pub IsTyped : Call → Type 0
IsTyped k = sum_of weight_of k.weights < 4_294_967_296

step-IsCapped : (c : EmissionController) (k : Call) → IsCapped c → IsTyped k → IsCapped (step c k)
unfolding calculate_reward halvings
step-IsCapped c k capped typed height = elim (emit-cases k c) [
  | inl refused ↦
      subst (λ d. emitted_at height d.emission_history ≤ calculate_reward height d) (sym refused)
        (capped height)
  | inr (fresh, positive, done) ↦
      let reward = calculate_reward k.height c in
      let whole_eq : sum_weights k.weights ≡ sum_of weight_of k.weights = omega arith in
      let es =
        (distribute_to k.height reward (sum_weights k.weights) k.stakes k.weights
          c.subnet_totals).0 in
      let less : sum_of amount_of es ≤ reward = rw whole_eq (
        distributed-le-reward k.height reward k.stakes k.weights c.subnet_totals typed
          (omega arith)) in
      let here =
        distributed-emitted_at k.height reward (sum_weights k.weights) k.stakes height k.weights
          c.subnet_totals in
      let both = emitted_at-append height c.emission_history es in
      let before = emitted_at-no_height k.height c.emission_history fresh in
      let after : emitted_at height (c.emission_history ++ es) ≤ calculate_reward height c =
        elim (Bool-cases (k.height == height)) [
          | inl e ↦
              let height_eq : k.height ≡ height = ground arith in
              let nothing = subst (λ h. emitted_at h c.emission_history ≡ 0) height_eq before in
              let bound = subst (λ h. sum_of amount_of es ≤ calculate_reward h c) height_eq less in
              ground arith
          | inr e ↦ let old = capped height in ground arith
        ] in
      subst (λ d. emitted_at height d.emission_history ≤ calculate_reward height d) (sym done) after
]

run-IsCapped :
    (c : EmissionController) (ks : List Call) → IsCapped c → All IsTyped ks → IsCapped (run c ks)
run-IsCapped c [] capped typed = capped
run-IsCapped c (k ∷ ks) capped (first, typed) =
    run-IsCapped (step c k) ks (step-IsCapped c k capped first) typed

-- What a height has emitted is final: a call leaves it, or the height had emitted nothing before.
step-emitted_at :
    (c : EmissionController) (k : Call) (height : ℕ)
    → (emitted_at height (step c k).emission_history ≡ emitted_at height c.emission_history)
      ⊎ (emitted_at height c.emission_history ≡ 0)
step-emitted_at c k height = elim (emit-cases k c) [
  | inl refused ↦ inl (ap (λ d. emitted_at height d.emission_history) refused)
  | inr (fresh, positive, done) ↦ elim (Bool-cases (k.height == height)) [
    | inl e ↦
        let height_eq : k.height ≡ height = ground arith in
        inr (
          subst (λ h. emitted_at h c.emission_history ≡ 0) height_eq
            (emitted_at-no_height k.height c.emission_history fresh))
    | inr e ↦
        let reward = calculate_reward k.height c in
        let es =
          (distribute_to k.height reward (sum_weights k.weights) k.stakes k.weights
            c.subnet_totals).0 in
        let here =
          distributed-emitted_at k.height reward (sum_weights k.weights) k.stakes height k.weights
            c.subnet_totals in
        let both = emitted_at-append height c.emission_history es in
        let same : emitted_at height (c.emission_history ++ es)
            ≡ emitted_at height c.emission_history =
          ground arith in
        inl (ap (λ d. emitted_at height d.emission_history) done ∙ same)
  ]
]

-- Whatever is called, no height has emitted more than the reward of the schedule for it, and one
-- more call leaves what a height has emitted as it is, unless that was nothing; the weights of each
-- call so far add up to less than 2 ^ 32.
pub reward_caps_emission :
    (base_reward halving_interval min_reward : ℕ) (calls : List Call)
    → All IsTyped calls
    → (next : Call) (height : ℕ)
    → let c = run (new base_reward halving_interval min_reward) calls in
      (emitted_at height c.emission_history ≤ calculate_reward height c)
      × ((emitted_at height (step c next).emission_history ≡ emitted_at height c.emission_history)
          ⊎ (emitted_at height c.emission_history ≡ 0))
reward_caps_emission base_reward halving_interval min_reward calls typed next height =
    let c = run (new base_reward halving_interval min_reward) calls in
    (
      run-IsCapped (new base_reward halving_interval min_reward) calls (λ height. omega arith) typed
          height,
      step-emitted_at c next height,
    )

-- The emissions on record.
abbrev pub recorded : EmissionController → ℕ
recorded c = sum_of amount_of c.emission_history

-- The two running totals agree with the records.
abbrev pub IsBooked : EmissionController → Type 0
IsBooked c = (c.schedule.total_emitted ≡ recorded c) × (total same c.subnet_totals ≡ recorded c)

step-recorded : (c : EmissionController) (k : Call) → recorded c ≤ recorded (step c k)
step-recorded c k = elim (emit-cases k c) [
  | inl refused ↦ subst (λ d. recorded c ≤ recorded d) (sym refused) (omega arith)
  | inr (fresh, positive, done) ↦
      let reward = calculate_reward k.height c in
      let out =
        distribute_to k.height reward (sum_weights k.weights) k.stakes k.weights c.subnet_totals in
      subst (λ d. recorded c ≤ recorded d) (sym done)
        (omega (arith, sum_of-append amount_of c.emission_history out.0))
]

run-recorded : (c : EmissionController) (ks : List Call) → recorded c ≤ recorded (run c ks)
run-recorded c [] = omega arith
run-recorded c (k ∷ ks) = omega (arith, step-recorded c k, run-recorded (step c k) ks)

step-IsBooked :
    (c : EmissionController) (k : Call)
    → IsBooked c
    → recorded (step c k) < u128_mod
    → IsBooked (step c k)
unfolding add_u128
step-IsBooked c k books fits = elim (emit-cases k c) [
  | inl refused ↦ subst IsBooked (sym refused) books
  | inr (fresh, positive, done) ↦
      let reward = calculate_reward k.height c in
      let out =
        distribute_to k.height reward (sum_weights k.weights) k.stakes k.weights c.subnet_totals in
      let d = booked k.height out c in
      let fits' = subst (λ x. recorded x < u128_mod) done fits in
      let append_eq = sum_of-append amount_of c.emission_history out.0 in
      let totals_eq =
        distributed-total k.height reward (sum_weights k.weights) k.stakes k.weights c.subnet_totals
          (omega arith) in
      let sum_eq = sum_u128-eq amount_of out.0 (omega arith) in
      subst IsBooked (sym done) (omega arith, omega arith)
]

run-IsBooked :
    (c : EmissionController) (ks : List Call)
    → IsBooked c
    → recorded (run c ks) < u128_mod
    → IsBooked (run c ks)
run-IsBooked c [] books fits = books
run-IsBooked c (k ∷ ks) books fits =
    let first : recorded (step c k) < u128_mod = omega (arith, run-recorded (step c k) ks) in
    run-IsBooked (step c k) ks (step-IsBooked c k books first) fits

-- After any calls the total emitted, and the totals of the subnets taken together, are what the
-- records say was emitted, where that is less than 2 ^ 128.
pub emission_books_agree :
    (base_reward halving_interval min_reward : ℕ) (calls : List Call)
    → recorded (run (new base_reward halving_interval min_reward) calls) < u128_mod
    → let c = run (new base_reward halving_interval min_reward) calls in
      (c.schedule.total_emitted ≡ recorded c) × (total same c.subnet_totals ≡ recorded c)
emission_books_agree base_reward halving_interval min_reward calls fits =
    run-IsBooked (new base_reward halving_interval min_reward) calls (omega arith, omega arith) fits
