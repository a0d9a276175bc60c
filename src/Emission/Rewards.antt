-- ===== src/Emission/Rewards.antt =====
-- The rewards of core/blockchain/src/emission/controller.rs over the heights.
use native.Mathlib.Nat.{pow-le-pow_right, one-le-pow}
use is_a_chain.Prelude.{ℕ, ◌≤◌, ◌<◌, ◌/◌, ◌^◌, arith, quotient_bounds}
use is_a_chain.Emission.{EmissionController, EmissionSchedule, calculate_reward, halvings}

div-antitone : (a d e : ℕ) → 0 < d → d ≤ e → a / e ≤ a / d
div-antitone a d e h le = grind (arith, quotient_bounds a d h, quotient_bounds a e (omega arith))

quotient_mono : (a b d : ℕ) → a ≤ b → a / d ≤ b / d
quotient_mono a b d le = grind arith

halvings_mono : (h k : ℕ) (s : EmissionSchedule) → h ≤ k → halvings h s ≤ halvings k s
unfolding halvings
halvings_mono h k s le = ground (arith, quotient_mono h k s.halving_interval le)

-- The reward of a block never falls below the minimum, and never rises with the height.
pub reward_falls_to_minimum :
    (h k : ℕ) (c : EmissionController)
    → h ≤ k
    → (calculate_reward k c ≤ calculate_reward h c) × (c.schedule.min_reward ≤ calculate_reward k c)
unfolding calculate_reward
reward_falls_to_minimum h k c le =
    let more = pow-le-pow_right {n = 2} (omega arith) (halvings_mono h k c.schedule le) in
    let positive = one-le-pow (halvings h c.schedule) 2 (omega arith) in
    let less =
      div-antitone c.schedule.base_reward_per_block (2 ^ halvings h c.schedule)
        (2 ^ halvings k c.schedule) (omega (arith, positive)) more in
    ground (arith, less)
