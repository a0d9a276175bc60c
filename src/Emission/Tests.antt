-- ===== src/Emission/Tests.antt =====
-- Tests of the emission of rewards, and its theorems at concrete inputs.
use Prim.Native.Nat.{◌∣◌}
use is_a_chain.Prelude.{
  ◌⊎◌, ◌*◌, ◌/◌, ◌≡◌, ◌≤◌, ◌↔◌, refl, List, [], ◌∷◌, arith, mul_u128, add_u128, sum_from,
}
use is_a_chain.Subnet.{model, tools, compute}
use is_a_chain.Emission.{
  step, EmissionController, Weights, Stakes, Call, new, calculate_reward, halvings, gcd, gcd_loop,
  share_of, emit, distribute_to, split_by_stake, run,
}
use is_a_chain.Emission.Gcd.{gcd_lem, share_of_lem}
use is_a_chain.Emission.Rewards.{reward_falls_to_minimum}
use is_a_chain.Emission.Distribution.{emitted_at}
use is_a_chain.Emission.Books.{reward_caps_emission, recorded}

abbrev genesis : EmissionController
genesis = new 1000 100 30

abbrev weights : Weights
weights = (model, 6000) ∷ (tools, 4000) ∷ []

abbrev stakes : Stakes
stakes = ((model, 7), 1) ∷ ((model, 8), 2) ∷ ((tools, 7), 5) ∷ ((compute, 9), 3) ∷ []

abbrev first : Call
first = record { height = 3; weights = weights; stakes = stakes }

abbrev later : Call
later = record { height = 250; weights = weights; stakes = stakes }

abbrev calls : List Call
calls = first ∷ first ∷ later ∷ []

rewards :
    (calculate_reward 99 genesis ≡ 1000)
    × (calculate_reward 250 genesis ≡ 250)
    × (calculate_reward 20_000 genesis ≡ 30)
unfolding calculate_reward halvings
rewards = (refl, refl, refl)

reward_falls_to_minimum_example :
    (calculate_reward 250 genesis ≤ calculate_reward 99 genesis)
    × (30 ≤ calculate_reward 250 genesis)
reward_falls_to_minimum_example = reward_falls_to_minimum 99 250 genesis (omega arith)

-- The second emission at height 3 is refused.
history :
    (emitted_at 3 (run genesis calls).emission_history ≡ 1000)
    × (recorded (run genesis calls) ≡ 1250)
    × (split_by_stake model 600 stakes ≡ (7, 200) ∷ (8, 400) ∷ [])
unfolding emit calculate_reward halvings distribute_to split_by_stake share_of gcd gcd_loop mul_u128
    add_u128 sum_from
history = (refl, refl, refl)

reward_caps_emission_example :
    let c = run genesis calls in
    (emitted_at 3 c.emission_history ≤ calculate_reward 3 c)
    × ((emitted_at 3 (step c first).emission_history ≡ emitted_at 3 c.emission_history)
        ⊎ (emitted_at 3 c.emission_history ≡ 0))
reward_caps_emission_example =
    reward_caps_emission 1000 100 30 calls (omega arith, (omega arith, (omega arith, tt))) first 3

gcd_lem_example : (6 ∣ gcd 48 18) ↔ ((6 ∣ 48) × (6 ∣ 18))
gcd_lem_example = gcd_lem 48 18 6 (omega arith)

-- 3 * 10 ^ 20 in the proportion of 2 * 10 ^ 20 to 6 * 10 ^ 20: the product alone is above 2 ^ 128.
share_of_lem_example :
    share_of 300_000_000_000_000_000_000 600_000_000_000_000_000_000 200_000_000_000_000_000_000
    ≡ 300_000_000_000_000_000_000 * 200_000_000_000_000_000_000 / 600_000_000_000_000_000_000
unfolding gcd gcd_loop
share_of_lem_example =
    share_of_lem 300_000_000_000_000_000_000 600_000_000_000_000_000_000 200_000_000_000_000_000_000
      (omega arith) (omega arith)

-- Weights whose sum is 1 modulo 2 ^ 32 emit more than the reward.
abbrev wrapping : Weights
wrapping = (model, 4_294_967_295) ∷ (tools, 2) ∷ []

wrapped : emitted_at 3 (emit 3 wrapping [] genesis).1.emission_history ≡ 4_294_967_297_000
unfolding emit calculate_reward halvings distribute_to split_by_stake share_of gcd gcd_loop mul_u128
    add_u128 sum_from
wrapped = refl
