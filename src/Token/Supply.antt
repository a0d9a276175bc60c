-- ===== src/Token/Supply.antt =====
-- The supply of core/blockchain/src/token.rs over whole histories of calls.
use is_a_chain.Prelude.{ℕ, ◌+◌, ◌≤◌, ◌<◌, ◌≡◌, List, [], ◌∷◌, arith, u128_mod}
use is_a_chain.Token.{
  TokenState, Call, mints, burns, grants_minter, drops_minter, grants_burner, drops_burner, step,
  run,
}

-- What was there at the start and what was minted since is in circulation or burnt.
pub record Balanced (initial : ℕ) (s : TokenState) : Type 0 where
  pub accounted : initial + s.total_minted ≡ s.total_supply + s.total_burned

pub step-minted_mono : (s : TokenState) (c : Call) → s.total_minted ≤ (step s c).total_minted
unfolding step
step-minted_mono s (mints amount caller) = ground arith
step-minted_mono s (burns amount caller) = ground arith
step-minted_mono s (grants_minter address caller) = ground arith
step-minted_mono s (drops_minter address caller) = ground arith
step-minted_mono s (grants_burner address caller) = ground arith
step-minted_mono s (drops_burner address caller) = ground arith

run-minted_mono : (s : TokenState) (cs : List Call) → s.total_minted ≤ (run s cs).total_minted
unfolding run
run-minted_mono s [] = omega arith
run-minted_mono s (c ∷ cs) = omega (arith, run-minted_mono (step s c) cs, step-minted_mono s c)

step-Balanced :
    (initial : ℕ) (s : TokenState) (c : Call)
    → initial + s.total_minted < u128_mod
    → Balanced initial s
    → Balanced initial (step s c)
unfolding step
step-Balanced initial s (mints amount caller) h b = ground arith
step-Balanced initial s (burns amount caller) h b = ground arith
step-Balanced initial s (grants_minter address caller) h b = ground arith
step-Balanced initial s (drops_minter address caller) h b = ground arith
step-Balanced initial s (grants_burner address caller) h b = ground arith
step-Balanced initial s (drops_burner address caller) h b = ground arith

-- From a balanced state, after any history of calls whose mints and the initial supply together
-- stay below 2 ^ 128, the initial supply and the minted total equal the supply and the burnt total.
pub run-Balanced :
    (initial : ℕ) (s : TokenState) (cs : List Call)
    → initial + (run s cs).total_minted < u128_mod
    → Balanced initial s
    → Balanced initial (run s cs)
unfolding run
run-Balanced initial s [] h b = b
run-Balanced initial s (c ∷ cs) h b = run-Balanced initial (step s c) cs h (
    step-Balanced initial s c (omega (arith, run-minted_mono (step s c) cs, step-minted_mono s c))
      b)
