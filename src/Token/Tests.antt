-- ===== src/Token/Tests.antt =====
-- Tests of the token state, and its theorems at concrete inputs.
use is_a_chain.Prelude.{◌-◌, ◌≡◌, refl, List, [], ◌∷◌, arith, u128_mod}
use is_a_chain.Token.{TokenState, Call, mints, burns, grants_minter, grants_burner, new, run}
use is_a_chain.Token.Supply.{Balanced, run-Balanced}

-- Minter 11 and burner 12, granted by the admin 10.
abbrev history : List Call
history = grants_minter 11 10 ∷ grants_burner 12 10 ∷ mints 50 11 ∷ burns 30 12 ∷ mints 9 12 ∷ []

run-history : let s = run (new 1000 10) history in (s.total_supply ≡ 1020) × (s.total_burned ≡ 30)
unfolding run new
run-history = (refl, refl)

run-Balanced_example : Balanced 1000 (run (new 1000 10) history)
unfolding run new
run-Balanced_example = run-Balanced 1000 (new 1000 10) history (omega arith) (omega arith)

-- A burner of a state whose burnt total is about to overflow.
abbrev nearly_full : TokenState
nearly_full = record {
  total_supply = 100;
  total_burned = u128_mod - 10;
  total_minted = 0;
  authorized_minters = [];
  authorized_burners = 12 ∷ [];
  admin = 10;
}

abbrev minting : TokenState
minting = record nearly_full { total_burned = 0; authorized_minters = 11 ∷ [] }
