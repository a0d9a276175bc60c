-- ===== src/Finality/Tests.antt =====
-- Tests of the finality tracker, and its theorems at concrete inputs.
use is_a_chain.Prelude.{
  ℕ, ◌≡◌, refl, List, [], ◌∷◌, map, arith, some, none, saturating_add, saturating_mul,
}
use is_a_chain.Finality.{
  FinalityVote, FinalityTracker, pending, justified, new, registered, registers, adds, sets, prunes,
  step, run, register_block, add_vote, check_quorum_inner, get_status,
}
use is_a_chain.Finality.Progress.{Ballot, cast, quorum_justifies}

abbrev vote_of : ℕ → FinalityVote
vote_of voter = record {
  voter = voter;
  block_hash = 9;
  height = 4;
  round = 0;
  signature = record { r = []; s = []; v = 0 };
}

-- The vote of 1 counts once; two thirds of 300 are reached with the vote of 2.
run-votes :
    let t =
      run
        (new 6667)
        (sets 300 ∷ registers 9 4 ∷ adds (vote_of 1) 100 ∷ adds (vote_of 1) 150 ∷ []) in
    (get_status 9 t ≡ some pending)
    × (get_status 9 (run t (adds (vote_of 2) 101 ∷ [])) ≡ some justified)
    × (get_status 9 (run t (prunes 5 ∷ [])) ≡ none)
unfolding run step register_block add_vote check_quorum_inner saturating_add saturating_mul
run-votes = (refl, refl, refl)

abbrev voting : FinalityTracker
voting = record (new 6667) {
  blocks = (9, registered 9 4) ∷ (8, registered 8 4) ∷ [];
  total_validator_power = 300;
}

abbrev ballots : List Ballot
ballots = (vote_of 1, 100) ∷ (vote_of 2, 110) ∷ (vote_of 3, 90) ∷ []

quorum_justifies_example : get_status 9 (run voting (map cast ballots)) ≡ some justified
unfolding check_quorum_inner saturating_mul
quorum_justifies_example =
    quorum_justifies 9 (registered 9 4) ballots voting refl refl
      (refl, refl, (refl, refl, (refl, refl, tt))) (λ e. cc) (omega arith) refl
