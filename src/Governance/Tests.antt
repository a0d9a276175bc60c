-- ===== src/Governance/Tests.antt =====
-- Tests of the governor, and its theorems at concrete inputs.
use is_a_chain.Prelude.{
  ℕ, ◌+◌, ◌≡◌, ◌↔◌, ◌⊎◌, refl, true, false, List, [], ◌∷◌, arith, ok, err, sum_of, add_u64,
  add_u128, saturating_mul, be_bytes, le_bytes, utf8, is_blank,
}
use is_a_chain.Subnet.{tools}
use is_a_chain.Governance.{
  already_executed, Proposal, SubnetGovernor, Call, votes, tallies, executes, passed, rejected,
  executed, pause_subnet, new, proposed, create_proposal, vote, tally, verdict, quorum_met,
  threshold_met, execute, step, run, insufficient_stake, invalid_proposal, id_input, put,
}
use is_a_chain.Governance.Votes.{for_of, against_of, cast_for, cast_against, votes_add_up}
use is_a_chain.Governance.Outcomes.{IsShare, tally_decides}

abbrev hash_data : List ℕ → ℕ
hash_data = sum_of (λ b. b)

-- Proposer 3 at height 4: the identifier is 3 + 1 + 80 + 4.
abbrev started : SubnetGovernor
started = (create_proposal hash_data tools 3 50 "P" "pause it" pause_subnet 4 (new 10 50)).1

create_refused :
    ((create_proposal hash_data tools 3 49 "P" "pause it" pause_subnet 4 (new 10 50)).0
      ≡ err insufficient_stake)
    × ((create_proposal hash_data tools 3 50 "P" " " pause_subnet 4 (new 10 50)).0
        ≡ err invalid_proposal)
    × ((create_proposal hash_data tools 3 50 "P" "pause it" pause_subnet 4 (new 10 50)).0 ≡ ok 88)
unfolding create_proposal id_input be_bytes le_bytes utf8 is_blank
create_refused = (refl, refl, refl)

abbrev history : List Call
history =
    votes 88 5 700 true 6
    ∷ votes 88 6 300 false 7
    ∷ votes 88 5 900 true 8
    ∷ votes 88 7 100 true 15
    ∷ tallies 88 3000 15
    ∷ executes 88
    ∷ []

abbrev pending : SubnetGovernor
pending = put (new 10 50) 88 (proposed 88 tools 3 "P" "pause it" pause_subnet 4 (new 10 50))

run-history :
    let g = run pending history in
    (for_of 88 g ≡ 700) × (against_of 88 g ≡ 300) × ((execute 88 g).0 ≡ err already_executed)
unfolding run step vote tally verdict quorum_met threshold_met execute saturating_mul add_u64
    add_u128
run-history = (refl, refl, refl)

votes_add_up_example :
    (for_of 88 (run pending history) ≡ for_of 88 pending + cast_for 88 pending history)
    × (against_of 88 (run pending history)
        ≡ against_of 88 pending + cast_against 88 pending history)
unfolding run step vote tally verdict quorum_met threshold_met execute saturating_mul add_u64
    add_u128
votes_add_up_example = votes_add_up 88 pending history (omega arith) (omega arith)

abbrev decided : Proposal
decided = record (proposed 88 tools 3 "P" "pause it" pause_subnet 4 (new 10 50)) {
  votes_for = 600;
  votes_against = 400;
  voting_ends_at = 14;
  status = executed;
}

tally_decides_example :
    let result = (tally 88 3000 15 (put pending 88 decided)).0 in
    ((result ≡ ok passed) ↔ (IsShare 1000 3000 3000 × IsShare 600 6000 1000))
    × ((result ≡ ok passed) ⊎ (result ≡ ok rejected))
tally_decides_example =
    tally_decides 88 3000 15 decided (put pending 88 decided) refl (omega arith) (omega arith)
