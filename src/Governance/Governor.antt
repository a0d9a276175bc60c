-- ===== src/Governance/Governor.antt =====
-- core/blockchain/src/governance/governor.rs
use is_a_chain.Prelude.{
  ℕ, Bool, true, false, ◌&&◌, ◌||◌, List, [], ◌∷◌, ◌++◌, Option, none, some, String, ltb, leb, ◌==◌,
  if◌then◌else◌, contains, set_insert, HashMap, get, insert, push_item, ok, err, add_u64, add_u128,
  saturating_mul, be_bytes, le_bytes, utf8, is_blank,
}
use is_a_chain.Subnet.{SubnetId, discriminant}
use is_a_chain.Governance.Data.{
  Proposal, ProposalAction, ProposalStatus, GovernanceError, SubnetGovernor, Outcome, active,
  passed, rejected, executed, expired, proposal_not_found, voting_ended, voting_not_ended,
  already_voted, not_staker, insufficient_stake, proposal_not_passed, already_executed,
  invalid_proposal,
}

abbrev pub new : ℕ → ℕ → SubnetGovernor
new voting_period min_proposal_stake = record {
  proposals = [];
  proposals_by_subnet = [];
  voting_period = voting_period;
  min_proposal_stake = min_proposal_stake;
}

-- The bytes that a proposal's identifier is the hash of.
unfoldable pub id_input : SubnetId → ℕ → String → ℕ → List ℕ
id_input subnet_id proposer title height =
    be_bytes 20 proposer
    ++ (le_bytes 8 (discriminant subnet_id) ++ (utf8 title ++ le_bytes 8 height))

abbrev pub proposed :
    ℕ → SubnetId → ℕ → String → String → ProposalAction → ℕ → SubnetGovernor → Proposal
proposed id subnet_id proposer title description action height g = record {
  id = id;
  subnet_id = subnet_id;
  proposer = proposer;
  title = title;
  description = description;
  action = action;
  votes_for = 0;
  votes_against = 0;
  voters = [];
  status = active;
  created_at = height;
  voting_ends_at = add_u64 height g.voting_period;
  quorum_bps = 3000;
  threshold_bps = 6000;
}

-- Blake3, as `Hash::hash_data` calls it, is a parameter. A proposal under the same identifier is
-- replaced.
unfoldable pub create_proposal :
    (List ℕ → ℕ)
    → SubnetId
    → (proposer proposer_stake : ℕ) → (title description : String) → ProposalAction
    → (height : ℕ) → SubnetGovernor
    → Outcome ℕ
create_proposal hash_data subnet_id proposer proposer_stake title description action height g =
    if ltb proposer_stake g.min_proposal_stake
    then (err insufficient_stake, g)
    else if is_blank title || is_blank description
    then (err invalid_proposal, g)
    else let id = hash_data (id_input subnet_id proposer title height) in
      (
        ok id,
        record g {
          proposals_by_subnet = push_item (discriminant subnet_id) id g.proposals_by_subnet;
          proposals =
              insert id (proposed id subnet_id proposer title description action height g)
                g.proposals;
        },
      )

abbrev pub put : SubnetGovernor → ℕ → Proposal → SubnetGovernor
put g id p = record g { proposals = insert id p g.proposals }

-- The proposal after a vote is counted.
abbrev pub counted : ℕ → ℕ → Bool → Proposal → Proposal
counted voter stake_weight support p = record p {
  votes_for = if support then add_u128 p.votes_for stake_weight else p.votes_for;
  votes_against = if support then p.votes_against else add_u128 p.votes_against stake_weight;
  voters = set_insert p.voters voter;
}

unfoldable pub vote : ℕ → ℕ → ℕ → Bool → ℕ → SubnetGovernor → Outcome (Unit {0})
vote id voter stake_weight support current_height g = elim (get id g.proposals) [
  | none ↦ (err (proposal_not_found id), g)
  | some p ↦
      if ltb p.voting_ends_at current_height
      then (err voting_ended, g)
      else if contains p.voters voter
      then (err already_voted, g)
      else if stake_weight == 0
      then (err (not_staker voter), g)
      else (ok tt, put g id (counted voter stake_weight support p))
]

-- `total_votes / total_subnet_stake >= quorum_bps / 10_000`, by multiplication.
unfoldable pub quorum_met : Proposal → ℕ → Bool
quorum_met p total_subnet_stake =
    if total_subnet_stake == 0
    then false
    else leb (saturating_mul p.quorum_bps total_subnet_stake)
        (saturating_mul (add_u128 p.votes_for p.votes_against) 10_000)

unfoldable pub threshold_met : Proposal → Bool
threshold_met p =
    let total_votes = add_u128 p.votes_for p.votes_against in
    if total_votes == 0
    then false
    else leb (saturating_mul p.threshold_bps total_votes) (saturating_mul p.votes_for 10_000)

unfoldable pub verdict : Proposal → ℕ → ProposalStatus
unfolding quorum_met threshold_met
verdict p total_subnet_stake =
    if quorum_met p total_subnet_stake && threshold_met p then passed else rejected

unfoldable pub tally : ℕ → ℕ → ℕ → SubnetGovernor → Outcome ProposalStatus
unfolding verdict
tally id total_subnet_stake current_height g = elim (get id g.proposals) [
  | none ↦ (err (proposal_not_found id), g)
  | some p ↦
      if leb current_height p.voting_ends_at
      then (err voting_not_ended, g)
      else let status = verdict p total_subnet_stake in
        (ok status, put g id (record p { status = status }))
]

-- What `execute` answers to a status; `none` lets it go on.
abbrev pub refusal : ProposalStatus → Option GovernanceError
refusal executed = some already_executed
refusal passed = none
refusal active = some proposal_not_passed
refusal rejected = some proposal_not_passed
refusal expired = some proposal_not_passed

unfoldable pub execute : ℕ → SubnetGovernor → Outcome ProposalAction
execute id g = elim (get id g.proposals) [
  | none ↦ (err (proposal_not_found id), g)
  | some p ↦ elim (refusal p.status) [
    | some e ↦ (err e, g)
    | none ↦ (ok p.action, put g id (record p { status = executed }))
  ]
]

abbrev pub is_active : ProposalStatus → Bool
is_active active = true
is_active _ = false

abbrev pub expire : ℕ → Proposal → Proposal
expire current_height p =
    if is_active p.status && ltb p.voting_ends_at current_height
    then record p { status = expired }
    else p

-- `values_mut()`
unfoldable pub expire_all : ℕ → HashMap Proposal → HashMap Proposal
expire_all current_height [] = []
expire_all current_height ((id, p) ∷ ps) =
    (id, expire current_height p) ∷ expire_all current_height ps

abbrev pub expire_proposals : ℕ → SubnetGovernor → SubnetGovernor
expire_proposals current_height g = record g { proposals = expire_all current_height g.proposals }

-- `ids.iter().filter_map(|id| self.proposals.get(id))`
unfoldable pub proposals_of : SubnetGovernor → List ℕ → List Proposal
proposals_of g [] = []
proposals_of g (id ∷ ids) = elim (get id g.proposals) [
  | none ↦ proposals_of g ids
  | some p ↦ p ∷ proposals_of g ids
]

abbrev pub get_subnet_proposals : SubnetId → SubnetGovernor → List Proposal
get_subnet_proposals subnet_id g = elim (get (discriminant subnet_id) g.proposals_by_subnet) [
  | none ↦ []
  | some ids ↦ proposals_of g ids
]

abbrev open_at : ℕ → List Proposal → List Proposal
open_at current_height [] = []
open_at current_height (p ∷ ps) =
    if is_active p.status && leb current_height p.voting_ends_at
    then p ∷ open_at current_height ps
    else open_at current_height ps

abbrev pub get_active_proposals : SubnetId → ℕ → SubnetGovernor → List Proposal
get_active_proposals subnet_id current_height g =
    open_at current_height (get_subnet_proposals subnet_id g)

-- A call of a method that writes the governor, but for `create_proposal`.
pub data Call : Type 0 where
  votes : (id voter stake_weight : ℕ) → (support : Bool) → (current_height : ℕ) → Call
  tallies : (id total_subnet_stake current_height : ℕ) → Call
  executes : (id : ℕ) → Call
  expires : (current_height : ℕ) → Call

unfoldable pub step : SubnetGovernor → Call → SubnetGovernor
unfolding vote tally execute expire_all
step g (votes id voter stake_weight support current_height) =
    (vote id voter stake_weight support current_height g).1
step g (tallies id total_subnet_stake current_height) =
    (tally id total_subnet_stake current_height g).1
step g (executes id) = (execute id g).1
step g (expires current_height) = expire_proposals current_height g

unfoldable pub run : SubnetGovernor → List Call → SubnetGovernor
unfolding step
run g [] = g
run g (c ∷ cs) = run (step g c) cs
