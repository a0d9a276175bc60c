-- ===== src/Governance/Data.antt =====
-- core/blockchain/src/governance/types.rs
use is_a_chain.Prelude.{ℕ, List, String, HashMap, Result}
use is_a_chain.Subnet.{SubnetId}

pub data ProposalAction : Type 0 where
  change_fee_rate change_min_stake change_max_providers change_emission_weight : ℕ → ProposalAction
  pause_subnet resume_subnet : ProposalAction
  custom : String → ProposalAction

pub data ProposalStatus : Type 0 where
  active passed rejected executed expired : ProposalStatus

pub data GovernanceError : Type 0 where
  proposal_not_found : (id : ℕ) → GovernanceError
  voting_ended voting_not_ended already_voted : GovernanceError
  not_staker : (address : ℕ) → GovernanceError
  insufficient_stake proposal_not_passed already_executed invalid_proposal : GovernanceError

pub record Proposal : Type 0 where
  pub id : ℕ
  pub subnet_id : SubnetId
  pub proposer : ℕ
  pub title : String
  pub description : String
  pub action : ProposalAction
  pub votes_for : ℕ
  pub votes_against : ℕ
  pub voters : List ℕ
  pub status : ProposalStatus
  pub created_at : ℕ
  pub voting_ends_at : ℕ
  pub quorum_bps : ℕ
  pub threshold_bps : ℕ

pub record SubnetGovernor : Type 0 where
  pub proposals : HashMap Proposal
  pub proposals_by_subnet : HashMap (List ℕ)
  pub voting_period : ℕ
  pub min_proposal_stake : ℕ

abbrev pub Outcome : Type 0 → Type 0
Outcome A = Result A GovernanceError × SubnetGovernor
