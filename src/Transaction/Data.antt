-- ===== src/Transaction/Data.antt =====
-- core/blockchain/src/transaction/data.rs, with the types of types/compute.rs that it uses.
use is_a_chain.Prelude.{ℕ, List, Option, String}
use is_a_chain.Account.{ValidatorDescription}

pub data ResourceType : Type 0 where
  vm browser repl desktop agent_runtime : ResourceType

pub record ComputeCapacity : Type 0 where
  pub cpu_millicores : ℕ
  pub memory_mb : ℕ
  pub storage_gb : ℕ
  pub gpu_memory_mb : ℕ
  pub bandwidth_mbps : ℕ

pub data ProviderStatus : Type 0 where
  pending active paused suspended exited : ProviderStatus

pub record ComputeUsage : Type 0 where
  pub duration_secs : ℕ
  pub cpu_seconds : ℕ
  pub memory_mb_seconds : ℕ
  pub network_bytes : ℕ
  pub storage_bytes : ℕ

pub data DisputeType : Type 0 where
  non_delivery under_capacity provider_fault non_payment usage_dispute : DisputeType

pub record ValidatorInfo : Type 0 where
  pub public_key : List ℕ
  pub commission_rate : ℕ
  pub min_self_delegation : ℕ
  pub description : ValidatorDescription

pub data ProposalType : Type 0 where
  text_proposal parameter_change software_upgrade validator_slash treasury : ProposalType

pub data VoteType : Type 0 where
  in_favour against abstain no_with_veto : VoteType

pub data TransactionData : Type 0 where
  transfer : (to amount : ℕ) (bytes : List ℕ) → TransactionData
  contract_deploy : (bytecode constructor_args : List ℕ) (salt : Option ℕ) → TransactionData
  contract_call : (contract : ℕ) (function_selector args : List ℕ) (value : ℕ) → TransactionData
  stake : (amount : ℕ) (validator_info : ValidatorInfo) → TransactionData
  unstake : (amount validator : ℕ) → TransactionData
  delegate : (validator amount : ℕ) → TransactionData
  undelegate : (validator amount : ℕ) → TransactionData
  governance_proposal :
      (title description : String) (proposal_type : ProposalType) (initial_deposit : ℕ)
      → TransactionData
  governance_vote : (proposal_id : ℕ) (vote : VoteType) → TransactionData
  bridge : (destination_chain : ℕ) (recipient : List ℕ) (amount token : ℕ) → TransactionData
  credit_purchase : (buyer isa_amount : ℕ) → TransactionData
  credit_spend : (spender amount : ℕ) (service : String) → TransactionData
  agent_wallet_spend : (wallet amount : ℕ) (service : String) → TransactionData
  compute_register :
      (resource_types : List ResourceType) (capacity : ComputeCapacity)
      (price_per_hour min_duration_secs max_duration_secs staked : ℕ) (region : Option String)
      (endpoint : String)
      → TransactionData
  compute_update_provider :
      (resource_types : Option (List ResourceType)) (price_per_hour : Option ℕ)
      (status : Option ProviderStatus) (region endpoint : Option String)
      → TransactionData
  compute_provider_exit : TransactionData
  compute_request :
      (job_id : ℕ) (provider : Option ℕ) (resource_type : ResourceType) (capacity : ComputeCapacity)
      (max_price_per_hour duration_secs escrow_amount : ℕ)
      → TransactionData
  compute_accept : (job_id price_per_hour : ℕ) → TransactionData
  compute_start : (job_id : ℕ) → TransactionData
  compute_settle : (job_id : ℕ) (usage : ComputeUsage) → TransactionData
  compute_cancel : (job_id : ℕ) → TransactionData
  compute_dispute :
      (dispute_id job_id : ℕ) (dispute_type : DisputeType) (evidence_hash : ℕ) → TransactionData
  compute_resolve_dispute :
      (dispute_id winner user_refund provider_payment slash_amount : ℕ) → TransactionData
  settlement : (user provider gross_amount fee_amount : ℕ) → TransactionData
