-- ===== src/Chain/Data.antt =====
-- core/blockchain/src/block.rs: blocks; and the errors of error.rs that the chain returns.
use is_a_chain.Prelude.{ℕ, List}
use is_a_chain.Transaction.{Transaction, Signature, TransactionError}
use is_a_chain.Mempool.{MempoolError}
use is_a_chain.Token.{TokenError}

pub record ValidatorSignature : Type 0 where
  pub validator : ℕ
  pub signature : Signature
  pub voting_power : ℕ

pub data SlashType : Type 0 where
  double_sign downtime invalid_proposal equivocating_vote : SlashType

pub record SlashPenalty : Type 0 where
  pub validator : ℕ
  pub penalty_type : SlashType
  pub amount : ℕ
  pub evidence_hash : ℕ

pub record StakeData : Type 0 where
  pub total_stake : ℕ
  pub min_stake : ℕ
  pub slash_penalties : List SlashPenalty

pub record ConsensusData : Type 0 where
  pub validator_signatures : List ValidatorSignature
  pub stake_data : StakeData
  pub randomness : ℕ

pub record BlockHeader : Type 0 where
  pub height : ℕ
  pub parent_hash : ℕ
  pub transactions_root : ℕ
  pub state_root : ℕ
  pub receipts_root : ℕ
  pub timestamp : ℕ
  pub gas_limit : ℕ
  pub gas_used : ℕ
  pub proposer : ℕ
  pub extra_data : List ℕ
  pub consensus_data : ConsensusData

pub record Block : Type 0 where
  pub header : BlockHeader
  pub transactions : List Transaction
  pub hash : ℕ

pub data ValidationError : Type 0 where
  invalid_chain_id invalid_block_height : (expected actual : ℕ) → ValidationError
  invalid_parent_hash insufficient_balance : ValidationError

-- An error of the storage engine, by a number.
pub data BlockchainError : Type 0 where
  transaction : TransactionError → BlockchainError
  storage : ℕ → BlockchainError
  mempool : MempoolError → BlockchainError
  validation : ValidationError → BlockchainError
  token : TokenError → BlockchainError
