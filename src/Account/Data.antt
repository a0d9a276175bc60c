-- ===== src/Account/Data.antt =====
-- core/blockchain/src/account: accounts, staking information, and what is read off them.
-- `Account::hash` is modelled where it is used, in World.
use is_a_chain.Prelude.{ℕ, Bool, true, false, List, Option, none, some, String, is_some, HashMap}

pub data SystemAccountPurpose : Type 0 where
  validator_rewards treasury bridge_escrow fee_collection : SystemAccountPurpose

pub data AccountType : Type 0 where
  external : AccountType
  contract : (created_at creator : ℕ) → AccountType
  system : (purpose : SystemAccountPurpose) → AccountType

pub data JailReason : Type 0 where
  downtime double_sign invalid_proposal : JailReason

pub data SlashReason : Type 0 where
  double_sign malicious_behavior consensus_violation : SlashReason

pub data ValidatorStatus : Type 0 where
  active inactive : ValidatorStatus
  jailed : (jailed_at : ℕ) → JailReason → (unjail_at : ℕ) → ValidatorStatus
  slashed : (slashed_at : ℕ) → SlashReason → ValidatorStatus

pub record ValidatorDescription : Type 0 where
  pub moniker : String
  pub identity : String
  pub website : String
  pub security_contact : String
  pub details : String

pub record ValidatorAccount : Type 0 where
  pub public_key : List ℕ
  pub commission_rate : ℕ
  pub commission_rewards : ℕ
  pub min_self_delegation : ℕ
  pub self_delegation : ℕ
  pub total_delegation : ℕ
  pub status : ValidatorStatus
  pub description : ValidatorDescription
  pub signed_blocks : ℕ
  pub missed_blocks : ℕ
  pub last_active_height : ℕ
  pub total_slashed : ℕ

pub record Delegation : Type 0 where
  pub amount : ℕ
  pub delegated_at : ℕ
  pub rewards : ℕ
  pub last_reward_height : ℕ

pub record UnbondingDelegation : Type 0 where
  pub validator : ℕ
  pub amount : ℕ
  pub unbonding_height : ℕ
  pub completion_height : ℕ

pub record StakingInfo : Type 0 where
  pub validator : Option ValidatorAccount
  pub delegations : HashMap Delegation
  pub total_staked : ℕ
  pub pending_rewards : ℕ
  pub unbonding : List UnbondingDelegation

pub data AccountError : Type 0 where
  insufficient_balance : (available required : ℕ) → AccountError
  already_validator : AccountError
  insufficient_self_delegation : (minimum actual : ℕ) → AccountError
  no_staking_info : AccountError
  no_delegation : (validator : ℕ) → AccountError
  insufficient_delegation : (available required : ℕ) → AccountError
  validator_jailed validator_slashed invalid_commission_rate : AccountError

pub record Account : Type 0 where
  pub balance : ℕ
  pub nonce : ℕ
  pub storage_root : ℕ
  pub code_hash : ℕ
  pub account_type : AccountType
  pub staking_info : Option StakingInfo

abbrev pub new_external : ℕ → Account
new_external balance = record {
  balance = balance;
  nonce = 0;
  storage_root = 0;
  code_hash = 0;
  account_type = external;
  staking_info = none;
}

abbrev pub new_contract : ℕ → ℕ → ℕ → ℕ → ℕ → Account
new_contract balance code_hash storage_root created_at creator = record {
  balance = balance;
  nonce = 0;
  storage_root = storage_root;
  code_hash = code_hash;
  account_type = contract created_at creator;
  staking_info = none;
}

abbrev pub new_system : SystemAccountPurpose → ℕ → Account
new_system purpose balance = record {
  balance = balance;
  nonce = 0;
  storage_root = 0;
  code_hash = 0;
  account_type = system purpose;
  staking_info = none;
}

abbrev pub is_validator : Account → Bool
is_validator a = elim a.staking_info [ none ↦ false | some info ↦ is_some info.validator ]

abbrev pub validator_status : Account → Option ValidatorStatus
validator_status a = elim a.staking_info [
  | none ↦ none
  | some info ↦ elim info.validator [ none ↦ none | some v ↦ some v.status ]
]

abbrev is_active : Option ValidatorStatus → Bool
is_active (some active) = true
is_active _ = false

abbrev pub is_active_validator : Account → Bool
is_active_validator a = is_active (validator_status a)
