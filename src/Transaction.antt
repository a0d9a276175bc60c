-- ===== src/Transaction.antt =====
-- core/blockchain/src/transaction: transactions, their data and their validation. Byte strings are
-- lists of numbers. Serialization, Blake3 and secp256k1 are parameters where a module needs them.
mod Data
pub use Data.*
use is_a_chain.Prelude.{
  ℕ, ◌*◌, ◌/◌, ◌+◌, Bool, true, false, ◌&&◌, ◌||◌, List, [], ◌∷◌, Option, none, some, String,
  length, ltb, leb, ◌==◌, not, if◌then◌else◌, Result, ok, err, mul_u128,
}

pub record Signature : Type 0 where
  pub r : List ℕ
  pub s : List ℕ
  pub v : ℕ

pub record Transaction : Type 0 where
  pub sender : ℕ
  pub nonce : ℕ
  pub payload : TransactionData
  pub gas_limit : ℕ
  pub gas_price : ℕ
  pub chain_id : ℕ
  pub signature : Option Signature
  pub hash : Option ℕ

-- The errors that this part of the crate returns.
pub data TransactionError : Type 0 where
  invalid_private_key signing_failed missing_signature invalid_signature : TransactionError
  invalid_sender : (expected recovered : ℕ) → TransactionError
  invalid_amount empty_bytecode bytecode_too_large : TransactionError
  insufficient_stake_amount insufficient_delegation_amount invalid_commission_rate :
      TransactionError
  invalid_nonce : (expected actual : ℕ) → TransactionError
  gas_limit_too_low gas_price_too_low insufficient_balance : TransactionError
  insufficient_provider_stake no_resource_types invalid_capacity invalid_price : TransactionError
  invalid_endpoint invalid_duration insufficient_escrow job_not_found : TransactionError
  provider_not_found provider_not_active job_already_accepted invalid_job_state : TransactionError
  not_authorized dispute_window_expired invalid_dispute_resolution : TransactionError
  capacity_exceeded : TransactionError

-- `Transaction::new`
abbrev pub new : ℕ → ℕ → TransactionData → ℕ → ℕ → ℕ → Transaction
new sender nonce payload gas_limit gas_price chain_id = record {
  sender = sender;
  nonce = nonce;
  payload = payload;
  gas_limit = gas_limit;
  gas_price = gas_price;
  chain_id = chain_id;
  signature = none;
  hash = none;
}

-- Both factors are 64-bit, so the 128-bit product does not wrap.
unfoldable pub fee : Transaction → ℕ
fee tx = mul_u128 tx.gas_limit tx.gas_price

-- `Transaction::hash`: a cached hash is returned unchecked. `digest` is Blake3 of the bincode
-- form, of the transaction with its cached hash cleared.
unfoldable pub tx_hash : (Transaction → ℕ) → Transaction → ℕ
tx_hash digest tx = elim tx.hash [ some h ↦ h | none ↦ digest (record tx { hash = none }) ]

-- types/constants.rs
abbrev pub validator_min_stake : ℕ
validator_min_stake = 32_000_000_000_000_000_000_000

abbrev pub delegation_min_amount : ℕ
delegation_min_amount = 1_000_000_000_000_000_000

abbrev pub provider_min_stake : ℕ
provider_min_stake = 1_000_000_000_000_000_000_000

abbrev pub job_min_escrow : ℕ
job_min_escrow = 100_000_000_000_000_000

abbrev is_empty : String → Bool
is_empty String.[] = true
is_empty (String.◌∷◌ _ _) = false

abbrev is_nil {ℓ} : {A : Type ℓ} → List A → Bool
is_nil [] = true
is_nil (_ ∷ _) = false

abbrev has_no_cpu_or_memory : ComputeCapacity → Bool
has_no_cpu_or_memory c = c.cpu_millicores == 0 || c.memory_mb == 0

abbrev Verdict : Type 0
Verdict = Result (Unit {0}) TransactionError

unfoldable pub validate_data : TransactionData → Verdict
validate_data (transfer to amount bytes) = if amount == 0 then err invalid_amount else ok tt
validate_data (contract_deploy bytecode constructor_args salt) =
    if is_nil bytecode
    then err empty_bytecode
    else if ltb 1_000_000 (length bytecode)
    then err bytecode_too_large
    else ok tt
validate_data (stake amount validator_info) =
    if ltb amount validator_min_stake
    then err insufficient_stake_amount
    else if ltb 10_000 validator_info.commission_rate
    then err invalid_commission_rate
    else ok tt
validate_data (delegate validator amount) =
    if ltb amount delegation_min_amount then err insufficient_delegation_amount else ok tt
validate_data (compute_register types capacity price min_secs max_secs staked region endpoint) =
    if ltb staked provider_min_stake
    then err insufficient_provider_stake
    else if is_nil types
    then err no_resource_types
    else if has_no_cpu_or_memory capacity
    then err invalid_capacity
    else if price == 0
    then err invalid_price
    else if is_empty endpoint
    then err invalid_endpoint
    else ok tt
validate_data (compute_request job_id provider resource capacity max_price duration escrow) =
    if has_no_cpu_or_memory capacity
    then err invalid_capacity
    else if max_price == 0
    then err invalid_price
    else if duration == 0
    then err invalid_duration
    else if ltb escrow job_min_escrow
    then err insufficient_escrow
    else if ltb escrow (mul_u128 duration max_price / 3600)
    then err insufficient_escrow
    else ok tt
validate_data (compute_accept job_id price) = if price == 0 then err invalid_price else ok tt
validate_data (compute_settle job_id usage) =
    if usage.duration_secs == 0 then err invalid_duration else ok tt
validate_data (compute_resolve_dispute dispute_id winner user_refund provider_payment slashed) =
    if ltb 0 slashed && (user_refund == 0 && provider_payment == 0)
    then err invalid_dispute_resolution
    else ok tt
validate_data _ = ok tt

-- `Transaction::verify`. `recover` is secp256k1's recovery from the signing hash, with the address
-- of the recovered key; it fails on a malformed signature.
unfoldable pub verify : (Transaction → Signature → Option ℕ) → Transaction → Verdict
verify recover tx = elim tx.signature [
  | none ↦ err missing_signature
  | some signature ↦ elim (recover tx signature) [
    | none ↦ err invalid_signature
    | some recovered ↦
        if not (recovered == tx.sender)
        then err (invalid_sender tx.sender recovered)
        else validate_data tx.payload
  ]
]
