-- ===== src/Chain/Making.antt =====
-- core/blockchain/src/block.rs: making and checking blocks, and the Merkle root of
-- core/blockchain/src/types/primitives.rs.
use is_a_chain.Prelude.{
  ℕ, zero, suc, not, List, [], ◌∷◌, ◌++◌, map, length, Option, ltb, leb, ◌==◌, if◌then◌else◌,
  Result, ok, err, add_u64, be_bytes, le_bytes,
}
use is_a_chain.Transaction.{
  Transaction, Signature, TransactionError, tx_hash, verify as verify_transaction,
  validator_min_stake,
}
use is_a_chain.Chain.Data.{Block, BlockHeader, ConsensusData}

pub data BlockError : Type 0 where
  invalid_hash invalid_transactions_root invalid_gas_used : (expected actual : ℕ) → BlockError
  gas_limit_exceeded : (limit used : ℕ) → BlockError
  invalid_timestamp : (timestamp now : ℕ) → BlockError
  invalid_transaction : TransactionError → BlockError
  invalid_height invalid_parent_hash : (expected actual : ℕ) → BlockError

-- types/constants.rs
abbrev pub max_gas_per_block : ℕ
max_gas_per_block = 30_000_000

-- `iter().map(|tx| tx.gas_limit).sum()`, which wraps.
unfoldable pub gas_from : ℕ → List Transaction → ℕ
gas_from used [] = used
gas_from used (tx ∷ txs) = gas_from (add_u64 used tx.gas_limit) txs

-- The loop of `verify` over the transactions.
unfoldable pub verify_all :
    (Transaction → Signature → Option ℕ) → List Transaction → Result (Unit {0}) BlockError
verify_all recover [] = ok tt
verify_all recover (tx ∷ txs) =
    let rest = verify_all recover txs in
    elim (verify_transaction recover tx) [ ok _ ↦ rest | err e ↦ err (invalid_transaction e) ]

-- Blake3 of a byte string.
module _ (hash_data : List ℕ → ℕ) where
  abbrev pub join : ℕ → ℕ → ℕ
  join a b = hash_data (be_bytes 32 a ++ be_bytes 32 b)

  -- One turn of the loop of `merkle_root`: a last hash without a partner is joined with itself.
  unfoldable pub next_level : List ℕ → List ℕ
  next_level [] = []
  next_level (a ∷ []) = join a a ∷ []
  next_level (a ∷ b ∷ level) = join a b ∷ next_level level

  -- `while current_level.len() > 1`
  unfoldable pub climb : (fuel : ℕ) → List ℕ → List ℕ
  unfolding next_level
  climb zero level = level
  climb (suc fuel) level =
      let rest = climb fuel (next_level level) in if ltb 1 (length level) then rest else level

  abbrev pub first : List ℕ → ℕ
  first [] = 0
  first (a ∷ _) = a

  -- A level is about half as long as the one below it, so the length is enough fuel.
  unfoldable pub merkle_root : List ℕ → ℕ
  unfolding climb
  merkle_root hashes = first (climb (length hashes) hashes)

  -- `serialize` is bincode, `digest` the hash of a transaction.
  module _ (serialize : BlockHeader → List ℕ) (digest : Transaction → ℕ) where
    abbrev pub compute_hash : BlockHeader → ℕ
    compute_hash header = hash_data (serialize header)

    abbrev pub transactions_root : List Transaction → ℕ
    transactions_root txs = merkle_root (map (tx_hash digest) txs)

    -- The clock gives `timestamp`.
    unfoldable pub new_block :
        (timestamp height parent_hash : ℕ)
        → List Transaction
        → (state_root receipts_root proposer gas_limit : ℕ) → ConsensusData
        → Block
    new_block timestamp height parent_hash txs state_root receipts_root proposer gas_limit
          consensus_data =
        let header : BlockHeader = record {
          height = height;
          parent_hash = parent_hash;
          transactions_root = transactions_root txs;
          state_root = state_root;
          receipts_root = receipts_root;
          timestamp = timestamp;
          gas_limit = gas_limit;
          gas_used = gas_from 0 txs;
          proposer = proposer;
          extra_data = [];
          consensus_data = consensus_data;
        } in
        record { header = header; transactions = txs; hash = compute_hash header }

    unfoldable pub verify_block :
        (Transaction → Signature → Option ℕ) → (now : ℕ) → Block → Result (Unit {0}) BlockError
    unfolding verify_all
    verify_block recover now b =
        let h = b.header in
        if not (compute_hash h == b.hash)
        then err (invalid_hash (compute_hash h) b.hash)
        else if not (transactions_root b.transactions == h.transactions_root)
        then err (invalid_transactions_root (transactions_root b.transactions) h.transactions_root)
        else if not (gas_from 0 b.transactions == h.gas_used)
        then err (invalid_gas_used (gas_from 0 b.transactions) h.gas_used)
        else if ltb h.gas_limit h.gas_used
        then err (gas_limit_exceeded h.gas_limit h.gas_used)
        else if ltb (add_u64 now 60_000) h.timestamp
        then err (invalid_timestamp h.timestamp now)
        else verify_all recover b.transactions

  -- The data that `build_block` gives to `Block::new` beside height, parent and transactions: the
  -- bytes of "state_root" and of "receipts_root" are hashed.
  abbrev pub built_consensus : ℕ → ConsensusData
  built_consensus height = record {
    validator_signatures = [];
    stake_data = record { total_stake = 0; min_stake = validator_min_stake; slash_penalties = [] };
    randomness = hash_data (le_bytes 8 height);
  }

  abbrev pub built_state_root : ℕ
  built_state_root = hash_data (115 ∷ 116 ∷ 97 ∷ 116 ∷ 101 ∷ 95 ∷ 114 ∷ 111 ∷ 111 ∷ 116 ∷ [])

  abbrev pub built_receipts_root : ℕ
  built_receipts_root =
      hash_data (114 ∷ 101 ∷ 99 ∷ 101 ∷ 105 ∷ 112 ∷ 116 ∷ 115 ∷ 95 ∷ 114 ∷ 111 ∷ 111 ∷ 116 ∷ [])

unfoldable pub is_valid_successor : Block → Block → Result (Unit {0}) BlockError
is_valid_successor b parent =
    if not (b.header.height == add_u64 parent.header.height 1)
    then err (invalid_height (add_u64 parent.header.height 1) b.header.height)
    else if not (b.header.parent_hash == parent.hash)
    then err (invalid_parent_hash parent.hash b.header.parent_hash)
    else if leb b.header.timestamp parent.header.timestamp
    then err (invalid_timestamp b.header.timestamp parent.header.timestamp)
    else ok tt
