-- ===== src/Chain/Produce.antt =====
-- core/blockchain/src/blockchain/execution.rs: submitting transactions and producing blocks.
use is_a_chain.Prelude.{
  ℕ, Bool, false, not, List, [], ◌∷◌, Option, map, ltb, leb, ◌==◌, if◌then◌else◌, ok, err, add_u64,
  add_u128,
}
use is_a_chain.Transaction.{Transaction, Signature, fee, tx_hash, verify, transfer}
use is_a_chain.Mempool.{Mempool}
use is_a_chain.Mempool
use is_a_chain.Chain.Data.{
  Block, BlockHeader, invalid_block_height, insufficient_balance, transaction, mempool, validation,
}
use is_a_chain.Chain.State.{Storage, Blockchain, Outcome, get_balance, get_nonce}
use is_a_chain.Chain.Making.{
  new_block, built_state_root, built_receipts_root, built_consensus, max_gas_per_block,
}
use is_a_chain.Chain.Execute.{add_block}

-- What the sender must hold for a transaction to be accepted or put in a block.
unfoldable pub total_cost : Transaction → ℕ
total_cost tx = elim tx.payload [ transfer to amount bytes ↦ add_u128 amount (fee tx) | _ ↦ fee tx ]

module _ {S : Type 0} (db : Storage S) where
  module _ (recover : Transaction → Signature → Option ℕ) (digest : Transaction → ℕ) where
    unfoldable pub submit_transaction : Transaction → Blockchain S → Outcome S ℕ
    unfolding get_balance get_nonce total_cost
    submit_transaction tx c = elim (verify recover tx) [
      | err e ↦ (err (transaction e), c)
      | ok _ ↦
          let expected = get_nonce tx.sender c in
          if not (tx.nonce == expected)
          then (err (validation (invalid_block_height expected tx.nonce)), c)
          else if ltb (get_balance db tx.sender c) (total_cost tx)
          then (err (validation insufficient_balance), c)
          else let (r, pool') = Mempool.add_transaction digest tx c.pool in
            let c' : Blockchain S = record c { pool = pool' } in
            elim r [ ok _ ↦ (ok (tx_hash digest tx), c') | err e ↦ (err (mempool e), c') ]
    ]

  -- The filter of `build_block`: the sender's nonce is current and its balance covers the cost.
  unfoldable pub is_includable : Blockchain S → Transaction → Bool
  unfolding get_balance get_nonce total_cost
  is_includable c tx =
      if get_nonce tx.sender c == tx.nonce
      then leb (total_cost tx) (get_balance db tx.sender c)
      else false

  unfoldable pub select : Blockchain S → List Transaction → List Transaction
  unfolding is_includable
  select c [] = []
  select c (tx ∷ txs) = if is_includable c tx then tx ∷ select c txs else select c txs

  -- `hash_data` is Blake3, `serialize` bincode, `digest` the hash of a transaction.
  module _ (hash_data : List ℕ → ℕ) (serialize : BlockHeader → List ℕ)
      (digest : Transaction → ℕ) where
    unfoldable pub build_block : (timestamp max_transactions : ℕ) → Blockchain S → Block
    unfolding select new_block
    build_block timestamp max_transactions c =
        new_block hash_data serialize digest timestamp (add_u64 c.height 1) c.head
          (select c (Mempool.get_pending_transactions max_transactions c.pool))
          (built_state_root hash_data) (built_receipts_root hash_data) 0 max_gas_per_block
          (built_consensus hash_data c.height)

    -- The included transactions leave the pool before the block is added.
    unfoldable pub produce_block : (timestamp max_transactions : ℕ) → Blockchain S → Outcome S ℕ
    unfolding build_block add_block
    produce_block timestamp max_transactions c =
        let block = build_block timestamp max_transactions c in
        let hashes = map (tx_hash digest) block.transactions in
        let (r, c') =
          add_block db block (record c { pool = Mempool.remove_transactions hashes c.pool }) in
        elim r [ ok _ ↦ (ok block.hash, c') | err e ↦ (err e, c') ]
