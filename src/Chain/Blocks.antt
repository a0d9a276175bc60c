-- ===== src/Chain/Blocks.antt =====
-- How blocks extend the chain in core/blockchain/src/blockchain/execution.rs, and what a block
-- that fails leaves behind.
use is_a_chain.Prelude.{
  ◌≡◌, List, [], ◌∷◌, ◌++◌, arith, none, some, get, get-insert_self, ok, err, add_u64,
}
use is_a_chain.Transaction.{Transaction}
use is_a_chain.Chain.{
  Storage, Blockchain, Block, BlockchainError, execute_transaction, execute_all, follows,
  commit_block, add_block,
}

module _ {S : Type 0} (db : Storage S) where
  -- What the execution of transactions leaves alone.
  record SameChain (c c' : Blockchain S) : Type 0 where
    pub same_head : c'.head ≡ c.head
    pub same_height : c'.height ≡ c.height
    pub same_blocks : c'.blocks ≡ c.blocks
    pub same_pool : c'.pool ≡ c.pool
    pub same_store : c'.store ≡ c.store

  execute_transaction-SameChain :
      (tx : Transaction) (c : Blockchain S) → SameChain c (execute_transaction db tx c).1
  unfolding execute_transaction
  execute_transaction-SameChain tx c = ground arith

  execute_all-SameChain :
      (txs : List Transaction) (c : Blockchain S) → SameChain c (execute_all db txs c).1
  unfolding execute_all
  execute_all-SameChain [] c = ground arith
  execute_all-SameChain (tx ∷ txs) c = ground (
    arith,
    execute_transaction-SameChain tx c,
    execute_all-SameChain txs (execute_transaction db tx c).1,
  )

  -- A block is accepted only at the next height with the head as its parent, and then it is the
  -- head, the height is its own, and it is found under its hash.
  pub add_block_links :
      (block : Block) (c : Blockchain S)
      → (add_block db block c).0 ≡ ok tt
      → let c' = (add_block db block c).1 in
        (block.header.height ≡ add_u64 c.height 1)
        × (block.header.parent_hash ≡ c.head)
        × (c'.height ≡ block.header.height)
        × (c'.head ≡ block.hash)
        × (get block.hash c'.blocks ≡ some block)
  unfolding add_block commit_block
  add_block_links block c done =
      ground (
        arith,
        execute_all-SameChain block.transactions c,
        get-insert_self block.hash block c.blocks,
      )

  execute_all_stops :
      (done : List Transaction) (bad : Transaction) (rest : List Transaction) (e : BlockchainError)
      (c : Blockchain S)
      → (execute_all db done c).0 ≡ ok tt
      → (execute_transaction db bad (execute_all db done c).1).0 ≡ err e
      → execute_all db (done ++ bad ∷ rest) c ≡ (err e, (execute_all db done c).1)
  unfolding execute_all execute_transaction
  execute_all_stops [] bad rest e c ok_done failed = ground arith
  execute_all_stops (tx ∷ done) bad rest e c ok_done failed =
      ground (arith, execute_all_stops done bad rest e (execute_transaction db tx c).1)

  -- A block with the right height and parent that fails at some transaction is refused with that
  -- transaction's error, but the effects of the transactions before it stay on the accounts,
  -- while head, height, blocks and pool are as before.
  pub failed_block_keeps_effects :
      (block : Block) (done : List Transaction) (bad : Transaction) (rest : List Transaction)
      (e : BlockchainError) (c : Blockchain S)
      → follows block c ≡ none
      → block.transactions ≡ done ++ bad ∷ rest
      → (execute_all db done c).0 ≡ ok tt
      → (execute_transaction db bad (execute_all db done c).1).0 ≡ err e
      → let (r, c') = add_block db block c in
        (r ≡ err e)
        × (c'.accounts ≡ (execute_all db done c).1.accounts)
        × (c'.head ≡ c.head)
        × (c'.height ≡ c.height)
        × (c'.blocks ≡ c.blocks)
        × (c'.pool ≡ c.pool)
  unfolding add_block
  failed_block_keeps_effects block done bad rest e c fits split ok_done failed =
      ground
        (arith, execute_all_stops done bad rest e c ok_done failed, execute_all-SameChain done c)
