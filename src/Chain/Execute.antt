-- ===== src/Chain/Execute.antt =====
-- core/blockchain/src/blockchain/execution.rs: `execute_transaction` and `add_block`.
use is_a_chain.Prelude.{
  ℕ, not, List, [], ◌∷◌, Option, none, some, ltb, ◌==◌, if◌then◌else◌, insert, Result, ok, err,
  add_u64, saturating_sub,
}
use is_a_chain.Account.{new_external}
use is_a_chain.Transaction.{
  Transaction, TransactionData, transfer, stake, unstake, credit_purchase, credit_spend,
  agent_wallet_spend, settlement,
}
use is_a_chain.Chain.Data.{
  Block, ValidationError, invalid_block_height, invalid_parent_hash, insufficient_balance, storage,
  validation,
}
use is_a_chain.Chain.State.{
  Storage, Blockchain, Accounts, Outcome, and_modify, modify_or_insert, debit, credit, bump_nonce,
  get_balance,
}

-- The gross amount leaves `user`; the rest after the fee goes to `provider`, the fee to address 0.
unfoldable pub settle : (user provider gross fee : ℕ) → Accounts → Accounts
settle user provider gross fee_amount accounts =
    let net = saturating_sub gross fee_amount in
    let paid = and_modify user (debit gross) accounts in
    let earned = modify_or_insert provider (credit net) (new_external net) paid in
    modify_or_insert 0 (credit fee_amount) (new_external fee_amount) earned

-- The `match` of `execute_transaction` on the in-memory accounts, given the sender's balance;
-- `none` is the error `InsufficientBalance`, before any write.
unfoldable pub execute_data : (sender balance : ℕ) → TransactionData → Accounts → Option Accounts
unfolding settle
execute_data sender balance (transfer to amount bytes) accounts =
    if ltb balance amount
    then none
    else some (
        modify_or_insert to (credit amount) (new_external amount)
          (and_modify sender (debit amount) accounts))
execute_data sender balance (stake amount info) accounts =
    if ltb balance amount then none else some (and_modify sender (debit amount) accounts)
execute_data sender balance (unstake amount validator) accounts =
    some (modify_or_insert sender (debit amount) (new_external amount) accounts)
execute_data sender balance (credit_purchase buyer isa_amount) accounts =
    if ltb balance isa_amount then none else some (and_modify sender (debit isa_amount) accounts)
execute_data sender balance (credit_spend spender amount service) accounts =
    some (and_modify sender bump_nonce accounts)
execute_data sender balance (agent_wallet_spend wallet amount service) accounts =
    some (and_modify sender bump_nonce accounts)
execute_data sender balance (settlement user provider gross fee_amount) accounts =
    if ltb balance gross then none else some (settle user provider gross fee_amount accounts)
execute_data sender balance _ accounts = some (and_modify sender bump_nonce accounts)

abbrev pub finish : {S : Type 0} → Option Accounts → Blockchain S → Outcome S (Unit {0})
finish none c = (err (validation insufficient_balance), c)
finish (some accounts) c = (ok tt, record c { accounts = accounts })

-- The checks of `add_block` before any write.
abbrev pub follows : {S : Type 0} → Block → Blockchain S → Option ValidationError
follows block c =
    if not (block.header.height == add_u64 c.height 1)
    then some (invalid_block_height (add_u64 c.height 1) block.header.height)
    else if not (block.header.parent_hash == c.head)
    then some invalid_parent_hash
    else none

module _ {S : Type 0} (db : Storage S) where
  unfoldable pub execute_transaction : Transaction → Blockchain S → Outcome S (Unit {0})
  unfolding get_balance
  execute_transaction tx c =
      finish (execute_data tx.sender (get_balance db tx.sender c) tx.payload c.accounts) c

  -- The loop of `add_block`: the transactions before the one that fails have been executed.
  unfoldable pub execute_all : List Transaction → Blockchain S → Outcome S (Unit {0})
  execute_all [] c = (ok tt, c)
  execute_all (tx ∷ txs) c =
      let (r, c') = execute_transaction tx c in
      let rest = execute_all txs c' in elim r [ ok _ ↦ rest | err e ↦ (err e, c') ]

  -- Every account in memory is written, until a write fails.
  unfoldable pub put_accounts : Accounts → S → Result (Unit {0}) ℕ × S
  put_accounts [] s = (ok tt, s)
  put_accounts ((address, acc) ∷ accounts) s =
      let (r, s') = db.put_account address acc s in
      let rest = put_accounts accounts s' in elim r [ ok _ ↦ rest | err e ↦ (err e, s') ]

  unfoldable pub persist : Block → Accounts → S → Result (Unit {0}) ℕ × S
  unfolding put_accounts
  persist block accounts s =
      let (r, s') = db.put_block block s in
      let rest = put_accounts accounts s' in elim r [ ok _ ↦ rest | err e ↦ (err e, s') ]

  abbrev stored : Result (Unit {0}) ℕ × S → Blockchain S → Outcome S (Unit {0})
  stored (ok _, s) c = (ok tt, record c { store = some s })
  stored (err e, s) c = (err (storage e), record c { store = some s })

  -- After the transactions: the block is recorded, the head and the height move on, and the
  -- storage engine is written if there is one.
  unfoldable pub commit_block : Block → Blockchain S → Outcome S (Unit {0})
  unfolding persist
  commit_block block c =
      let c' : Blockchain S = record c {
        blocks = insert block.hash block c.blocks;
        head = block.hash;
        height = add_u64 c.height 1;
      } in
      elim c.store [ none ↦ (ok tt, c') | some s ↦ stored (persist block c.accounts s) c' ]

  unfoldable pub add_block : Block → Blockchain S → Outcome S (Unit {0})
  unfolding execute_all commit_block
  add_block block c = elim (follows block c) [
    | some e ↦ (err (validation e), c)
    | none ↦
        let (r, c') = execute_all block.transactions c in
        elim r [ ok _ ↦ commit_block block c' | err e ↦ (err e, c') ]
  ]
