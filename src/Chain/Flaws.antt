-- ===== src/Chain/Flaws.antt =====
-- Transactions of core/blockchain/src/blockchain/execution.rs that create or misplace money.
use is_a_chain.Prelude.{
  List, ℕ, ◌+◌, ◌-◌, ◌≤◌, ◌<◌, ◌≡◌, arith, none, some, get, get-insert_self, ok, u128_mod, sub_u128,
  add_u64,
}
use is_a_chain.Account.{Account, new_external}
use is_a_chain.Transaction.{Transaction, transfer, unstake, settlement}
use is_a_chain.Chain.{
  Storage, Blockchain, credit, execute_transaction, execute_data, get_balance, modify_or_insert,
  settle, debit,
}
use is_a_chain.Chain.Conservation.{circulating, credit_sum, held}

module _ {S : Type 0} (db : Storage S) where
  -- Unstaking is always accepted. It takes the amount from the sender's balance instead of
  -- returning it, and wraps round to almost 2 ^ 128 where the balance is smaller.
  pub unstake_takes :
      (tx : Transaction) (amount validator : ℕ) (acc : Account) (c : Blockchain S)
      → tx.payload ≡ unstake amount validator
      → get tx.sender c.accounts ≡ some acc
      → acc.balance < amount
      → amount < u128_mod
      → let (r, c') = execute_transaction db tx c in
        (r ≡ ok tt)
        × (get tx.sender c'.accounts
            ≡ some (record acc {
              balance = acc.balance + u128_mod - amount;
              nonce = add_u64 acc.nonce 1;
            }))
  unfolding execute_transaction execute_data sub_u128
  unstake_takes tx amount validator acc c e found less fits =
      ground (arith, get-insert_self tx.sender (debit amount acc) c.accounts)

  -- A sender that is in the storage engine and not in memory is not debited: its transfer is
  -- accepted, and the balances in memory grow by the amount.
  pub unloaded_transfer_mints :
      (tx : Transaction) (to amount : ℕ) (bytes : List ℕ) (acc : Account) (s : S) (c : Blockchain S)
      → tx.payload ≡ transfer to amount bytes
      → get tx.sender c.accounts ≡ none
      → c.store ≡ some s
      → db.get_account tx.sender s ≡ ok (some acc)
      → amount ≤ acc.balance
      → circulating c.accounts + amount < u128_mod
      → let (r, c') = execute_transaction db tx c in
        (r ≡ ok tt) × (circulating c'.accounts ≡ circulating c.accounts + amount)
  unfolding execute_transaction execute_data get_balance
  unloaded_transfer_mints tx to amount bytes acc s c e absent stored loaded covered fits =
      ground (arith, credit_sum to amount c.accounts fits)

  -- A settlement checks the balance of the sender and debits `user`: where `user` has no account
  -- in memory, provider and treasury are paid the gross amount out of nothing.
  pub settlement_of_absent_user_mints :
      (tx : Transaction) (user provider gross fee : ℕ) (c : Blockchain S)
      → tx.payload ≡ settlement user provider gross fee
      → get user c.accounts ≡ none
      → gross ≤ held tx.sender c.accounts
      → fee ≤ gross
      → circulating c.accounts + gross < u128_mod
      → let (r, c') = execute_transaction db tx c in
        (r ≡ ok tt) × (circulating c'.accounts ≡ circulating c.accounts + gross)
  unfolding execute_transaction execute_data settle get_balance
  settlement_of_absent_user_mints tx user provider gross fee c e absent covered h fits =
      let net = gross - fee in
      let earned = modify_or_insert provider (credit net) (new_external net) c.accounts in
      ground (arith, credit_sum provider net c.accounts, credit_sum 0 fee earned)
