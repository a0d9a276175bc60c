-- ===== src/Chain/Selection.antt =====
-- What block production in core/blockchain/src/blockchain/execution.rs takes from the pool.
use mathlib.Core.List.{Perm}
use mathlib.Core.List.Perm
use is_a_chain.Prelude.{
  ◌≢◌, ◌⊎◌, ◌*◌, if◌then◌else◌, u128_mod, ℕ, ◌+◌, ◌≤◌, ◌<◌, ◌≡◌, List, [], ◌∷◌,
}
use is_a_chain.Transaction.{Transaction, transfer}
use is_a_chain.Chain.{get_balance, get_nonce, Storage, Blockchain, is_includable}

-- What a transaction costs its sender: the gas, and the amount of a transfer.
abbrev pub cost_of : Transaction → ℕ
cost_of tx = elim tx.payload [
  | transfer to amount bytes ↦ amount + tx.gas_limit * tx.gas_price
  | _ ↦ tx.gas_limit * tx.gas_price
]

module _ {S : Type 0} (db : Storage S) (c : Blockchain S) where
  abbrev passed_over : List Transaction → List Transaction
  passed_over [] = []
  passed_over (tx ∷ txs) = if is_includable db c tx then passed_over txs else tx ∷ passed_over txs

  -- The nonce is the sender's, and the sender's balance covers the cost, if that is below 2 ^ 128.
  abbrev pub IsPayable : Transaction → Type 0
  IsPayable tx =
      (get_nonce tx.sender c ≡ tx.nonce)
      × ((cost_of tx ≤ get_balance db tx.sender c) ⊎ (u128_mod ≤ cost_of tx))

  -- The nonce is another, or the sender's balance does not cover the cost.
  abbrev pub IsUnpayable : Transaction → Type 0
  IsUnpayable tx = (get_nonce tx.sender c ≢ tx.nonce) ⊎ (get_balance db tx.sender c < cost_of tx)
