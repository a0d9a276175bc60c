-- ===== src/Mempool.antt =====
-- core/blockchain/src/mempool.rs: pending transactions by hash, and their hashes by sender.
pub mod Index
pub mod Order
mod Tests
use is_a_chain.Prelude.{
  ℕ, Bool, true, false, List, [], ◌∷◌, Option, none, some, length, take, set_remove, ltb, leb, ◌==◌,
  if◌then◌else◌, HashMap, get, insert, remove, contains_key, push_item, values, Result, ok, err,
}
use is_a_chain.Transaction.{Transaction, tx_hash}

pub data MempoolError : Type 0 where
  transaction_exists : (hash : ℕ) → MempoolError
  mempool_full : MempoolError
  transaction_evicted : (hash : ℕ) → MempoolError
  nonce_gap : (expected actual : ℕ) → MempoolError
  gas_price_too_low : (minimum actual : ℕ) → MempoolError
  transaction_too_large : (size : ℕ) → MempoolError
  replacement_underpriced : MempoolError
  too_many_pending_transactions : (address : ℕ) → MempoolError

pub record Mempool : Type 0 where
  pub transactions : HashMap Transaction
  pub by_sender : HashMap (List ℕ)
  pub max_size : ℕ

abbrev pub new : ℕ → Mempool
new max_size = record { transactions = []; by_sender = []; max_size = max_size }

-- `digest` is the hash of a transaction without a cached one.
unfoldable pub add_transaction :
    (Transaction → ℕ) → Transaction → Mempool → Result (Unit {0}) MempoolError × Mempool
add_transaction digest tx m =
    let h = tx_hash digest tx in
    if contains_key h m.transactions
    then (err (transaction_exists h), m)
    else if leb m.max_size (length m.transactions)
    then (err mempool_full, m)
    else if tx.gas_limit == 0
    then (err (gas_price_too_low 1 0), m)
    else (
      ok tt,
      record m {
        transactions = insert h tx m.transactions;
        by_sender = push_item tx.sender h m.by_sender;
      },
    )

abbrev pub get_transaction : ℕ → Mempool → Option Transaction
get_transaction h m = get h m.transactions

-- The sender's hashes without one; an empty list is dropped.
abbrev pub unlist : ℕ → ℕ → HashMap (List ℕ) → HashMap (List ℕ)
unlist sender h by_sender = elim (get sender by_sender) [
  | none ↦ by_sender
  | some hashes ↦ elim (set_remove hashes h) [
    | [] ↦ remove sender by_sender
    | x ∷ kept ↦ insert sender (x ∷ kept) by_sender
  ]
]

unfoldable pub remove_transaction : ℕ → Mempool → Option Transaction × Mempool
remove_transaction h m = elim (get h m.transactions) [
  | none ↦ (none, m)
  | some tx ↦ (
    some tx,
    record m { transactions = remove h m.transactions; by_sender = unlist tx.sender h m.by_sender },
  )
]

unfoldable pub remove_transactions : List ℕ → Mempool → Mempool
remove_transactions [] m = m
remove_transactions (h ∷ hashes) m = remove_transactions hashes (remove_transaction h m).1

-- `sort_by`'s comparison does not put `a` after `b`: a higher gas price, or the same and a nonce
-- at most as high.
abbrev pub in_order : Transaction → Transaction → Bool
in_order a b =
    if ltb b.gas_price a.gas_price
    then true
    else if b.gas_price == a.gas_price
    then leb a.nonce b.nonce
    else false

-- Ties keep the order of the list: the standard library's sort is stable.
unfoldable pub insert_sorted : Transaction → List Transaction → List Transaction
insert_sorted tx [] = tx ∷ []
insert_sorted tx (x ∷ xs) = if in_order tx x then tx ∷ x ∷ xs else x ∷ insert_sorted tx xs

unfoldable pub sort : List Transaction → List Transaction
unfolding insert_sorted
sort [] = []
sort (tx ∷ txs) = insert_sorted tx (sort txs)

unfoldable pub get_pending_transactions : ℕ → Mempool → List Transaction
unfolding sort
get_pending_transactions max_count m = take max_count (sort (values m.transactions))

abbrev pub get_all_transactions : Mempool → List Transaction
get_all_transactions m = values m.transactions

unfoldable pub clear : Mempool → Mempool
clear m = record m { transactions = []; by_sender = [] }

-- A call of a method that writes the pool.
pub data Call : Type 0 where
  adds : Transaction → Call
  removes : (hash : ℕ) → Call
  clears : Call

module _ (digest : Transaction → ℕ) where
  unfoldable pub step : Mempool → Call → Mempool
  step m (adds tx) = (add_transaction digest tx m).1
  step m (removes h) = (remove_transaction h m).1
  step m clears = clear m

  unfoldable pub run : Mempool → List Call → Mempool
  unfolding step
  run m [] = m
  run m (c ∷ cs) = run (step m c) cs
