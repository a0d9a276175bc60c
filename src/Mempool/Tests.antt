-- ===== src/Mempool/Tests.antt =====
-- Tests of the pool, and its theorems at concrete inputs.
use is_a_chain.Prelude.{◌*◌, ℕ, ◌+◌, ◌≡◌, ◌≤◌, ◌++◌, refl, List, [], ◌∷◌, arith, length, values}
use mathlib.Core.List.{Perm}
use is_a_chain.Transaction.{Transaction, new, transfer, tx_hash}
use is_a_chain.Mempool.{
  Mempool, Call, adds, removes, add_transaction, remove_transaction, get_pending_transactions, run,
}
use is_a_chain.Mempool
use is_a_chain.Mempool.Index.{IsConsistent, run-IsConsistent}
use is_a_chain.Mempool.Order.{IsOrdered, pending_are_best}

abbrev digest : Transaction → ℕ
digest tx = tx.sender + 100 * tx.nonce + 10 * tx.gas_price

abbrev payment : ℕ → ℕ → ℕ → Transaction
payment sender nonce gas_price = new sender nonce (transfer 9 1000 []) 21_000 gas_price 15489

abbrev empty_pool : Mempool
empty_pool = Mempool.new 3

empty_pool-IsConsistent : IsConsistent empty_pool
empty_pool-IsConsistent = record {
  bounded = omega arith;
  by_hash = tt;
  senders = tt;
  indexed = λ h s. refl;
}

-- The fourth addition finds the pool full.
abbrev calls : List Call
calls =
    adds (payment 1 0 10)
    ∷ adds (payment 1 1 50)
    ∷ adds (payment 2 0 30)
    ∷ adds (payment 3 0 90)
    ∷ removes 101
    ∷ []

run-IsConsistent_example : IsConsistent (run digest empty_pool calls)
run-IsConsistent_example = run-IsConsistent digest empty_pool calls empty_pool-IsConsistent

pending_by_price :
    get_pending_transactions 2 (run digest empty_pool calls) ≡ payment 1 1 50 ∷ payment 2 0 30 ∷ []
unfolding run add_transaction remove_transaction tx_hash get_pending_transactions
pending_by_price = refl

pending_are_best_example :
    let m = run digest empty_pool calls in
    let chosen = get_pending_transactions 2 m in
    (length chosen ≤ 2)
    × ((rest : List Transaction) × Perm (chosen ++ rest) (values m.transactions)
        × IsOrdered (chosen ++ rest))
pending_are_best_example = pending_are_best 2 (run digest empty_pool calls)
