-- ===== src/Mempool/Order.antt =====
-- Block building picks the best-paying transactions: `get_pending_transactions` and its sort in
-- core/blockchain/src/mempool.rs.
use mathlib.Core.List.{Perm}
use mathlib.Core.List.Perm
use is_a_chain.Prelude.{
  ℕ, ◌≤◌, ◌<◌, ◌≡◌, ◌⊎◌, true, false, List, [], ◌∷◌, ◌++◌, arith, some, length, All, if_elim, get,
  values, ok, insert, get-insert, get-insert_self, get-remove, insert-IsMap, drop, take-append-drop,
  length-take-le,
}
use is_a_chain.Transaction.{Transaction, tx_hash}
use is_a_chain.Mempool.{
  Mempool, in_order, insert_sorted, sort, get_pending_transactions, add_transaction,
  remove_transaction,
}
use is_a_chain.Mempool.Index.{IsConsistent}

-- A higher gas price, or the same price and a nonce at most as high.
abbrev pub Precedes : Transaction → Transaction → Type 0
Precedes a b = (b.gas_price < a.gas_price) ⊎ ((a.gas_price ≡ b.gas_price) × (a.nonce ≤ b.nonce))

-- Every transaction precedes all those behind it.
abbrev pub IsOrdered : List Transaction → Type 0
IsOrdered [] = Unit
IsOrdered (tx ∷ txs) = All (Precedes tx) txs × IsOrdered txs

in_order-Precedes : (a b : Transaction) → in_order a b ≡ true → Precedes a b
in_order-Precedes a b h = grind arith

in_order-false : (a b : Transaction) → in_order a b ≡ false → Precedes b a
in_order-false a b h = grind arith

Precedes-trans : (a b c : Transaction) → Precedes a b → Precedes b c → Precedes a c
Precedes-trans a b c p q = omega arith

All-Precedes :
    (a b : Transaction) (xs : List Transaction)
    → Precedes a b
    → All (Precedes b) xs
    → All (Precedes a) xs
All-Precedes a b [] p h = tt
All-Precedes a b (x ∷ xs) p h = (Precedes-trans a b x p h.0, All-Precedes a b xs p h.1)

All-insert_sorted :
    (a tx : Transaction) (xs : List Transaction)
    → Precedes a tx
    → All (Precedes a) xs
    → All (Precedes a) (insert_sorted tx xs)
unfolding insert_sorted
All-insert_sorted a tx [] p h = (p, tt)
All-insert_sorted a tx (x ∷ xs) p h =
    if_elim (All (Precedes a)) (in_order tx x) (λ _. (p, h))
      λ _. (h.0, All-insert_sorted a tx xs p h.1)

insert_sorted-IsOrdered :
    (tx : Transaction) (xs : List Transaction) → IsOrdered xs → IsOrdered (insert_sorted tx xs)
unfolding insert_sorted
insert_sorted-IsOrdered tx [] h = (tt, tt)
insert_sorted-IsOrdered tx (x ∷ xs) h =
    if_elim IsOrdered (in_order tx x)
      (λ e. let p = in_order-Precedes tx x e in ((p, All-Precedes tx x xs p h.0), h))
      λ e.
        (All-insert_sorted x tx xs (in_order-false tx x e) h.0, insert_sorted-IsOrdered tx xs h.1)

sort-IsOrdered : (xs : List Transaction) → IsOrdered (sort xs)
unfolding sort
sort-IsOrdered [] = tt
sort-IsOrdered (x ∷ xs) = insert_sorted-IsOrdered x (sort xs) (sort-IsOrdered xs)

insert_sorted-perm :
    (tx : Transaction) (xs : List Transaction) → Perm (insert_sorted tx xs) (tx ∷ xs)
unfolding insert_sorted
insert_sorted-perm tx [] = Perm.refl (tx ∷ [])
insert_sorted-perm tx (x ∷ xs) =
    if_elim (λ l. Perm l (tx ∷ x ∷ xs)) (in_order tx x) (λ _. Perm.refl (tx ∷ x ∷ xs))
      λ _. Perm.trans (Perm.cons x (insert_sorted-perm tx xs)) (Perm.swap tx x xs)

sort-perm : (xs : List Transaction) → Perm (sort xs) xs
unfolding sort
sort-perm [] = Perm.refl []
sort-perm (x ∷ xs) = Perm.trans (insert_sorted-perm x (sort xs)) (Perm.cons x (sort-perm xs))

-- At most `max_count` transactions are returned. With the rest of the pool behind them they are
-- the pending transactions, each once, in an order in which every one pays a higher gas price
-- than those behind it, or the same with a nonce at most as high: so no transaction left out pays
-- more than one that is returned.
pub pending_are_best :
    (max_count : ℕ) (m : Mempool)
    → let chosen = get_pending_transactions max_count m in
      (length chosen ≤ max_count)
      × ((rest : List Transaction) × Perm (chosen ++ rest) (values m.transactions)
          × IsOrdered (chosen ++ rest))
unfolding get_pending_transactions
pending_are_best max_count m =
    let sorted = sort (values m.transactions) in
    let whole = take-append-drop max_count sorted in
    (
      length-take-le max_count sorted,
      (
        drop max_count sorted,
        rw whole (sort-perm (values m.transactions)),
        rw whole (sort-IsOrdered (values m.transactions)),
      ),
    )

-- Removing an accepted transaction from a consistent pool hands it back and leaves every hash
-- with the transaction it had before the addition.
pub add_then_remove :
    (digest : Transaction → ℕ) (tx : Transaction) (m : Mempool) (j : ℕ)
    → IsConsistent m
    → (add_transaction digest tx m).0 ≡ ok tt
    → let m' = (add_transaction digest tx m).1 in
      ((remove_transaction (tx_hash digest tx) m').0 ≡ some tx)
      × (get j (remove_transaction (tx_hash digest tx) m').1.transactions ≡ get j m.transactions)
unfolding add_transaction remove_transaction
add_then_remove digest tx m j c accepted =
    let h = tx_hash digest tx in
    ground (
      arith,
      c.by_hash,
      get-insert_self h tx m.transactions,
      get-insert j h tx m.transactions,
      get-remove j h (insert h tx m.transactions) (insert-IsMap h tx m.transactions c.by_hash),
    )
