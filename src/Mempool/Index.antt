-- ===== src/Mempool/Index.antt =====
-- The two indices of core/blockchain/src/mempool.rs agree, and the pool stays within its size.
use is_a_chain.Prelude.{
  ℕ, if_elim, ◌≤◌, ◌<◌, ◌≡◌, refl, inl, inr, false, List, [], ◌∷◌, arith, Option-cases, none, some,
  length, List-cases, set_remove, leb, ◌==◌, if◌then◌else◌, HashMap, get, insert, remove,
  contains_key, push_item, Result, count, count-set_remove, IsMap, get-insert, listed,
  listed-push_item, get-remove, insert-IsMap, remove-IsMap, length-insert, length-remove,
}
use is_a_chain.Transaction.{Transaction, tx_hash}
use is_a_chain.Mempool.{
  Mempool, MempoolError, add_transaction, remove_transaction, unlist, clear, Call, adds, removes,
  clears, step, run,
}

-- 1 if the transaction of a hash is pending and has this sender, else 0.
abbrev pub sent : ℕ → ℕ → HashMap Transaction → ℕ
sent h s d = elim (get h d) [ none ↦ 0 | some tx ↦ if tx.sender == s then 1 else 0 ]

pub record IsConsistent (m : Mempool) : Type 0 where
  pub bounded : length m.transactions ≤ m.max_size
  pub by_hash : IsMap m.transactions
  pub senders : IsMap m.by_sender
  pub indexed : (h s : ℕ) → count h (listed s m.by_sender) ≡ sent h s m.transactions

listed-unlist :
    (s key item : ℕ) (d : HashMap (List ℕ)) (h : ℕ)
    → IsMap d
    → count h (listed s (unlist key item d))
      ≡ (if s == key then (if item == h then 0 else count h (listed s d)) else count h (listed s d))
listed-unlist s key item d h u = elim (Option-cases (get key d)) [
  | inl missing ↦ ground arith
  | inr (items, found) ↦ elim (List-cases (set_remove items item)) [
    | inl e ↦ ground (arith, get-remove s key d u, count-set_remove item h items)
    | inr (x, kept, e) ↦
        ground (arith, get-insert s key (x ∷ kept) d, count-set_remove item h items)
  ]
]

accepted-IsConsistent :
    (h : ℕ) (tx : Transaction) (m : Mempool)
    → IsConsistent m
    → contains_key h m.transactions ≡ false
    → length m.transactions < m.max_size
    → IsConsistent (record m {
      transactions = insert h tx m.transactions;
      by_sender = push_item tx.sender h m.by_sender;
    })
accepted-IsConsistent h tx m c fresh room = record {
  bounded = ground (arith, length-insert h tx m.transactions);
  by_hash = insert-IsMap h tx m.transactions c.by_hash;
  senders = insert-IsMap tx.sender _ m.by_sender c.senders;
  indexed = λ h' s. ground (
    arith,
    c.indexed h' s,
    listed-push_item s tx.sender h m.by_sender h',
    get-insert h' h tx m.transactions,
  );
}

add_transaction-IsConsistent :
    (digest : Transaction → ℕ) (tx : Transaction) (m : Mempool)
    → IsConsistent m
    → IsConsistent (add_transaction digest tx m).1
unfolding add_transaction
add_transaction-IsConsistent digest tx m c =
    let h = tx_hash digest tx in
    let P : Result (Unit {0}) MempoolError × Mempool → Type 0 = λ o. IsConsistent o.1 in
    if_elim P (contains_key h m.transactions) (λ _. c)
      λ fresh.
        if_elim P (leb m.max_size (length m.transactions)) (λ _. c)
          λ room.
            if_elim P (tx.gas_limit == 0) (λ _. c)
              λ _. accepted-IsConsistent h tx m c fresh (ground arith)

unlist-IsMap : (s h : ℕ) (d : HashMap (List ℕ)) → IsMap d → IsMap (unlist s h d)
unlist-IsMap s h d u = elim (Option-cases (get s d)) [
  | inl missing ↦ ground arith
  | inr (items, found) ↦ elim (List-cases (set_remove items h)) [
    | inl e ↦ ground (arith, remove-IsMap s d u)
    | inr (x, kept, e) ↦ ground (arith, insert-IsMap s (x ∷ kept) d u)
  ]
]

removed-IsConsistent :
    (h : ℕ) (tx : Transaction) (m : Mempool)
    → IsConsistent m
    → get h m.transactions ≡ some tx
    → IsConsistent (record m {
      transactions = remove h m.transactions;
      by_sender = unlist tx.sender h m.by_sender;
    })
removed-IsConsistent h tx m c found = record {
  bounded = ground (arith, c.bounded, length-remove h m.transactions);
  by_hash = remove-IsMap h m.transactions c.by_hash;
  senders = unlist-IsMap tx.sender h m.by_sender c.senders;
  indexed = λ h' s. ground (
    arith,
    c.indexed h' s,
    listed-unlist s tx.sender h m.by_sender h' c.senders,
    get-remove h' h m.transactions c.by_hash,
  );
}

pub remove_transaction-IsConsistent :
    (h : ℕ) (m : Mempool) → IsConsistent m → IsConsistent (remove_transaction h m).1
unfolding remove_transaction
remove_transaction-IsConsistent h m c = elim (Option-cases (get h m.transactions)) [
  | inl missing ↦ rw (missing, remove_transaction) c
  | inr (tx, found) ↦ rw (found, remove_transaction) (removed-IsConsistent h tx m c found)
]

step-IsConsistent :
    (digest : Transaction → ℕ) (m : Mempool) (call : Call)
    → IsConsistent m
    → IsConsistent (step digest m call)
unfolding step clear
step-IsConsistent digest m (adds tx) c = add_transaction-IsConsistent digest tx m c
step-IsConsistent digest m (removes h) c = remove_transaction-IsConsistent h m c
step-IsConsistent digest m clears c = record {
  bounded = omega arith;
  by_hash = tt;
  senders = tt;
  indexed = λ h s. refl;
}

-- After any history of additions, removals and clearings of a consistent pool, it is within its
-- maximal size, no hash or sender is a key twice, and every sender's list holds the hashes of
-- exactly the pending transactions it sent, each once.
pub run-IsConsistent :
    (digest : Transaction → ℕ) (m : Mempool) (calls : List Call)
    → IsConsistent m
    → IsConsistent (run digest m calls)
unfolding run
run-IsConsistent digest m [] c = c
run-IsConsistent digest m (call ∷ calls) c =
    run-IsConsistent digest (step digest m call) calls (step-IsConsistent digest m call c)
