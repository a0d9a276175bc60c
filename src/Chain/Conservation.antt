-- ===== src/Chain/Conservation.antt =====
-- Money in core/blockchain/src/blockchain/execution.rs: what a transaction or a block does to the
-- sum of the balances in memory.
use is_a_chain.Prelude.{
  All, ℕ, ◌+◌, ◌-◌, ◌≤◌, ◌<◌, ◌≡◌, refl, inl, inr, List, [], ◌∷◌, arith, Option, none, some,
  Option-cases, ltb, get, total, total-insert, at_or_zero, at_or_zero-le-total, Result, ok, err,
  u128_mod, add_u128-eq, sub_u128-eq, if_elim, ltb-false→le,
}
use is_a_chain.Account.{Account, new_external}
use is_a_chain.Transaction.{
  Transaction, TransactionData, transfer, stake, unstake, credit_purchase, settlement,
}
use is_a_chain.Chain.{
  commit_block, Storage, Blockchain, Accounts, and_modify, modify_or_insert, debit, credit,
  bump_nonce, finish, settle, execute_data, execute_transaction, execute_all, add_block,
  get_balance, Block,
}

abbrev pub balance_of : Account → ℕ
balance_of a = a.balance

-- The sum of all balances in memory.
abbrev pub circulating : Accounts → ℕ
circulating = total balance_of

-- The in-memory balance of an address.
abbrev pub held : ℕ → Accounts → ℕ
held = at_or_zero balance_of

-- What a transaction takes out of circulation.
abbrev pub burnt : TransactionData → ℕ
burnt (stake amount _) = amount
burnt (credit_purchase _ isa_amount) = isa_amount
burnt _ = 0

-- No unstaking, and a settlement is the sender's own, its fee within the gross amount.
abbrev pub IsPlain : ℕ → TransactionData → Type 0
IsPlain sender (unstake _ _) = ⊥
IsPlain sender (settlement user _ gross fee) = (user ≡ sender) × (fee ≤ gross)
IsPlain sender _ = Unit

-- What one write does to the sum.
debit_sum :
    (a amount : ℕ) (d : Accounts)
    → circulating d < u128_mod
    → amount ≤ held a d
    → circulating (and_modify a (debit amount) d) + amount ≡ circulating d
debit_sum a amount d fits covered = elim (Option-cases (get a d)) [
  | inl missing ↦ ground arith
  | inr (acc, found) ↦ ground (
    arith,
    sub_u128-eq acc.balance amount,
    at_or_zero-le-total balance_of a d,
    total-insert balance_of a (debit amount acc) d,
  )
]

pub credit_sum :
    (a amount : ℕ) (d : Accounts)
    → circulating d + amount < u128_mod
    → circulating (modify_or_insert a (credit amount) (new_external amount) d)
      ≡ circulating d + amount
credit_sum a amount d fits = elim (Option-cases (get a d)) [
  | inl missing ↦ ground (arith, total-insert balance_of a (new_external amount) d)
  | inr (acc, found) ↦ ground (
    arith,
    add_u128-eq acc.balance amount,
    at_or_zero-le-total balance_of a d,
    total-insert balance_of a (credit amount acc) d,
  )
]

bump_sum : (a : ℕ) (d : Accounts) → circulating (and_modify a bump_nonce d) ≡ circulating d
bump_sum a d = elim (Option-cases (get a d)) [
  | inl missing ↦ ground arith
  | inr (acc, found) ↦ ground (arith, total-insert balance_of a (bump_nonce acc) d)
]

settle_sum :
    (user provider gross fee : ℕ) (d : Accounts)
    → circulating d < u128_mod
    → gross ≤ held user d
    → fee ≤ gross
    → circulating (settle user provider gross fee d) ≡ circulating d
unfolding settle
settle_sum user provider gross fee d fits covered h =
    let net = gross - fee in
    let paid = and_modify user (debit gross) d in
    let earned = modify_or_insert provider (credit net) (new_external net) paid in
    omega (
      arith,
      debit_sum user gross d fits covered,
      credit_sum provider net paid,
      credit_sum 0 fee earned,
    )

-- The sum after a plain transaction that is executed.
abbrev Kept : ℕ → TransactionData → Accounts → Option Accounts → Type 0
Kept sender payload d none = Unit
Kept sender payload d (some d') = circulating d' + burnt payload ≡ circulating d

execute_data-Kept :
    (sender : ℕ) (payload : TransactionData) (d : Accounts)
    → circulating d < u128_mod
    → IsPlain sender payload
    → Kept sender payload d (execute_data sender (held sender d) payload d)
unfolding execute_data
execute_data-Kept sender (transfer to amount bytes) d fits plain =
    let paid = and_modify sender (debit amount) d in
    if_elim (Kept sender (transfer to amount bytes) d) (ltb (held sender d) amount) (λ _. tt)
      λ e. omega (
        arith,
        ltb-false→le (held sender d) amount e,
        debit_sum sender amount d fits,
        credit_sum to amount paid,
      )
execute_data-Kept sender (stake amount info) d fits plain =
    if_elim (Kept sender (stake amount info) d) (ltb (held sender d) amount) (λ _. tt)
      λ e. debit_sum sender amount d fits (ltb-false→le (held sender d) amount e)
execute_data-Kept sender (credit_purchase buyer amount) d fits plain =
    if_elim (Kept sender (credit_purchase buyer amount) d) (ltb (held sender d) amount) (λ _. tt)
      λ e. debit_sum sender amount d fits (ltb-false→le (held sender d) amount e)
execute_data-Kept sender (settlement user provider gross fee) d fits plain =
    if_elim (Kept sender (settlement user provider gross fee) d) (ltb (held sender d) gross)
      (λ _. tt)
      λ e.
        let covered : gross ≤ held user d = rw plain.0 (ltb-false→le (held sender d) gross e) in
        omega (arith, settle_sum user provider gross fee d fits covered plain.1)
execute_data-Kept sender (unstake amount validator) d fits plain = absurd plain
execute_data-Kept sender payload d fits plain = omega (arith, bump_sum sender d)

-- What an outcome has taken out of circulation.
abbrev pub spent : {A E : Type 0} → Result A E → TransactionData → ℕ
spent (ok _) payload = burnt payload
spent (err _) payload = 0

finish-spent :
    {S : Type 0} (sender : ℕ) (payload : TransactionData) (c : Blockchain S) (o : Option Accounts)
    → Kept sender payload c.accounts o
    → let (r, c') = finish o c in circulating c'.accounts + spent r payload ≡ circulating c.accounts
finish-spent sender payload c none k = omega arith
finish-spent sender payload c (some d') k = k

module _ {S : Type 0} (db : Storage S) where
  get_balance-held :
      (a : ℕ) (c : Blockchain S) → c.store ≡ none → get_balance db a c ≡ held a c.accounts
  unfolding get_balance
  get_balance-held a c memory = ground arith

  -- On a chain without storage whose balances add up to less than 2 ^ 128, a plain transaction
  -- lowers the sum of all balances by exactly what it stakes or spends on credits; a transfer or
  -- a settlement leaves the sum as it is, and so does a transaction that fails.
  pub transaction_conserves :
      (tx : Transaction) (c : Blockchain S)
      → c.store ≡ none
      → circulating c.accounts < u128_mod
      → IsPlain tx.sender tx.payload
      → let (r, c') = execute_transaction db tx c in
        circulating c'.accounts + spent r tx.payload ≡ circulating c.accounts
  unfolding execute_transaction
  transaction_conserves tx c memory fits plain =
      finish-spent tx.sender tx.payload c
        (execute_data tx.sender (get_balance db tx.sender c) tx.payload c.accounts)
        (rw (get_balance-held tx.sender c memory)
          (execute_data-Kept tx.sender tx.payload c.accounts fits plain))

  abbrev pub burnt_all : List Transaction → ℕ
  burnt_all [] = 0
  burnt_all (tx ∷ txs) = burnt tx.payload + burnt_all txs

  store-execute_transaction :
      (tx : Transaction) (c : Blockchain S) → (execute_transaction db tx c).1.store ≡ c.store
  unfolding execute_transaction
  store-execute_transaction tx c = ground arith

  store-execute_all :
      (txs : List Transaction) (c : Blockchain S) → (execute_all db txs c).1.store ≡ c.store
  unfolding execute_all
  store-execute_all [] c = refl
  store-execute_all (tx ∷ txs) c =
      ground (
        arith,
        store-execute_transaction tx c,
        store-execute_all txs (execute_transaction db tx c).1,
      )

  execute_all_conserves :
      (txs : List Transaction) (c : Blockchain S)
      → c.store ≡ none
      → circulating c.accounts < u128_mod
      → All (λ tx. IsPlain tx.sender tx.payload) txs
      → (execute_all db txs c).0 ≡ ok tt
      → circulating (execute_all db txs c).1.accounts + burnt_all txs ≡ circulating c.accounts
  unfolding execute_all
  execute_all_conserves [] c memory fits plain done = omega arith
  execute_all_conserves (tx ∷ txs) c memory fits plain done =
      let c' = (execute_transaction db tx c).1 in
      ground (
        arith,
        store-execute_transaction tx c,
        transaction_conserves tx c memory fits plain.0,
        execute_all_conserves txs c',
        plain.1,
      )

  -- An accepted block of plain transactions, on a chain without storage whose balances add up to
  -- less than 2 ^ 128, lowers the sum of all balances by exactly what its transactions stake or
  -- spend on credits.
  pub add_block_conserves :
      (block : Block) (c : Blockchain S)
      → c.store ≡ none
      → circulating c.accounts < u128_mod
      → All (λ tx. IsPlain tx.sender tx.payload) block.transactions
      → (add_block db block c).0 ≡ ok tt
      → circulating (add_block db block c).1.accounts + burnt_all block.transactions
        ≡ circulating c.accounts
  unfolding add_block commit_block
  add_block_conserves block c memory fits plain done = ground (
    arith,
    store-execute_all block.transactions c,
    execute_all_conserves block.transactions c memory fits plain,
  )
