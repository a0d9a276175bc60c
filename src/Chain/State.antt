-- ===== src/Chain/State.antt =====
-- core/blockchain/src/blockchain/chain.rs: the state of the chain, its storage engine, and the
-- access to accounts.
use is_a_chain.Prelude.{
  ℕ, Option, none, some, HashMap, get, insert, Result, ok, err, add_u64, add_u128, sub_u128,
}
use is_a_chain.Account.{Account}
use is_a_chain.Mempool.{Mempool}
use is_a_chain.Token.{TokenState}
use is_a_chain.Chain.Data.{Block, BlockchainError}

-- What the chain asks of its storage engine, whose state is a parameter `S`.
pub record Storage (S : Type 0) : Type 0 where
  pub get_account : ℕ → S → Result (Option Account) ℕ
  pub put_account : ℕ → Account → S → Result (Unit {0}) ℕ × S
  pub put_block : Block → S → Result (Unit {0}) ℕ × S

-- The treasury and the staking vault are fields that no method here reads or writes: left out.
pub record Blockchain (S : Type 0) : Type 0 where
  pub chain_id : ℕ
  pub head : ℕ
  pub height : ℕ
  pub genesis_hash : ℕ
  pub blocks : HashMap Block
  pub accounts : HashMap Account
  pub pool : Mempool
  pub token_state : TokenState
  pub store : Option S

abbrev pub Accounts : Type 0
Accounts = HashMap Account

-- `accounts.entry(address).and_modify(f)`
abbrev pub and_modify : ℕ → (Account → Account) → Accounts → Accounts
and_modify address f accounts = elim (get address accounts) [
  | none ↦ accounts
  | some acc ↦ insert address (f acc) accounts
]

-- `accounts.entry(address).and_modify(f).or_insert_with(|| new)`
abbrev pub modify_or_insert : ℕ → (Account → Account) → Account → Accounts → Accounts
modify_or_insert address f fresh accounts = elim (get address accounts) [
  | none ↦ insert address fresh accounts
  | some acc ↦ insert address (f acc) accounts
]

-- `acc.balance -= amount; acc.nonce += 1`
abbrev pub debit : ℕ → Account → Account
debit amount acc = record acc { balance = sub_u128 acc.balance amount; nonce = add_u64 acc.nonce 1 }

abbrev pub credit : ℕ → Account → Account
credit amount acc = record acc { balance = add_u128 acc.balance amount }

abbrev pub bump_nonce : Account → Account
bump_nonce acc = record acc { nonce = add_u64 acc.nonce 1 }

abbrev pub Outcome : Type 0 → Type 0 → Type 0
Outcome S A = Result A BlockchainError × Blockchain S

module _ {S : Type 0} (db : Storage S) where
  unfoldable pub get_balance : ℕ → Blockchain S → ℕ
  get_balance address c = elim (get address c.accounts) [
    | some account ↦ account.balance
    | none ↦ elim c.store [
      | none ↦ 0
      | some s ↦ elim (db.get_account address s) [
        | ok (some account) ↦ account.balance
        | ok none ↦ 0
        | err _ ↦ 0
      ]
    ]
  ]

  -- `get_account_mut_or_load`: an account found only in storage is brought into memory.
  unfoldable pub get_account_or_load : ℕ → Blockchain S → Option Account × Blockchain S
  get_account_or_load address c = elim (get address c.accounts) [
    | some acc ↦ (some acc, c)
    | none ↦ elim c.store [
      | none ↦ (none, c)
      | some s ↦ elim (db.get_account address s) [
        | ok (some acc) ↦ (some acc, record c { accounts = insert address acc c.accounts })
        | ok none ↦ (none, c)
        | err _ ↦ (none, c)
      ]
    ]
  ]

-- No lookup in the storage engine here.
unfoldable pub get_nonce : {S : Type 0} → ℕ → Blockchain S → ℕ
get_nonce address c = elim (get address c.accounts) [ none ↦ 0 | some account ↦ account.nonce ]
