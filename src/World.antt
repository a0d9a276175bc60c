-- ===== src/World.antt =====
-- core/blockchain/src/state.rs: the world state, its accounts by address and its state root.
pub mod Root
pub mod Visits
pub mod Abstract
mod Tests
use is_a_chain.Prelude.{
  ℕ, Bool, true, false, List, [], ◌∷◌, ◌++◌, map, Option, none, some, length, leb, if◌then◌else◌,
  HashMap, get, insert, contains_key, set_insert, be_bytes,
}
use is_a_chain.Account.{Account, Delegation, new_external}
use is_a_chain.Chain.{merkle_root}

pub record WorldState : Type 0 where
  pub accounts : HashMap Account
  pub root : ℕ
  pub height : ℕ
  pub dirty : List ℕ

abbrev pub new : WorldState
new = record { accounts = []; root = 0; height = 0; dirty = [] }

abbrev pub get_account : ℕ → WorldState → Option Account
get_account address s = get address s.accounts

-- A `&mut Account` that is handed out is the function `write` that the caller applies to it.
unfoldable pub get_account_mut :
    ℕ → (write : Account → Account) → WorldState → Option Account × WorldState
get_account_mut address write s = elim (get address s.accounts) [
  | none ↦ (none, s)
  | some acc ↦ (
    some (write acc),
    record s {
      accounts = insert address (write acc) s.accounts;
      dirty = set_insert s.dirty address;
    },
  )
]

abbrev pub get_balance : ℕ → WorldState → ℕ
get_balance address s = elim (get address s.accounts) [ none ↦ 0 | some acc ↦ acc.balance ]

abbrev pub account_count : WorldState → ℕ
account_count s = length s.accounts

unfoldable pub set_account : ℕ → Account → WorldState → WorldState
set_account address acc s = record s {
  accounts = insert address acc s.accounts;
  dirty = set_insert s.dirty address;
}

abbrev pub account_or_new : Option Account → Account
account_or_new none = new_external 0
account_or_new (some acc) = acc

unfoldable pub get_or_create_account :
    ℕ → (write : Account → Account) → WorldState → Account × WorldState
get_or_create_account address write s =
    let acc = write (account_or_new (get address s.accounts)) in
    (acc, record s { accounts = insert address acc s.accounts; dirty = set_insert s.dirty address })

abbrev pub set_height : ℕ → WorldState → WorldState
set_height height s = record s { height = height }

-- `sort_by_key` is stable, and the order of the bytes of two addresses is that of their numbers.
unfoldable pub insert_sorted : ℕ × Account → HashMap Account → HashMap Account
insert_sorted pair [] = pair ∷ []
insert_sorted pair (x ∷ xs) = if leb pair.0 x.0 then pair ∷ x ∷ xs else x ∷ insert_sorted pair xs

unfoldable pub sort : HashMap Account → HashMap Account
unfolding insert_sorted
sort [] = []
sort (pair ∷ pairs) = insert_sorted pair (sort pairs)

-- The order in which the delegations of the account at an address are visited. A `HashMap` of the
-- standard library has one of its own for every instance, drawn at random.
abbrev pub VisitOrder : Type 0
VisitOrder = (address : ℕ) → HashMap Delegation → HashMap Delegation

-- An account with its delegations in the order in which they are visited.
abbrev pub visited : (HashMap Delegation → HashMap Delegation) → Account → Account
visited order acc = elim acc.staking_info [
  | none ↦ acc
  | some info ↦ record acc {
    staking_info = some (record info { delegations = order info.delegations });
  }
]

-- `hash_data` is Blake3; `serialize` is bincode, which writes the delegations as they come.
module _ (hash_data : List ℕ → ℕ) (serialize : Account → List ℕ) (order : VisitOrder) where
  unfoldable pub account_hash : ℕ × Account → ℕ
  account_hash (address, acc) = hash_data (serialize (visited (order address) acc))

  unfoldable pub leaf_hash : ℕ × Account → ℕ
  unfolding account_hash
  leaf_hash (address, acc) =
      hash_data (be_bytes 20 address ++ be_bytes 32 (account_hash (address, acc)))

  unfoldable pub compute_state_root : WorldState → ℕ × WorldState
  unfolding sort leaf_hash merkle_root
  compute_state_root s =
      let root = merkle_root hash_data (map leaf_hash (sort s.accounts)) in
      (root, record s { root = root; dirty = [] })

-- A call of a method that writes the accounts.
pub data Call : Type 0 where
  sets : (address : ℕ) → Account → Call
  updates creates : (address : ℕ) → (write : Account → Account) → Call

unfoldable pub step : WorldState → Call → WorldState
unfolding set_account get_account_mut get_or_create_account
step s (sets address acc) = set_account address acc s
step s (updates address write) = (get_account_mut address write s).1
step s (creates address write) = (get_or_create_account address write s).1

unfoldable pub run : WorldState → List Call → WorldState
unfolding step
run s [] = s
run s (c ∷ cs) = run (step s c) cs
