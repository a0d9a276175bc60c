-- ===== src/Chain/Supply.antt =====
-- core/blockchain/src/blockchain/chain.rs: minting and burning through the token state.
use is_a_chain.Prelude.{Option, ℕ, none, some, ltb, if◌then◌else◌, get, insert, ok, err, sub_u128}
use is_a_chain.Account.{Account, new_external}
use is_a_chain.Token.{TokenState}
use is_a_chain.Token
use is_a_chain.Chain.Data.{insufficient_balance, validation, token}
use is_a_chain.Chain.State.{
  Storage, get_account_or_load, modify_or_insert, Blockchain, Outcome, credit, get_balance,
}

-- types/constants.rs, and the faucet's address, twenty bytes 0xFA.
abbrev pub initial_supply : ℕ
initial_supply = 1_000_000_000_000_000_000_000_000_000

abbrev pub faucet : ℕ
faucet = 0xFAFAFAFAFAFAFAFAFAFAFAFAFAFAFAFAFAFAFAFA

module _ {S : Type 0} (db : Storage S) where
  -- `if let Some(ref mut db) = self.storage { let _ = db.put_account(…); }`
  abbrev pub write_back : ℕ → Account → Blockchain S → Blockchain S
  write_back address acc c = elim c.store [
    | none ↦ c
    | some s ↦ record c { store = some (db.put_account address acc s).1 }
  ]

  abbrev write_back_found : ℕ → Option Account → Blockchain S → Blockchain S
  write_back_found address none c = c
  write_back_found address (some acc) c = write_back address acc c

  abbrev pub deposit_to : ℕ → ℕ → Blockchain S → Blockchain S
  deposit_to address amount c =
      let accounts = modify_or_insert address (credit amount) (new_external amount) c.accounts in
      write_back_found address (get address accounts) (record c { accounts = accounts })

  -- Past the token's authority lists.
  unfoldable pub mint : ℕ → ℕ → Blockchain S → Blockchain S
  mint address amount c = deposit_to address amount c

  abbrev or_initial : Option Account → Account
  or_initial none = new_external initial_supply
  or_initial (some acc) = acc

  -- A faucet that holds less than the amount is first filled up again.
  unfoldable pub faucet_transfer : ℕ → ℕ → Blockchain S → ℕ × Blockchain S
  unfolding get_balance get_account_or_load
  faucet_transfer to amount c =
      let (found, c1) = get_account_or_load db faucet c in
      let acc = or_initial found in
      let filled : ℕ = if ltb acc.balance amount then initial_supply else acc.balance in
      let acc' : Account = record acc { balance = sub_u128 filled amount } in
      let c2 = write_back faucet acc' (record c1 { accounts = insert faucet acc' c1.accounts }) in
      let c3 = deposit_to to amount c2 in (get_balance db to c3, c3)

-- Through the token's authority lists, into memory only.
unfoldable pub mint_tokens :
    {S : Type 0} → (to amount minter : ℕ) → Blockchain S → Outcome S (Unit {0})
mint_tokens to amount minter c =
    let (r, state) = Token.mint amount minter c.token_state in
    let c' = record c { token_state = state } in
    elim r [
      | err e ↦ (err (token e), c')
      | ok _ ↦ (
        ok tt,
        record c' {
          accounts = modify_or_insert to (credit amount) (new_external amount) c.accounts;
        },
      )
    ]

unfoldable pub burn_tokens :
    {S : Type 0} → Storage S → (from amount burner : ℕ) → Blockchain S → Outcome S (Unit {0})
unfolding get_balance
burn_tokens db from amount burner c =
    if ltb (get_balance db from c) amount
    then (err (token Token.insufficient_balance), c)
    else let (r, state) = Token.burn amount burner c.token_state in
      let c' = record c { token_state = state } in
      elim r [
        | err e ↦ (err (token e), c')
        | ok _ ↦ elim (get from c.accounts) [
          | none ↦ (err (validation insufficient_balance), c')
          | some acc ↦ (
            ok tt,
            record c' {
              accounts =
                  insert from (record acc { balance = sub_u128 acc.balance amount }) c.accounts;
            },
          )
        ]
      ]
