-- ===== src/Chain/Issue.antt =====
-- Minting and burning in core/blockchain/src/blockchain/chain.rs: the supply of the token state
-- against the balances in memory.
use is_a_chain.Prelude.{
  ℕ, ◌+◌, ◌<◌, ◌≡◌, arith, some, get, total-insert, at_or_zero-le-total, u128_mod, sub_u128,
  sub_u128-eq, checked_add,
}
use is_a_chain.Account.{Account}
use is_a_chain.Token
use is_a_chain.Chain.{Storage, Blockchain, mint_tokens, burn_tokens, get_balance}
use is_a_chain.Chain.Conservation.{circulating, credit_sum, balance_of}

module _ {S : Type 0} (db : Storage S) where
  mint_tokens-Matches :
      (to amount minter : ℕ) (c : Blockchain S)
      → circulating c.accounts + amount < u128_mod
      → let c' = (mint_tokens to amount minter c).1 in
        c'.token_state.total_supply + circulating c.accounts
        ≡ c.token_state.total_supply + circulating c'.accounts
  unfolding mint_tokens Token.mint checked_add
  mint_tokens-Matches to amount minter c fits = ground (arith, credit_sum to amount c.accounts fits)

  burn_tokens-Matches :
      (source amount burner : ℕ) (acc : Account) (c : Blockchain S)
      → get source c.accounts ≡ some acc
      → circulating c.accounts < u128_mod
      → c.token_state.total_supply < u128_mod
      → c.token_state.total_burned + amount < u128_mod
      → let c' = (burn_tokens db source amount burner c).1 in
        c'.token_state.total_supply + circulating c.accounts
        ≡ c.token_state.total_supply + circulating c'.accounts
  unfolding burn_tokens Token.burn checked_add get_balance
  burn_tokens-Matches source amount burner acc c found fits supply burned = ground (
    arith,
    found,
    sub_u128-eq c.token_state.total_supply amount,
    sub_u128-eq acc.balance amount,
    at_or_zero-le-total balance_of source c.accounts,
    total-insert balance_of source (record acc { balance = sub_u128 acc.balance amount })
        c.accounts,
  )

  -- Minting and burning keep the difference between the supply and the balances in memory, whether
  -- they succeed or fail: what `mint_tokens` adds to one it adds to the other, and what `burn_tokens`
  -- takes from one it takes from the other, where the account to burn from is in memory and no sum
  -- overflows 128 bits.
  pub issue_matches :
      (address amount caller : ℕ) (acc : Account) (c : Blockchain S)
      → get address c.accounts ≡ some acc
      → circulating c.accounts + amount < u128_mod
      → c.token_state.total_supply < u128_mod
      → c.token_state.total_burned + amount < u128_mod
      → let minted = (mint_tokens address amount caller c).1 in
        let burned = (burn_tokens db address amount caller c).1 in
        (minted.token_state.total_supply + circulating c.accounts
          ≡ c.token_state.total_supply + circulating minted.accounts)
        × (burned.token_state.total_supply + circulating c.accounts
            ≡ c.token_state.total_supply + circulating burned.accounts)
  issue_matches address amount caller acc c found fits supply burned = (
    mint_tokens-Matches address amount caller c fits,
    burn_tokens-Matches address amount caller acc c found (omega arith) supply burned,
  )
