-- ===== src/Chain/BlockTests.antt =====
-- Tests of made blocks and of block production, and their theorems at concrete inputs.
use is_a_chain.Prelude.{
  ◌-◌, true, u128_mod, sub_u128, checked_add, ◌*◌, ◌+◌, ℕ, ◌≡◌, refl, some, List, [], ◌∷◌, is_ok,
  add_u64, add_u128, mul_u128, ◌&&◌, leb, false, HashMap, Option,
}
use is_a_chain.Account.{Account, new_external}
use is_a_chain.Transaction.{Transaction, transfer, Signature, tx_hash, fee}
use is_a_chain.Mempool.{add_transaction, get_pending_transactions}
use is_a_chain.Chain.{
  burn_tokens, mint_tokens, BlockHeader, Blockchain, new_block, verify_block, verify_all, gas_from,
  built_consensus, build_block, select, is_includable, get_balance, get_nonce, total_cost,
}
use is_a_chain.Chain.Blockmaking.{new_block-verifies}
use is_a_chain.Token
use is_a_chain.Chain.Tests.{db, chain, pay, buy}

-- A hash that tells the order of its bytes.
abbrev hash_data : List ℕ → ℕ
hash_data [] = 0
hash_data (b ∷ bs) = b + 2 * hash_data bs

abbrev serialize : BlockHeader → List ℕ
serialize h = h.height ∷ h.parent_hash ∷ h.transactions_root ∷ h.gas_used ∷ h.timestamp ∷ []

abbrev digest : Transaction → ℕ
digest tx = tx.sender + 10 * tx.nonce

abbrev recover : Transaction → Signature → Option ℕ
recover tx signature = some signature.v

abbrev signed : Transaction
signed = record pay { signature = some (record { r = []; s = []; v = 1 }) }

-- 42 000 gas is above the limit of 30 000.
new_block-verifies_example :
    is_ok (
      verify_block hash_data serialize digest recover 5 (
        new_block hash_data serialize digest 5 4 70
          (signed ∷ signed ∷ [])
          0
          0
          0
          30_000
          (built_consensus hash_data 3)))
    ≡ (leb (gas_from 0 (signed ∷ signed ∷ [])) 30_000
        && leb 5 (add_u64 5 60_000)
        && is_ok (verify_all recover (signed ∷ signed ∷ [])))
new_block-verifies_example =
    new_block-verifies hash_data serialize digest recover 5 5 4 70 (signed ∷ signed ∷ []) 0 0 0
      30_000 (built_consensus hash_data 3)

too_much_gas : leb (gas_from 0 (signed ∷ signed ∷ [])) 30_000 ≡ false
unfolding gas_from add_u64
too_much_gas = refl

abbrev waiting : Blockchain (HashMap Account)
waiting = record chain {
  accounts = (1, new_external 50_000) ∷ (2, new_external 40) ∷ [];
  pool = (add_transaction digest buy (add_transaction digest pay chain.pool).1).1;
}

-- The sender of the other transaction has less than its fee.
build_block-pays : (build_block db hash_data serialize digest 5 10 waiting).transactions ≡ pay ∷ []
unfolding build_block new_block select is_includable add_transaction get_pending_transactions
    get_balance get_nonce total_cost fee add_u128 tx_hash mul_u128
build_block-pays = refl

-- Amount and gas of 2 ^ 128 and more wrap: a balance of 50 000 is enough.
wrapped_cost :
    let tx = record pay { payload = transfer 2 (u128_mod - 1) [] } in
    (is_includable db waiting tx ≡ true) × (total_cost tx + 1 ≡ fee tx)
unfolding is_includable get_balance get_nonce total_cost fee add_u128 mul_u128
wrapped_cost = (refl, refl)

-- Caller 5 may mint and burn.
abbrev issuing : Blockchain (HashMap Account)
issuing = record chain {
  token_state = record (Token.new 1000 0) {
    authorized_minters = 5 ∷ [];
    authorized_burners = 5 ∷ [];
  };
}

issuing-changes :
    ((mint_tokens 1 60 5 issuing).1.token_state.total_supply ≡ 1060)
    × ((burn_tokens db 1 60 5 issuing).1.token_state.total_supply ≡ 940)
unfolding mint_tokens burn_tokens Token.mint Token.burn Token.new get_balance checked_add sub_u128
issuing-changes = (refl, refl)
