-- ===== src/Chain/Tests.antt =====
-- Tests of the chain, and its theorems at concrete inputs.
use is_a_chain.Prelude.{
  ℕ, ◌+◌, ◌≡◌, refl, none, some, List, [], ◌∷◌, arith, ok, err, get, insert, add_u64, sub_u128,
  HashMap,
}
use is_a_chain.Account.{Account, new_external}
use is_a_chain.Transaction.{
  Transaction, TransactionData, transfer, unstake, settlement, credit_purchase, new,
}
use is_a_chain.Mempool
use is_a_chain.Token
use is_a_chain.Chain.{
  Storage, Blockchain, Block, execute_transaction, execute_all, add_block, validation,
  insufficient_balance, get_balance, execute_data,
}
use is_a_chain.Chain.Conservation.{circulating, burnt_all, add_block_conserves}
use is_a_chain.Chain.Blocks.{failed_block_keeps_effects}

-- A storage engine that is a map of accounts.
abbrev pub db : Storage (HashMap Account)
db = record {
  get_account = λ a s. ok (get a s);
  put_account = λ a acc s. (ok tt, insert a acc s);
  put_block = λ b s. (ok tt, s);
}

abbrev pub chain : Blockchain (HashMap Account)
chain = record {
  chain_id = 15489;
  head = 70;
  height = 3;
  genesis_hash = 7;
  blocks = [];
  accounts = (1, new_external 500) ∷ (2, new_external 40) ∷ [];
  pool = Mempool.new 10;
  token_state = Token.new 1000 0;
  store = none;
}

abbrev call_of : ℕ → TransactionData → Transaction
call_of sender payload = new sender 0 payload 21_000 1 15489

abbrev pub pay : Transaction
pay = call_of 1 (transfer 3 200 [])

abbrev pub buy : Transaction
buy = call_of 2 (credit_purchase 2 30)

abbrev block_of : List Transaction → Block
block_of txs = record {
  header = record {
    height = 4;
    parent_hash = 70;
    transactions_root = 0;
    state_root = 0;
    receipts_root = 0;
    timestamp = 0;
    gas_limit = 30_000_000;
    gas_used = 0;
    proposer = 0;
    extra_data = [];
    consensus_data = record {
      validator_signatures = [];
      stake_data = record { total_stake = 0; min_stake = 0; slash_penalties = [] };
      randomness = 0;
    };
  };
  transactions = txs;
  hash = 71;
}

add_block_conserves_example :
    circulating (add_block db (block_of (pay ∷ buy ∷ [])) chain).1.accounts
      + burnt_all db (pay ∷ buy ∷ [])
    ≡ circulating chain.accounts
unfolding add_block execute_all execute_transaction get_balance execute_data add_u64
add_block_conserves_example =
    add_block_conserves db (block_of (pay ∷ buy ∷ [])) chain refl (omega arith) (tt, (tt, tt)) refl

-- The second payment overdraws the account; the first one stays.
abbrev overdraw : Transaction
overdraw = call_of 1 (transfer 3 400 [])

failed_block_keeps_effects_example :
    let block = block_of (pay ∷ overdraw ∷ buy ∷ []) in
    let (r, c') = add_block db block chain in
    (r ≡ err (validation insufficient_balance))
    × (c'.accounts ≡ (execute_all db (pay ∷ []) chain).1.accounts)
    × (c'.head ≡ chain.head)
    × (c'.height ≡ chain.height)
    × (c'.blocks ≡ chain.blocks)
    × (c'.pool ≡ chain.pool)
unfolding execute_all execute_transaction get_balance execute_data add_u64 sub_u128
failed_block_keeps_effects_example =
    failed_block_keeps_effects db (block_of (pay ∷ overdraw ∷ buy ∷ [])) (pay ∷ []) overdraw
      (buy ∷ []) (validation insufficient_balance) chain refl refl refl refl

abbrev take_back : Transaction
take_back = call_of 2 (unstake 41 8)

-- After a restart: nothing in memory, account 1 in the storage engine.
abbrev restarted : Blockchain (HashMap Account)
restarted = record chain { accounts = []; store = some chain.accounts }

abbrev bill : Transaction
bill = call_of 1 (settlement 6 2 300 20)
