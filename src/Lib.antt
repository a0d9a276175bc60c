-- ===== src/Lib.antt =====
-- Verification of the isA_Chain node, the Rust crate in core/blockchain.
--
-- The node keeps accounts, a pool of pending transactions and a chain of blocks, and beside them
-- ledgers of their own: the world state with its root, the supply of the ISA token, the vault of
-- staked collateral, payment channels, the budgets that agents spend from, dollar-pegged credits,
-- the votes that finalize blocks, the proposals of the subnets, the protocol's treasury, the
-- emission of block rewards, the routing of fees, the tokens of agents, locks that give voting
-- power, the two ways between credits and ISA, the market of compute jobs, the stakes in subnets
-- and the settlements of bills and of batches of channels. A transaction is submitted
-- (Chain/Produce), waits in the pool (Mempool), is put in a block and executed on the accounts
-- (Chain/Execute). Minting and burning go through the token state (Chain/Supply, Token).
--
-- Files and sources, paths from the root of the repository, below core/blockchain/src:
--   Account      account/account.rs, account/types.rs: one account, and Stake, its accounting
--   Transaction  transaction/: the data of transactions, fees, hashes, verification
--   Mempool      mempool.rs: Index (the two maps agree), Order (which transactions are picked)
--   Token        token.rs: Supply (accounting over histories), Authority (who may do what)
--   Chain        blockchain/, block.rs: State, Making, Execute, Produce and Supply model it;
--                Conservation, Blocks, Blockmaking, Selection, Issue and Flaws prove its properties
--   Staking      staking.rs: Funds (accounting over histories), Unbonding (waiting and slashing)
--   Channel      channel/: Balances, Lifecycle, Payout
--   Budget       budget/: Limits (accounting of the spending), Ends (what is refused for good),
--                Indices, and Writes, what their proofs share
--   Credits      credits/: Ledger (accounting over histories), Prices (the two conversions)
--   World        state.rs, and the hash of an account: Root (the sorted leaves), Visits (the orders
--                of visiting delegations), Abstract (the accounts as a map)
--   Finality     finality/: Progress (when a quorum is reached), Safety (what a finalized block is)
--   Governance   governance/: Data and Governor; Votes (the tallies), Outcomes (the verdicts)
--   Treasury     treasury/: Funds (accounting over histories), Shares (the proportional split)
--   Emission     emission/: Gcd (a provider's share), Rewards (the halving), Distribution (the
--                loop over the subnets), Books (accounting over histories)
--   FeeRouting   fee_routing.rs: Split (the parts of a fee), Pools and History (accounting)
--   AgentToken   agent_token/: Curve and Factory model it; Root (the square root), Search (the
--                binary search), Prices (buying and selling), Holders (who has the supply)
--   VeIsa        veisa/: Locks (accounting over histories), Power (the decay)
--   Withdrawal   withdrawal/: Lifecycle (the states of a request)
--   Deposit      deposit/: Lifecycle (the states of a deposit)
--   ComputeMarket compute_market/: Data, Providers, Jobs, Disputes and History model it; Status and
--                Steps (what a call changes), Diagram (the life of a job), Escrow, Flaws
--   SubnetStaking subnet_staking/: Entries (what a write does to the books), Funds (accounting)
--   Settlement   settlement/: Records (the two indices), Totals (accounting over histories)
--   SettlementBridge settlement_bridge/: the queue of bills in front of Settlement; Events (what
--                becomes of them), Window and Recent (which are refused as known)
--   BatchSettlement batch_settlement/: Batches (what a batch is), Settled (what is refused, and is
--                not)
--   Subnet       subnet/types.rs: the names of the subnets
--   Prelude      words, byte strings, lists, and hash maps as association lists
-- A function has the name of the Rust method. A method on `&mut self` takes the state last and
-- returns its result and the new state, after an error too. The Tests files run the definitions
-- and apply the theorems at concrete inputs.
--
-- Numbers. `Amount` is u128 and heights, nonces and gas are u64; they are native naturals. A
-- release build does not check for overflow, so `+`, `-` and `*` are written modulo the width
-- (Prelude/Words); `checked_` and `saturating_` operations are the standard library's. A debug
-- build panics where these wrap; the theorems that exclude overflow hold for both. An address or a
-- hash is the number that its bytes spell. A `HashMap` is an association list; no theorem
-- depends on the order of iteration but through the list of values.
--
-- Parameters: Blake3 of a byte string (Channel, Budget, Governance, Withdrawal, Deposit,
-- Settlement, BatchSettlement, Chain/Making), bincode of a header and of an account, the order in
-- which the map of an account's delegations is iterated (World), the hash of a transaction and
-- the recovery of its signer (bincode, Blake3 and secp256k1), the storage engine, the clock
-- (Chain), and the floating point arithmetic of a payment (ComputeMarket). Recursion is on lists,
-- but for four loops with fuel. That of the Merkle root has the length of its list: a level is
-- about half as long as the one below. That of `gcd` has its second variable, that of `isqrt` its
-- first, and the binary search of AgentToken the width of its range: each gets smaller in every
-- round.
--
-- Not modelled: the network, the RPC server, the storage engines, key handling, the wallet and the
-- contracts; and so far the remaining ledgers of the agent economy.
pub mod Prelude
pub mod Account
pub mod Transaction
pub mod Mempool
pub mod Token
pub mod Chain
pub mod Staking
pub mod Channel
pub mod Budget
pub mod Credits
pub mod World
pub mod Subnet
pub mod Governance
pub mod Finality
pub mod Treasury
pub mod Emission
pub mod FeeRouting
pub mod AgentToken
pub mod VeIsa
pub mod Withdrawal
pub mod Deposit
pub mod ComputeMarket
pub mod Settlement
pub mod BatchSettlement
pub mod SubnetStaking
pub mod SettlementBridge
