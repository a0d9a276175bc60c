-- ===== src/AgentToken/Factory.antt =====
-- core/blockchain/src/agent_token/factory.rs: the tokens of all agents, with the data of `types.rs`.
use is_a_chain.Prelude.{
  ℕ, ◌==◌, List, [], ◌∷◌, none, some, if◌then◌else◌, ltb, Result, ok, err, HashMap, get, insert,
  remove, contains_key, add_u64, add_u128, sub_u128,
}
use is_a_chain.AgentToken.Curve.{BondingCurve, price_at, buy_cost, sell_proceeds, tokens_for_isa}

pub data AgentTokenError : Type 0 where
  token_already_exists token_not_found : (agent_id : ℕ) → AgentTokenError
  insufficient_funds insufficient_tokens invalid_amount zero_amount : AgentTokenError
  unauthorized : (address : ℕ) → AgentTokenError

pub record AgentToken : Type 0 where
  pub agent_id : ℕ
  pub total_supply : ℕ
  pub reserve_balance : ℕ
  pub holders : HashMap ℕ
  pub curve_type : BondingCurve
  pub created_at : ℕ
  pub creator : ℕ

abbrev pub new_token : (agent_id : ℕ) → BondingCurve → (creator height : ℕ) → AgentToken
new_token agent_id curve creator height = record {
  agent_id = agent_id;
  total_supply = 0;
  reserve_balance = 0;
  holders = [];
  curve_type = curve;
  created_at = height;
  creator = creator;
}

pub record AgentTokenFactory : Type 0 where
  pub tokens : HashMap AgentToken
  pub total_tokens_created : ℕ

abbrev pub new : AgentTokenFactory
new = record { tokens = []; total_tokens_created = 0 }

abbrev pub Outcome : Type 0 → Type 0
Outcome A = Result A AgentTokenError × AgentTokenFactory

unfoldable pub create_token :
    (agent_id : ℕ) → BondingCurve → (creator height : ℕ) → AgentTokenFactory → Outcome (Unit {0})
create_token agent_id curve creator height f =
    if contains_key agent_id f.tokens then (err (token_already_exists agent_id), f) else (
      ok tt,
      record {
        tokens = insert agent_id (new_token agent_id curve creator height) f.tokens;
        total_tokens_created = add_u64 f.total_tokens_created 1;
      },
    )

abbrev pub balance_of : (holder : ℕ) → AgentToken → ℕ
balance_of holder token = elim (get holder token.holders) [ none ↦ 0 | some balance ↦ balance ]

abbrev pub bought : (buyer tokens_out cost : ℕ) → AgentToken → AgentToken
bought buyer tokens_out cost token = record token {
  total_supply = add_u128 token.total_supply tokens_out;
  reserve_balance = add_u128 token.reserve_balance cost;
  holders = insert buyer (add_u128 (balance_of buyer token) tokens_out) token.holders;
}

-- `buy` once the token is found; the factory is written back under the identifier.
unfoldable pub buy_from :
    (agent_id buyer isa_amount : ℕ) → AgentToken → AgentTokenFactory → Outcome ℕ
buy_from agent_id buyer isa_amount token f =
    let tokens_out = tokens_for_isa token.curve_type token.total_supply isa_amount in
    if tokens_out == 0
    then (err invalid_amount, f)
    else let actual_cost = buy_cost token.curve_type token.total_supply tokens_out in
      if ltb isa_amount actual_cost then (err insufficient_funds, f) else (
        ok tokens_out,
        record f { tokens = insert agent_id (bought buyer tokens_out actual_cost token) f.tokens },
      )

unfoldable pub buy : (agent_id buyer isa_amount : ℕ) → AgentTokenFactory → Outcome ℕ
unfolding buy_from
buy agent_id buyer isa_amount f =
    if isa_amount == 0 then (err zero_amount, f) else elim (get agent_id f.tokens) [
      | none ↦ (err (token_not_found agent_id), f)
      | some token ↦ buy_from agent_id buyer isa_amount token f
    ]

-- A holder whose balance comes to 0 is dropped.
abbrev pub sold : (seller token_amount isa_out : ℕ) → AgentToken → AgentToken
sold seller token_amount isa_out token =
    let balance = sub_u128 (balance_of seller token) token_amount in
    record token {
      total_supply = sub_u128 token.total_supply token_amount;
      reserve_balance = sub_u128 token.reserve_balance isa_out;
      holders =
          if balance == 0 then remove seller token.holders else insert seller balance token.holders;
    }

-- `sell` once the token is found.
unfoldable pub sell_to :
    (agent_id seller token_amount : ℕ) → AgentToken → AgentTokenFactory → Outcome ℕ
sell_to agent_id seller token_amount token f =
    if ltb (balance_of seller token) token_amount
    then (err insufficient_tokens, f)
    else let isa_out = sell_proceeds token.curve_type token.total_supply token_amount in
      if ltb token.reserve_balance isa_out then (err insufficient_funds, f) else (
        ok isa_out,
        record f { tokens = insert agent_id (sold seller token_amount isa_out token) f.tokens },
      )

unfoldable pub sell : (agent_id seller token_amount : ℕ) → AgentTokenFactory → Outcome ℕ
unfolding sell_to
sell agent_id seller token_amount f =
    if token_amount == 0 then (err zero_amount, f) else elim (get agent_id f.tokens) [
      | none ↦ (err (token_not_found agent_id), f)
      | some token ↦ sell_to agent_id seller token_amount token f
    ]

abbrev pub get_price : (agent_id : ℕ) → AgentTokenFactory → Result ℕ AgentTokenError
get_price agent_id f = elim (get agent_id f.tokens) [
  | none ↦ err (token_not_found agent_id)
  | some token ↦ ok (price_at token.curve_type token.total_supply)
]

abbrev pub get_balance : (agent_id holder : ℕ) → AgentTokenFactory → ℕ
get_balance agent_id holder f = elim (get agent_id f.tokens) [
  | none ↦ 0
  | some token ↦ balance_of holder token
]

abbrev pub get_market_cap : (agent_id : ℕ) → AgentTokenFactory → Result ℕ AgentTokenError
get_market_cap agent_id f = elim (get agent_id f.tokens) [
  | none ↦ err (token_not_found agent_id)
  | some token ↦ ok token.reserve_balance
]

-- A call of a method that writes the factory.
pub data Call : Type 0 where
  creates : (agent_id : ℕ) → BondingCurve → (creator height : ℕ) → Call
  buys : (agent_id buyer isa_amount : ℕ) → Call
  sells : (agent_id seller token_amount : ℕ) → Call

abbrev pub step : AgentTokenFactory → Call → AgentTokenFactory
step f (creates agent_id curve creator height) = (create_token agent_id curve creator height f).1
step f (buys agent_id buyer isa_amount) = (buy agent_id buyer isa_amount f).1
step f (sells agent_id seller token_amount) = (sell agent_id seller token_amount f).1

abbrev pub run : AgentTokenFactory → List Call → AgentTokenFactory
run f [] = f
run f (c ∷ cs) = run (step f c) cs
