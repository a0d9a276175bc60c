-- ===== src/AgentToken/Holders.antt =====
-- The holders of the tokens of core/blockchain/src/agent_token/factory.rs.
use is_a_chain.Prelude.{
  All, ℕ, ◌%◌, ◌≤◌, ◌<◌, ◌≡◌, ◌==◌, List, [], ◌∷◌, inl, inr, ltb, subst, sym, get, insert,
  contains_key, add_u128, sub_u128, u128_mod, total, total-insert, total-remove,
  at_or_zero-le-total, AllValues, AllValues-insert, AllValues-get, Bool-cases, Option-cases, arith,
}
use is_a_chain.AgentToken.Curve.{BondingCurve, buy_cost, sell_proceeds, tokens_for_isa}
use is_a_chain.AgentToken.Factory.{
  AgentToken, AgentTokenFactory, new, new_token, create_token, balance_of, bought, buy_from, buy,
  sold, sell_to, sell, Call, creates, buys, sells, step, run,
}

abbrev pub same : ℕ → ℕ
same n = n

-- The supply is what the holders have, in the arithmetic of 128 bits.
abbrev pub IsHeld : AgentToken → Type 0
IsHeld token = token.total_supply ≡ total same token.holders % u128_mod

bought-IsHeld :
    (buyer tokens_out cost : ℕ) (token : AgentToken)
    → IsHeld token
    → IsHeld (bought buyer tokens_out cost token)
unfolding add_u128
bought-IsHeld buyer tokens_out cost token held =
    let balance = balance_of buyer token in
    let kept = total-insert same buyer (add_u128 balance tokens_out) token.holders in omega arith

sold-IsHeld :
    (seller token_amount isa_out : ℕ) (token : AgentToken)
    → token_amount < u128_mod
    → token_amount ≤ balance_of seller token
    → IsHeld token
    → IsHeld (sold seller token_amount isa_out token)
unfolding sub_u128
sold-IsHeld seller token_amount isa_out token fits enough held =
    let balance = sub_u128 (balance_of seller token) token_amount in
    let kept = total-insert same seller balance token.holders in
    let dropped = total-remove same seller token.holders in
    let within = at_or_zero-le-total same seller token.holders in
    elim (Bool-cases (balance == 0)) [
      | inl e ↦ rw e (let zero_ : balance ≡ 0 = ground arith in omega arith)
      | inr e ↦ rw e (omega arith)
    ]

-- The supply of every token is what its holders have.
abbrev AreHeld : AgentTokenFactory → Type 0
AreHeld f = AllValues IsHeld f.tokens

-- The amount of a sale is a number of 128 bits.
abbrev pub IsTyped : Call → Type 0
IsTyped (sells agent_id seller token_amount) = token_amount < u128_mod
IsTyped _ = Unit

buy_from-AreHeld :
    (agent_id buyer isa_amount : ℕ) (token : AgentToken) (f : AgentTokenFactory)
    → IsHeld token
    → AreHeld f
    → AreHeld (buy_from agent_id buyer isa_amount token f).1
unfolding buy_from
buy_from-AreHeld agent_id buyer isa_amount token f held all =
    let tokens_out = tokens_for_isa token.curve_type token.total_supply isa_amount in
    let cost = buy_cost token.curve_type token.total_supply tokens_out in
    let token' = bought buyer tokens_out cost token in
    let after =
      AllValues-insert IsHeld agent_id token' f.tokens all
        (bought-IsHeld buyer tokens_out cost token held) in
    elim (Bool-cases (tokens_out == 0)) [
      | inl e ↦ rw (e, buy_from) all
      | inr e ↦ elim (Bool-cases (ltb isa_amount cost)) [
        | inl dear ↦ rw (e, dear, buy_from) all
        | inr paid ↦ rw (e, paid, buy_from) after
      ]
    ]

sell_to-AreHeld :
    (agent_id seller token_amount : ℕ) (token : AgentToken) (f : AgentTokenFactory)
    → token_amount < u128_mod
    → IsHeld token
    → AreHeld f
    → AreHeld (sell_to agent_id seller token_amount token f).1
unfolding sell_to
sell_to-AreHeld agent_id seller token_amount token f fits held all =
    let isa_out = sell_proceeds token.curve_type token.total_supply token_amount in
    let token' = sold seller token_amount isa_out token in
    elim (Bool-cases (ltb (balance_of seller token) token_amount)) [
      | inl e ↦ rw (e, sell_to) all
      | inr e ↦
          let enough : token_amount ≤ balance_of seller token = ground arith in
          let kept = sold-IsHeld seller token_amount isa_out token fits enough held in
          let after = AllValues-insert IsHeld agent_id token' f.tokens all kept in
          elim (Bool-cases (ltb token.reserve_balance isa_out)) [
            | inl short ↦ rw (e, short, sell_to) all
            | inr backed ↦ rw (e, backed, sell_to) after
          ]
    ]

create_token-AreHeld :
    (agent_id : ℕ) (curve : BondingCurve) (creator height : ℕ) (f : AgentTokenFactory)
    → AreHeld f
    → AreHeld (create_token agent_id curve creator height f).1
unfolding create_token
create_token-AreHeld agent_id curve creator height f all =
    let token = new_token agent_id curve creator height in
    let after = AllValues-insert IsHeld agent_id token f.tokens all (omega arith) in
    elim (Bool-cases (contains_key agent_id f.tokens)) [
      | inl e ↦
          let same_f : (create_token agent_id curve creator height f).1 ≡ f = ground arith in
          subst AreHeld (sym same_f) all
      | inr e ↦
          let made : (create_token agent_id curve creator height f).1.tokens
              ≡ insert agent_id token f.tokens =
            ground arith in
          subst (AllValues IsHeld) (sym made) after
    ]

buy-AreHeld :
    (agent_id buyer isa_amount : ℕ) (f : AgentTokenFactory)
    → AreHeld f
    → AreHeld (buy agent_id buyer isa_amount f).1
unfolding buy
buy-AreHeld agent_id buyer isa_amount f all = elim (Bool-cases (isa_amount == 0)) [
  | inl e ↦ rw (e, buy) all
  | inr e ↦ elim (Option-cases (get agent_id f.tokens)) [
    | inl missing ↦ rw (e, missing, buy) all
    | inr (token, found) ↦
        let held = AllValues-get IsHeld agent_id token f.tokens all found in
        rw (e, found, buy) (buy_from-AreHeld agent_id buyer isa_amount token f held all)
  ]
]

sell-AreHeld :
    (agent_id seller token_amount : ℕ) (f : AgentTokenFactory)
    → token_amount < u128_mod
    → AreHeld f
    → AreHeld (sell agent_id seller token_amount f).1
unfolding sell
sell-AreHeld agent_id seller token_amount f typed all = elim (Bool-cases (token_amount == 0)) [
  | inl e ↦ rw (e, sell) all
  | inr e ↦ elim (Option-cases (get agent_id f.tokens)) [
    | inl missing ↦ rw (e, missing, sell) all
    | inr (token, found) ↦
        let held = AllValues-get IsHeld agent_id token f.tokens all found in
        rw (e, found, sell) (sell_to-AreHeld agent_id seller token_amount token f typed held all)
  ]
]

step-AreHeld : (f : AgentTokenFactory) (c : Call) → AreHeld f → IsTyped c → AreHeld (step f c)
step-AreHeld f (creates agent_id curve creator height) all typed =
    create_token-AreHeld agent_id curve creator height f all
step-AreHeld f (buys agent_id buyer isa_amount) all typed =
    buy-AreHeld agent_id buyer isa_amount f all
step-AreHeld f (sells agent_id seller token_amount) all typed =
    sell-AreHeld agent_id seller token_amount f typed all

run-AreHeld :
    (f : AgentTokenFactory) (cs : List Call) → AreHeld f → All IsTyped cs → AreHeld (run f cs)
run-AreHeld f [] all typed = all
run-AreHeld f (c ∷ cs) all (first, typed) =
    run-AreHeld (step f c) cs (step-AreHeld f c all first) typed

-- After any calls the supply of every token is what its holders have together, modulo 2 ^ 128.
pub supply_is_held :
    (calls : List Call)
    → All IsTyped calls
    → AllValues
        (λ token. token.total_supply ≡ total same token.holders % u128_mod)
        (run new calls).tokens
supply_is_held calls typed = run-AreHeld new calls tt typed
