-- ===== src/Credits.antt =====
-- core/blockchain/src/credits: credits pegged to the dollar, bought with ISA. `types.rs` is the
-- data, `system.rs` the ledger.
pub mod Ledger
pub mod Prices
mod Tests
use is_a_chain.Prelude.{
  ℕ, ◌+◌, ◌/◌, ◌-◌, Bool, not, List, [], ◌∷◌, Option, none, some, ltb, ◌==◌, if◌then◌else◌, HashMap,
  get, insert, Result, ok, err, add_u128, sub_u128, checked_mul, saturating_mul, saturating_sub,
  u128_mod,
}

pub data CreditError : Type 0 where
  insufficient_credits insufficient_isa below_minimum_purchase invalid_amount : CreditError
  account_not_found unauthorized_admin : (address : ℕ) → CreditError

pub record CreditAccount : Type 0 where
  pub address : ℕ
  pub credit_balance : ℕ
  pub total_credits_purchased : ℕ
  pub total_credits_spent : ℕ
  pub last_top_up_height : ℕ

pub record CreditSystem : Type 0 where
  pub accounts : HashMap CreditAccount
  pub credit_price_usd : ℕ
  pub total_credits_issued : ℕ
  pub total_credits_burned : ℕ
  pub min_purchase : ℕ
  pub admin : ℕ

abbrev pub default_credit_price_usd : ℕ
default_credit_price_usd = 100

abbrev pub micro_usd_scale : ℕ
micro_usd_scale = 1_000_000

abbrev pub new_account : ℕ → CreditAccount
new_account address = record {
  address = address;
  credit_balance = 0;
  total_credits_purchased = 0;
  total_credits_spent = 0;
  last_top_up_height = 0;
}

abbrev pub new : ℕ → ℕ → ℕ → CreditSystem
new credit_price_usd min_purchase admin = record {
  accounts = [];
  credit_price_usd = credit_price_usd;
  total_credits_issued = 0;
  total_credits_burned = 0;
  min_purchase = min_purchase;
  admin = admin;
}

abbrev pub Outcome : Type 0 → Type 0
Outcome A = Result A CreditError × CreditSystem

-- `checked_mul(b).map(|v| v / d).unwrap_or(u128::MAX)`
abbrev quotient : Option ℕ → ℕ → ℕ
quotient none d = u128_mod - 1
quotient (some v) d = v / d

unfoldable pub get_credits_for_isa : ℕ → ℕ → ℕ → ℕ
unfolding checked_mul saturating_mul
get_credits_for_isa isa_amount isa_price_usd credit_price_usd =
    if credit_price_usd == 0
    then 0
    else quotient (checked_mul isa_amount isa_price_usd)
        (saturating_mul credit_price_usd micro_usd_scale)

abbrev pub credits_for_isa : ℕ → ℕ → ℕ
credits_for_isa isa_amount isa_price_usd =
    get_credits_for_isa isa_amount isa_price_usd default_credit_price_usd

unfoldable pub get_isa_cost_for_credits : ℕ → ℕ → ℕ
unfolding checked_mul
get_isa_cost_for_credits credits isa_price_usd =
    if isa_price_usd == 0
    then 0
    else quotient (checked_mul credits default_credit_price_usd) isa_price_usd

-- `entry(address).or_insert_with(…)`
abbrev pub account_or_new : ℕ → Option CreditAccount → CreditAccount
account_or_new address (some a) = a
account_or_new address none = new_account address

abbrev pub topped_up : ℕ → ℕ → CreditAccount → CreditAccount
topped_up credits height a = record a {
  credit_balance = add_u128 a.credit_balance credits;
  total_credits_purchased = add_u128 a.total_credits_purchased credits;
  last_top_up_height = height;
}

-- What `purchase_credits` and `grant_credits` write.
abbrev pub issue : ℕ → ℕ → ℕ → CreditSystem → CreditSystem
issue address credits height s = record s {
  accounts =
      insert address (topped_up credits height (account_or_new address (get address s.accounts)))
        s.accounts;
  total_credits_issued = add_u128 s.total_credits_issued credits;
}

unfoldable pub purchase_credits : ℕ → ℕ → ℕ → ℕ → CreditSystem → Outcome ℕ
unfolding get_credits_for_isa
purchase_credits address isa_amount isa_price_usd height s =
    if isa_amount == 0
    then (err invalid_amount, s)
    else let credits = get_credits_for_isa isa_amount isa_price_usd s.credit_price_usd in
      if ltb credits s.min_purchase
      then (err below_minimum_purchase, s)
      else (ok credits, issue address credits height s)

abbrev pub charged : ℕ → CreditAccount → CreditAccount
charged credits a = record a {
  credit_balance = sub_u128 a.credit_balance credits;
  total_credits_spent = add_u128 a.total_credits_spent credits;
}

unfoldable pub spend_credits : ℕ → ℕ → CreditSystem → Outcome (Unit {0})
spend_credits address credits s = elim (get address s.accounts) [
  | none ↦ (err (account_not_found address), s)
  | some a ↦ if ltb a.credit_balance credits then (err insufficient_credits, s) else (
    ok tt,
    record s {
      accounts = insert address (charged credits a) s.accounts;
      total_credits_burned = add_u128 s.total_credits_burned credits;
    },
  )
]

unfoldable pub get_balance : ℕ → CreditSystem → ℕ
get_balance address s = elim (get address s.accounts) [ none ↦ 0 | some a ↦ a.credit_balance ]

unfoldable pub set_credit_price : ℕ → ℕ → CreditSystem → Outcome (Unit {0})
set_credit_price new_price caller s =
    if not (caller == s.admin)
    then (err (unauthorized_admin caller), s)
    else if new_price == 0
    then (err invalid_amount, s)
    else (ok tt, record s { credit_price_usd = new_price })

unfoldable pub grant_credits : ℕ → ℕ → ℕ → ℕ → CreditSystem → Outcome (Unit {0})
grant_credits address credits caller height s =
    if not (caller == s.admin)
    then (err (unauthorized_admin caller), s)
    else if credits == 0
    then (err invalid_amount, s)
    else (ok tt, issue address credits height s)

unfoldable pub total_credits_in_circulation : CreditSystem → ℕ
total_credits_in_circulation s = saturating_sub s.total_credits_issued s.total_credits_burned

-- A call of a method that writes the ledger.
pub data Call : Type 0 where
  purchases : (address isa_amount isa_price_usd height : ℕ) → Call
  spends : (address credits : ℕ) → Call
  prices : (new_price caller : ℕ) → Call
  grants : (address credits caller height : ℕ) → Call

unfoldable pub step : CreditSystem → Call → CreditSystem
unfolding purchase_credits spend_credits set_credit_price grant_credits
step s (purchases address isa_amount isa_price_usd height) =
    (purchase_credits address isa_amount isa_price_usd height s).1
step s (spends address credits) = (spend_credits address credits s).1
step s (prices new_price caller) = (set_credit_price new_price caller s).1
step s (grants address credits caller height) = (grant_credits address credits caller height s).1

-- The credits that a call adds.
abbrev pub issued : Call → CreditSystem → ℕ
issued (purchases address isa_amount isa_price_usd height) s =
    elim (purchase_credits address isa_amount isa_price_usd height s).0 [
      | ok credits ↦ credits
      | err _ ↦ 0
    ]
issued (grants address credits caller height) s =
    elim (grant_credits address credits caller height s).0 [ ok _ ↦ credits | err _ ↦ 0 ]
issued _ s = 0

unfoldable pub run : CreditSystem → List Call → CreditSystem
unfolding step
run s [] = s
run s (c ∷ cs) = run (step s c) cs

-- The credits that a history of calls adds.
unfoldable pub issued_by : CreditSystem → List Call → ℕ
unfolding step
issued_by s [] = 0
issued_by s (c ∷ cs) = issued c s + issued_by (step s c) cs
