-- ===== src/Credits/Ledger.antt =====
-- The sums of core/blockchain/src/credits/system.rs over histories of calls.
use is_a_chain.Prelude.{
  ℕ, ◌+◌, ◌<◌, ◌≡◌, inl, inr, List, [], ◌∷◌, arith, Option-cases, HashMap, get, insert, at_or_zero,
  total, total-insert, at_or_zero-le-total, AllValues, AllValues-insert, AllValues-get, add_u128,
  sub_u128, u128_mod,
}
use is_a_chain.Credits.{
  CreditAccount, CreditSystem, account_or_new, topped_up, charged, issue, purchase_credits,
  spend_credits, set_credit_price, grant_credits, get_credits_for_isa, total_credits_in_circulation,
  Call, purchases, spends, prices, grants, step, issued, run, issued_by,
}

abbrev balance : CreditAccount → ℕ
balance a = a.credit_balance

abbrev purchased : CreditAccount → ℕ
purchased a = a.total_credits_purchased

abbrev spent : CreditAccount → ℕ
spent a = a.total_credits_spent

-- The credits on all accounts.
abbrev pub held : CreditSystem → ℕ
held s = total balance s.accounts

-- An account has what it was issued and has not spent.
abbrev pub IsSettled : CreditAccount → Type 0
IsSettled a = a.credit_balance + a.total_credits_spent ≡ a.total_credits_purchased

pub record IsBalanced (s : CreditSystem) : Type 0 where
  pub settled : AllValues IsSettled s.accounts
  pub issued_sum : s.total_credits_issued ≡ total purchased s.accounts
  pub burned_sum : s.total_credits_burned ≡ total spent s.accounts
  pub held_sum : held s + s.total_credits_burned ≡ s.total_credits_issued
  pub fits : s.total_credits_issued < u128_mod

-- A write of one account moves the three sums by what the account gained or lost.
account_totals :
    (address : ℕ) (a : CreditAccount) (d : HashMap CreditAccount)
    → (total balance (insert address a d) + at_or_zero balance address d
        ≡ total balance d + balance a)
      × (total purchased (insert address a d) + at_or_zero purchased address d
          ≡ total purchased d + purchased a)
      × (total spent (insert address a d) + at_or_zero spent address d ≡ total spent d + spent a)
account_totals address a d = (
  total-insert balance address a d,
  total-insert purchased address a d,
  total-insert spent address a d,
)

module _ (s : CreditSystem) (b : IsBalanced s) where
  issue-IsBalanced :
      (address credits height : ℕ)
      → s.total_credits_issued + credits < u128_mod
      → IsBalanced (issue address credits height s)
        × ((issue address credits height s).total_credits_issued ≡ s.total_credits_issued + credits)
  unfolding add_u128
  issue-IsBalanced address credits height h =
      let a = topped_up credits height (account_or_new address (get address s.accounts)) in
      elim (Option-cases (get address s.accounts)) [
        | inl missing ↦ ground (
          arith,
          account_totals address a s.accounts,
          AllValues-insert IsSettled address a s.accounts b.settled,
        )
        | inr (old, found) ↦ ground (
          arith,
          account_totals address a s.accounts,
          AllValues-get IsSettled address old s.accounts b.settled found,
          at_or_zero-le-total purchased address s.accounts,
          AllValues-insert IsSettled address a s.accounts b.settled,
        )
      ]

  spend-IsBalanced :
      (address credits : ℕ)
      → IsBalanced (step s (spends address credits))
        × ((step s (spends address credits)).total_credits_issued ≡ s.total_credits_issued)
  unfolding step spend_credits add_u128 sub_u128
  spend-IsBalanced address credits = elim (Option-cases (get address s.accounts)) [
    | inl missing ↦ ground (arith, b)
    | inr (a, found) ↦ ground (
      arith,
      b,
      account_totals address (charged credits a) s.accounts,
      AllValues-get IsSettled address a s.accounts b.settled found,
      at_or_zero-le-total spent address s.accounts,
      at_or_zero-le-total balance address s.accounts,
      AllValues-insert IsSettled address (charged credits a) s.accounts b.settled,
    )
  ]

  step-IsBalanced :
      (c : Call)
      → s.total_credits_issued + issued c s < u128_mod
      → IsBalanced (step s c)
        × ((step s c).total_credits_issued ≡ s.total_credits_issued + issued c s)
  unfolding step purchase_credits grant_credits set_credit_price
  step-IsBalanced (purchases address isa_amount isa_price height) h = ground (
    arith,
    b,
    issue-IsBalanced address (get_credits_for_isa isa_amount isa_price s.credit_price_usd) height,
  )
  step-IsBalanced (spends address credits) h = ground (arith, spend-IsBalanced address credits)
  step-IsBalanced (prices new_price caller) h = ground (arith, b)
  step-IsBalanced (grants address credits caller height) h =
      ground (arith, b, issue-IsBalanced address credits height)

-- From a balanced ledger, after any history of calls whose issue does not overflow 128 bits, the
-- total issued has grown by what the successful purchases and grants issued, every account still has
-- what it was issued and has not spent, and the circulation reported is the sum of the balances.
pub credits_balance :
    (s : CreditSystem) (cs : List Call)
    → IsBalanced s
    → s.total_credits_issued + issued_by s cs < u128_mod
    → let s' = run s cs in
      IsBalanced s'
      × (s'.total_credits_issued ≡ s.total_credits_issued + issued_by s cs)
      × (total_credits_in_circulation s' ≡ held s')
unfolding run issued_by total_credits_in_circulation
credits_balance s [] b h = (b, omega arith, omega (arith, b.held_sum))
credits_balance s (c ∷ cs) b h =
    let (b', e) = step-IsBalanced s b c (omega arith) in
    let (b'', e', flow) = credits_balance (step s c) cs b' (omega arith) in (b'', omega arith, flow)
