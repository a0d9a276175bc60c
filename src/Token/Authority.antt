-- ===== src/Token/Authority.antt =====
-- Who may change what in core/blockchain/src/token.rs, and what an error leaves behind.
use is_a_chain.Prelude.{
  subst, sym, ◌∙◌, ℕ, ◌+◌, ◌-◌, ◌≤◌, ◌<◌, ◌≡◌, ◌≢◌, ◌↔◌, ◌⊎◌, refl, true, List, [], ◌∷◌, All, arith,
  ok, err, u128_mod,
}
use is_a_chain.Token.{
  TokenState, TokenError, supply_overflow, Call, mints, burns, grants_minter, drops_minter,
  grants_burner, drops_burner, mint, burn, step, run, is_authorized_minter,
}

abbrev pub caller : Call → ℕ
caller (mints _ c) = c
caller (burns _ c) = c
caller (grants_minter _ c) = c
caller (drops_minter _ c) = c
caller (grants_burner _ c) = c
caller (drops_burner _ c) = c

-- `mint` succeeds exactly for a positive amount, an authorized minter and sums below 2 ^ 128.
pub mint-ok_iff :
    (amount minter : ℕ) (s : TokenState)
    → ((mint amount minter s).0 ≡ ok tt) ↔ (
        (amount ≢ 0)
        × (is_authorized_minter s minter ≡ true)
        × (s.total_supply + amount < u128_mod)
        × (s.total_minted + amount < u128_mod))
unfolding mint
mint-ok_iff amount minter s = (λ h. ground arith, λ h. ground arith)

-- A failed `burn` leaves the state as it was, unless the burnt total overflows: then the supply
-- has already been lowered by the amount.
pub burn-err :
    (amount burner : ℕ) (s : TokenState) (e : TokenError)
    → s.total_supply < u128_mod
    → (burn amount burner s).0 ≡ err e
    → ((burn amount burner s).1 ≡ s)
      ⊎ ((e ≡ supply_overflow)
          × (u128_mod ≤ s.total_burned + amount)
          × ((burn amount burner s).1 ≡ record s { total_supply = s.total_supply - amount }))
unfolding burn
burn-err amount burner s e fits h = ground arith

-- The rights of a state: who may mint, burn and administer.
pub record SameRights (s t : TokenState) : Type 0 where
  pub minters : t.authorized_minters ≡ s.authorized_minters
  pub burners : t.authorized_burners ≡ s.authorized_burners
  pub admins : t.admin ≡ s.admin

step-SameRights : (s : TokenState) (c : Call) → caller c ≢ s.admin → SameRights s (step s c)
unfolding step
step-SameRights s (mints amount who) h = ground arith
step-SameRights s (burns amount who) h = ground arith
step-SameRights s (grants_minter address who) h = ground arith
step-SameRights s (drops_minter address who) h = ground arith
step-SameRights s (grants_burner address who) h = ground arith
step-SameRights s (drops_burner address who) h = ground arith

SameRights-trans : (s t u : TokenState) → SameRights s t → SameRights t u → SameRights s u
SameRights-trans s t u p q = record {
  minters = q.minters ∙ p.minters;
  burners = q.burners ∙ p.burners;
  admins = q.admins ∙ p.admins;
}

-- In a history with no call by the admin nobody gains or loses the right to mint, burn or
-- administer.
pub run-SameRights :
    (s : TokenState) (cs : List Call) → All (λ c. caller c ≢ s.admin) cs → SameRights s (run s cs)
unfolding run
run-SameRights s [] h = record { minters = refl; burners = refl; admins = refl }
run-SameRights s (c ∷ cs) h =
    let first = step-SameRights s c h.0 in
    SameRights-trans s (step s c) (run (step s c) cs) first (
      run-SameRights (step s c) cs (subst (λ a. All (λ d. caller d ≢ a) cs) (sym first.admins) h.1))
