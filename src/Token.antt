-- ===== src/Token.antt =====
-- core/blockchain/src/token.rs: supply accounting of the ISA token and its access lists. The two
-- `HashSet`s are lists without an order that matters.
pub mod Supply
pub mod Authority
mod Tests
use is_a_chain.Prelude.{
  ℕ, ◌+◌, Bool, not, List, [], ◌∷◌, Option, none, some, ◌==◌, ltb, if◌then◌else◌, contains,
  set_insert, set_remove, Result, ok, err, checked_add, sub_u128,
}

pub data TokenError : Type 0 where
  unauthorized_mint unauthorized_burn : ℕ → TokenError
  insufficient_balance supply_overflow invalid_amount : TokenError
  unauthorized_admin : ℕ → TokenError

pub record TokenSupplyInfo : Type 0 where
  pub total_supply : ℕ
  pub total_burned : ℕ
  pub total_minted : ℕ
  pub circulating_supply : ℕ

pub record TokenState : Type 0 where
  pub total_supply : ℕ
  pub total_burned : ℕ
  pub total_minted : ℕ
  pub authorized_minters : List ℕ
  pub authorized_burners : List ℕ
  pub admin : ℕ

unfoldable pub new : ℕ → ℕ → TokenState
new initial_supply admin = record {
  total_supply = initial_supply;
  total_burned = 0;
  total_minted = 0;
  authorized_minters = [];
  authorized_burners = [];
  admin = admin;
}

unfoldable pub get_supply_info : TokenState → TokenSupplyInfo
get_supply_info s = record {
  total_supply = s.total_supply;
  total_burned = s.total_burned;
  total_minted = s.total_minted;
  circulating_supply = s.total_supply;
}

abbrev pub is_authorized_minter : TokenState → ℕ → Bool
is_authorized_minter s address = contains s.authorized_minters address

abbrev pub is_authorized_burner : TokenState → ℕ → Bool
is_authorized_burner s address = contains s.authorized_burners address

abbrev pub is_admin : TokenState → ℕ → Bool
is_admin s address = address == s.admin

abbrev pub Outcome : Type 0
Outcome = Result (Unit {0}) TokenError × TokenState

-- Both checked sums are computed before either field is written.
unfoldable pub mint : ℕ → ℕ → TokenState → Outcome
unfolding checked_add
mint amount minter s =
    if amount == 0
    then (err invalid_amount, s)
    else if not (is_authorized_minter s minter)
    then (err (unauthorized_mint minter), s)
    else elim (checked_add s.total_supply amount) [
      | none ↦ (err supply_overflow, s)
      | some new_supply ↦ elim (checked_add s.total_minted amount) [
        | none ↦ (err supply_overflow, s)
        | some new_minted ↦
            (ok tt, record s { total_supply = new_supply; total_minted = new_minted })
      ]
    ]

-- The supply is lowered before the checked sum of `total_burned`, whose failure leaves it so.
unfoldable pub burn : ℕ → ℕ → TokenState → Outcome
unfolding checked_add sub_u128
burn amount burner s =
    if amount == 0
    then (err invalid_amount, s)
    else if not (is_authorized_burner s burner)
    then (err (unauthorized_burn burner), s)
    else if ltb s.total_supply amount
    then (err insufficient_balance, s)
    else let s' : TokenState = record s { total_supply = sub_u128 s.total_supply amount } in
      elim (checked_add s.total_burned amount) [
        | none ↦ (err supply_overflow, s')
        | some new_burned ↦ (ok tt, record s' { total_burned = new_burned })
      ]

unfoldable pub authorize_minter : ℕ → ℕ → TokenState → Outcome
authorize_minter address admin s =
    if not (is_admin s admin)
    then (err (unauthorized_admin admin), s)
    else (ok tt, record s { authorized_minters = set_insert s.authorized_minters address })

unfoldable pub revoke_minter : ℕ → ℕ → TokenState → Outcome
revoke_minter address admin s =
    if not (is_admin s admin)
    then (err (unauthorized_admin admin), s)
    else (ok tt, record s { authorized_minters = set_remove s.authorized_minters address })

unfoldable pub authorize_burner : ℕ → ℕ → TokenState → Outcome
authorize_burner address admin s =
    if not (is_admin s admin)
    then (err (unauthorized_admin admin), s)
    else (ok tt, record s { authorized_burners = set_insert s.authorized_burners address })

unfoldable pub revoke_burner : ℕ → ℕ → TokenState → Outcome
revoke_burner address admin s =
    if not (is_admin s admin)
    then (err (unauthorized_admin admin), s)
    else (ok tt, record s { authorized_burners = set_remove s.authorized_burners address })

-- A call of a method that writes the token state, its caller last.
pub data Call : Type 0 where
  mints burns grants_minter drops_minter grants_burner drops_burner : ℕ → ℕ → Call

pub step : TokenState → Call → TokenState
unfolding mint burn authorize_minter revoke_minter authorize_burner revoke_burner
step s (mints amount caller) = (mint amount caller s).1
step s (burns amount caller) = (burn amount caller s).1
step s (grants_minter address caller) = (authorize_minter address caller s).1
step s (drops_minter address caller) = (revoke_minter address caller s).1
step s (grants_burner address caller) = (authorize_burner address caller s).1
step s (drops_burner address caller) = (revoke_burner address caller s).1

pub run : TokenState → List Call → TokenState
unfolding step
run s [] = s
run s (c ∷ cs) = run (step s c) cs
