-- ===== src/Deposit.antt =====
-- core/blockchain/src/deposit: ISA turned into credits. `types.rs` is the data, `manager.rs` the
-- manager.
pub mod Lifecycle
mod Tests
use is_a_chain.Prelude.{
  ℕ, ◌+◌, ◌-◌, ◌*◌, ◌/◌, ◌==◌, ◌||◌, true, false, Bool, String, List, [], ◌∷◌, ◌++◌, Option, none,
  some, if◌then◌else◌, Result, ok, err, HashMap, get, insert, listed, push_item, add_u128,
  saturating_mul, checked_mul, be_bytes, le_bytes, u128_mod,
}

abbrev pub micro_usd_scale : ℕ
micro_usd_scale = 1_000_000

pub data DepositStatus : Type 0 where
  pending processing completed refunded : DepositStatus
  failed : (reason : String) → DepositStatus

pub data DepositError : Type 0 where
  insufficient_balance invalid_amount already_processed price_stale : DepositError
  deposit_not_found : (id : ℕ) → DepositError

pub record DepositRequest : Type 0 where
  pub id : ℕ
  pub user : ℕ
  pub isa_amount : ℕ
  pub credits_to_receive : ℕ
  pub isa_price_usd : ℕ
  pub status : DepositStatus
  pub created_at : ℕ
  pub completed_at : Option ℕ
  pub tx_hash : Option ℕ

pub record DepositManager : Type 0 where
  pub deposits : HashMap DepositRequest
  pub by_user : HashMap (List ℕ)
  pub total_deposited_isa : ℕ
  pub total_credits_issued : ℕ
  pub credit_price_usd : ℕ

abbrev pub new : (credit_price_usd : ℕ) → DepositManager
new credit_price_usd = record {
  deposits = [];
  by_user = [];
  total_deposited_isa = 0;
  total_credits_issued = 0;
  credit_price_usd = credit_price_usd;
}

abbrev pub Outcome : Type 0 → Type 0
Outcome A = Result A DepositError × DepositManager

unfoldable pub calculate_credits_inner : (isa_amount isa_price_usd credit_price_usd : ℕ) → ℕ
calculate_credits_inner isa_amount isa_price_usd credit_price_usd =
    if (credit_price_usd == 0) || (isa_price_usd == 0)
    then 0
    else elim (checked_mul isa_amount isa_price_usd) [
      | none ↦ u128_mod - 1
      | some v ↦ v / saturating_mul credit_price_usd micro_usd_scale
    ]

-- The bytes that the identifier is the hash of.
abbrev pub id_input : (user isa_amount height : ℕ) → List ℕ
id_input user isa_amount height = be_bytes 20 user ++ le_bytes 16 isa_amount ++ le_bytes 8 height

abbrev pub requested :
    (id user isa_amount isa_price_usd height : ℕ) → DepositManager → DepositRequest
requested id user isa_amount isa_price_usd height m = record {
  id = id;
  user = user;
  isa_amount = isa_amount;
  credits_to_receive = calculate_credits_inner isa_amount isa_price_usd m.credit_price_usd;
  isa_price_usd = isa_price_usd;
  status = pending;
  created_at = height;
  completed_at = none;
  tx_hash = none;
}

-- Blake3, as `Hash::hash_data` calls it, is a parameter. A deposit under the same identifier is
-- replaced.
unfoldable pub initiate_deposit :
    (List ℕ → ℕ)
    → (user isa_amount isa_price_usd height : ℕ) → DepositManager
    → Outcome DepositRequest
unfolding calculate_credits_inner
initiate_deposit hash_data user isa_amount isa_price_usd height m =
    if isa_amount == 0
    then (err invalid_amount, m)
    else if isa_price_usd == 0
    then (err price_stale, m)
    else let id = hash_data (id_input user isa_amount height) in
      let request = requested id user isa_amount isa_price_usd height m in
      (
        ok request,
        record m { deposits = insert id request m.deposits; by_user = push_item user id m.by_user },
      )

-- Neither completed, refunded nor failed.
abbrev pub is_open : DepositStatus → Bool
is_open pending = true
is_open processing = true
is_open completed = false
is_open refunded = false
is_open (failed reason) = false

abbrev pub is_failed : DepositStatus → Bool
is_failed (failed reason) = true
is_failed pending = false
is_failed processing = false
is_failed completed = false
is_failed refunded = false

abbrev pub finished : (tx_hash height : ℕ) → DepositRequest → DepositRequest
finished tx_hash height d = record d {
  status = completed;
  tx_hash = some tx_hash;
  completed_at = some height;
}

unfoldable pub complete_deposit : (id tx_hash height : ℕ) → DepositManager → Outcome DepositRequest
complete_deposit id tx_hash height m = elim (get id m.deposits) [
  | none ↦ (err (deposit_not_found id), m)
  | some d ↦
      if is_open d.status
      then (
        ok (finished tx_hash height d),
        record m {
          deposits = insert id (finished tx_hash height d) m.deposits;
          total_deposited_isa = add_u128 m.total_deposited_isa d.isa_amount;
          total_credits_issued = add_u128 m.total_credits_issued d.credits_to_receive;
        },
      )
      else (err already_processed, m)
]

unfoldable pub fail_deposit : (id : ℕ) → (reason : String) → DepositManager → Outcome (Unit {0})
fail_deposit id reason m = elim (get id m.deposits) [
  | none ↦ (err (deposit_not_found id), m)
  | some d ↦
      if is_open d.status
      then (
        ok tt,
        record m { deposits = insert id (record d { status = failed reason }) m.deposits },
      )
      else (err already_processed, m)
]

unfoldable pub refund_deposit : (id : ℕ) → DepositManager → Outcome ℕ
refund_deposit id m = elim (get id m.deposits) [
  | none ↦ (err (deposit_not_found id), m)
  | some d ↦
      if is_failed d.status
      then (
        ok d.isa_amount,
        record m { deposits = insert id (record d { status = refunded }) m.deposits },
      )
      else (err already_processed, m)
]

abbrev pub deposits_of : HashMap DepositRequest → List ℕ → List DepositRequest
deposits_of deposits [] = []
deposits_of deposits (id ∷ ids) = elim (get id deposits) [
  | none ↦ deposits_of deposits ids
  | some d ↦ d ∷ deposits_of deposits ids
]

abbrev pub get_user_deposits : (user : ℕ) → DepositManager → List DepositRequest
get_user_deposits user m = deposits_of m.deposits (listed user m.by_user)

-- A call of a method that writes the manager.
pub data Call : Type 0 where
  initiates : (user isa_amount isa_price_usd height : ℕ) → Call
  completes : (id tx_hash height : ℕ) → Call
  fails : (id : ℕ) → (reason : String) → Call
  refunds : (id : ℕ) → Call

unfoldable pub step : (List ℕ → ℕ) → DepositManager → Call → DepositManager
unfolding initiate_deposit complete_deposit fail_deposit refund_deposit
step hash_data m (initiates user isa_amount isa_price_usd height) =
    (initiate_deposit hash_data user isa_amount isa_price_usd height m).1
step hash_data m (completes id tx_hash height) = (complete_deposit id tx_hash height m).1
step hash_data m (fails id reason) = (fail_deposit id reason m).1
step hash_data m (refunds id) = (refund_deposit id m).1

abbrev pub run : (List ℕ → ℕ) → DepositManager → List Call → DepositManager
run hash_data m [] = m
run hash_data m (c ∷ cs) = run hash_data (step hash_data m c) cs
