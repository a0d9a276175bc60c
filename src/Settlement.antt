-- ===== src/Settlement.antt =====
-- core/blockchain/src/settlement: the engine that records burn and mint settlements. `types.rs` is
-- the data, `engine.rs` the engine.
pub mod Records
pub mod Totals
mod Tests
use is_a_chain.Prelude.{
  zero, suc, ◌≡◌, false, inl, inr, Bool-cases, ◌++◌, ◌-◌, ◌/◌, ◌==◌, String, listed,
}
use is_a_chain.Budget.{ServiceType}
use is_a_chain.Prelude.{
  ok, saturating_add, suc, err, length, none, ◌==◌, le_bytes, push_item, some, ◌-◌, listed, ◌∷◌,
  ◌/◌, HashMap, Option, be_bytes, arith, if◌then◌else◌, [], Result, ◌++◌, ℕ, List, String,
  saturating_mul,
}

pub data SettlementStatus : Type 0 where
  pending completed disputed : SettlementStatus
  failed : (reason : String) → SettlementStatus

pub record SettlementRecord : Type 0 where
  pub id : ℕ
  pub user : ℕ
  pub provider : ℕ
  pub gross_amount : ℕ
  pub fee_amount : ℕ
  pub net_amount : ℕ
  pub burn_tx : ℕ
  pub mint_tx : ℕ
  pub height : ℕ
  pub timestamp : ℕ
  pub service_type : ServiceType
  pub status : SettlementStatus

pub data SettlementError : Type 0 where
  insufficient_balance invalid_amount same_user_and_provider : SettlementError
  settlement_not_found : (id : ℕ) → SettlementError
  already_settled : (id : ℕ) → SettlementError
  token_error : (reason : String) → SettlementError

pub record SettlementEngine : Type 0 where
  pub records : List SettlementRecord
  pub records_by_user : HashMap (List ℕ)
  pub records_by_provider : HashMap (List ℕ)
  pub total_settled : ℕ
  pub total_fees : ℕ
  pub fee_rate_bps : ℕ

abbrev pub new : (fee_rate_bps : ℕ) → SettlementEngine
new fee_rate_bps = record {
  records = [];
  records_by_user = [];
  records_by_provider = [];
  total_settled = 0;
  total_fees = 0;
  fee_rate_bps = fee_rate_bps;
}

abbrev pub Outcome : Type 0 → Type 0
Outcome A = Result A SettlementError × SettlementEngine

-- The fee and what is left of the gross amount.
unfoldable pub calculate_split : (gross_amount : ℕ) → SettlementEngine → ℕ × ℕ
calculate_split gross_amount e =
    let fee = saturating_mul gross_amount e.fee_rate_bps / 10_000 in (fee, gross_amount - fee)

-- The bytes that the identifier is the hash of.
abbrev pub id_input : (user provider gross_amount height timestamp : ℕ) → SettlementEngine → List ℕ
id_input user provider gross_amount height timestamp e =
    be_bytes 20 user
    ++ be_bytes 20 provider
    ++ le_bytes 16 gross_amount
    ++ le_bytes 8 height
    ++ le_bytes 8 timestamp
    ++ le_bytes 8 (length e.records)

abbrev pub settlement :
    (hash_data : List ℕ → ℕ) (user provider gross_amount : ℕ) (service_type : ServiceType)
    (height timestamp : ℕ)
    → SettlementEngine
    → SettlementRecord
settlement hash_data user provider gross_amount service_type height timestamp e =
    let input = id_input user provider gross_amount height timestamp e in
    let split = calculate_split gross_amount e in
    record {
      id = hash_data input;
      user = user;
      provider = provider;
      gross_amount = gross_amount;
      fee_amount = split.0;
      net_amount = split.1;
      burn_tx = hash_data (input ++ 66 ∷ []);
      mint_tx = hash_data (input ++ 77 ∷ []);
      height = height;
      timestamp = timestamp;
      service_type = service_type;
      status = completed;
    }

-- The engine with a record more: in the list, in both indices and in the totals.
abbrev pub recorded : SettlementRecord → SettlementEngine → SettlementEngine
recorded r e = record e {
  records = e.records ++ r ∷ [];
  records_by_user = push_item r.user (length e.records) e.records_by_user;
  records_by_provider = push_item r.provider (length e.records) e.records_by_provider;
  total_settled = saturating_add e.total_settled r.gross_amount;
  total_fees = saturating_add e.total_fees r.fee_amount;
}

-- Blake3, as `Hash::hash_data` calls it, is a parameter.
unfoldable pub settle :
    (List ℕ → ℕ)
    → (user provider gross_amount : ℕ) → ServiceType
    → (height timestamp : ℕ) → SettlementEngine
    → Outcome SettlementRecord
settle hash_data user provider gross_amount service_type height timestamp e =
    if gross_amount == 0
    then (err invalid_amount, e)
    else if user == provider
    then (err same_user_and_provider, e)
    else let r = settlement hash_data user provider gross_amount service_type height timestamp e in
      (ok r, recorded r e)

-- The user, the provider, the amount and the service.
abbrev pub Entry : Type 0
Entry = ℕ × ℕ × ℕ × ServiceType

unfoldable pub batch_settle :
    (List ℕ → ℕ)
    → List Entry
    → (height timestamp : ℕ) → SettlementEngine
    → List (Result SettlementRecord SettlementError) × SettlementEngine
unfolding settle
batch_settle hash_data [] height timestamp e = ([], e)
batch_settle hash_data ((user, provider, amount, service_type) ∷ rest) height timestamp e =
    let first = settle hash_data user provider amount service_type height timestamp e in
    let others = batch_settle hash_data rest height timestamp first.1 in
    (first.0 ∷ others.0, others.1)

abbrev pub find_record : ℕ → List SettlementRecord → Option SettlementRecord
find_record id [] = none
find_record id (r ∷ rs) = if r.id == id then some r else find_record id rs

unfoldable pub get_record : (id : ℕ) → SettlementEngine → Option SettlementRecord
get_record id e = find_record id e.records

-- `&self.records[i]`; `none` where the index is out of range and the code panics.
abbrev pub record_at : List SettlementRecord → ℕ → Option SettlementRecord
record_at [] i = none
record_at (r ∷ rs) zero = some r
record_at (r ∷ rs) (suc i) = record_at rs i

abbrev pub records_at : List SettlementRecord → List ℕ → Option (List SettlementRecord)
records_at rs [] = some []
records_at rs (i ∷ is) = elim (record_at rs i) [
  | none ↦ none
  | some r ↦ elim (records_at rs is) [ none ↦ none | some others ↦ some (r ∷ others) ]
]

unfoldable pub get_user_records : (user : ℕ) → SettlementEngine → Option (List SettlementRecord)
get_user_records user e = records_at e.records (listed user e.records_by_user)

unfoldable pub get_provider_records :
    (provider : ℕ) → SettlementEngine → Option (List SettlementRecord)
get_provider_records provider e = records_at e.records (listed provider e.records_by_provider)

-- A call of a method that writes the engine.
pub data Call : Type 0 where
  settles :
      (user provider gross_amount : ℕ) (service_type : ServiceType) (height timestamp : ℕ) → Call
  settles_all : (entries : List Entry) (height timestamp : ℕ) → Call

unfoldable pub step : (List ℕ → ℕ) → SettlementEngine → Call → SettlementEngine
unfolding settle batch_settle
step hash_data e (settles user provider gross_amount service_type height timestamp) =
    (settle hash_data user provider gross_amount service_type height timestamp e).1
step hash_data e (settles_all entries height timestamp) =
    (batch_settle hash_data entries height timestamp e).1

abbrev pub run : (List ℕ → ℕ) → SettlementEngine → List Call → SettlementEngine
run hash_data e [] = e
run hash_data e (c ∷ cs) = run hash_data (step hash_data e c) cs

-- What holds of an engine and is kept by a settlement holds after every call.
module _ {ℓ} (P : SettlementEngine → Type ℓ) (hash_data : List ℕ → ℕ)
    (settled : (e : SettlementEngine) (user provider gross_amount : ℕ) (service_type : ServiceType)
        (height timestamp : ℕ)
      → (gross_amount == 0) ≡ false
      → (user == provider) ≡ false
      → P e
      → P (
          recorded
            (settlement hash_data user provider gross_amount service_type height timestamp e)
            e)) where
  settle-keeps :
      (e : SettlementEngine) (user provider gross_amount : ℕ) (service_type : ServiceType)
      (height timestamp : ℕ)
      → P e
      → P (settle hash_data user provider gross_amount service_type height timestamp e).1
  unfolding settle
  settle-keeps e user provider gross_amount service_type height timestamp p =
      elim (Bool-cases (gross_amount == 0)) [
        | inl nothing ↦ rw nothing p
        | inr positive ↦ elim (Bool-cases (user == provider)) [
          | inl same ↦ rw (positive, same) p
          | inr other ↦
              rw (positive, other)
                (settled e user provider gross_amount service_type height timestamp positive other
                  p)
        ]
      ]

  batch-keeps :
      (entries : List Entry) (height timestamp : ℕ) (e : SettlementEngine)
      → P e
      → P (batch_settle hash_data entries height timestamp e).1
  unfolding batch_settle
  batch-keeps [] height timestamp e p = p
  batch-keeps ((user, provider, amount, service_type) ∷ rest) height timestamp e p =
      batch-keeps rest height timestamp
        (settle hash_data user provider amount service_type height timestamp e).1
        (settle-keeps e user provider amount service_type height timestamp p)

  pub run_keeps : (e : SettlementEngine) (cs : List Call) → P e → P (run hash_data e cs)
  unfolding step
  run_keeps e [] p = p
  run_keeps e (settles user provider amount service_type height timestamp ∷ cs) p =
      run_keeps (settle hash_data user provider amount service_type height timestamp e).1 cs
        (settle-keeps e user provider amount service_type height timestamp p)
  run_keeps e (settles_all entries height timestamp ∷ cs) p =
      run_keeps (batch_settle hash_data entries height timestamp e).1 cs
        (batch-keeps entries height timestamp e p)
