-- ===== src/Withdrawal.antt =====
-- core/blockchain/src/withdrawal: credits turned back into ISA, after a cooldown. `types.rs` is the
-- data, `manager.rs` the manager.
pub mod Lifecycle
mod Tests
use is_a_chain.Prelude.{
  ℕ, ◌+◌, ◌-◌, ◌*◌, ◌/◌, ◌==◌, true, false, Bool, String, List, [], ◌∷◌, ◌++◌, Option, none, some,
  if◌then◌else◌, ltb, leb, Result, ok, err, HashMap, get, insert, listed, push_item, saturating_add,
  saturating_sub, checked_mul, be_bytes, le_bytes, u128_mod,
}
use is_a_chain.Credits.{default_credit_price_usd}

abbrev pub bps_denominator : ℕ
bps_denominator = 10_000

pub data WithdrawalStatus : Type 0 where
  pending in_cooldown processing completed cancelled : WithdrawalStatus
  failed : (reason : String) → WithdrawalStatus

pub record WithdrawalRequest : Type 0 where
  pub id : ℕ
  pub user : ℕ
  pub credits_amount : ℕ
  pub isa_to_receive : ℕ
  pub isa_price_usd : ℕ
  pub fee : ℕ
  pub status : WithdrawalStatus
  pub created_at : ℕ
  pub completed_at : Option ℕ
  pub tx_hash : Option ℕ
  pub cooldown_ends : ℕ

pub data WithdrawalError : Type 0 where
  insufficient_credits invalid_amount cooldown_not_complete already_processed : WithdrawalError
  withdrawal_not_found : (id : ℕ) → WithdrawalError
  minimum_not_met : (minimum requested : ℕ) → WithdrawalError
  daily_limit_exceeded : (limit used : ℕ) → WithdrawalError

pub record WithdrawalManager : Type 0 where
  pub withdrawals : HashMap WithdrawalRequest
  pub by_user : HashMap (List ℕ)
  pub total_withdrawn_credits : ℕ
  pub total_isa_minted : ℕ
  pub withdrawal_fee_bps : ℕ
  pub cooldown_blocks : ℕ
  pub min_withdrawal : ℕ
  pub daily_limit : ℕ
  pub credit_price_usd : ℕ

abbrev pub new :
    (fee_bps cooldown min_withdrawal daily_limit credit_price_usd : ℕ) → WithdrawalManager
new fee_bps cooldown min_withdrawal daily_limit credit_price_usd = record {
  withdrawals = [];
  by_user = [];
  total_withdrawn_credits = 0;
  total_isa_minted = 0;
  withdrawal_fee_bps = fee_bps;
  cooldown_blocks = cooldown;
  min_withdrawal = min_withdrawal;
  daily_limit = daily_limit;
  credit_price_usd = credit_price_usd;
}

abbrev pub Outcome : Type 0 → Type 0
Outcome A = Result A WithdrawalError × WithdrawalManager

unfoldable pub calculate_isa : (net_credits isa_price_usd : ℕ) → ℕ
calculate_isa net_credits isa_price_usd =
    if isa_price_usd == 0 then 0 else elim (checked_mul net_credits default_credit_price_usd) [
      | none ↦ u128_mod - 1
      | some v ↦ v / isa_price_usd
    ]

unfoldable pub calculate_fee : (credits : ℕ) → WithdrawalManager → ℕ
calculate_fee credits m = elim (checked_mul credits m.withdrawal_fee_bps) [
  | none ↦ 0
  | some v ↦ v / bps_denominator
]

-- The bytes that the identifier is the hash of.
abbrev pub id_input : (user credits height : ℕ) → List ℕ
id_input user credits height = be_bytes 20 user ++ le_bytes 16 credits ++ le_bytes 8 height

-- Neither completed, failed nor cancelled.
abbrev pub is_open : WithdrawalStatus → Bool
is_open pending = true
is_open in_cooldown = true
is_open processing = true
is_open completed = false
is_open cancelled = false
is_open (failed reason) = false

-- What one listed request adds to the pending credits.
abbrev pub pending_of : HashMap WithdrawalRequest → (id : ℕ) → ℕ
pending_of withdrawals id = elim (get id withdrawals) [
  | none ↦ 0
  | some r ↦ if is_open r.status then r.credits_amount else 0
]

abbrev pub pending_from : (acc : ℕ) → HashMap WithdrawalRequest → List ℕ → ℕ
pending_from acc withdrawals [] = acc
pending_from acc withdrawals (id ∷ ids) =
    pending_from (saturating_add acc (pending_of withdrawals id)) withdrawals ids

unfoldable pub user_pending_credits : (user : ℕ) → WithdrawalManager → ℕ
user_pending_credits user m = pending_from 0 m.withdrawals (listed user m.by_user)

-- The request of `initiate_withdrawal`.
abbrev pub requested :
    (id user credits isa_price_usd height : ℕ) → WithdrawalManager → WithdrawalRequest
requested id user credits isa_price_usd height m =
    let fee = calculate_fee credits m in
    record {
      id = id;
      user = user;
      credits_amount = credits;
      isa_to_receive = calculate_isa (saturating_sub credits fee) isa_price_usd;
      isa_price_usd = isa_price_usd;
      fee = fee;
      status = in_cooldown;
      created_at = height;
      completed_at = none;
      tx_hash = none;
      cooldown_ends =
          (let ends = height + m.cooldown_blocks in
            if ltb ends 18_446_744_073_709_551_616 then ends else 18_446_744_073_709_551_615);
    }

-- Blake3, as `Hash::hash_data` calls it, is a parameter. A request under the same identifier is
-- replaced.
unfoldable pub initiate_withdrawal :
    (List ℕ → ℕ)
    → (user credits isa_price_usd height : ℕ) → WithdrawalManager
    → Outcome WithdrawalRequest
unfolding user_pending_credits calculate_fee calculate_isa
initiate_withdrawal hash_data user credits isa_price_usd height m =
    if credits == 0
    then (err invalid_amount, m)
    else if ltb credits m.min_withdrawal
    then (err (minimum_not_met m.min_withdrawal credits), m)
    else let used = user_pending_credits user m in
      if ltb m.daily_limit (saturating_add used credits)
      then (err (daily_limit_exceeded m.daily_limit used), m)
      else let id = hash_data (id_input user credits height) in
        let request = requested id user credits isa_price_usd height m in
        (
          ok request,
          record m {
            withdrawals = insert id request m.withdrawals;
            by_user = push_item user id m.by_user;
          },
        )

abbrev pub is_completable : WithdrawalStatus → Bool
is_completable in_cooldown = true
is_completable processing = true
is_completable _ = false

abbrev pub finished : (tx_hash height : ℕ) → WithdrawalRequest → WithdrawalRequest
finished tx_hash height r = record r {
  status = completed;
  completed_at = some height;
  tx_hash = some tx_hash;
}

unfoldable pub complete_withdrawal :
    (id tx_hash height : ℕ) → WithdrawalManager → Outcome WithdrawalRequest
complete_withdrawal id tx_hash height m = elim (get id m.withdrawals) [
  | none ↦ (err (withdrawal_not_found id), m)
  | some r ↦
      if ltb height r.cooldown_ends
      then (err cooldown_not_complete, m)
      else if is_completable r.status
      then (
        ok (finished tx_hash height r),
        record m {
          withdrawals = insert id (finished tx_hash height r) m.withdrawals;
          total_withdrawn_credits = saturating_add m.total_withdrawn_credits r.credits_amount;
          total_isa_minted = saturating_add m.total_isa_minted r.isa_to_receive;
        },
      )
      else (err already_processed, m)
]

unfoldable pub cancel_withdrawal : (id : ℕ) → WithdrawalManager → Outcome ℕ
cancel_withdrawal id m = elim (get id m.withdrawals) [
  | none ↦ (err (withdrawal_not_found id), m)
  | some r ↦
      if is_open r.status
      then (
        ok r.credits_amount,
        record m { withdrawals = insert id (record r { status = cancelled }) m.withdrawals },
      )
      else (err already_processed, m)
]

abbrev pub check_cooldown :
    (id current_height : ℕ) → WithdrawalManager → Result Bool WithdrawalError
check_cooldown id current_height m = elim (get id m.withdrawals) [
  | none ↦ err (withdrawal_not_found id)
  | some r ↦ ok (leb r.cooldown_ends current_height)
]

abbrev pub requests_of : HashMap WithdrawalRequest → List ℕ → List WithdrawalRequest
requests_of withdrawals [] = []
requests_of withdrawals (id ∷ ids) = elim (get id withdrawals) [
  | none ↦ requests_of withdrawals ids
  | some r ↦ r ∷ requests_of withdrawals ids
]

abbrev pub get_user_withdrawals : (user : ℕ) → WithdrawalManager → List WithdrawalRequest
get_user_withdrawals user m = requests_of m.withdrawals (listed user m.by_user)

-- A call of a method that writes the manager.
pub data Call : Type 0 where
  initiates : (user credits isa_price_usd height : ℕ) → Call
  completes : (id tx_hash height : ℕ) → Call
  cancels : (id : ℕ) → Call

unfoldable pub step : (List ℕ → ℕ) → WithdrawalManager → Call → WithdrawalManager
unfolding initiate_withdrawal complete_withdrawal cancel_withdrawal
step hash_data m (initiates user credits isa_price_usd height) =
    (initiate_withdrawal hash_data user credits isa_price_usd height m).1
step hash_data m (completes id tx_hash height) = (complete_withdrawal id tx_hash height m).1
step hash_data m (cancels id) = (cancel_withdrawal id m).1

abbrev pub run : (List ℕ → ℕ) → WithdrawalManager → List Call → WithdrawalManager
run hash_data m [] = m
run hash_data m (c ∷ cs) = run hash_data (step hash_data m c) cs
