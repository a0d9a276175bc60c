-- ===== src/VeIsa.antt =====
-- core/blockchain/src/veisa: locks of ISA that give voting power. `types.rs` is the data,
-- `system.rs` the system.
pub mod Locks
pub mod Power
mod Tests
use is_a_chain.Prelude.{
  ℕ, ◌+◌, ◌-◌, ◌*◌, ◌/◌, ◌==◌, ◌||◌, true, false, List, [], ◌∷◌, Option, none, some, if◌then◌else◌,
  ltb, leb, Result, ok, err, HashMap, get, insert, remove, contains_key, values, add_u64, add_u128,
  saturating_mul, saturating_sub,
}

pub data VeIsaError : Type 0 where
  insufficient_amount lock_not_expired invalid_duration zero_amount : VeIsaError
  no_lock_found lock_already_exists : (address : ℕ) → VeIsaError

pub record VeIsaLock : Type 0 where
  pub owner : ℕ
  pub amount : ℕ
  pub lock_start : ℕ
  pub lock_end : ℕ
  pub voting_power : ℕ
  pub last_calculated : ℕ

pub record VeIsaSystem : Type 0 where
  pub locks : HashMap VeIsaLock
  pub total_locked : ℕ
  pub total_voting_power : ℕ
  pub min_lock_duration : ℕ
  pub max_lock_duration : ℕ
  pub min_amount : ℕ

abbrev pub new : (min_lock max_lock min_amount : ℕ) → VeIsaSystem
new min_lock max_lock min_amount = record {
  locks = [];
  total_locked = 0;
  total_voting_power = 0;
  min_lock_duration = min_lock;
  max_lock_duration = max_lock;
  min_amount = min_amount;
}

abbrev pub default_system : VeIsaSystem
default_system = new 1000 2_102_400 1_000_000_000_000_000_000

abbrev pub Outcome : Type 0
Outcome = Result ℕ VeIsaError × VeIsaSystem

unfoldable pub calculate_voting_power : (amount remaining_blocks max_duration : ℕ) → ℕ
calculate_voting_power amount remaining_blocks max_duration =
    if (remaining_blocks == 0) || (max_duration == 0)
    then 0
    else saturating_mul amount remaining_blocks / max_duration

-- The system once a lock is inserted.
abbrev pub locked : (owner amount duration height : ℕ) → VeIsaSystem → VeIsaSystem
locked owner amount duration height s =
    let voting_power = calculate_voting_power amount duration s.max_lock_duration in
    let l : VeIsaLock = record {
      owner = owner;
      amount = amount;
      lock_start = height;
      lock_end = add_u64 height duration;
      voting_power = voting_power;
      last_calculated = height;
    } in
    record s {
      locks = insert owner l s.locks;
      total_locked = add_u128 s.total_locked amount;
      total_voting_power = add_u128 s.total_voting_power voting_power;
    }

unfoldable pub lock : (owner amount duration height : ℕ) → VeIsaSystem → Outcome
unfolding calculate_voting_power
lock owner amount duration height s =
    if amount == 0
    then (err zero_amount, s)
    else if ltb amount s.min_amount
    then (err insufficient_amount, s)
    else if ltb duration s.min_lock_duration || ltb s.max_lock_duration duration
    then (err invalid_duration, s)
    else if contains_key owner s.locks
    then (err (lock_already_exists owner), s)
    else (
      ok (calculate_voting_power amount duration s.max_lock_duration),
      locked owner amount duration height s,
    )

abbrev pub extended : (owner new_end height : ℕ) → VeIsaLock → VeIsaSystem → Outcome
extended owner new_end height l s =
    let old_power =
      calculate_voting_power l.amount (saturating_sub l.lock_end height) s.max_lock_duration in
    let new_power =
      calculate_voting_power l.amount (saturating_sub new_end height) s.max_lock_duration in
    let l' : VeIsaLock = record l {
      lock_end = new_end;
      voting_power = new_power;
      last_calculated = height;
    } in
    (
      ok new_power,
      record s {
        locks = insert owner l' s.locks;
        total_voting_power = add_u128 (saturating_sub s.total_voting_power old_power) new_power;
      },
    )

unfoldable pub extend_lock : (owner new_end height : ℕ) → VeIsaSystem → Outcome
unfolding calculate_voting_power
extend_lock owner new_end height s = elim (get owner s.locks) [
  | none ↦ (err (no_lock_found owner), s)
  | some l ↦
      if leb new_end l.lock_end
      then (err invalid_duration, s)
      else if ltb s.max_lock_duration (saturating_sub new_end height)
      then (err invalid_duration, s)
      else extended owner new_end height l s
]

abbrev pub increased : (owner additional : ℕ) → VeIsaLock → VeIsaSystem → Outcome
increased owner additional l s =
    let remaining = saturating_sub l.lock_end l.last_calculated in
    let old_power = calculate_voting_power l.amount remaining s.max_lock_duration in
    let amount = add_u128 l.amount additional in
    let new_power = calculate_voting_power amount remaining s.max_lock_duration in
    let l' : VeIsaLock = record l { amount = amount; voting_power = new_power } in
    (
      ok new_power,
      record s {
        locks = insert owner l' s.locks;
        total_locked = add_u128 (saturating_sub s.total_locked l.amount) amount;
        total_voting_power = add_u128 (saturating_sub s.total_voting_power old_power) new_power;
      },
    )

unfoldable pub increase_amount : (owner additional : ℕ) → VeIsaSystem → Outcome
unfolding calculate_voting_power
increase_amount owner additional s =
    if additional == 0 then (err zero_amount, s) else elim (get owner s.locks) [
      | none ↦ (err (no_lock_found owner), s)
      | some l ↦ increased owner additional l s
    ]

unfoldable pub withdraw : (owner current_height : ℕ) → VeIsaSystem → Outcome
withdraw owner current_height s = elim (get owner s.locks) [
  | none ↦ (err (no_lock_found owner), s)
  | some l ↦ if ltb current_height l.lock_end then (err lock_not_expired, s) else (
    ok l.amount,
    record s {
      locks = remove owner s.locks;
      total_locked = saturating_sub s.total_locked l.amount;
      total_voting_power = saturating_sub s.total_voting_power l.voting_power;
    },
  )
]

unfoldable pub get_voting_power : (owner current_height : ℕ) → VeIsaSystem → ℕ
unfolding calculate_voting_power
get_voting_power owner current_height s = elim (get owner s.locks) [
  | none ↦ 0
  | some l ↦
      if leb l.lock_end current_height
      then 0
      else calculate_voting_power l.amount (l.lock_end - current_height) s.max_lock_duration
]

abbrev pub power_from : (acc current_height : ℕ) → List VeIsaLock → VeIsaSystem → ℕ
power_from acc current_height [] s = acc
power_from acc current_height (l ∷ ls) s =
    power_from (add_u128 acc (get_voting_power l.owner current_height s)) current_height ls s

abbrev pub get_total_voting_power : (current_height : ℕ) → VeIsaSystem → ℕ
get_total_voting_power current_height s = power_from 0 current_height (values s.locks) s

-- A call of a method that writes the system.
pub data Call : Type 0 where
  locks_up : (owner amount duration height : ℕ) → Call
  extends : (owner new_end height : ℕ) → Call
  increases : (owner additional : ℕ) → Call
  withdraws : (owner current_height : ℕ) → Call

unfoldable pub act : Call → VeIsaSystem → Outcome
unfolding lock extend_lock increase_amount withdraw
act (locks_up owner amount duration height) s = lock owner amount duration height s
act (extends owner new_end height) s = extend_lock owner new_end height s
act (increases owner additional) s = increase_amount owner additional s
act (withdraws owner current_height) s = withdraw owner current_height s

abbrev pub run : VeIsaSystem → List Call → VeIsaSystem
run s [] = s
run s (c ∷ cs) = run (act c s).1 cs
