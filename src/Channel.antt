-- ===== src/Channel.antt =====
-- core/blockchain/src/channel: two-party payment channels. `types.rs` holds the data and
-- `manager.rs` the manager, whose `get_mut` followed by writes is a lookup and an `insert`.
mod Tests
pub mod Balances
pub mod Payout
pub mod Lifecycle
use is_a_chain.Prelude.{
  ℕ, suc, Bool, true, false, not, ◌||◌, ◌&&◌, List, [], ◌∷◌, ◌++◌, Option, none, some, ◌==◌, ltb,
  leb, if◌then◌else◌, HashMap, get, insert, push_item, Result, ok, err, add_u64, add_u128, be_bytes,
  le_bytes,
}

pub data ChannelError : Type 0 where
  channel_not_found : ℕ → ChannelError
  channel_not_open channel_expired insufficient_deposit invalid_balances : ChannelError
  invalid_nonce : ChannelError
  not_participant : ℕ → ChannelError
  dispute_period_not_over same_participants : ChannelError

pub data ChannelStatus : Type 0 where
  is_open : ChannelStatus
  closing : (initiated_at : ℕ) → ChannelStatus
  disputed : (disputed_at : ℕ) → ChannelStatus
  closed expired : ChannelStatus

pub record Channel : Type 0 where
  pub id : ℕ
  pub sender : ℕ
  pub receiver : ℕ
  pub deposit : ℕ
  pub sender_balance : ℕ
  pub receiver_balance : ℕ
  pub nonce : ℕ
  pub status : ChannelStatus
  pub opened_at : ℕ
  pub expires_at : ℕ
  pub last_updated : ℕ
  pub dispute_period : ℕ

pub record ChannelUpdate : Type 0 where
  pub channel_id : ℕ
  pub nonce : ℕ
  pub sender_balance : ℕ
  pub receiver_balance : ℕ

pub record ChannelManager : Type 0 where
  pub channels : HashMap Channel
  pub channels_by_sender : HashMap (List ℕ)
  pub channels_by_receiver : HashMap (List ℕ)
  pub default_dispute_period : ℕ
  pub default_expiry : ℕ

abbrev pub Outcome : Type 0 → Type 0
Outcome A = Result A ChannelError × ChannelManager

abbrev pub new : ℕ → ℕ → ChannelManager
new default_dispute_period default_expiry = record {
  channels = [];
  channels_by_sender = [];
  channels_by_receiver = [];
  default_dispute_period = default_dispute_period;
  default_expiry = default_expiry;
}

-- `status == ChannelStatus::Open`
abbrev pub has_open_status : ChannelStatus → Bool
has_open_status is_open = true
has_open_status _ = false

-- The bytes that a channel's identifier is the hash of.
unfoldable pub id_preimage : ℕ → ℕ → ℕ → List ℕ
id_preimage sender receiver height =
    be_bytes 20 sender ++ (be_bytes 20 receiver ++ le_bytes 8 height)

abbrev pub opened : ℕ → ℕ → ℕ → ℕ → ℕ → ChannelManager → Channel
opened channel_id sender receiver deposit height m = record {
  id = channel_id;
  sender = sender;
  receiver = receiver;
  deposit = deposit;
  sender_balance = deposit;
  receiver_balance = 0;
  nonce = 0;
  status = is_open;
  opened_at = height;
  expires_at = add_u64 height m.default_expiry;
  last_updated = height;
  dispute_period = m.default_dispute_period;
}

-- Blake3, as `Hash::hash_data` calls it, is a parameter.
module _ (hash_data : List ℕ → ℕ) where
  unfoldable pub open_channel : ℕ → ℕ → ℕ → ℕ → ChannelManager → Outcome ℕ
  open_channel sender receiver deposit height m =
      if sender == receiver
      then (err same_participants, m)
      else if deposit == 0
      then (err insufficient_deposit, m)
      else let channel_id = hash_data (id_preimage sender receiver height) in
        (
          ok channel_id,
          record m {
            channels =
                insert channel_id (opened channel_id sender receiver deposit height m) m.channels;
            channels_by_sender = push_item sender channel_id m.channels_by_sender;
            channels_by_receiver = push_item receiver channel_id m.channels_by_receiver;
          },
        )

abbrev pub put : ChannelManager → ℕ → Channel → ChannelManager
put m channel_id channel = record m { channels = insert channel_id channel m.channels }

-- `channels.get_mut(channel_id).ok_or(ChannelNotFound)?`, and the rest of the method.
abbrev with_channel : {A : Type 0} → ℕ → ChannelManager → (Channel → Outcome A) → Outcome A
with_channel channel_id m body = elim (get channel_id m.channels) [
  | none ↦ (err (channel_not_found channel_id), m)
  | some channel ↦ body channel
]

abbrev pub balances_match : ChannelUpdate → Channel → Bool
balances_match update c = add_u128 update.sender_balance update.receiver_balance == c.deposit

unfoldable pub update_channel : ℕ → ChannelUpdate → ChannelManager → Outcome (Unit {0})
update_channel channel_id update m = with_channel channel_id m λ c.
    if not (has_open_status c.status)
    then (err channel_not_open, m)
    else if leb update.nonce c.nonce
    then (err invalid_nonce, m)
    else if not (balances_match update c)
    then (err invalid_balances, m)
    else (
      ok tt,
      put m channel_id (record c {
        nonce = update.nonce;
        sender_balance = update.sender_balance;
        receiver_balance = update.receiver_balance;
      }),
    )

abbrev pub is_participant : Channel → ℕ → Bool
is_participant c who = who == c.sender || who == c.receiver

unfoldable pub close_channel : ℕ → ℕ → ℕ → ChannelManager → Outcome (Unit {0})
close_channel channel_id initiator height m = with_channel channel_id m λ c.
    if not (is_participant c initiator)
    then (err (not_participant initiator), m)
    else if not (has_open_status c.status)
    then (err channel_not_open, m)
    else (ok tt, put m channel_id (record c { status = closing height; last_updated = height }))

abbrev pub can_dispute : ChannelStatus → Bool
can_dispute is_open = true
can_dispute (closing _) = true
can_dispute _ = false

unfoldable pub dispute_channel : ℕ → ChannelUpdate → ℕ → ℕ → ChannelManager → Outcome (Unit {0})
dispute_channel channel_id update disputer height m = with_channel channel_id m λ c.
    if not (is_participant c disputer)
    then (err (not_participant disputer), m)
    else if not (can_dispute c.status)
    then (err channel_not_open, m)
    else if leb update.nonce c.nonce
    then (err invalid_nonce, m)
    else if not (balances_match update c)
    then (err invalid_balances, m)
    else (
      ok tt,
      put m channel_id (record c {
        nonce = update.nonce;
        sender_balance = update.sender_balance;
        receiver_balance = update.receiver_balance;
        status = disputed height;
        last_updated = height;
      }),
    )

-- The height from which the dispute period runs.
abbrev pub settling_since : ChannelStatus → Option ℕ
settling_since (closing initiated_at) = some initiated_at
settling_since (disputed disputed_at) = some disputed_at
settling_since _ = none

unfoldable pub finalize_channel : ℕ → ℕ → ChannelManager → Outcome (ℕ × ℕ)
finalize_channel channel_id current_height m = with_channel channel_id m λ c.
    elim (settling_since c.status) [
      | none ↦ (err channel_not_open, m)
      | some initiated_at ↦
          if ltb current_height (add_u64 initiated_at c.dispute_period)
          then (err dispute_period_not_over, m)
          else (
            ok (c.sender_balance, c.receiver_balance),
            put m channel_id (record c { status = closed; last_updated = current_height }),
          )
    ]

unfoldable pub top_up : ℕ → ℕ → ChannelManager → Outcome (Unit {0})
top_up channel_id amount m = with_channel channel_id m λ c.
    if not (has_open_status c.status)
    then (err channel_not_open, m)
    else if amount == 0
    then (err insufficient_deposit, m)
    else (
      ok tt,
      put m channel_id (record c {
        deposit = add_u128 c.deposit amount;
        sender_balance = add_u128 c.sender_balance amount;
      }),
    )

unfoldable pub check_expired : ℕ → ℕ → ChannelManager → Outcome Bool
check_expired channel_id current_height m = with_channel channel_id m λ c.
    if has_open_status c.status && leb c.expires_at current_height
    then (ok true, put m channel_id (record c { status = expired; last_updated = current_height }))
    else (ok false, m)

-- `ids.iter().filter_map(|id| self.channels.get(id))`
unfoldable pub channels_of : List ℕ → ChannelManager → List Channel
channels_of [] m = []
channels_of (id ∷ ids) m =
    let rest = channels_of ids m in elim (get id m.channels) [ none ↦ rest | some c ↦ c ∷ rest ]

unfoldable pub get_sender_channels : ℕ → ChannelManager → List Channel
get_sender_channels sender m = elim (get sender m.channels_by_sender) [
  | none ↦ []
  | some ids ↦ channels_of ids m
]

unfoldable pub get_receiver_channels : ℕ → ChannelManager → List Channel
get_receiver_channels receiver m = elim (get receiver m.channels_by_receiver) [
  | none ↦ []
  | some ids ↦ channels_of ids m
]

unfoldable pub active_channel_count : HashMap Channel → ℕ
active_channel_count [] = 0
active_channel_count ((_, c) ∷ d) =
    let rest = active_channel_count d in if has_open_status c.status then suc rest else rest

-- A call of a method that writes the manager.
pub data Call : Type 0 where
  opens : (sender receiver deposit height : ℕ) → Call
  updates : (channel_id : ℕ) → ChannelUpdate → Call
  closes : (channel_id initiator height : ℕ) → Call
  disputes : (channel_id : ℕ) → ChannelUpdate → (disputer height : ℕ) → Call
  finalizes : (channel_id height : ℕ) → Call
  tops_up : (channel_id amount : ℕ) → Call
  expires : (channel_id height : ℕ) → Call

module _ (hash_data : List ℕ → ℕ) where
  unfoldable pub step : ChannelManager → Call → ChannelManager
  step m (opens sender receiver deposit height) =
      (open_channel hash_data sender receiver deposit height m).1
  step m (updates channel_id update) = (update_channel channel_id update m).1
  step m (closes channel_id initiator height) = (close_channel channel_id initiator height m).1
  step m (disputes channel_id update disputer height) =
      (dispute_channel channel_id update disputer height m).1
  step m (finalizes channel_id height) = (finalize_channel channel_id height m).1
  step m (tops_up channel_id amount) = (top_up channel_id amount m).1
  step m (expires channel_id height) = (check_expired channel_id height m).1

  unfoldable pub run : ChannelManager → List Call → ChannelManager
  run m [] = m
  run m (c ∷ cs) = run (step m c) cs
