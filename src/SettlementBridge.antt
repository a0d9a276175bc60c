-- ===== src/SettlementBridge.antt =====
-- core/blockchain/src/settlement_bridge: billing events queued, and settled by the settlement
-- engine. `types.rs` is the data, `bridge.rs` the bridge.
pub mod Events
pub mod Window
pub mod Recent
mod Tests
use is_a_chain.Prelude.{
  ℕ, ◌+◌, ◌==◌, ◌||◌, leb, ltb, suc, Bool, true, false, not, String, List, [], ◌∷◌, ◌++◌, map,
  if◌then◌else◌, Result, ok, err, length, retain, add_u64, saturating_add, same_text,
}
use is_a_chain.Budget.{ServiceType}
use is_a_chain.Settlement.{SettlementRecord, SettlementError, SettlementEngine, settle}

pub record BillingEvent : Type 0 where
  pub event_id : String
  pub user : ℕ
  pub provider : ℕ
  pub amount : ℕ
  pub service_type : ServiceType
  pub timestamp : ℕ
  pub provider_wallet : ℕ
  pub metadata : List (String × String)

pub record BridgeConfig : Type 0 where
  pub batch_interval_blocks : ℕ
  pub max_batch_size : ℕ
  pub dedup_window : ℕ
  pub fee_rate_bps : ℕ

pub data BridgeError : Type 0 where
  duplicate_event invalid_event batch_failed : (text : String) → BridgeError
  queue_full zero_amount : BridgeError

pub record BridgeStats : Type 0 where
  pub events_processed : ℕ
  pub batches_created : ℕ
  pub total_settled : ℕ
  pub queue_size : ℕ
  pub failed_count : ℕ

-- With a failed event stands its error, of which the code keeps the text.
pub record SettlementBridge : Type 0 where
  pub config : BridgeConfig
  pub event_queue : List BillingEvent
  pub processed_events : List String
  pub dedup_order : List String
  pub batches_created : ℕ
  pub events_processed : ℕ
  pub total_settled : ℕ
  pub last_batch_height : ℕ
  pub failed_events : List (BillingEvent × SettlementError)

abbrev pub default_config : BridgeConfig
default_config = record {
  batch_interval_blocks = 20;
  max_batch_size = 100;
  dedup_window = 10_000;
  fee_rate_bps = 250;
}

abbrev pub new : BridgeConfig → SettlementBridge
new config = record {
  config = config;
  event_queue = [];
  processed_events = [];
  dedup_order = [];
  batches_created = 0;
  events_processed = 0;
  total_settled = 0;
  last_batch_height = 0;
  failed_events = [];
}

abbrev pub Outcome : Type 0 → Type 0
Outcome A = Result A BridgeError × SettlementBridge

abbrev pub contains_text : List String → String → Bool
contains_text [] t = false
contains_text (s ∷ ss) t = if same_text s t then true else contains_text ss t

-- The loop that forgets the oldest identifiers, on the set and on the order. The order gets
-- shorter in every round.
abbrev pub evict : (window : ℕ) (seen order : List String) → List String × List String
evict window seen [] = (seen, [])
evict window seen (oldest ∷ order) =
    let rest = evict window (retain (λ s. not (same_text s oldest)) seen) order in
    if ltb window (suc (length order)) then rest else (seen, oldest ∷ order)

unfoldable pub ingest_event : BillingEvent → SettlementBridge → Outcome (Unit {0})
ingest_event event b =
    if event.amount == 0
    then (err zero_amount, b)
    else if event.user == event.provider
    then (err (invalid_event "user and provider addresses must differ"), b)
    else if contains_text b.processed_events event.event_id
    then (err (duplicate_event event.event_id), b)
    else let kept =
        evict b.config.dedup_window (event.event_id ∷ b.processed_events)
          (b.dedup_order ++ event.event_id ∷ []) in
      (
        ok tt,
        record b {
          processed_events = kept.0;
          dedup_order = kept.1;
          event_queue = b.event_queue ++ event ∷ [];
        },
      )

unfoldable pub should_batch : (current_height : ℕ) → SettlementBridge → Bool
should_batch current_height b =
    if length b.event_queue == 0
    then false
    else leb (add_u64 b.last_batch_height b.config.batch_interval_blocks) current_height
      || leb b.config.max_batch_size (length b.event_queue)

-- What the loop of `create_batch` does with the outcome of one settlement.
abbrev pub filed :
    BillingEvent → Result SettlementRecord SettlementError → SettlementBridge → SettlementBridge
filed event (ok r) b = record b {
  total_settled = saturating_add b.total_settled event.amount;
  events_processed = add_u64 b.events_processed 1;
}
filed event (err e) b = record b { failed_events = b.failed_events ++ (event, e) ∷ [] }

abbrev pub with_record :
    Result SettlementRecord SettlementError → List SettlementRecord → List SettlementRecord
with_record (ok r) rs = r ∷ rs
with_record (err e) rs = rs

-- The loop of `create_batch`: the events are settled one by one by the same engine.
unfoldable pub settle_events :
    (List ℕ → ℕ)
    → (height timestamp : ℕ) → List BillingEvent
    → SettlementEngine
    → SettlementBridge
    → List SettlementRecord × SettlementBridge
unfolding settle
settle_events hash_data height timestamp [] engine b = ([], b)
settle_events hash_data height timestamp (event ∷ events) engine b =
    let first =
      settle hash_data event.user event.provider event.amount event.service_type height timestamp
        engine in
    let rest = settle_events hash_data height timestamp events first.1 (filed event first.0 b) in
    (with_record first.0 rest.0, rest.1)

-- Blake3, as `Hash::hash_data` calls it, is a parameter.
unfoldable pub create_batch :
    (List ℕ → ℕ)
    → (current_height timestamp : ℕ) → SettlementBridge
    → Outcome (List SettlementRecord)
create_batch hash_data current_height timestamp b =
    if length b.event_queue == 0
    then (err (batch_failed "nothing to batch"), b)
    else let done =
        settle_events hash_data current_height timestamp b.event_queue
          (is_a_chain.Settlement.new b.config.fee_rate_bps) (record b { event_queue = [] }) in
      (
        ok done.0,
        record done.1 {
          batches_created = add_u64 done.1.batches_created 1;
          last_batch_height = current_height;
        },
      )

unfoldable pub get_stats : SettlementBridge → BridgeStats
get_stats b = record {
  events_processed = b.events_processed;
  batches_created = b.batches_created;
  total_settled = b.total_settled;
  queue_size = length b.event_queue;
  failed_count = length b.failed_events;
}

unfoldable pub flush_queue : SettlementBridge → List BillingEvent × SettlementBridge
flush_queue b = (b.event_queue, record b { event_queue = [] })

unfoldable pub retry_failed : SettlementBridge → List BillingEvent × SettlementBridge
retry_failed b =
    let events = map (λ failure. failure.0) b.failed_events in
    (events, record b { failed_events = []; event_queue = b.event_queue ++ events })

-- A call of a method that writes the bridge.
pub data Call : Type 0 where
  ingests : (event : BillingEvent) → Call
  batches : (current_height timestamp : ℕ) → Call
  flushes retries : Call

unfoldable pub step : (List ℕ → ℕ) → SettlementBridge → Call → SettlementBridge
unfolding ingest_event create_batch flush_queue retry_failed
step hash_data b (ingests event) = (ingest_event event b).1
step hash_data b (batches current_height timestamp) =
    (create_batch hash_data current_height timestamp b).1
step hash_data b flushes = (flush_queue b).1
step hash_data b retries = (retry_failed b).1

abbrev pub run : (List ℕ → ℕ) → SettlementBridge → List Call → SettlementBridge
run hash_data b [] = b
run hash_data b (c ∷ cs) = run hash_data (step hash_data b c) cs
