-- ===== src/SettlementBridge/Tests.antt =====
-- Tests of the settlement bridge, and its theorems at concrete inputs.
use is_a_chain.Prelude.{
  arith, false, ℕ, ◌≡◌, true, refl, String, List, [], ◌∷◌, ok, err, ◌<◌, arith, is_ok, sum_of, map,
  add_u64, saturating_add, saturating_mul, be_bytes, le_bytes,
}
use is_a_chain.Budget.{storage}
use is_a_chain.Settlement.{settle, calculate_split}
use is_a_chain.SettlementBridge.{
  BillingEvent, BridgeConfig, SettlementBridge, Call, duplicate_event, ingest_event, should_batch,
  create_batch, settle_events, get_stats, new, run, step, ingests, batches,
}
use is_a_chain.SettlementBridge.Recent.{recent_is_refused}
use is_a_chain.SettlementBridge.Events.{records_of}

-- A hash for the tests: the sum of the bytes.
abbrev sum_bytes : List ℕ → ℕ
sum_bytes = sum_of (λ b. b)

abbrev config : BridgeConfig
config = record {
  batch_interval_blocks = 20;
  max_batch_size = 1;
  dedup_window = 2;
  fee_rate_bps = 250;
}

abbrev event : String → BillingEvent
event event_id = record {
  event_id = event_id;
  user = 1;
  provider = 2;
  amount = 1000;
  service_type = storage;
  timestamp = 3;
  provider_wallet = 2;
  metadata = [];
}

abbrev queued : List Call
queued = ingests (event "a") ∷ ingests (event "b") ∷ []

abbrev busy : SettlementBridge
busy = run sum_bytes (new config) queued

-- A batch is larger than `max_batch_size`, and an event is accepted again when two others came
-- after it.
window :
    (should_batch 5 busy ≡ true)
    × ((ingest_event (event "a") busy).0 ≡ err (duplicate_event "a"))
    × ((ingest_event (event "a") (ingest_event (event "c") busy).1).0 ≡ ok tt)
    × ((get_stats (create_batch sum_bytes 5 6 busy).1).events_processed ≡ 2)
unfolding step ingest_event should_batch create_batch get_stats settle_events settle calculate_split
    add_u64 saturating_add saturating_mul be_bytes le_bytes
window = (refl, refl, refl, refl)

-- Each batch has an engine of its own, which counts its records from 0: two batches of the same
-- height and time give two settlements the same identifier.
same_identifier :
    let b =
      run sum_bytes (new config) (ingests (event "a") ∷ batches 5 6 ∷ ingests (event "b") ∷ []) in
    let first = create_batch sum_bytes 5 6 (ingest_event (event "a") (new config)).1 in
    map (λ r. r.id) (records_of first.0)
    ≡ map (λ r. r.id) (records_of (create_batch sum_bytes 5 6 b).0)
unfolding step ingest_event create_batch settle_events settle calculate_split saturating_mul
    be_bytes le_bytes
same_identifier = refl

first_accepted :
    is_ok (ingest_event (event "a") (run sum_bytes (new config) (ingests (event "c") ∷ []))).0
    ≡ true
unfolding step ingest_event
first_accepted = refl

has_room : 1 < (run sum_bytes (new config) (ingests (event "c") ∷ [])).config.dedup_window
unfolding step ingest_event
has_room = omega arith

recent_is_refused_example :
    let b = run sum_bytes (new config) (ingests (event "c") ∷ []) in
    let after = ingests (event "b") ∷ batches 5 6 ∷ [] in
    is_ok (ingest_event (event "a") (run sum_bytes (ingest_event (event "a") b).1 after)).0 ≡ false
recent_is_refused_example =
    recent_is_refused sum_bytes config (ingests (event "c") ∷ [])
      (ingests (event "b") ∷ batches 5 6 ∷ []) (event "a") (event "a") first_accepted refl has_room
