-- ===== src/SettlementBridge/Recent.antt =====
-- The window of recent events of core/blockchain/src/settlement_bridge/bridge.rs, which keeps an
-- event from being queued twice.
use is_a_chain.Prelude.{
  ℕ, ◌≡◌, ◌<◌, suc, refl, ap, subst, sym, ◌∙◌, true, false, inl, inr, ◌⊎◌, Bool-cases, String, List,
  [], ◌∷◌, is_ok, ◌==◌, arith, Result, ok, err,
}
use is_a_chain.Settlement.{SettlementRecord, SettlementError, SettlementEngine, settle}
use is_a_chain.SettlementBridge.{
  retry_failed, flush_queue, filed, create_batch, ingest_event, settle_events, BillingEvent,
  SettlementBridge, BridgeConfig, contains_text, Call, new, run, step, ingests, batches, flushes,
  retries,
}
use is_a_chain.SettlementBridge.Window.{
  Distinct, IsWindow, window_of, admitted, admitted-IsWindow, IsRecent, admitted-IsRecent,
  first-IsRecent, contains-middle,
}

-- `ingest_event` lets an identifier in that is not in the set, or leaves the window.
ingest_cases :
    (event : BillingEvent) (b : SettlementBridge)
    → ((contains_text b.processed_events event.event_id ≡ false)
        × (window_of (ingest_event event b).1 ≡ admitted event.event_id (window_of b)))
      ⊎ ((window_of (ingest_event event b).1 ≡ window_of b)
          × (is_ok (ingest_event event b).0 ≡ false))
unfolding ingest_event
ingest_cases event b = elim (Bool-cases (contains_text b.processed_events event.event_id)) [
  | inl seen ↦ inr (ground arith)
  | inr unseen ↦ elim (Bool-cases (event.amount == 0)) [
    | inl nothing ↦ inr (ground arith)
    | inr positive ↦ elim (Bool-cases (event.user == event.provider)) [
      | inl same ↦ inr (ground arith)
      | inr other ↦ inl (unseen, ground arith)
    ]
  ]
]

refused_lem :
    (event : BillingEvent) (b : SettlementBridge)
    → contains_text b.processed_events event.event_id ≡ true
    → is_ok (ingest_event event b).0 ≡ false
unfolding ingest_event
refused_lem event b seen = ground arith

settle_events-window :
    (hash_data : List ℕ → ℕ) (height timestamp : ℕ) (es : List BillingEvent)
    (engine : SettlementEngine) (b : SettlementBridge)
    → window_of (settle_events hash_data height timestamp es engine b).1 ≡ window_of b
unfolding settle_events
settle_events-window hash_data height timestamp [] engine b = refl
settle_events-window hash_data height timestamp (e ∷ es) engine b =
    let made = settle hash_data e.user e.provider e.amount e.service_type height timestamp engine in
    settle_events-window hash_data height timestamp es made.1 (filed e made.0 b)
    ∙ filed-window e made.0 b
  where
    filed-window :
        (e : BillingEvent) (r : Result SettlementRecord SettlementError) (b : SettlementBridge)
        → window_of (filed e r b) ≡ window_of b
    filed-window e (ok r) b = refl
    filed-window e (err x) b = refl

create_batch-window :
    (hash_data : List ℕ → ℕ) (height timestamp : ℕ) (b : SettlementBridge)
    → window_of (create_batch hash_data height timestamp b).1 ≡ window_of b
unfolding create_batch
create_batch-window hash_data height timestamp b =
    let done =
      settle_events-window hash_data height timestamp b.event_queue
        (is_a_chain.Settlement.new b.config.fee_rate_bps) (record b { event_queue = [] }) in
    ground (arith, done)

-- How many calls offer an event.
abbrev pub ingests_in : List Call → ℕ
ingests_in [] = 0
ingests_in (ingests event ∷ cs) = suc (ingests_in cs)
ingests_in (batches current_height timestamp ∷ cs) = ingests_in cs
ingests_in (flushes ∷ cs) = ingests_in cs
ingests_in (retries ∷ cs) = ingests_in cs

ingest-IsWindow :
    (event : BillingEvent) (b : SettlementBridge)
    → IsWindow (window_of b)
    → IsWindow (window_of (ingest_event event b).1)
ingest-IsWindow event b x = elim (ingest_cases event b) [
  | inl (unseen, after) ↦
      subst IsWindow (sym after) (admitted-IsWindow event.event_id (window_of b) unseen x)
  | inr (same, refused) ↦ subst IsWindow (sym same) x
]

run-IsWindow :
    (hash_data : List ℕ → ℕ) (b : SettlementBridge) (cs : List Call)
    → IsWindow (window_of b)
    → IsWindow (window_of (run hash_data b cs))
unfolding step flush_queue retry_failed
run-IsWindow hash_data b [] x = x
run-IsWindow hash_data b (ingests event ∷ cs) x =
    run-IsWindow hash_data (ingest_event event b).1 cs (ingest-IsWindow event b x)
run-IsWindow hash_data b (batches height timestamp ∷ cs) x =
    run-IsWindow hash_data (create_batch hash_data height timestamp b).1 cs
      (subst IsWindow (sym (create_batch-window hash_data height timestamp b)) x)
run-IsWindow hash_data b (flushes ∷ cs) x = run-IsWindow hash_data (flush_queue b).1 cs x
run-IsWindow hash_data b (retries ∷ cs) x = run-IsWindow hash_data (retry_failed b).1 cs x

ingest-IsRecent :
    (id : String) (n : ℕ) (event : BillingEvent) (b : SettlementBridge)
    → IsRecent id (suc n) (window_of b)
    → IsRecent id n (window_of (ingest_event event b).1)
ingest-IsRecent id n event b x = elim (ingest_cases event b) [
  | inl (unseen, after) ↦
      subst (IsRecent id n) (sym after)
        (admitted-IsRecent id event.event_id n (window_of b) unseen x)
  | inr (same, refused) ↦
      let (w, (pre, later, split, room)) = x in
      subst (IsRecent id n) (sym same) (w, (pre, later, split, omega (arith, room)))
]

run-IsRecent :
    (hash_data : List ℕ → ℕ) (id : String) (b : SettlementBridge) (cs : List Call)
    → IsRecent id (ingests_in cs) (window_of b)
    → IsRecent id 0 (window_of (run hash_data b cs))
unfolding step flush_queue retry_failed
run-IsRecent hash_data id b [] x = x
run-IsRecent hash_data id b (ingests event ∷ cs) x =
    run-IsRecent hash_data id (ingest_event event b).1 cs
      (ingest-IsRecent id (ingests_in cs) event b x)
run-IsRecent hash_data id b (batches height timestamp ∷ cs) x =
    run-IsRecent hash_data id (create_batch hash_data height timestamp b).1 cs (
      subst (IsRecent id (ingests_in cs)) (sym (create_batch-window hash_data height timestamp b))
        x)
run-IsRecent hash_data id b (flushes ∷ cs) x = run-IsRecent hash_data id (flush_queue b).1 cs x
run-IsRecent hash_data id b (retries ∷ cs) x = run-IsRecent hash_data id (retry_failed b).1 cs x

-- An event is not queued twice within the window: whatever calls were made of a new bridge, when it
-- accepts an event and fewer events than the window is wide are offered to it after that, it
-- refuses every event with the same identifier.
pub recent_is_refused :
    (hash_data : List ℕ → ℕ) (config : BridgeConfig) (before after : List Call)
    (event again : BillingEvent)
    → is_ok (ingest_event event (run hash_data (new config) before)).0 ≡ true
    → again.event_id ≡ event.event_id
    → ingests_in after < (run hash_data (new config) before).config.dedup_window
    → let b = run hash_data (new config) before in
      is_ok (ingest_event again (run hash_data (ingest_event event b).1 after)).0 ≡ false
unfolding Distinct
recent_is_refused hash_data config before after event again accepted same room =
    let b = run hash_data (new config) before in
    let id = event.event_id in
    let b' = run hash_data (ingest_event event b).1 after in
    let x = run-IsWindow hash_data (new config) before (tt, λ t there. there) in
    let first : IsRecent id (ingests_in after) (window_of (ingest_event event b).1) =
      elim (ingest_cases event b) [
        | inl (unseen, admits) ↦
            subst (IsRecent id (ingests_in after)) (sym admits)
              (first-IsRecent id (ingests_in after) (window_of b) unseen x room)
        | inr (same, refused) ↦ cc
      ] in
    let (w, (pre, later, split, more)) =
      run-IsRecent hash_data id (ingest_event event b).1 after first in
    let listed : contains_text b'.dedup_order id ≡ true =
      ap (λ ts. contains_text ts id) split ∙ contains-middle id pre later in
    let seen : contains_text b'.processed_events again.event_id ≡ true =
      ap (contains_text b'.processed_events) same ∙ w.1 id listed in
    refused_lem again b' seen
