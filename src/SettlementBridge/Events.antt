-- ===== src/SettlementBridge/Events.antt =====
-- The events of core/blockchain/src/settlement_bridge/bridge.rs, which the engine of
-- core/blockchain/src/settlement settles.
use is_a_chain.Prelude.{ℕ, ◌≡◌, false, List, [], All, Result, ok, err, ◌==◌}
use is_a_chain.Budget.{ServiceType}
use is_a_chain.Settlement.{SettlementRecord, SettlementError}
use is_a_chain.SettlementBridge.{BillingEvent, SettlementBridge, BridgeError}

-- What the engine does not refuse.
abbrev IsValid : BillingEvent → Type 0
IsValid e = ((e.amount == 0) ≡ false) × ((e.user == e.provider) ≡ false)

-- Who pays whom, how much and for what.
abbrev pub Terms : Type 0
Terms = ℕ × ℕ × ℕ × ServiceType

abbrev pub terms_of_event : BillingEvent → Terms
terms_of_event e = (e.user, e.provider, e.amount, e.service_type)

abbrev pub terms_of_record : SettlementRecord → Terms
terms_of_record r = (r.user, r.provider, r.gross_amount, r.service_type)

-- The records of a batch; none if it was refused.
abbrev pub records_of : Result (List SettlementRecord) BridgeError → List SettlementRecord
records_of (ok rs) = rs
records_of (err e) = []

-- Every queued event can be settled, and none has failed.
record IsReady (b : SettlementBridge) : Type 0 where
  pub queued : All IsValid b.event_queue
  pub unfailed : b.failed_events ≡ []
