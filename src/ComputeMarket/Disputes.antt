-- ===== src/ComputeMarket/Disputes.antt =====
-- core/blockchain/src/compute_market/disputes.rs: disputes on jobs.
use is_a_chain.Prelude.{
  ℕ, ◌-◌, ◌==◌, Bool, false, not, ◌||◌, ◌&&◌, Option, none, some, is_some, ltb, min, if◌then◌else◌,
  ok, err, get, insert, add_u64, add_u128,
}
use is_a_chain.Transaction.{DisputeType}
use is_a_chain.ComputeMarket.Data.{
  JobStatus, ProviderInfo, ComputeJob, ComputeDispute, DisputeResolution, ComputeMarketState,
  MarketStats, Outcome, job_not_found, invalid_job_state, not_authorized, dispute_window_expired,
  dispute_not_found, dispute_already_resolved, dispute_window_ms,
}
use is_a_chain.ComputeMarket.Jobs.{has_status, is_provider, put_job, put_provider}

-- A completed job can be disputed for a day after its end.
abbrev pub is_expired : (created_at : ℕ) → ComputeJob → Bool
is_expired created_at job = has_status JobStatus.completed job && (elim job.ended_at [
  | none ↦ false
  | some ended_at ↦ ltb (add_u64 ended_at dispute_window_ms) created_at
])

unfoldable pub open_dispute :
    (dispute_id job_id initiator : ℕ)
    → DisputeType
    → (evidence_hash created_at : ℕ) → ComputeMarketState
    → Outcome (Unit {0})
open_dispute dispute_id job_id initiator dispute_type evidence_hash created_at s =
    elim (get job_id s.jobs) [
      | none ↦ (err job_not_found, s)
      | some job ↦
          if not ((job.user == initiator) || is_provider initiator job)
          then (err not_authorized, s)
          else if not (has_status JobStatus.running job || has_status JobStatus.completed job)
          then (err invalid_job_state, s)
          else if is_expired created_at job
          then (err dispute_window_expired, s)
          else let d : ComputeDispute = record {
            dispute_id = dispute_id;
            job_id = job_id;
            initiator = initiator;
            dispute_type = dispute_type;
            evidence_hash = evidence_hash;
            created_at = created_at;
            deadline = add_u64 created_at dispute_window_ms;
            resolution = none;
          } in
            (
              ok tt,
              record (put_job job_id (record job { status = JobStatus.disputed }) s) {
                disputes = insert dispute_id d s.disputes;
                stats = record s.stats {
                  total_jobs_disputed = add_u64 s.stats.total_jobs_disputed 1;
                };
              },
            )
    ]

abbrev pub slashed : (actual_slash : ℕ) → ProviderInfo → ProviderInfo
slashed actual_slash p = record p {
  stake = p.stake - actual_slash;
  reputation = p.reputation - 500;
  jobs_failed = add_u64 p.jobs_failed 1;
}

-- The slash, taken from the job's provider if there is one.
abbrev pub slash_named : Option ℕ → (slash_amount : ℕ) → ComputeMarketState → ComputeMarketState
slash_named none slash_amount s = s
slash_named (some address) slash_amount s = elim (get address s.providers) [
  | none ↦ s
  | some p ↦
      let actual_slash = min slash_amount p.stake in
      record (put_provider address (slashed actual_slash p) s) {
        total_provider_stake = s.total_provider_stake - actual_slash;
        treasury_balance = add_u128 s.treasury_balance actual_slash;
      }
]

-- The verdict on the job: failed if the user gets more than the provider.
abbrev pub verdict : (user_refund provider_payment : ℕ) → JobStatus
verdict user_refund provider_payment =
    if ltb provider_payment user_refund then JobStatus.failed else JobStatus.completed

abbrev pub counted : (user_refund provider_payment : ℕ) → MarketStats → MarketStats
counted user_refund provider_payment stats =
    if ltb provider_payment user_refund
    then record stats { total_jobs_failed = add_u64 stats.total_jobs_failed 1 }
    else record stats { total_jobs_completed = add_u64 stats.total_jobs_completed 1 }

abbrev pub resolved :
    (dispute_id : ℕ)
    → DisputeResolution
    → ComputeDispute
    → ComputeJob
    → ComputeMarketState
    → ComputeMarketState
resolved dispute_id r d job s =
    let s1 = if ltb 0 r.slash_amount then slash_named job.provider r.slash_amount s else s in
    let job' = record job { status = verdict r.user_refund r.provider_payment } in
    record (put_job d.job_id job' s1) {
      disputes = insert dispute_id (record d { resolution = some r }) s.disputes;
      stats = counted r.user_refund r.provider_payment s.stats;
      total_escrow = s.total_escrow - job.escrow_amount;
    }

unfoldable pub resolve_dispute :
    (dispute_id : ℕ) → DisputeResolution → ComputeMarketState → Outcome DisputeResolution
resolve_dispute dispute_id r s = elim (get dispute_id s.disputes) [
  | none ↦ (err dispute_not_found, s)
  | some d ↦
      if is_some d.resolution
      then (err dispute_already_resolved, s)
      else elim (get d.job_id s.jobs) [
        | none ↦ (err job_not_found, s)
        | some job ↦ (ok r, resolved dispute_id r d job s)
      ]
]
