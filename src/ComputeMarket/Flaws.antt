-- ===== src/ComputeMarket/Flaws.antt =====
-- What core/blockchain/src/compute_market pays or releases twice.
use is_a_chain.Prelude.{
  add_u64, ℕ, ◌-◌, ◌≡◌, inl, inr, refl, none, some, Option-cases, get, insert, get-insert_self,
  total, total-insert, arith, false, ok,
}
use is_a_chain.Transaction.{ProviderStatus, DisputeType}
use is_a_chain.ComputeMarket.Data.{
  dispute_window_ms, JobStatus, ComputeJob, ComputeDispute, DisputeResolution, ComputeMarketState,
}
use is_a_chain.ComputeMarket.Providers.{provider_exit}
use is_a_chain.ComputeMarket.Disputes.{verdict, open_dispute, resolve_dispute}
use is_a_chain.ComputeMarket.Status.{is_held}
use is_a_chain.ComputeMarket.Escrow.{held_of}
use is_a_chain.ComputeMarket.Steps.{slash_named-Keeps}

-- A provider that has exited can exit again, for the same stake.
pub exit_pays_twice :
    (address stake : ℕ) (s : ComputeMarketState)
    → (provider_exit address s).0 ≡ ok stake
    → (provider_exit address (provider_exit address s).1).0 ≡ ok stake
unfolding provider_exit
exit_pays_twice address stake s done = elim (Option-cases (get address s.providers)) [
  | inl missing ↦ ground arith
  | inr (p, found) ↦
      let p' = record p { status = ProviderStatus.exited } in
      ground (arith, get-insert_self address p' s.providers)
]

-- The state after a dispute is opened.
opened-lem :
    (key id initiator : ℕ) (dispute_type : DisputeType) (evidence at : ℕ) (s : ComputeMarketState)
    (job : ComputeJob)
    → get id s.jobs ≡ some job
    → (open_dispute key id initiator dispute_type evidence at s).0 ≡ ok tt
    → let s' = (open_dispute key id initiator dispute_type evidence at s).1 in
      (s'.total_escrow ≡ s.total_escrow)
      × (s'.jobs ≡ insert id (record job { status = JobStatus.disputed }) s.jobs)
      × (d : ComputeDispute) × (get key s'.disputes ≡ some d)
      × (d.resolution ≡ none)
      × (d.job_id ≡ id)
unfolding open_dispute
opened-lem key id initiator dispute_type evidence at s job found done =
    let d : ComputeDispute = record {
      dispute_id = key;
      job_id = id;
      initiator = initiator;
      dispute_type = dispute_type;
      evidence_hash = evidence;
      created_at = at;
      deadline = add_u64 at dispute_window_ms;
      resolution = none;
    } in
    let s' = (open_dispute key id initiator dispute_type evidence at s).1 in
    let listed_ : s'.disputes ≡ insert key d s.disputes = ground arith in
    (ground arith, ground arith, d, rw listed_ (get-insert_self key d s.disputes), refl, refl)

verdict-not_held : (refund payment : ℕ) → is_held (verdict refund payment) ≡ false
verdict-not_held refund payment = ground arith

-- The state after a dispute is resolved.
resolved-lem :
    (key : ℕ) (r : DisputeResolution) (s : ComputeMarketState) (job : ComputeJob)
    (d : ComputeDispute)
    → get key s.disputes ≡ some d
    → d.resolution ≡ none
    → get d.job_id s.jobs ≡ some job
    → let s' = (resolve_dispute key r s).1 in
      (s'.total_escrow ≡ s.total_escrow - job.escrow_amount)
      × (s'.jobs
          ≡ insert d.job_id
              (record job { status = verdict r.user_refund r.provider_payment })
              s.jobs)
unfolding resolve_dispute
resolved-lem key r s job d found open_ known =
    let kept = slash_named-Keeps job.provider r.slash_amount s in ground arith

-- A dispute on a completed job that is opened and resolved takes the escrow of that job off the total
-- once more: the escrow that is held does not change.
pub resolution_releases_twice :
    (key id initiator : ℕ) (dispute_type : DisputeType) (evidence at : ℕ) (r : DisputeResolution)
    (s : ComputeMarketState) (job : ComputeJob)
    → get id s.jobs ≡ some job
    → job.status ≡ JobStatus.completed
    → (open_dispute key id initiator dispute_type evidence at s).0 ≡ ok tt
    → let s' =
        (resolve_dispute key r (open_dispute key id initiator dispute_type evidence at s).1).1 in
      (s'.total_escrow ≡ s.total_escrow - job.escrow_amount)
      × (total held_of s'.jobs ≡ total held_of s.jobs)
resolution_releases_twice key id initiator dispute_type evidence at r s job found over done =
    let opened = open_dispute key id initiator dispute_type evidence at s in
    let (escrow, jobs, d, listed_, open_, on_job) =
      opened-lem key id initiator dispute_type evidence at s job found done in
    let job1 : ComputeJob = record job { status = JobStatus.disputed } in
    let job2 : ComputeJob = record job { status = verdict r.user_refund r.provider_payment } in
    let known : get d.job_id opened.1.jobs ≡ some job1 =
      rw (on_job, jobs) (get-insert_self id job1 s.jobs) in
    let (escrow', jobs') = resolved-lem key r opened.1 job1 d listed_ open_ known in
    let first = total-insert held_of id job1 s.jobs in
    let second = total-insert held_of id job2 (insert id job1 s.jobs) in
    let known' = get-insert_self id job1 s.jobs in
    let free = verdict-not_held r.user_refund r.provider_payment in
    (omega arith, rw (jobs', on_job, jobs) (ground arith))
