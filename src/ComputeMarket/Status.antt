-- ===== src/ComputeMarket/Status.antt =====
-- How the jobs, the disputes and the escrow of core/blockchain/src/compute_market change in one
-- call.
use is_a_chain.Prelude.{
  Bool, if◌then◌else◌, ℕ, ◌-◌, ◌≡◌, ◌≢◌, Option, none, some, get, insert, add_u128, true, false,
  is_some,
}
use is_a_chain.ComputeMarket.Data.{JobStatus, ComputeJob, ComputeDispute, ComputeMarketState}
use is_a_chain.ComputeMarket.Jobs.{stage}

-- The transitions of a job.
infix 40 ◌⟶◌
pub data ◌⟶◌ : JobStatus → JobStatus → Type 0 where
  accept : JobStatus.pending ⟶ JobStatus.matched
  start : JobStatus.matched ⟶ JobStatus.running
  settle : JobStatus.running ⟶ JobStatus.completed
  cancel_pending : JobStatus.pending ⟶ JobStatus.cancelled
  cancel_matched : JobStatus.matched ⟶ JobStatus.cancelled
  dispute_running : JobStatus.running ⟶ JobStatus.disputed
  dispute_completed : JobStatus.completed ⟶ JobStatus.disputed
  complete : JobStatus.disputed ⟶ JobStatus.completed
  fail : JobStatus.disputed ⟶ JobStatus.failed

-- Statuses under which the escrow is held.
abbrev pub is_held : JobStatus → Bool
is_held JobStatus.pending = true
is_held JobStatus.matched = true
is_held JobStatus.running = true
is_held JobStatus.disputed = true
is_held JobStatus.completed = false
is_held JobStatus.failed = false
is_held JobStatus.cancelled = false

-- What one call does to the jobs, the disputes and the escrow. A
-- dispute that opens is on the job that `t` names, and
-- the escrow that comes in is `e`.
pub data Change (t : Option ℕ) (e : ℕ) (s s' : ComputeMarketState) : Type 0 where
  quiet :
      s'.jobs ≡ s.jobs
      → s'.disputes ≡ s.disputes
      → s'.total_escrow ≡ s.total_escrow
      → Change t e s s'
  adds :
      (id : ℕ) (job : ComputeJob)
      → get id s.jobs ≡ none
      → job.status ≡ JobStatus.pending
      → job.escrow_amount ≡ e
      → s'.jobs ≡ insert id job s.jobs
      → s'.disputes ≡ s.disputes
      → s'.total_escrow ≡ add_u128 s.total_escrow job.escrow_amount
      → Change t e s s'
  moves :
      (id : ℕ) (job job' : ComputeJob)
      → get id s.jobs ≡ some job
      → job.status ⟶ job'.status
      → is_held job.status ≡ true
      → stage job.status ≢ 6
      → stage job'.status ≢ 6
      → job'.escrow_amount ≡ job.escrow_amount
      → s'.jobs ≡ insert id job' s.jobs
      → s'.disputes ≡ s.disputes
      → s'.total_escrow
        ≡ (if is_held job'.status then s.total_escrow else s.total_escrow - job.escrow_amount)
      → Change t e s s'
  opens :
      (id key : ℕ) (job job' : ComputeJob) (d : ComputeDispute)
      → t ≡ some id
      → get id s.jobs ≡ some job
      → job.status ⟶ job'.status
      → job'.status ≡ JobStatus.disputed
      → job'.escrow_amount ≡ job.escrow_amount
      → d.job_id ≡ id
      → d.resolution ≡ none
      → s'.jobs ≡ insert id job' s.jobs
      → s'.disputes ≡ insert key d s.disputes
      → s'.total_escrow ≡ s.total_escrow
      → Change t e s s'
  closes :
      (key : ℕ) (job job' : ComputeJob) (d d' : ComputeDispute)
      → get key s.disputes ≡ some d
      → d.resolution ≡ none
      → is_some d'.resolution ≡ true
      → get d.job_id s.jobs ≡ some job
      → JobStatus.disputed ⟶ job'.status
      → job'.escrow_amount ≡ job.escrow_amount
      → s'.jobs ≡ insert d.job_id job' s.jobs
      → s'.disputes ≡ insert key d' s.disputes
      → s'.total_escrow ≡ s.total_escrow - job.escrow_amount
      → Change t e s s'
