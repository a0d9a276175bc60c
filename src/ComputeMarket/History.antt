-- ===== src/ComputeMarket/History.antt =====
-- Histories of calls of core/blockchain/src/compute_market.
use is_a_chain.Prelude.{ℕ, String, Option, List, [], ◌∷◌}
use is_a_chain.Transaction.{
  ResourceType, ComputeCapacity, ComputeUsage, ProviderStatus, DisputeType,
}
use is_a_chain.ComputeMarket.Data.{ComputeMarketState, DisputeResolution}
use is_a_chain.ComputeMarket.Providers.{register_provider, update_provider, provider_exit}
use is_a_chain.ComputeMarket.Jobs.{create_job, accept_job, start_job, settle_job, cancel_job}
use is_a_chain.ComputeMarket.Disputes.{open_dispute, resolve_dispute}

-- A call of a method that writes the market.
pub data Call : Type 0 where
  registers :
      (address : ℕ) (resource_types : List ResourceType) (capacity : ComputeCapacity)
      (price_per_hour min_duration_secs max_duration_secs stake : ℕ) (region : Option String)
      (endpoint : String)
      → Call
  updates :
      (address : ℕ) (capacity : Option ComputeCapacity) (price_per_hour : Option ℕ)
      (status : Option ProviderStatus) (additional_stake : Option ℕ) (endpoint : Option String)
      → Call
  exits : (address : ℕ) → Call
  creates :
      (job_id user : ℕ) (provider : Option ℕ) (resource_type : ResourceType)
      (capacity : ComputeCapacity) (max_price_per_hour duration_secs escrow_amount created_at : ℕ)
      → Call
  accepts : (job_id provider price_per_hour : ℕ) → Call
  starts : (job_id provider started_at : ℕ) → Call
  settles : (job_id : ℕ) (usage : ComputeUsage) (settled_at : ℕ) → Call
  cancels : (job_id canceller cancelled_at : ℕ) → Call
  disputes :
      (dispute_id job_id initiator : ℕ) (dispute_type : DisputeType) (evidence_hash created_at : ℕ)
      → Call
  resolves : (dispute_id : ℕ) (r : DisputeResolution) → Call

unfoldable pub step : (ℕ → ℕ → ℕ) → ComputeMarketState → Call → ComputeMarketState
unfolding register_provider update_provider provider_exit create_job accept_job start_job settle_job
    cancel_job open_dispute resolve_dispute
step cost s (registers address types capacity price min_secs max_secs stake region endpoint) =
    (register_provider address types capacity price min_secs max_secs stake region endpoint s).1
step cost s (updates address capacity price status stake endpoint) =
    (update_provider address capacity price status stake endpoint s).1
step cost s (exits address) = (provider_exit address s).1
step cost s (creates job_id user provider resource_type capacity price secs escrow created_at) =
    (create_job job_id user provider resource_type capacity price secs escrow created_at s).1
step cost s (accepts job_id provider price) = (accept_job job_id provider price s).1
step cost s (starts job_id provider started_at) = (start_job job_id provider started_at s).1
step cost s (settles job_id usage settled_at) = (settle_job cost job_id usage settled_at s).1
step cost s (cancels job_id canceller cancelled_at) = (cancel_job job_id canceller cancelled_at s).1
step cost s (disputes dispute_id job_id initiator dispute_type evidence created_at) =
    (open_dispute dispute_id job_id initiator dispute_type evidence created_at s).1
step cost s (resolves dispute_id r) = (resolve_dispute dispute_id r s).1

abbrev pub run : (ℕ → ℕ → ℕ) → ComputeMarketState → List Call → ComputeMarketState
run cost s [] = s
run cost s (c ∷ cs) = run cost (step cost s c) cs
