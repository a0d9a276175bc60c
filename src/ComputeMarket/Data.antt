-- ===== src/ComputeMarket/Data.antt =====
-- The data of core/blockchain/src/compute_market/types.rs and of types/compute.rs, and the
-- capacities of compute_market/queries.rs.
use is_a_chain.Prelude.{
  ◌||◌, ◌*◌, ℕ, ◌+◌, ◌-◌, ◌%◌, ◌==◌, ◌&&◌, Bool, true, false, String, List, [], ◌∷◌, Option, leb,
  HashMap, Result,
}
use is_a_chain.Transaction.{
  ResourceType, vm, browser, repl, desktop, agent_runtime, ComputeCapacity, ProviderStatus,
  ComputeUsage, DisputeType,
}

pub data JobStatus : Type 0 where
  pending matched running completed failed cancelled disputed : JobStatus

pub record ProviderInfo : Type 0 where
  pub address : ℕ
  pub resource_types : List ResourceType
  pub capacity : ComputeCapacity
  pub available_capacity : ComputeCapacity
  pub price_per_hour : ℕ
  pub min_duration_secs : ℕ
  pub max_duration_secs : ℕ
  pub stake : ℕ
  pub status : ProviderStatus
  pub reputation : ℕ
  pub jobs_completed : ℕ
  pub jobs_failed : ℕ
  pub region : Option String
  pub endpoint : String

pub record ComputeJob : Type 0 where
  pub job_id : ℕ
  pub user : ℕ
  pub provider : Option ℕ
  pub resource_type : ResourceType
  pub capacity : ComputeCapacity
  pub max_price_per_hour : ℕ
  pub duration_secs : ℕ
  pub escrow_amount : ℕ
  pub status : JobStatus
  pub created_at : ℕ
  pub started_at : Option ℕ
  pub ended_at : Option ℕ
  pub actual_usage : Option ComputeUsage

pub record DisputeResolution : Type 0 where
  pub winner : ℕ
  pub user_refund : ℕ
  pub provider_payment : ℕ
  pub slash_amount : ℕ
  pub resolved_by : ℕ
  pub resolved_at : ℕ

pub record ComputeDispute : Type 0 where
  pub dispute_id : ℕ
  pub job_id : ℕ
  pub initiator : ℕ
  pub dispute_type : DisputeType
  pub evidence_hash : ℕ
  pub created_at : ℕ
  pub deadline : ℕ
  pub resolution : Option DisputeResolution

pub record MarketStats : Type 0 where
  pub total_providers : ℕ
  pub active_providers : ℕ
  pub total_jobs_created : ℕ
  pub total_jobs_completed : ℕ
  pub total_jobs_failed : ℕ
  pub total_jobs_disputed : ℕ
  pub total_volume : ℕ

pub record ComputeMarketState : Type 0 where
  pub providers : HashMap ProviderInfo
  pub jobs : HashMap ComputeJob
  pub user_jobs : HashMap (List ℕ)
  pub provider_jobs : HashMap (List ℕ)
  pub disputes : HashMap ComputeDispute
  pub treasury_balance : ℕ
  pub total_escrow : ℕ
  pub total_provider_stake : ℕ
  pub stats : MarketStats

abbrev pub new : ComputeMarketState
new = record {
  providers = [];
  jobs = [];
  user_jobs = [];
  provider_jobs = [];
  disputes = [];
  treasury_balance = 0;
  total_escrow = 0;
  total_provider_stake = 0;
  stats = record {
    total_providers = 0;
    active_providers = 0;
    total_jobs_created = 0;
    total_jobs_completed = 0;
    total_jobs_failed = 0;
    total_jobs_disputed = 0;
    total_volume = 0;
  };
}

pub record SettlementResult : Type 0 where
  pub job_id : ℕ
  pub provider_payment : ℕ
  pub user_refund : ℕ
  pub protocol_fee : ℕ

pub data ComputeMarketError : Type 0 where
  provider_already_registered provider_not_found provider_not_active : ComputeMarketError
  insufficient_stake invalid_status_transition has_active_jobs : ComputeMarketError
  job_already_exists job_not_found invalid_job_state : ComputeMarketError
  resource_type_not_supported insufficient_capacity not_authorized : ComputeMarketError
  price_exceeds_max no_provider dispute_window_expired : ComputeMarketError
  dispute_not_found dispute_already_resolved : ComputeMarketError

abbrev pub Outcome : Type 0 → Type 0
Outcome A = Result A ComputeMarketError × ComputeMarketState

abbrev pub provider_min_stake : ℕ
provider_min_stake = 1_000_000_000_000_000_000_000

abbrev pub dispute_window_ms : ℕ
dispute_window_ms = 86_400 * 1000

abbrev pub protocol_fee_percent : ℕ
protocol_fee_percent = 250

-- `u32`
abbrev pub add_u32 : ℕ → ℕ → ℕ
add_u32 a b = (a + b) % 4_294_967_296

abbrev pub is_active : ProviderStatus → Bool
is_active ProviderStatus.active = true
is_active _ = false

-- The number of a resource type.
abbrev pub rank : ResourceType → ℕ
rank vm = 0
rank browser = 1
rank repl = 2
rank desktop = 3
rank agent_runtime = 4

abbrev pub supports : List ResourceType → ResourceType → Bool
supports [] t = false
supports (s ∷ types) t = (rank s == rank t) || supports types t

unfoldable pub has_capacity : (available required : ComputeCapacity) → Bool
has_capacity available required =
    leb required.cpu_millicores available.cpu_millicores
    && leb required.memory_mb available.memory_mb
    && leb required.storage_gb available.storage_gb
    && leb required.gpu_memory_mb available.gpu_memory_mb

-- Subtraction on ℕ stops at 0, as `saturating_sub` does.
unfoldable pub deduct_capacity : (available used : ComputeCapacity) → ComputeCapacity
deduct_capacity available used = record available {
  cpu_millicores = available.cpu_millicores - used.cpu_millicores;
  memory_mb = available.memory_mb - used.memory_mb;
  storage_gb = available.storage_gb - used.storage_gb;
  gpu_memory_mb = available.gpu_memory_mb - used.gpu_memory_mb;
}

unfoldable pub restore_capacity : (available released : ComputeCapacity) → ComputeCapacity
restore_capacity available released = record available {
  cpu_millicores = add_u32 available.cpu_millicores released.cpu_millicores;
  memory_mb = add_u32 available.memory_mb released.memory_mb;
  storage_gb = add_u32 available.storage_gb released.storage_gb;
  gpu_memory_mb = add_u32 available.gpu_memory_mb released.gpu_memory_mb;
}
