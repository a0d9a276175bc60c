-- ===== src/ComputeMarket/Providers.antt =====
-- core/blockchain/src/compute_market/providers.rs: registration, changes and exit.
use is_a_chain.Prelude.{
  ℕ, ◌-◌, Bool, true, false, not, String, List, [], ◌∷◌, Option, none, some, ltb, if◌then◌else◌, ok,
  err, HashMap, get, insert, contains_key, listed, add_u64, add_u128, ◌||◌,
}
use is_a_chain.Transaction.{ResourceType, ComputeCapacity, ProviderStatus}
use is_a_chain.ComputeMarket.Data.{
  JobStatus, ProviderInfo, ComputeJob, ComputeMarketState, Outcome, provider_already_registered,
  provider_not_found, insufficient_stake, invalid_status_transition, has_active_jobs,
  provider_min_stake, is_active,
}

abbrev pub registered :
    (address : ℕ)
    → List ResourceType
    → ComputeCapacity
    → (price_per_hour min_duration_secs max_duration_secs stake : ℕ)
    → (region : Option String) (endpoint : String) → ProviderInfo
registered address resource_types capacity price_per_hour min_duration_secs max_duration_secs stake
      region endpoint =
    record {
      address = address;
      resource_types = resource_types;
      capacity = capacity;
      available_capacity = capacity;
      price_per_hour = price_per_hour;
      min_duration_secs = min_duration_secs;
      max_duration_secs = max_duration_secs;
      stake = stake;
      status = ProviderStatus.active;
      reputation = 5000;
      jobs_completed = 0;
      jobs_failed = 0;
      region = region;
      endpoint = endpoint;
    }

unfoldable pub register_provider :
    (address : ℕ)
    → List ResourceType
    → ComputeCapacity
    → (price_per_hour min_duration_secs max_duration_secs stake : ℕ)
    → (region : Option String) (endpoint : String) → ComputeMarketState
    → Outcome (Unit {0})
register_provider address resource_types capacity price_per_hour min_duration_secs max_duration_secs
      stake region endpoint s =
    if contains_key address s.providers
    then (err provider_already_registered, s)
    else if ltb stake provider_min_stake
    then (err insufficient_stake, s)
    else (
      ok tt,
      record s {
        providers =
            insert address
              (registered address resource_types capacity price_per_hour min_duration_secs
                max_duration_secs stake region endpoint)
              s.providers;
        total_provider_stake = add_u128 s.total_provider_stake stake;
        stats = record s.stats {
          total_providers = add_u64 s.stats.total_providers 1;
          active_providers = add_u64 s.stats.active_providers 1;
        };
      },
    )

-- What an update writes before it comes to the status: capacity and price.
abbrev pub repriced : Option ComputeCapacity → Option ℕ → ProviderInfo → ProviderInfo
repriced capacity price_per_hour p =
    let p1 : ProviderInfo = elim capacity [
      | none ↦ p
      | some cap ↦ record p { capacity = cap; available_capacity = cap }
    ] in
    elim price_per_hour [ none ↦ p1 | some price ↦ record p1 { price_per_hour = price } ]

-- A provider may only be made active or paused.
abbrev pub is_settable : Option ProviderStatus → Bool
is_settable none = true
is_settable (some ProviderStatus.active) = true
is_settable (some ProviderStatus.paused) = true
is_settable (some _) = false

abbrev pub with_status : Option ProviderStatus → ProviderInfo → ProviderInfo
with_status none p = p
with_status (some status) p = record p { status = status }

-- The count of active providers after a change of status.
abbrev pub recounted : (was_active now_active : Bool) → ℕ → ℕ
recounted true true n = n
recounted true false n = n - 1
recounted false true n = add_u64 n 1
recounted false false n = n

abbrev pub with_endpoint : Option String → ProviderInfo → ProviderInfo
with_endpoint none p = p
with_endpoint (some endpoint) p = record p { endpoint = endpoint }

abbrev pub with_stake : Option ℕ → ProviderInfo → ProviderInfo
with_stake none p = p
with_stake (some stake) p = record p { stake = add_u128 p.stake stake }

abbrev pub staked_more : Option ℕ → ℕ → ℕ
staked_more none total = total
staked_more (some stake) total = add_u128 total stake

-- Capacity and price stay written where the status is refused.
unfoldable pub update_provider :
    (address : ℕ)
    → Option ComputeCapacity
    → (price_per_hour : Option ℕ) → Option ProviderStatus
    → (additional_stake : Option ℕ) (endpoint : Option String) → ComputeMarketState
    → Outcome (Unit {0})
update_provider address capacity price_per_hour status additional_stake endpoint s =
    elim (get address s.providers) [
      | none ↦ (err provider_not_found, s)
      | some p ↦
          let p1 = repriced capacity price_per_hour p in
          if not (is_settable status)
          then (
            err invalid_status_transition,
            record s { providers = insert address p1 s.providers },
          )
          else let p2 = with_status status p1 in
            (
              ok tt,
              record s {
                providers =
                    insert address (with_endpoint endpoint (with_stake additional_stake p2))
                      s.providers;
                total_provider_stake = staked_more additional_stake s.total_provider_stake;
                stats = record s.stats {
                  active_providers =
                      recounted (is_active p.status) (is_active p2.status) s.stats.active_providers;
                };
              },
            )
    ]

abbrev pub is_busy : JobStatus → Bool
is_busy JobStatus.pending = true
is_busy JobStatus.matched = true
is_busy JobStatus.running = true
is_busy _ = false

abbrev pub is_busy_job : (job_id : ℕ) → HashMap ComputeJob → Bool
is_busy_job job_id jobs = elim (get job_id jobs) [ none ↦ false | some job ↦ is_busy job.status ]

abbrev pub has_busy_job : List ℕ → HashMap ComputeJob → Bool
has_busy_job [] jobs = false
has_busy_job (id ∷ ids) jobs = is_busy_job id jobs || has_busy_job ids jobs

unfoldable pub provider_exit : (address : ℕ) → ComputeMarketState → Outcome ℕ
provider_exit address s = elim (get address s.providers) [
  | none ↦ (err provider_not_found, s)
  | some p ↦
      if has_busy_job (listed address s.provider_jobs) s.jobs then (err has_active_jobs, s) else (
        ok p.stake,
        record s {
          providers = insert address (record p { status = ProviderStatus.exited }) s.providers;
          total_provider_stake = s.total_provider_stake - p.stake;
          stats = record s.stats { active_providers = s.stats.active_providers - 1 };
        },
      )
]
