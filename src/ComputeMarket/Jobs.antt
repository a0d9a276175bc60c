-- ===== src/ComputeMarket/Jobs.antt =====
-- core/blockchain/src/compute_market/jobs.rs: the life of a job.
use is_a_chain.Prelude.{
  ℕ, ◌-◌, ◌/◌, ◌==◌, Bool, false, not, ◌||◌, Option, none, some, ltb, min, if◌then◌else◌, ok, err,
  get, insert, contains_key, push_item, add_u64, add_u128, sub_u128, mul_u128,
}
use is_a_chain.Transaction.{ResourceType, ComputeCapacity, ComputeUsage}
use is_a_chain.ComputeMarket.Data.{
  JobStatus, ProviderInfo, ComputeJob, ComputeMarketState, ComputeMarketError, SettlementResult,
  Outcome, provider_not_found, provider_not_active, job_already_exists, job_not_found,
  invalid_job_state, resource_type_not_supported, insufficient_capacity, not_authorized,
  price_exceeds_max, no_provider, protocol_fee_percent, is_active, supports, has_capacity,
  deduct_capacity, restore_capacity, add_u32,
}

-- The number of a status, and the comparison `==`.
abbrev pub stage : JobStatus → ℕ
stage JobStatus.pending = 0
stage JobStatus.matched = 1
stage JobStatus.running = 2
stage JobStatus.completed = 3
stage JobStatus.failed = 4
stage JobStatus.cancelled = 5
stage JobStatus.disputed = 6

abbrev pub has_status : JobStatus → ComputeJob → Bool
has_status status job = stage job.status == stage status

abbrev pub is_provider : (address : ℕ) → ComputeJob → Bool
is_provider address job = elim job.provider [ none ↦ false | some p ↦ p == address ]

-- The checks on a provider that a new job names: what is wrong, if anything.
abbrev pub refused_provider :
    Option ℕ → ResourceType → ComputeCapacity → ComputeMarketState → Option ComputeMarketError
refused_provider none resource_type capacity s = none
refused_provider (some address) resource_type capacity s = elim (get address s.providers) [
  | none ↦ some provider_not_found
  | some p ↦
      if not (is_active p.status)
      then some provider_not_active
      else if not (supports p.resource_types resource_type)
      then some resource_type_not_supported
      else if not (has_capacity p.available_capacity capacity)
      then some insufficient_capacity
      else none
]

abbrev pub put_job : (job_id : ℕ) → ComputeJob → ComputeMarketState → ComputeMarketState
put_job job_id job s = record s { jobs = insert job_id job s.jobs }

abbrev pub put_provider : (address : ℕ) → ProviderInfo → ComputeMarketState → ComputeMarketState
put_provider address p s = record s { providers = insert address p s.providers }

abbrev pub created :
    (job_id user : ℕ)
    → Option ℕ
    → ResourceType
    → ComputeCapacity
    → (max_price_per_hour duration_secs escrow_amount created_at : ℕ) → ComputeJob
created job_id user provider resource_type capacity max_price_per_hour duration_secs escrow_amount
      created_at =
    record {
      job_id = job_id;
      user = user;
      provider = provider;
      resource_type = resource_type;
      capacity = capacity;
      max_price_per_hour = max_price_per_hour;
      duration_secs = duration_secs;
      escrow_amount = escrow_amount;
      status = JobStatus.pending;
      created_at = created_at;
      started_at = none;
      ended_at = none;
      actual_usage = none;
    }

unfoldable pub create_job :
    (job_id user : ℕ)
    → Option ℕ
    → ResourceType
    → ComputeCapacity
    → (max_price_per_hour duration_secs escrow_amount created_at : ℕ) → ComputeMarketState
    → Outcome (Unit {0})
create_job job_id user provider resource_type capacity max_price_per_hour duration_secs
      escrow_amount created_at s =
    if contains_key job_id s.jobs
    then (err job_already_exists, s)
    else elim (refused_provider provider resource_type capacity s) [
      | some e ↦ (err e, s)
      | none ↦
          let job =
            created job_id user provider resource_type capacity max_price_per_hour duration_secs
              escrow_amount created_at in
          (
            ok tt,
            record s {
              jobs = insert job_id job s.jobs;
              user_jobs = push_item user job_id s.user_jobs;
              total_escrow = add_u128 s.total_escrow escrow_amount;
              stats = record s.stats { total_jobs_created = add_u64 s.stats.total_jobs_created 1 };
            },
          )
    ]

-- A job that names a provider may be accepted by that one only.
abbrev pub names_another : (provider : ℕ) → ComputeJob → Bool
names_another provider job = elim job.provider [ none ↦ false | some p ↦ not (p == provider) ]

-- The checks on the provider, and the writes of `accept_job`.
unfoldable pub match_job :
    (job_id provider : ℕ) → ComputeJob → ComputeMarketState → Outcome (Unit {0})
match_job job_id provider job s = elim (get provider s.providers) [
  | none ↦ (err provider_not_found, s)
  | some p ↦
      if not (is_active p.status)
      then (err provider_not_active, s)
      else if not (has_capacity p.available_capacity job.capacity)
      then (err insufficient_capacity, s)
      else let p' = record p {
        available_capacity = deduct_capacity p.available_capacity job.capacity;
      } in
        let job' = record job { provider = some provider; status = JobStatus.matched } in
        (
          ok tt,
          record (put_job job_id job' (put_provider provider p' s)) {
            provider_jobs = push_item provider job_id s.provider_jobs;
          },
        )
]

unfoldable pub accept_job :
    (job_id provider price_per_hour : ℕ) → ComputeMarketState → Outcome (Unit {0})
unfolding match_job
accept_job job_id provider price_per_hour s = elim (get job_id s.jobs) [
  | none ↦ (err job_not_found, s)
  | some job ↦
      if not (has_status JobStatus.pending job)
      then (err invalid_job_state, s)
      else if names_another provider job
      then (err not_authorized, s)
      else if ltb job.max_price_per_hour price_per_hour
      then (err price_exceeds_max, s)
      else match_job job_id provider job s
]

unfoldable pub start_job :
    (job_id provider started_at : ℕ) → ComputeMarketState → Outcome (Unit {0})
start_job job_id provider started_at s = elim (get job_id s.jobs) [
  | none ↦ (err job_not_found, s)
  | some job ↦
      if not (has_status JobStatus.matched job)
      then (err invalid_job_state, s)
      else if not (is_provider provider job)
      then (err not_authorized, s)
      else (
        ok tt,
        put_job job_id (record job { status = JobStatus.running; started_at = some started_at }) s,
      )
]

-- The capacity of a job goes back to a provider.
abbrev pub released : ComputeCapacity → ProviderInfo → ProviderInfo
released capacity p = record p {
  available_capacity = restore_capacity p.available_capacity capacity;
}

abbrev pub rewarded : ComputeCapacity → ProviderInfo → ProviderInfo
rewarded capacity p = record (released capacity p) {
  jobs_completed = add_u64 p.jobs_completed 1;
  reputation = min (add_u32 p.reputation 10) 10_000;
}

-- `if let Some(provider) = self.providers.get_mut(…)`
abbrev pub change_provider :
    (address : ℕ) → (ProviderInfo → ProviderInfo) → ComputeMarketState → ComputeMarketState
change_provider address f s = elim (get address s.providers) [
  | none ↦ s
  | some p ↦ put_provider address (f p) s
]

-- `settle_job` once the payment is known.
abbrev pub settled :
    (job_id provider base_payment : ℕ)
    → ComputeUsage
    → (settled_at : ℕ) → ComputeJob
    → ComputeMarketState
    → Outcome SettlementResult
settled job_id provider base_payment usage settled_at job s =
    let protocol_fee = mul_u128 base_payment protocol_fee_percent / 10_000 in
    let job' = record job {
      status = JobStatus.completed;
      ended_at = some settled_at;
      actual_usage = some usage;
    } in
    let s' = change_provider provider (rewarded job.capacity) (put_job job_id job' s) in
    (
      ok record {
        job_id = job_id;
        provider_payment = sub_u128 base_payment protocol_fee;
        user_refund = job.escrow_amount - base_payment;
        protocol_fee = protocol_fee;
      },
      record s' {
        total_escrow = s.total_escrow - job.escrow_amount;
        treasury_balance = add_u128 s.treasury_balance protocol_fee;
        stats = record s.stats {
          total_jobs_completed = add_u64 s.stats.total_jobs_completed 1;
          total_volume = add_u128 s.stats.total_volume base_payment;
        };
      },
    )

-- The payment for a price per hour and a number of seconds is computed with floating point numbers:
-- that arithmetic is a parameter.
unfoldable pub settle_job :
    (ℕ → ℕ → ℕ)
    → (job_id : ℕ) → ComputeUsage
    → (settled_at : ℕ) → ComputeMarketState
    → Outcome SettlementResult
settle_job cost job_id usage settled_at s = elim (get job_id s.jobs) [
  | none ↦ (err job_not_found, s)
  | some job ↦
      if not (has_status JobStatus.running job)
      then (err invalid_job_state, s)
      else elim job.provider [
        | none ↦ (err no_provider, s)
        | some provider ↦
            settled job_id provider (cost job.max_price_per_hour usage.duration_secs) usage
              settled_at job s
      ]
]

abbrev pub release_named : Option ℕ → ComputeCapacity → ComputeMarketState → ComputeMarketState
release_named none capacity s = s
release_named (some address) capacity s = change_provider address (released capacity) s

unfoldable pub cancel_job : (job_id canceller cancelled_at : ℕ) → ComputeMarketState → Outcome ℕ
cancel_job job_id canceller cancelled_at s = elim (get job_id s.jobs) [
  | none ↦ (err job_not_found, s)
  | some job ↦
      if not ((job.user == canceller) || is_provider canceller job)
      then (err not_authorized, s)
      else if not (has_status JobStatus.pending job || has_status JobStatus.matched job)
      then (err invalid_job_state, s)
      else let job' = record job { status = JobStatus.cancelled; ended_at = some cancelled_at } in
        let s' = put_job job_id job' (release_named job.provider job.capacity s) in
        (ok job.escrow_amount, record s' { total_escrow = s.total_escrow - job.escrow_amount })
]
