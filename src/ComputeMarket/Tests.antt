-- ===== src/ComputeMarket/Tests.antt =====
-- Tests of the compute market, and its theorems at concrete inputs.
use is_a_chain.Prelude.{
  ◌++◌, ℕ, ◌-◌, ◌*◌, ◌/◌, ◌≡◌, refl, List, [], ◌∷◌, none, some, ok, arith, total, add_u64, add_u128,
  sub_u128, mul_u128,
}
use is_a_chain.Transaction.{ComputeCapacity, ComputeUsage, usage_dispute, vm}
use is_a_chain.ComputeMarket.Data.{
  ComputeMarketState, ComputeJob, DisputeResolution, JobStatus, new, has_capacity, deduct_capacity,
  restore_capacity,
}
use is_a_chain.ComputeMarket.Providers.{register_provider}
use is_a_chain.ComputeMarket.Jobs.{
  create_job, accept_job, match_job, start_job, settle_job, cancel_job, created,
}
use is_a_chain.ComputeMarket.Disputes.{open_dispute, resolve_dispute}
use is_a_chain.ComputeMarket.History.{Call, step, run}
use is_a_chain.ComputeMarket.Diagram.{Leads, jobs_follow_diagram}
use is_a_chain.ComputeMarket.Escrow.{held_of, escrow_is_held}
use is_a_chain.ComputeMarket.Flaws.{resolution_releases_twice}

-- Whole hours at the price.
abbrev cost : ℕ → ℕ → ℕ
cost price secs = price * (secs / 3600)

abbrev capacity : ComputeCapacity
capacity = record {
  cpu_millicores = 2000;
  memory_mb = 4096;
  storage_gb = 20;
  gpu_memory_mb = 0;
  bandwidth_mbps = 100;
}

abbrev usage : ComputeUsage
usage = record {
  duration_secs = 7200;
  cpu_seconds = 0;
  memory_mb_seconds = 0;
  network_bytes = 0;
  storage_bytes = 0;
}

abbrev stake : ℕ
stake = 2_000_000_000_000_000_000_000

abbrev opening : List Call
opening =
    Call.registers 9 (vm ∷ []) capacity 50 0 0 stake none "host"
    ∷ Call.creates 1 7 (some 9) vm capacity 100 3600 1000 0
    ∷ Call.creates 2 7 none vm capacity 100 3600 500 0
    ∷ Call.accepts 1 9 80
    ∷ Call.starts 1 9 5
    ∷ []

abbrev ending : List Call
ending = Call.settles 1 usage 10 ∷ Call.cancels 2 7 11 ∷ []

abbrev market : ComputeMarketState
market = run cost new opening

-- 200 for two hours, of which 5 are the fee.
settled :
    ((settle_job cost 1 usage 10 market).0
      ≡ ok record { job_id = 1; provider_payment = 195; user_refund = 800; protocol_fee = 5 })
    × ((run cost market ending).total_escrow ≡ 0)
    × ((run cost market ending).treasury_balance ≡ 5)
unfolding step register_provider create_job accept_job match_job start_job settle_job cancel_job
    has_capacity deduct_capacity restore_capacity add_u64 add_u128 sub_u128 mul_u128
settled = (refl, refl, refl)

abbrev job : ComputeJob
job = created 1 7 (some 9) vm capacity 100 3600 1000 0

jobs_follow_diagram_example :
    Leads 1
      (record job { status = JobStatus.running; started_at = some 5 })
      (run cost (run cost new opening) ending)
unfolding step register_provider create_job accept_job match_job start_job has_capacity
    deduct_capacity add_u64 add_u128
jobs_follow_diagram_example =
    jobs_follow_diagram cost opening ending 1
      (record job { status = JobStatus.running; started_at = some 5 }) refl

abbrev verdict_ : DisputeResolution
verdict_ = record {
  winner = 7;
  user_refund = 1000;
  provider_payment = 0;
  slash_amount = 0;
  resolved_by = 3;
  resolved_at = 20;
}

abbrev disputed_calls : List Call
disputed_calls =
    Call.registers 9 (vm ∷ []) capacity 50 0 0 stake none "host"
    ∷ Call.creates 1 7 none vm capacity 100 3600 1000 0
    ∷ Call.creates 2 7 none vm capacity 100 3600 500 0
    ∷ Call.accepts 1 9 80
    ∷ Call.starts 1 9 5
    ∷ Call.disputes 4 1 7 usage_dispute 0 6
    ∷ Call.resolves 4 verdict_
    ∷ []

escrow_is_held_example :
    (run cost new disputed_calls).total_escrow ≡ total held_of (run cost new disputed_calls).jobs
unfolding step register_provider create_job accept_job match_job start_job has_capacity
    deduct_capacity open_dispute resolve_dispute add_u64 add_u128
escrow_is_held_example =
    escrow_is_held cost disputed_calls (tt, (tt, (tt, (tt, (tt, (refl, (tt, tt))))))) (omega arith)

abbrev done_job : ComputeJob
done_job = record job {
  status = JobStatus.completed;
  started_at = some 5;
  ended_at = some 10;
  actual_usage = some usage;
}

resolution_releases_twice_example :
    let s = run cost new (opening ++ Call.settles 1 usage 10 ∷ []) in
    let s' = (resolve_dispute 4 verdict_ (open_dispute 4 1 7 usage_dispute 0 20 s).1).1 in
    (s'.total_escrow ≡ s.total_escrow - 1000) × (total held_of s'.jobs ≡ total held_of s.jobs)
unfolding step register_provider create_job accept_job match_job start_job settle_job open_dispute
    has_capacity deduct_capacity restore_capacity add_u64 add_u128 sub_u128 mul_u128
resolution_releases_twice_example =
    resolution_releases_twice 4 1 7 usage_dispute 0 20 verdict_
      (run cost new (opening ++ Call.settles 1 usage 10 ∷ [])) done_job refl refl refl
