-- ===== src/ComputeMarket/Diagram.antt =====
-- The jobs of core/blockchain/src/compute_market over histories of calls.
use is_a_chain.Prelude.{
  ◌∙◌, ℕ, ◌≤◌, ◌≡◌, ◌≢◌, ◌==◌, inl, inr, refl, sym, subst, Option, none, some, Bool-cases, List, [],
  ◌∷◌, get, insert, get-insert, total, total-insert, at_or_zero, at_or_zero-le-total, if◌then◌else◌,
  is_some, arith, false,
}
use is_a_chain.ComputeMarket.Data.{JobStatus, ComputeJob, ComputeDispute, ComputeMarketState, new}
use is_a_chain.ComputeMarket.Jobs.{stage}
use is_a_chain.ComputeMarket.History.{Call, step, run}
use is_a_chain.ComputeMarket.Status.{
  ◌⟶◌, accept, start, settle, cancel_pending, cancel_matched, dispute_running, dispute_completed,
  complete, fail, is_held, Change, quiet, adds, moves, opens, closes,
}
use is_a_chain.ComputeMarket.Steps.{step-Change, named, escrow_of, has_status-eq}

-- An unresolved dispute on the job counts 1.
abbrev pub open_on : (id : ℕ) → ComputeDispute → ℕ
open_on id d = if is_some d.resolution then 0 else (if d.job_id == id then 1 else 0)

abbrev pub is_disputed : ComputeJob → ℕ
is_disputed job = if stage job.status == 6 then 1 else 0

-- Only a disputed job has an unresolved dispute, and then one.
abbrev pub IsSound : ComputeMarketState → Type 0
IsSound s = (id : ℕ) → total (open_on id) s.disputes ≤ at_or_zero is_disputed id s.jobs

disputes_from : {a b : JobStatus} → a ⟶ b → b ≡ JobStatus.disputed → stage a ≢ 6
disputes_from accept e = λ _. cc
disputes_from start e = λ _. cc
disputes_from settle e = λ _. cc
disputes_from cancel_pending e = λ _. cc
disputes_from cancel_matched e = λ _. cc
disputes_from dispute_running e = omega arith
disputes_from dispute_completed e = omega arith
disputes_from complete e = λ _. cc
disputes_from fail e = λ _. cc

leaves_disputed : {b : JobStatus} → JobStatus.disputed ⟶ b → (stage b ≢ 6) × (is_held b ≡ false)
leaves_disputed complete = (omega arith, refl)
leaves_disputed fail = (omega arith, refl)

pub Change-IsSound :
    (t : Option ℕ) (e : ℕ) (s s' : ComputeMarketState) → Change t e s s' → IsSound s → IsSound s'
Change-IsSound t e s s' (quiet jobs disputes escrow) sound id = rw (jobs, disputes) (sound id)
Change-IsSound t e s s' (adds key job fresh status brought jobs disputes escrow) sound id =
    let before = sound id in rw (jobs, disputes) (ground (arith, get-insert id key job s.jobs))
Change-IsSound t e s s' (moves key job job' found edge held from to kept jobs disputes escrow) sound
      id =
    let before = sound id in rw (jobs, disputes) (ground (arith, get-insert id key job' s.jobs))
Change-IsSound t e s s'
      (opens key dkey job job' d on_job found edge to kept on fresh jobs disputes escrow) sound id =
    let before = sound id in
    let from = disputes_from edge to in
    rw (jobs, disputes)
      (ground (arith, get-insert id key job' s.jobs, total-insert (open_on id) dkey d s.disputes))
Change-IsSound t e s s'
      (closes dkey job job' d d' found open_ over known edge kept jobs disputes escrow) sound id =
    let before = sound id in
    let to = leaves_disputed edge in
    rw (jobs, disputes)
      (ground
        (arith, get-insert id d.job_id job' s.jobs, total-insert (open_on id) dkey d' s.disputes))

-- The job of an unresolved dispute is disputed.
pub closes-disputed :
    (s : ComputeMarketState) (key : ℕ) (job : ComputeJob) (d : ComputeDispute)
    → IsSound s
    → get key s.disputes ≡ some d
    → d.resolution ≡ none
    → get d.job_id s.jobs ≡ some job
    → job.status ≡ JobStatus.disputed
closes-disputed s key job d sound found open_ known =
    let before = sound d.job_id in
    let within = at_or_zero-le-total (open_on d.job_id) key s.disputes in
    has_status-eq job.status JobStatus.disputed (ground arith)

-- Any number of transitions.
infix 40 ◌⟶*◌
pub data ◌⟶*◌ : JobStatus → JobStatus → Type 0 where
  here : {a : JobStatus} → a ⟶* a
  next : {a b c : JobStatus} → a ⟶ b → b ⟶* c → a ⟶* c

-- The job with the identifier is still there, with its escrow, further along the diagram.
abbrev pub Leads : (id : ℕ) → ComputeJob → ComputeMarketState → Type 0
Leads id job s =
    (job' : ComputeJob) × (get id s.jobs ≡ some job')
    × (job.status ⟶* job'.status)
    × (job'.escrow_amount ≡ job.escrow_amount)

-- A write of another job, or of the next state of this one.
put-Leads :
    (id key : ℕ) (job old new_ : ComputeJob) (s s' : ComputeMarketState)
    → get id s.jobs ≡ some job
    → get key s.jobs ≡ some old
    → old.status ⟶ new_.status
    → new_.escrow_amount ≡ old.escrow_amount
    → s'.jobs ≡ insert key new_ s.jobs
    → Leads id job s'
put-Leads id key job old new_ s s' found known edge kept jobs = elim (Bool-cases (id == key)) [
  | inl e ↦
      let same_job : old ≡ job = ground arith in
      (
        new_,
        rw jobs (ground (arith, get-insert id key new_ s.jobs)),
        subst (λ j. j.status ⟶* new_.status) same_job (next edge here),
        subst (λ j. new_.escrow_amount ≡ j.escrow_amount) same_job kept,
      )
  | inr e ↦ (job, rw jobs (ground (arith, get-insert id key new_ s.jobs)), here, refl)
]

Change-Leads :
    (t : Option ℕ) (e : ℕ) (s s' : ComputeMarketState)
    → Change t e s s'
    → IsSound s
    → (id : ℕ) (job : ComputeJob) → get id s.jobs ≡ some job
    → Leads id job s'
Change-Leads t e s s' (quiet jobs disputes escrow) sound id job found =
    (job, rw jobs found, here, refl)
Change-Leads t e s s' (adds key new_ fresh status brought jobs disputes escrow) sound id job found =
    (job, rw jobs (ground (arith, get-insert id key new_ s.jobs)), here, refl)
Change-Leads t e s s' (moves key old new_ known edge held from to kept jobs disputes escrow) sound
      id job found =
    put-Leads id key job old new_ s s' found known edge kept jobs
Change-Leads t e s s'
      (opens key dkey old new_ d on_job known edge to kept on fresh jobs disputes escrow) sound id
      job found =
    put-Leads id key job old new_ s s' found known edge kept jobs
Change-Leads t e s s'
      (closes dkey old new_ d d' listed open_ over known edge kept jobs disputes escrow) sound id
      job found =
    let from = closes-disputed s dkey old d sound listed open_ known in
    put-Leads id d.job_id job old new_ s s' found known
      (subst (λ x. x ⟶ new_.status) (sym from) edge) kept jobs

trans : {a b c : JobStatus} → a ⟶* b → b ⟶* c → a ⟶* c
trans here q = q
trans (next e p) q = next e (trans p q)

pub new-IsSound : IsSound new
new-IsSound id = omega arith

pub run-IsSound :
    (cost : ℕ → ℕ → ℕ) (s : ComputeMarketState) (cs : List Call)
    → IsSound s
    → IsSound (run cost s cs)
run-IsSound cost s [] sound = sound
run-IsSound cost s (c ∷ cs) sound =
    run-IsSound cost (step cost s c) cs
      (Change-IsSound (named c) (escrow_of c) s (step cost s c) (step-Change cost s c) sound)

run-Leads :
    (cost : ℕ → ℕ → ℕ) (s : ComputeMarketState) (cs : List Call)
    → IsSound s
    → (id : ℕ) (job : ComputeJob) → get id s.jobs ≡ some job
    → Leads id job (run cost s cs)
run-Leads cost s [] sound id job found = (job, found, here, refl)
run-Leads cost s (c ∷ cs) sound id job found =
    let change = step-Change cost s c in
    let (mid, mid_found, path, kept) =
      Change-Leads (named c) (escrow_of c) s (step cost s c) change sound id job found in
    let (end, end_found, rest, kept') =
      run-Leads cost (step cost s c) cs
        (Change-IsSound (named c) (escrow_of c) s (step cost s c) change sound) id mid mid_found in
    (end, end_found, trans path rest, kept' ∙ kept)

-- Once a job is made, further calls never lose it and never change its escrow, and its status moves
-- along the transitions of the diagram: before and after stand any histories from an empty market.
pub jobs_follow_diagram :
    (cost : ℕ → ℕ → ℕ) (before after : List Call) (id : ℕ) (job : ComputeJob)
    → get id (run cost new before).jobs ≡ some job
    → Leads id job (run cost (run cost new before) after)
jobs_follow_diagram cost before after id job found =
    run-Leads cost (run cost new before) after (run-IsSound cost new before new-IsSound) id job
      found
