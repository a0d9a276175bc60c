-- ===== src/ComputeMarket/Escrow.antt =====
-- The escrow of core/blockchain/src/compute_market over histories of calls.
use is_a_chain.Prelude.{
  ℕ, ◌+◌, ◌≤◌, ◌<◌, ◌≡◌, ◌≢◌, ◌==◌, refl, subst, Option, none, some, List, [], ◌∷◌, total,
  total-insert, at_or_zero, if◌then◌else◌, arith, true, false, add_u128, u128_mod,
}
use is_a_chain.ComputeMarket.Data.{JobStatus, ComputeJob, ComputeMarketState, new}
use is_a_chain.ComputeMarket.Jobs.{stage}
use is_a_chain.ComputeMarket.History.{Call, step, run}
use is_a_chain.ComputeMarket.Status.{
  ◌⟶◌, accept, start, settle, cancel_pending, cancel_matched, dispute_running, dispute_completed,
  complete, fail, is_held, Change, quiet, adds, moves, opens, closes,
}
use is_a_chain.ComputeMarket.Steps.{step-Change, named, escrow_of}
use is_a_chain.ComputeMarket.Diagram.{IsSound, Change-IsSound, closes-disputed, new-IsSound}

-- The escrow of a job that is not over.
abbrev pub held_of : ComputeJob → ℕ
held_of job = if is_held job.status then job.escrow_amount else 0

abbrev pub is_completed : ComputeJob → ℕ
is_completed job = if stage job.status == 3 then 1 else 0

abbrev pub IsCounted : ComputeMarketState → Type 0
IsCounted s = s.total_escrow ≡ total held_of s.jobs

disputes_running :
    {a b : JobStatus}
    → a ⟶ b
    → b ≡ JobStatus.disputed
    → stage a ≢ 3
    → (is_held a ≡ true) × (is_held b ≡ true)
disputes_running dispute_running e h = (refl, refl)
disputes_running dispute_completed e h = absurd (h refl)
disputes_running accept e h = (cc, cc)
disputes_running start e h = (cc, cc)
disputes_running settle e h = (cc, cc)
disputes_running cancel_pending e h = (cc, cc)
disputes_running cancel_matched e h = (cc, cc)
disputes_running complete e h = (cc, cc)
disputes_running fail e h = (cc, cc)

leaves_held : {b : JobStatus} → JobStatus.disputed ⟶ b → is_held b ≡ false
leaves_held complete = refl
leaves_held fail = refl

-- A dispute is not opened on a completed job.
abbrev pub IsRegular : Option ℕ → ComputeMarketState → Type 0
IsRegular none s = Unit
IsRegular (some id) s = at_or_zero is_completed id s.jobs ≡ 0

module _ (t : Option ℕ) (e : ℕ) (s s' : ComputeMarketState) where
  Change-IsCounted :
      Change t e s s'
      → IsSound s
      → IsCounted s
      → IsRegular t s
      → total held_of s.jobs + e < u128_mod
      → IsCounted s' × (total held_of s'.jobs ≤ total held_of s.jobs + e)
  unfolding add_u128
  Change-IsCounted (quiet jobs disputes escrow) sound counted running fits =
      rw (jobs, escrow) (counted, omega arith)
  Change-IsCounted (adds key job fresh status brought jobs disputes escrow) sound counted running
        fits =
      let after = total-insert held_of key job s.jobs in rw (jobs, escrow) (ground arith)
  Change-IsCounted (moves key job job' found edge held from to kept jobs disputes escrow) sound
        counted running fits =
      let after = total-insert held_of key job' s.jobs in rw (jobs, escrow) (ground arith)
  Change-IsCounted
        (opens key dkey job job' d on_job found edge to kept on fresh jobs disputes escrow) sound
        counted running fits =
      let after = total-insert held_of key job' s.jobs in
      let running' : at_or_zero is_completed key s.jobs ≡ 0 =
        subst (λ o. IsRegular o s) on_job running in
      let holds = disputes_running edge to (ground arith) in rw (jobs, escrow) (ground arith)
  Change-IsCounted (closes dkey job job' d d' found open_ over known edge kept jobs disputes escrow)
        sound counted running fits =
      let after = total-insert held_of d.job_id job' s.jobs in
      let from = closes-disputed s dkey job d sound found open_ known in
      let to = leaves_held edge in rw (jobs, escrow) (ground arith)

step-IsCounted :
    (cost : ℕ → ℕ → ℕ) (s : ComputeMarketState) (c : Call)
    → IsSound s
    → IsCounted s
    → IsRegular (named c) s
    → total held_of s.jobs + escrow_of c < u128_mod
    → let s' = step cost s c in
      IsCounted s' × (total held_of s'.jobs ≤ total held_of s.jobs + escrow_of c)
step-IsCounted cost s c =
    Change-IsCounted (named c) (escrow_of c) s (step cost s c) (step-Change cost s c)

-- No call opens a dispute on a job that is completed then.
abbrev pub AreRegular : (ℕ → ℕ → ℕ) → ComputeMarketState → List Call → Type 0
AreRegular cost s [] = Unit
AreRegular cost s (c ∷ cs) = IsRegular (named c) s × AreRegular cost (step cost s c) cs

abbrev pub escrows : List Call → ℕ
escrows [] = 0
escrows (c ∷ cs) = escrow_of c + escrows cs

run-IsCounted :
    (cost : ℕ → ℕ → ℕ) (s : ComputeMarketState) (cs : List Call)
    → IsSound s
    → IsCounted s
    → AreRegular cost s cs
    → total held_of s.jobs + escrows cs < u128_mod
    → IsCounted (run cost s cs)
run-IsCounted cost s [] sound counted regular fits = counted
run-IsCounted cost s (c ∷ cs) sound counted (first, regular) fits =
    let s' = step cost s c in
    let sound' = Change-IsSound (named c) (escrow_of c) s s' (step-Change cost s c) sound in
    let (counted', less) = step-IsCounted cost s c sound counted first (omega arith) in
    run-IsCounted cost s' cs sound' counted' regular (omega (arith, less))

-- After any calls the total escrow is the escrow of the jobs that are not over, where no dispute is
-- opened on a completed job and the escrows of all calls add up to less than 2 ^ 128.
pub escrow_is_held :
    (cost : ℕ → ℕ → ℕ) (calls : List Call)
    → AreRegular cost new calls
    → escrows calls < u128_mod
    → (run cost new calls).total_escrow ≡ total held_of (run cost new calls).jobs
escrow_is_held cost calls regular fits =
    run-IsCounted cost new calls new-IsSound refl regular (omega arith)
