-- ===== src/ComputeMarket/Steps.antt =====
-- Every call of core/blockchain/src/compute_market is one change of jobs, disputes and escrow.
use is_a_chain.Prelude.{
  not, add_u64, ltb, ◌||◌, sym, ◌&&◌, subst, ◌==◌, ℕ, ◌≡◌, inl, inr, refl, Option, none, some,
  Option-cases, Bool-cases, get, arith, true, is_some,
}
use is_a_chain.Transaction.{ResourceType, ComputeCapacity, ComputeUsage, DisputeType}
use is_a_chain.ComputeMarket.Data.{
  dispute_window_ms, has_capacity, is_active, JobStatus, ComputeJob, ComputeDispute,
  DisputeResolution, ComputeMarketState,
}
use is_a_chain.ComputeMarket.Jobs.{
  refused_provider, names_another, is_provider, create_job, accept_job, match_job, start_job,
  settle_job, cancel_job, release_named, created, stage, has_status,
}
use is_a_chain.ComputeMarket.Disputes.{
  is_expired, verdict, open_dispute, resolve_dispute, slash_named,
}
use is_a_chain.ComputeMarket.Providers.{register_provider, update_provider, provider_exit}
use is_a_chain.ComputeMarket.History.{
  Call, registers, updates, exits, creates, accepts, starts, settles, cancels, disputes, resolves,
  step,
}
use is_a_chain.ComputeMarket.Status.{
  ◌⟶◌, accept, start, settle, cancel_pending, cancel_matched, dispute_running, dispute_completed,
  complete, fail, Change, quiet, adds, moves, opens, closes,
}

pub has_status-eq : (x y : JobStatus) → (stage x == stage y) ≡ true → x ≡ y
has_status-eq x y e = ground arith

same : {t : Option ℕ} {e : ℕ} {s s' : ComputeMarketState} → s' ≡ s → Change t e s s'
same {t} {e} {s} unmoved = subst (Change t e s) (sym unmoved) (quiet refl refl refl)

-- What a change of a provider leaves alone.
abbrev pub Keeps : ComputeMarketState → ComputeMarketState → Type 0
Keeps s s' = (s'.jobs ≡ s.jobs) × (s'.disputes ≡ s.disputes) × (s'.total_escrow ≡ s.total_escrow)

release_named-Keeps :
    (provider : Option ℕ) (capacity : ComputeCapacity) (s : ComputeMarketState)
    → Keeps s (release_named provider capacity s)
release_named-Keeps none capacity s = (refl, refl, refl)
release_named-Keeps (some p) capacity s = ground arith

pub slash_named-Keeps :
    (provider : Option ℕ) (amount : ℕ) (s : ComputeMarketState)
    → Keeps s (slash_named provider amount s)
slash_named-Keeps none amount s = (refl, refl, refl)
slash_named-Keeps (some p) amount s = ground arith

verdict-⟶ : (refund payment : ℕ) → JobStatus.disputed ⟶ verdict refund payment
verdict-⟶ refund payment = elim (Bool-cases (ltb payment refund)) [
  | inl e ↦ rw e fail
  | inr e ↦ rw e complete
]

module _ (t : Option ℕ) (e : ℕ) (s : ComputeMarketState) where
  create_job-Change :
      (id user : ℕ) (provider : Option ℕ) (resource_type : ResourceType)
      (capacity : ComputeCapacity) (price secs escrow created_at : ℕ)
      → escrow ≡ e
      → Change t e s
          (create_job id user provider resource_type capacity price secs escrow created_at s).1
  unfolding create_job
  create_job-Change id user provider resource_type capacity price secs escrow created_at brought =
      elim (Option-cases (get id s.jobs)) [
        | inr (old, found) ↦ same (ground arith)
        | inl fresh ↦ elim (Option-cases (refused_provider provider resource_type capacity s)) [
          | inr (e, refused) ↦ same (ground arith)
          | inl fine ↦
              adds id (created id user provider resource_type capacity price secs escrow created_at)
                fresh refl brought (ground arith) (ground arith) (ground arith)
        ]
      ]

  accept_job-Change : (id provider price : ℕ) → Change t e s (accept_job id provider price s).1
  unfolding accept_job match_job
  accept_job-Change id provider price = elim (Option-cases (get id s.jobs)) [
    | inl missing ↦ same (ground arith)
    | inr (job, found) ↦ elim (Bool-cases (has_status JobStatus.pending job)) [
      | inr e ↦ same (ground arith)
      | inl e ↦
          let from = has_status-eq job.status JobStatus.pending e in
          let refused = names_another provider job || ltb job.max_price_per_hour price in
          elim (Bool-cases refused) [
            | inl f ↦ same (ground arith)
            | inr f ↦ elim (Option-cases (get provider s.providers)) [
              | inl none_ ↦ same (ground arith)
              | inr (p, some_) ↦
                  let fits = is_active p.status && has_capacity p.available_capacity job.capacity in
                  elim (Bool-cases fits) [
                    | inr g ↦ same (ground arith)
                    | inl g ↦
                        moves id job
                          (record job { provider = some provider; status = JobStatus.matched })
                          found (subst (λ x. x ⟶ JobStatus.matched) (sym from) accept)
                          (ground arith) (ground arith) (omega arith) refl (ground arith)
                          (ground arith) (ground arith)
                  ]
            ]
          ]
    ]
  ]

  start_job-Change : (id provider at : ℕ) → Change t e s (start_job id provider at s).1
  unfolding start_job
  start_job-Change id provider at = elim (Option-cases (get id s.jobs)) [
    | inl missing ↦ same (ground arith)
    | inr (job, found) ↦
        elim (Bool-cases (has_status JobStatus.matched job && is_provider provider job)) [
          | inr e ↦ same (ground arith)
          | inl e ↦
              let from = has_status-eq job.status JobStatus.matched (ground arith) in
              moves id job (record job { status = JobStatus.running; started_at = some at }) found
                (subst (λ x. x ⟶ JobStatus.running) (sym from) start) (ground arith) (ground arith)
                (omega arith) refl (ground arith) (ground arith) (ground arith)
        ]
  ]

  settle_job-Change :
      (cost : ℕ → ℕ → ℕ) (id : ℕ) (usage : ComputeUsage) (at : ℕ)
      → Change t e s (settle_job cost id usage at s).1
  unfolding settle_job
  settle_job-Change cost id usage at = elim (Option-cases (get id s.jobs)) [
    | inl missing ↦ same (ground arith)
    | inr (job, found) ↦ elim (Bool-cases (has_status JobStatus.running job)) [
      | inr e ↦ same (ground arith)
      | inl e ↦ elim (Option-cases job.provider) [
        | inl none_ ↦ same (ground arith)
        | inr (p, some_) ↦
            let from = has_status-eq job.status JobStatus.running e in
            let job' : ComputeJob = record job {
              status = JobStatus.completed;
              ended_at = some at;
              actual_usage = some usage;
            } in
            elim (Option-cases (get p s.providers)) [
              | inl unknown ↦
                  moves id job job' found (subst (λ x. x ⟶ JobStatus.completed) (sym from) settle)
                    (ground arith) (ground arith) (omega arith) refl (ground arith) (ground arith)
                    (ground arith)
              | inr (info, known) ↦
                  moves id job job' found (subst (λ x. x ⟶ JobStatus.completed) (sym from) settle)
                    (ground arith) (ground arith) (omega arith) refl (ground arith) (ground arith)
                    (ground arith)
            ]
      ]
    ]
  ]

  cancel_job-Change : (id canceller at : ℕ) → Change t e s (cancel_job id canceller at s).1
  unfolding cancel_job
  cancel_job-Change id canceller at = elim (Option-cases (get id s.jobs)) [
    | inl missing ↦ same (ground arith)
    | inr (job, found) ↦ elim (Bool-cases ((job.user == canceller) || is_provider canceller job)) [
      | inr other ↦ same (ground arith)
      | inl allowed ↦
          let job' : ComputeJob = record job { status = JobStatus.cancelled; ended_at = some at } in
          let s' = release_named job.provider job.capacity s in
          let kept = release_named-Keeps job.provider job.capacity s in
          elim (Bool-cases (has_status JobStatus.pending job)) [
            | inl e ↦
                let from = has_status-eq job.status JobStatus.pending e in
                moves id job job' found
                  (subst (λ x. x ⟶ JobStatus.cancelled) (sym from) cancel_pending) (ground arith)
                  (ground arith) (omega arith) refl (ground arith) (ground arith) (ground arith)
            | inr e ↦ elim (Bool-cases (has_status JobStatus.matched job)) [
              | inl f ↦
                  let from = has_status-eq job.status JobStatus.matched f in
                  moves id job job' found
                    (subst (λ x. x ⟶ JobStatus.cancelled) (sym from) cancel_matched) (ground arith)
                    (ground arith) (omega arith) refl (ground arith) (ground arith) (ground arith)
              | inr f ↦ same (ground arith)
            ]
          ]
    ]
  ]

  open_dispute-Change :
      (key id initiator : ℕ) (dispute_type : DisputeType) (evidence at : ℕ)
      → t ≡ some id
      → Change t e s (open_dispute key id initiator dispute_type evidence at s).1
  unfolding open_dispute
  open_dispute-Change key id initiator dispute_type evidence at named =
      elim (Option-cases (get id s.jobs)) [
        | inl missing ↦ same (ground arith)
        | inr (job, found) ↦
            let d : ComputeDispute = record {
              dispute_id = key;
              job_id = id;
              initiator = initiator;
              dispute_type = dispute_type;
              evidence_hash = evidence;
              created_at = at;
              deadline = add_u64 at dispute_window_ms;
              resolution = none;
            } in
            let job' : ComputeJob = record job { status = JobStatus.disputed } in
            let refused =
              not ((job.user == initiator) || is_provider initiator job) || is_expired at job in
            elim (Bool-cases refused) [
              | inl r ↦ same (ground arith)
              | inr r ↦ elim (Bool-cases (has_status JobStatus.running job)) [
                | inl e ↦
                    let from = has_status-eq job.status JobStatus.running e in
                    opens id key job job' d named found
                      (subst (λ x. x ⟶ JobStatus.disputed) (sym from) dispute_running) refl refl
                      refl refl (ground arith) (ground arith) (ground arith)
                | inr e ↦ elim (Bool-cases (has_status JobStatus.completed job)) [
                  | inl f ↦
                      let from = has_status-eq job.status JobStatus.completed f in
                      opens id key job job' d named found
                        (subst (λ x. x ⟶ JobStatus.disputed) (sym from) dispute_completed) refl refl
                        refl refl (ground arith) (ground arith) (ground arith)
                  | inr f ↦ same (ground arith)
                ]
              ]
            ]
      ]

  resolve_dispute-Change :
      (key : ℕ) (r : DisputeResolution) → Change t e s (resolve_dispute key r s).1
  unfolding resolve_dispute
  resolve_dispute-Change key r = elim (Option-cases (get key s.disputes)) [
    | inl missing ↦ same (ground arith)
    | inr (d, found) ↦ elim (Bool-cases (is_some d.resolution)) [
      | inl over ↦ same (ground arith)
      | inr open_ ↦ elim (Option-cases (get d.job_id s.jobs)) [
        | inl unknown ↦ same (ground arith)
        | inr (job, known) ↦
            let kept = slash_named-Keeps job.provider r.slash_amount s in
            closes key job (record job { status = verdict r.user_refund r.provider_payment }) d
              (record d { resolution = some r }) found (ground arith) refl known
              (verdict-⟶ r.user_refund r.provider_payment) refl (ground arith) (ground arith)
              (ground arith)
      ]
    ]
  ]

-- The job on which a call opens a dispute, if it does.
abbrev pub named : Call → Option ℕ
named (disputes key id initiator dispute_type evidence at) = some id
named _ = none

-- The escrow that a call brings in, if it succeeds.
abbrev pub escrow_of : Call → ℕ
escrow_of (creates id user provider resource_type capacity price secs escrow created_at) = escrow
escrow_of _ = 0

-- Every call is one change.
pub step-Change :
    (cost : ℕ → ℕ → ℕ) (s : ComputeMarketState) (c : Call)
    → Change (named c) (escrow_of c) s (step cost s c)
unfolding step register_provider update_provider provider_exit
step-Change cost s
      (registers address types capacity price min_secs max_secs stake region endpoint) =
    quiet (ground arith) (ground arith) (ground arith)
step-Change cost s (updates address capacity price status stake endpoint) =
    quiet (ground arith) (ground arith) (ground arith)
step-Change cost s (exits address) = quiet (ground arith) (ground arith) (ground arith)
step-Change cost s (creates id user provider resource_type capacity price secs escrow created_at) =
    create_job-Change _ _ s id user provider resource_type capacity price secs escrow created_at
      refl
step-Change cost s (accepts id provider price) = accept_job-Change _ _ s id provider price
step-Change cost s (starts id provider at) = start_job-Change _ _ s id provider at
step-Change cost s (settles id usage at) = settle_job-Change _ _ s cost id usage at
step-Change cost s (cancels id canceller at) = cancel_job-Change _ _ s id canceller at
step-Change cost s (disputes key id initiator dispute_type evidence at) =
    open_dispute-Change _ _ s key id initiator dispute_type evidence at refl
step-Change cost s (resolves key r) = resolve_dispute-Change _ _ s key r
