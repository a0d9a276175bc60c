-- ===== src/Governance/Outcomes.antt =====
-- When a proposal of core/blockchain/src/governance/governor.rs passes, and what executes it.
use is_a_chain.Prelude.{
  ◌⊎◌, ℕ, ◌+◌, ◌*◌, ◌≤◌, ◌<◌, ◌≡◌, ◌↔◌, inl, inr, true, arith, some, get, get-insert_self, add_u128,
  u128_mod, saturating_mul, ok, Bool-cases,
}
use is_a_chain.Governance.{
  Proposal, SubnetGovernor, quorum_met, threshold_met, verdict, tally, execute, passed, rejected,
  executed,
}

-- At least `share` basis points of `whole`, which is not 0.
abbrev pub IsShare : ℕ → ℕ → ℕ → Type 0
IsShare part share whole = (0 < whole) × (share * whole ≤ part * 10_000)

-- The products fit 128 bits.
pub record Fits (p : Proposal) (stake : ℕ) : Type 0 where
  pub votes_fit : (p.votes_for + p.votes_against) * 10_000 < u128_mod
  pub quorum_fits : p.quorum_bps * stake < u128_mod
  pub threshold_fits : p.threshold_bps * (p.votes_for + p.votes_against) < u128_mod

quorum_met_iff :
    (p : Proposal) (stake : ℕ)
    → Fits p stake
    → (quorum_met p stake ≡ true) ↔ IsShare (p.votes_for + p.votes_against) p.quorum_bps stake
unfolding quorum_met saturating_mul add_u128
quorum_met_iff p stake f = (λ e. ground (arith, f), λ e. ground (arith, f))

threshold_met_iff :
    (p : Proposal) (stake : ℕ)
    → Fits p stake
    → (threshold_met p ≡ true) ↔ IsShare p.votes_for p.threshold_bps (p.votes_for + p.votes_against)
unfolding threshold_met saturating_mul add_u128
threshold_met_iff p stake f = (λ e. ground (arith, f), λ e. ground (arith, f))

-- At the end of the voting period a tally passes a proposal exactly if at least the quorum of the
-- stake has voted, and at least the threshold of the votes is in favour, where these products are
-- below 2 ^ 128; otherwise it is rejected.
pub tally_decides :
    (id stake height : ℕ) (p : Proposal) (g : SubnetGovernor)
    → get id g.proposals ≡ some p
    → p.voting_ends_at < height
    → Fits p stake
    → let votes = p.votes_for + p.votes_against in
      let result = (tally id stake height g).0 in
      ((result ≡ ok passed)
        ↔ (IsShare votes p.quorum_bps stake × IsShare p.votes_for p.threshold_bps votes))
      × ((result ≡ ok passed) ⊎ (result ≡ ok rejected))
unfolding tally verdict
tally_decides id stake height p g found late fits =
    let (q, q') = quorum_met_iff p stake fits in
    let (t, t') = threshold_met_iff p stake fits in
    elim (Bool-cases (quorum_met p stake)) [
      | inl yes_q ↦ elim (Bool-cases (threshold_met p)) [
        | inl yes_t ↦ ((λ e. (q yes_q, t yes_t), λ s. ground arith), inl (ground arith))
        | inr no_t ↦ ((λ e. ground arith, λ s. ground (arith, t' s.1)), inr (ground arith))
      ]
      | inr no_q ↦ ((λ e. ground arith, λ s. ground (arith, q' s.0)), inr (ground arith))
    ]

-- A tally does not look at the status: a proposal that has been executed, and that has the votes,
-- is passed by a further tally, and its action is handed out again.
pub executed_again :
    (id stake height : ℕ) (p : Proposal) (g : SubnetGovernor)
    → get id g.proposals ≡ some p
    → p.voting_ends_at < height
    → verdict p stake ≡ passed
    → p.status ≡ executed
    → let (r, g') = tally id stake height g in (r ≡ ok passed) × ((execute id g').0 ≡ ok p.action)
unfolding tally execute
executed_again id stake height p g found late has_votes done =
    ground (arith, get-insert_self id (record p { status = verdict p stake }) g.proposals)
