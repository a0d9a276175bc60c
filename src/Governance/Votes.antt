-- ===== src/Governance/Votes.antt =====
-- How votes are counted in core/blockchain/src/governance/governor.rs over histories of calls.
use is_a_chain.Prelude.{
  ℕ, ◌+◌, ◌<◌, ◌≡◌, ◌≢◌, refl, inl, inr, Bool, true, false, List, [], ◌∷◌, arith, Option-cases,
  none, some, contains, contains-set_insert, HashMap, get, get-insert, at_or_zero, add_u128,
  u128_mod, ok, err, ◌==◌, if◌then◌else◌,
}
use is_a_chain.Governance.{
  Proposal, SubnetGovernor, counted, vote, verdict, tally, execute, expire, expire_all, executed,
  Call, votes, tallies, executes, expires, step, run,
}

abbrev pub for_of : ℕ → SubnetGovernor → ℕ
for_of id g = at_or_zero (λ p. p.votes_for) id g.proposals

abbrev pub against_of : ℕ → SubnetGovernor → ℕ
against_of id g = at_or_zero (λ p. p.votes_against) id g.proposals

abbrev pub has_voted : ℕ → ℕ → SubnetGovernor → Bool
has_voted id voter g = elim (get id g.proposals) [ none ↦ false | some p ↦ contains p.voters voter ]

-- The weight that a call adds for the proposal `id`, and the weight that it adds against it.
abbrev pub cast : ℕ → Call → SubnetGovernor → ℕ × ℕ
cast id (votes j voter weight support height) g = elim (vote j voter weight support height g).0 [
  | ok _ ↦ if j == id then (if support then (weight, 0) else (0, weight)) else (0, 0)
  | err _ ↦ (0, 0)
]
cast id _ g = (0, 0)

abbrev pub cast_for : ℕ → SubnetGovernor → List Call → ℕ
cast_for id g [] = 0
cast_for id g (c ∷ cs) = (cast id c g).0 + cast_for id (step g c) cs

abbrev pub cast_against : ℕ → SubnetGovernor → List Call → ℕ
cast_against id g [] = 0
cast_against id g (c ∷ cs) = (cast id c g).1 + cast_against id (step g c) cs

get-expire_all :
    (id height : ℕ) (d : HashMap Proposal)
    → get id (expire_all height d)
      ≡ elim (get id d) [ none ↦ none | some p ↦ some (expire height p) ]
unfolding expire_all
get-expire_all id height [] = refl
get-expire_all id height ((j, p) ∷ d) = ground (arith, get-expire_all id height d)

-- What a call adds to the two sums of the proposal `id`.
record Adds (id : ℕ) (g : SubnetGovernor) (c : Call) : Type 0 where
  pub for_added : for_of id (step g c) ≡ for_of id g + (cast id c g).0
  pub against_added : against_of id (step g c) ≡ against_of id g + (cast id c g).1

step-Adds :
    (id : ℕ) (g : SubnetGovernor) (c : Call)
    → for_of id g + (cast id c g).0 < u128_mod
    → against_of id g + (cast id c g).1 < u128_mod
    → Adds id g c
unfolding step vote tally execute add_u128
step-Adds id g (votes j voter weight support height) h k = elim (Option-cases (get j g.proposals)) [
  | inl missing ↦ ground arith
  | inr (p, found) ↦ ground (arith, get-insert id j (counted voter weight support p) g.proposals)
]
step-Adds id g (tallies j stake height) h k = elim (Option-cases (get j g.proposals)) [
  | inl missing ↦ ground arith
  | inr (p, found) ↦
      ground (arith, get-insert id j (record p { status = verdict p stake }) g.proposals)
]
step-Adds id g (executes j) h k = elim (Option-cases (get j g.proposals)) [
  | inl missing ↦ ground arith
  | inr (p, found) ↦ ground (arith, get-insert id j (record p { status = executed }) g.proposals)
]
step-Adds id g (expires height) h k = ground (arith, get-expire_all id height g.proposals)

-- Over any history of calls but `create_proposal`, and while the sums are below 2 ^ 128, the votes
-- for and against a proposal grow by exactly the weights of the votes on it that are accepted.
pub votes_add_up :
    (id : ℕ) (g : SubnetGovernor) (cs : List Call)
    → for_of id g + cast_for id g cs < u128_mod
    → against_of id g + cast_against id g cs < u128_mod
    → (for_of id (run g cs) ≡ for_of id g + cast_for id g cs)
      × (against_of id (run g cs) ≡ against_of id g + cast_against id g cs)
unfolding run
votes_add_up id g [] h k = (omega arith, omega arith)
votes_add_up id g (c ∷ cs) h k =
    let first = step-Adds id g c (omega arith) (omega arith) in
    let e = first.for_added in
    let e' = first.against_added in
    let (rest, rest') = votes_add_up id (step g c) cs (omega (arith, e)) (omega (arith, e')) in
    (omega (arith, e, rest), omega (arith, e', rest'))

has_voted-step :
    (id voter : ℕ) (g : SubnetGovernor) (c : Call)
    → has_voted id voter g ≡ true
    → has_voted id voter (step g c) ≡ true
unfolding step vote tally execute
has_voted-step id voter g (votes j other weight support height) h =
    elim (Option-cases (get j g.proposals)) [
      | inl missing ↦ ground arith
      | inr (p, found) ↦ ground (
        arith,
        get-insert id j (counted other weight support p) g.proposals,
        contains-set_insert other voter p.voters,
      )
    ]
has_voted-step id voter g (tallies j stake height) h = elim (Option-cases (get j g.proposals)) [
  | inl missing ↦ ground arith
  | inr (p, found) ↦
      ground (arith, get-insert id j (record p { status = verdict p stake }) g.proposals)
]
has_voted-step id voter g (executes j) h = elim (Option-cases (get j g.proposals)) [
  | inl missing ↦ ground arith
  | inr (p, found) ↦ ground (arith, get-insert id j (record p { status = executed }) g.proposals)
]
has_voted-step id voter g (expires height) h = ground (arith, get-expire_all id height g.proposals)

has_voted-run :
    (id voter : ℕ) (g : SubnetGovernor) (cs : List Call)
    → has_voted id voter g ≡ true
    → has_voted id voter (run g cs) ≡ true
unfolding run
has_voted-run id voter g [] h = h
has_voted-run id voter g (c ∷ cs) h =
    has_voted-run id voter (step g c) cs (has_voted-step id voter g c h)

has_voted-vote :
    (id voter weight : ℕ) (support : Bool) (height : ℕ) (g : SubnetGovernor)
    → (vote id voter weight support height g).0 ≡ ok tt
    → has_voted id voter (vote id voter weight support height g).1 ≡ true
unfolding vote
has_voted-vote id voter weight support height g done = elim (Option-cases (get id g.proposals)) [
  | inl missing ↦ ground arith
  | inr (p, found) ↦ ground (
    arith,
    get-insert id id (counted voter weight support p) g.proposals,
    contains-set_insert voter voter p.voters,
  )
]

refused_voter :
    (id voter weight : ℕ) (support : Bool) (height : ℕ) (g : SubnetGovernor)
    → has_voted id voter g ≡ true
    → (vote id voter weight support height g).0 ≢ ok tt
unfolding vote
refused_voter id voter weight support height g h = elim (Option-cases (get id g.proposals)) [
  | inl missing ↦ ground arith
  | inr (p, found) ↦ ground arith
]

-- An address whose vote on a proposal was accepted does not vote on it again after any history of
-- calls but `create_proposal`: whatever weight, side and height it comes with, the second vote fails.
pub one_vote_each :
    (id voter weight : ℕ) (support : Bool) (height : ℕ) (g : SubnetGovernor) (cs : List Call)
    (weight' : ℕ) (support' : Bool) (height' : ℕ)
    → (vote id voter weight support height g).0 ≡ ok tt
    → (vote id voter weight' support' height' (run (vote id voter weight support height g).1 cs)).0
      ≢ ok tt
one_vote_each id voter weight support height g cs weight' support' height' done =
    let g' = (vote id voter weight support height g).1 in
    refused_voter id voter weight' support' height' (run g' cs)
      (has_voted-run id voter g' cs (has_voted-vote id voter weight support height g done))
