-- ===== src/Finality/Progress.antt =====
-- Votes make a block justified in core/blockchain/src/finality/tracker.rs.
use is_a_chain.Prelude.{
  subst, ◌∙◌, sym, ℕ, ◌+◌, ◌<◌, ◌≡◌, ◌≢◌, refl, inl, inr, true, false, Bool-cases, List, [], ◌∷◌,
  ◌++◌, map, arith, Option-cases, some, sum_of, get, get-insert, u128_mod, saturating_add,
}
use is_a_chain.Finality.{
  FinalityVote, BlockFinality, FinalityTracker, pending, justified, check_quorum_inner, has_vote_of,
  voted, advanced, put, add_vote, get_status, Call, adds, step, run,
}

-- A vote, with the power of its voter.
abbrev pub Ballot : Type 0
Ballot = FinalityVote × ℕ

abbrev pub cast : Ballot → Call
cast (vote, power) = adds vote power

abbrev pub power_of : List Ballot → ℕ
power_of = sum_of (λ b. b.1)

-- Votes on one block by voters who have not voted on it, each once.
abbrev pub AreNew : ℕ → List FinalityVote → List Ballot → Type 0
AreNew hash seen [] = Unit
AreNew hash seen ((vote, _) ∷ ballots) =
    (vote.block_hash ≡ hash)
    × (has_vote_of vote.voter seen ≡ false)
    × AreNew hash (seen ++ vote ∷ []) ballots

add_vote-justified :
    (hash : ℕ) (vote : FinalityVote) (power : ℕ) (t : FinalityTracker)
    → get_status hash t ≡ some justified
    → get_status hash (add_vote vote power t).1 ≡ some justified
unfolding add_vote
add_vote-justified hash vote power t h = elim (Option-cases (get vote.block_hash t.blocks)) [
  | inl missing ↦ ground arith
  | inr (b, found) ↦
      ground (arith, get-insert hash vote.block_hash (advanced t (voted vote power b)) t.blocks)
]

stays_justified :
    (hash : ℕ) (ballots : List Ballot) (t : FinalityTracker)
    → get_status hash t ≡ some justified
    → get_status hash (run t (map cast ballots)) ≡ some justified
unfolding run step
stays_justified hash [] t h = h
stays_justified hash ((vote, power) ∷ ballots) t h =
    stays_justified hash ballots (add_vote vote power t).1 (add_vote-justified hash vote power t h)

-- The effect of a vote that is counted.
add_vote-counted :
    (vote : FinalityVote) (power : ℕ) (b : BlockFinality) (t : FinalityTracker)
    → get vote.block_hash t.blocks ≡ some b
    → b.status ≡ pending
    → has_vote_of vote.voter b.votes ≡ false
    → (add_vote vote power t).1 ≡ put t vote.block_hash (advanced t (voted vote power b))
unfolding add_vote
add_vote-counted vote power b t found open_ new = ground arith

counted-justified :
    (hash : ℕ) (vote : FinalityVote) (power : ℕ) (b : BlockFinality) (t : FinalityTracker)
    → vote.block_hash ≡ hash
    → get hash t.blocks ≡ some b
    → b.status ≡ pending
    → has_vote_of vote.voter b.votes ≡ false
    → check_quorum_inner t (voted vote power b) ≡ true
    → get_status hash (add_vote vote power t).1 ≡ some justified
unfolding add_vote
counted-justified hash vote power b t same found open_ new quorum =
    ground (arith, get-insert hash hash (advanced t (voted vote power b)) t.blocks)

counted-pending :
    (hash : ℕ) (vote : FinalityVote) (power : ℕ) (b : BlockFinality) (t : FinalityTracker)
    → vote.block_hash ≡ hash
    → get hash t.blocks ≡ some b
    → b.status ≡ pending
    → has_vote_of vote.voter b.votes ≡ false
    → check_quorum_inner t (voted vote power b) ≡ false
    → (add_vote vote power t).1 ≡ put t hash (voted vote power b)
unfolding add_vote
counted-pending hash vote power b t same found open_ new quorum = ground arith

-- The quorum is a matter of the power voted and of the tracker's total and threshold.
quorum_same :
    (t : FinalityTracker) (hash : ℕ) (b c d : BlockFinality)
    → c.vote_power ≡ d.vote_power
    → check_quorum_inner (put t hash b) c ≡ check_quorum_inner t d
unfolding check_quorum_inner
quorum_same t hash b c d same = ground arith

-- If new votes on a pending block, at least one and each of a different voter, bring its power to the
-- quorum of the total power, the block is justified when they have been added, in whatever order
-- they come; the powers are below 2 ^ 128.
pub quorum_justifies :
    (hash : ℕ) (b : BlockFinality) (ballots : List Ballot) (t : FinalityTracker)
    → get hash t.blocks ≡ some b
    → b.status ≡ pending
    → AreNew hash b.votes ballots
    → ballots ≢ []
    → b.vote_power + power_of ballots < u128_mod
    → check_quorum_inner t (record b { vote_power = b.vote_power + power_of ballots }) ≡ true
    → get_status hash (run t (map cast ballots)) ≡ some justified
unfolding run step saturating_add
quorum_justifies hash b [] t found open_ new some_ fits quorum = absurd (some_ refl)
quorum_justifies hash b ((vote, power) ∷ []) t found open_ new some_ fits quorum =
    counted-justified hash vote power b t new.0 found open_ new.1 (
      sym (
        quorum_same t hash b (record b { vote_power = b.vote_power + (power + 0) })
          (voted vote power b) (ground arith))
      ∙ quorum)
quorum_justifies hash b ((vote, power) ∷ ballot ∷ ballots) t found open_ new some_ fits quorum =
    let b' = voted vote power b in
    elim (Bool-cases (check_quorum_inner t b')) [
      | inl reached ↦
          stays_justified hash (ballot ∷ ballots) (add_vote vote power t).1
            (counted-justified hash vote power b t new.0 found open_ new.1 reached)
      | inr short ↦
          let t' = put t hash b' in
          let step_ = counted-pending hash vote power b t new.0 found open_ new.1 short in
          let same =
            quorum_same t hash b'
              (record b' { vote_power = b'.vote_power + power_of (ballot ∷ ballots) })
              (record b { vote_power = b.vote_power + power_of ((vote, power) ∷ ballot ∷ ballots) })
              (ground arith)
            ∙ quorum in
          let rest =
            quorum_justifies hash b' (ballot ∷ ballots) t'
              (ground (arith, get-insert hash hash b' t.blocks)) open_ new.2 (λ e. cc)
              (ground arith) same in
          subst (λ t''. get_status hash (run t'' (map cast (ballot ∷ ballots))) ≡ some justified)
            (sym step_) rest
    ]
