-- ===== src/Finality.antt =====
-- core/blockchain/src/finality: votes of validators on blocks, quorum and finalization. `types.rs`
-- is the data, `tracker.rs` the tracker.
pub mod Progress
pub mod Safety
mod Tests
use is_a_chain.Prelude.{
  ℕ, ◌/◌, Bool, true, false, not, ◌&&◌, List, [], ◌∷◌, ◌++◌, Option, none, some, ltb, leb, ◌==◌,
  if◌then◌else◌, HashMap, get, insert, contains_key, Result, ok, err, saturating_add,
  saturating_mul,
}
use is_a_chain.Transaction.{Signature}

pub record FinalityVote : Type 0 where
  pub voter : ℕ
  pub block_hash : ℕ
  pub height : ℕ
  pub round : ℕ
  pub signature : Signature

pub data FinalityStatus : Type 0 where
  pending justified finalized orphaned : FinalityStatus

pub record BlockFinality : Type 0 where
  pub hash : ℕ
  pub height : ℕ
  pub votes : List FinalityVote
  pub vote_power : ℕ
  pub status : FinalityStatus

pub data FinalityError : Type 0 where
  block_not_found : (hash : ℕ) → FinalityError
  duplicate_vote : (voter height : ℕ) → FinalityError
  insufficient_power : (required actual : ℕ) → FinalityError
  invalid_round : FinalityError
  already_finalized : (hash : ℕ) → FinalityError
  voter_not_validator : (voter : ℕ) → FinalityError

pub record FinalityTracker : Type 0 where
  pub blocks : HashMap BlockFinality
  pub finalized_height : ℕ
  pub finalized_hash : ℕ
  pub quorum_threshold_bps : ℕ
  pub total_validator_power : ℕ

abbrev pub new : ℕ → FinalityTracker
new quorum_bps = record {
  blocks = [];
  finalized_height = 0;
  finalized_hash = 0;
  quorum_threshold_bps = quorum_bps;
  total_validator_power = 0;
}

abbrev pub Outcome : Type 0 → Type 0
Outcome A = Result A FinalityError × FinalityTracker

abbrev pub put : FinalityTracker → ℕ → BlockFinality → FinalityTracker
put t hash b = record t { blocks = insert hash b t.blocks }

abbrev pub registered : ℕ → ℕ → BlockFinality
registered hash height = record {
  hash = hash;
  height = height;
  votes = [];
  vote_power = 0;
  status = pending;
}

-- `entry(hash).or_insert_with(…)`
unfoldable pub register_block : ℕ → ℕ → FinalityTracker → Outcome (Unit {0})
register_block hash height t = elim (get hash t.blocks) [
  | none ↦ (ok tt, put t hash (registered hash height))
  | some b ↦ (ok tt, t)
]

unfoldable pub check_quorum_inner : FinalityTracker → BlockFinality → Bool
check_quorum_inner t b =
    if t.total_validator_power == 0
    then false
    else leb t.quorum_threshold_bps (saturating_mul b.vote_power 10_000 / t.total_validator_power)

abbrev pub check_quorum : ℕ → FinalityTracker → Bool
check_quorum hash t = elim (get hash t.blocks) [ none ↦ false | some b ↦ check_quorum_inner t b ]

abbrev pub is_final : FinalityStatus → Bool
is_final finalized = true
is_final _ = false

abbrev pub is_pending : FinalityStatus → Bool
is_pending pending = true
is_pending _ = false

-- `votes.iter().any(|v| v.voter == voter)`
abbrev pub has_vote_of : ℕ → List FinalityVote → Bool
has_vote_of voter [] = false
has_vote_of voter (v ∷ vs) = if v.voter == voter then true else has_vote_of voter vs

abbrev pub voted : FinalityVote → ℕ → BlockFinality → BlockFinality
voted vote voter_power b = record b {
  vote_power = saturating_add b.vote_power voter_power;
  votes = b.votes ++ vote ∷ [];
}

-- A pending block that has a quorum becomes justified.
abbrev pub advanced : FinalityTracker → BlockFinality → BlockFinality
advanced t b =
    if is_pending b.status && check_quorum_inner t b then record b { status = justified } else b

unfoldable pub add_vote : FinalityVote → ℕ → FinalityTracker → Outcome FinalityStatus
unfolding check_quorum_inner
add_vote vote voter_power t = elim (get vote.block_hash t.blocks) [
  | none ↦ (err (block_not_found vote.block_hash), t)
  | some b ↦
      if is_final b.status
      then (err (already_finalized vote.block_hash), t)
      else if has_vote_of vote.voter b.votes
      then (err (duplicate_vote vote.voter vote.height), t)
      else let b' = advanced t (voted vote voter_power b) in
        (ok b'.status, put t vote.block_hash b')
]

abbrev pub get_status : ℕ → FinalityTracker → Option FinalityStatus
get_status hash t = elim (get hash t.blocks) [ none ↦ none | some b ↦ some b.status ]

abbrev pub is_finalized : ℕ → FinalityTracker → Bool
is_finalized hash t = elim (get hash t.blocks) [ none ↦ false | some b ↦ is_final b.status ]

abbrev pub set_total_power : ℕ → FinalityTracker → FinalityTracker
set_total_power power t = record t { total_validator_power = power }

unfoldable pub finalize : ℕ → FinalityTracker → Outcome (Unit {0})
finalize hash t = elim (get hash t.blocks) [
  | none ↦ (err (block_not_found hash), t)
  | some b ↦
      if is_final b.status
      then (err (already_finalized hash), t)
      else let t' = put t hash (record b { status = finalized }) in
        (
          ok tt,
          if leb t.finalized_height b.height
              then record t' { finalized_height = b.height; finalized_hash = hash }
              else t',
        )
]

-- `retain(|_, b| b.height >= height)`
unfoldable pub retain_from : ℕ → HashMap BlockFinality → HashMap BlockFinality
retain_from height [] = []
retain_from height ((hash, b) ∷ bs) =
    if leb height b.height then (hash, b) ∷ retain_from height bs else retain_from height bs

abbrev pub prune_below : ℕ → FinalityTracker → FinalityTracker
prune_below height t = record t { blocks = retain_from height t.blocks }

-- A call of a method that writes the tracker.
pub data Call : Type 0 where
  registers : (hash height : ℕ) → Call
  adds : FinalityVote → (voter_power : ℕ) → Call
  sets : (power : ℕ) → Call
  finalizes : (hash : ℕ) → Call
  prunes : (height : ℕ) → Call

unfoldable pub step : FinalityTracker → Call → FinalityTracker
unfolding register_block add_vote finalize retain_from
step t (registers hash height) = (register_block hash height t).1
step t (adds vote voter_power) = (add_vote vote voter_power t).1
step t (sets power) = set_total_power power t
step t (finalizes hash) = (finalize hash t).1
step t (prunes height) = prune_below height t

unfoldable pub run : FinalityTracker → List Call → FinalityTracker
unfolding step
run t [] = t
run t (c ∷ cs) = run (step t c) cs
