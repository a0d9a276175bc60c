-- ===== src/Finality/Safety.antt =====
-- What finalization in core/blockchain/src/finality/tracker.rs does and does not rest on.
use is_a_chain.Prelude.{ℕ, ◌≤◌, ◌≡◌, ◌≢◌, false, List, [], ◌∷◌, arith, some, get, get-insert, ok}
use is_a_chain.Finality.{
  BlockFinality, FinalityTracker, finalized, is_final, put, add_vote, finalize, register_block,
  get_status, Call, registers, adds, sets, finalizes, prunes, step, run,
}

-- Two blocks of one height that are registered and not final can both be finalized, one after the
-- other, whatever votes they have; at or above the finalized height, the second is then
-- the finalized hash.
pub conflicting_finalized :
    (left right : ℕ) (a b : BlockFinality) (t : FinalityTracker)
    → left ≢ right
    → get left t.blocks ≡ some a
    → get right t.blocks ≡ some b
    → is_final a.status ≡ false
    → is_final b.status ≡ false
    → a.height ≡ b.height
    → t.finalized_height ≤ a.height
    → let (r, t') = finalize left t in
      let (r', t'') = finalize right t' in
      (r ≡ ok tt)
      × (r' ≡ ok tt)
      × (get_status left t'' ≡ some finalized)
      × (get_status right t'' ≡ some finalized)
      × (t''.finalized_hash ≡ right)
unfolding finalize
conflicting_finalized left right a b t different found found' open_ open' same above = ground (
  arith,
  get-insert right left (record a { status = finalized }) t.blocks,
  get-insert left right (record b { status = finalized })
      (put t left (record a { status = finalized })).blocks,
  get-insert right right (record b { status = finalized })
      (put t left (record a { status = finalized })).blocks,
  get-insert left left (record a { status = finalized }) t.blocks,
)

step-rises : (t : FinalityTracker) (c : Call) → t.finalized_height ≤ (step t c).finalized_height
unfolding step register_block add_vote finalize
step-rises t (registers hash height) = ground arith
step-rises t (adds vote power) = ground arith
step-rises t (sets power) = ground arith
step-rises t (finalizes hash) = ground arith
step-rises t (prunes height) = ground arith

-- The finalized height never falls.
pub finalized_rises :
    (t : FinalityTracker) (cs : List Call) → t.finalized_height ≤ (run t cs).finalized_height
unfolding run
finalized_rises t [] = omega arith
finalized_rises t (c ∷ cs) = omega (arith, step-rises t c, finalized_rises (step t c) cs)
