-- ===== src/Chain/Blockmaking.antt =====
-- Made blocks and the Merkle root of core/blockchain/src/block.rs.
use is_a_chain.Prelude.{
  sym, ◌∙◌, ap, Option, ℕ, zero, suc, ◌+◌, ◌≤◌, ◌<◌, ◌≡◌, refl, ◌&&◌, List, [], ◌∷◌, ◌++◌, length,
  arith, is_ok, leb, add_u64,
}
use is_a_chain.Transaction.{Transaction, Signature}
use is_a_chain.Chain.{
  first, BlockHeader, ConsensusData, next_level, climb, merkle_root, gas_from, new_block,
  verify_all, verify_block,
}

module _ (hash_data : List ℕ → ℕ) where
  length-next_level :
      (level : List ℕ)
      → length (next_level hash_data level) + length (next_level hash_data level) ≤ length level + 1
  unfolding next_level
  length-next_level [] = omega arith
  length-next_level (a ∷ []) = omega arith
  length-next_level (a ∷ b ∷ level) = omega (arith, length-next_level level)

  -- On any list of hashes, the loop of the Merkle root ends with at most one hash as soon as the fuel
  -- is the length of the list, and more fuel gives the same result.
  pub climb_ends :
      (fuel more : ℕ) (level : List ℕ)
      → length level ≤ fuel
      → length level ≤ more
      → (length (climb hash_data fuel level) ≤ 1)
        × (climb hash_data more level ≡ climb hash_data fuel level)
  unfolding climb
  climb_ends zero zero level h k = ground arith
  climb_ends zero (suc more) [] h k = ground arith
  climb_ends zero (suc more) (a ∷ level) h k = ground arith
  climb_ends (suc fuel) zero [] h k = ground arith
  climb_ends (suc fuel) zero (a ∷ level) h k = ground arith
  climb_ends (suc fuel) (suc more) level h k =
      ground (arith, length-next_level level, climb_ends fuel more (next_level hash_data level))

  climb_up :
      (fuel : ℕ) (level : List ℕ)
      → 1 < length level
      → climb hash_data (suc fuel) level ≡ climb hash_data fuel (next_level hash_data level)
  unfolding climb
  climb_up fuel level h = ground arith

  -- The pairs of a list of even length.
  abbrev pub doubled : List (ℕ × ℕ) → List ℕ
  doubled [] = []
  doubled ((a, b) ∷ pairs) = a ∷ b ∷ doubled pairs

  next_level-repeat :
      (pairs : List (ℕ × ℕ)) (last : ℕ)
      → next_level hash_data (doubled pairs ++ last ∷ last ∷ [])
        ≡ next_level hash_data (doubled pairs ++ last ∷ [])
  unfolding next_level
  next_level-repeat [] last = refl
  next_level-repeat ((a, b) ∷ pairs) last = ground (arith, next_level-repeat pairs last)

  length-doubled :
      (pairs : List (ℕ × ℕ)) (rest : List ℕ)
      → length (doubled pairs ++ rest) ≡ length (doubled pairs) + length rest
  length-doubled [] rest = omega arith
  length-doubled ((a, b) ∷ pairs) rest = omega (arith, length-doubled pairs rest)

  -- A list of hashes of odd length, three or more, has the Merkle root of the list with its last hash
  -- repeated: the root does not determine the transactions.
  pub merkle_root_repeats :
      (a b : ℕ) (pairs : List (ℕ × ℕ)) (last : ℕ)
      → merkle_root hash_data (a ∷ b ∷ doubled pairs ++ last ∷ last ∷ [])
        ≡ merkle_root hash_data (a ∷ b ∷ doubled pairs ++ last ∷ [])
  unfolding merkle_root
  merkle_root_repeats a b pairs last =
      let odd = a ∷ b ∷ doubled pairs ++ last ∷ [] in
      let even = a ∷ b ∷ doubled pairs ++ last ∷ last ∷ [] in
      let fuel = length (b ∷ doubled pairs ++ last ∷ []) in
      let more = length (b ∷ doubled pairs ++ last ∷ last ∷ []) in
      let up = next_level hash_data odd in
      let shorter = length-next_level odd in
      let l = length-doubled pairs (last ∷ []) in
      let l' = length-doubled pairs (last ∷ last ∷ []) in
      ap (first hash_data) (
        climb_up more even (omega (arith, l'))
        ∙ ap (climb hash_data more) (next_level-repeat ((a, b) ∷ pairs) last)
        ∙ (climb_ends fuel more up (omega (arith, shorter, l)) (omega (arith, shorter, l, l'))).1
        ∙ sym (climb_up fuel odd (omega (arith, l))))

-- A block that `Block::new` makes passes `verify` exactly if the gas of its transactions, added up
-- in 64 bits, is within the limit, its timestamp is no more than a minute ahead of the clock, and
-- every transaction verifies.
pub new_block-verifies :
    (hash_data : List ℕ → ℕ) (serialize : BlockHeader → List ℕ) (digest : Transaction → ℕ)
    (recover : Transaction → Signature → Option ℕ) (now timestamp height parent : ℕ)
    (txs : List Transaction) (state_root receipts_root proposer gas_limit : ℕ)
    (consensus_data : ConsensusData)
    → is_ok (
        verify_block hash_data serialize digest recover now (
          new_block hash_data serialize digest timestamp height parent txs state_root receipts_root
            proposer gas_limit consensus_data))
      ≡ (leb (gas_from 0 txs) gas_limit
          && leb timestamp (add_u64 now 60_000)
          && is_ok (verify_all recover txs))
unfolding new_block verify_block
new_block-verifies hash_data serialize digest recover now timestamp height parent txs state_root
      receipts_root proposer gas_limit consensus_data =
    ground arith
