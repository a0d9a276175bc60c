-- ===== src/Withdrawal/Lifecycle.antt =====
-- The lifecycle of the requests of core/blockchain/src/withdrawal/manager.rs.
use is_a_chain.Prelude.{
  ℕ, ◌≡◌, ◌≢◌, ◌≤◌, false, List, [], ◌∷◌, some, inl, inr, ok, is_ok, get, get-insert,
  get-insert_self, get-insert_ne, Option-cases, arith,
}
use is_a_chain.Withdrawal.{
  WithdrawalRequest, WithdrawalManager, is_open, is_completable, id_input, requested, finished,
  initiate_withdrawal, complete_withdrawal, cancel_withdrawal, cancelled, Call, initiates,
  completes, cancels, step, run,
}

module _ (hash_data : List ℕ → ℕ) (id : ℕ) where
  -- No call makes a request under the identifier.
  abbrev pub Avoids : List Call → Type 0
  Avoids [] = Unit
  Avoids (initiates user credits isa_price_usd height ∷ cs) =
      (id ≢ hash_data (id_input user credits height)) × Avoids cs
  Avoids (completes other tx_hash height ∷ cs) = Avoids cs
  Avoids (cancels other ∷ cs) = Avoids cs

  -- The request under the identifier is over.
  abbrev pub IsOver : WithdrawalRequest → WithdrawalManager → Type 0
  IsOver r m = (get id m.withdrawals ≡ some r) × (is_open r.status ≡ false)

  completable-open :
      (r : WithdrawalRequest) → is_open r.status ≡ false → is_completable r.status ≡ false
  completable-open r closed = ground arith

  initiate-IsOver :
      (r : WithdrawalRequest) (m : WithdrawalManager) (user credits isa_price_usd height : ℕ)
      → IsOver r m
      → id ≢ hash_data (id_input user credits height)
      → IsOver r (step hash_data m (initiates user credits isa_price_usd height))
  unfolding step initiate_withdrawal
  initiate-IsOver r m user credits isa_price_usd height over other =
      let key = hash_data (id_input user credits height) in
      let made = requested key user credits isa_price_usd height m in
      ground (arith, get-insert_ne id key made m.withdrawals other)

  complete-IsOver :
      (r : WithdrawalRequest) (m : WithdrawalManager) (other tx_hash height : ℕ)
      → IsOver r m
      → IsOver r (step hash_data m (completes other tx_hash height))
  unfolding step complete_withdrawal
  complete-IsOver r m other tx_hash height over =
      let closed = completable-open r over.1 in
      elim (Option-cases (get other m.withdrawals)) [
        | inl missing ↦ ground arith
        | inr (old, found) ↦
            ground (arith, get-insert id other (finished tx_hash height old) m.withdrawals)
      ]

  cancel-IsOver :
      (r : WithdrawalRequest) (m : WithdrawalManager) (other : ℕ)
      → IsOver r m
      → IsOver r (step hash_data m (cancels other))
  unfolding step cancel_withdrawal
  cancel-IsOver r m other over = elim (Option-cases (get other m.withdrawals)) [
    | inl missing ↦ ground arith
    | inr (old, found) ↦
        ground (arith, get-insert id other (record old { status = cancelled }) m.withdrawals)
  ]

  run-IsOver :
      (r : WithdrawalRequest) (m : WithdrawalManager) (cs : List Call)
      → IsOver r m
      → Avoids cs
      → IsOver r (run hash_data m cs)
  run-IsOver r m [] over avoids = over
  run-IsOver r m (initiates user credits isa_price_usd height ∷ cs) over avoids =
      let after = initiate-IsOver r m user credits isa_price_usd height over avoids.0 in
      run-IsOver r (step hash_data m (initiates user credits isa_price_usd height)) cs after
        avoids.1
  run-IsOver r m (completes other tx_hash height ∷ cs) over avoids =
      let after = complete-IsOver r m other tx_hash height over in
      run-IsOver r (step hash_data m (completes other tx_hash height)) cs after avoids
  run-IsOver r m (cancels other ∷ cs) over avoids =
      let after = cancel-IsOver r m other over in
      run-IsOver r (step hash_data m (cancels other)) cs after avoids

  complete-refused :
      (r : WithdrawalRequest) (m : WithdrawalManager) (tx_hash height : ℕ)
      → IsOver r m
      → is_ok (complete_withdrawal id tx_hash height m).0 ≡ false
  unfolding complete_withdrawal
  complete-refused r m tx_hash height over = let closed = completable-open r over.1 in ground arith

  cancel-refused :
      (r : WithdrawalRequest) (m : WithdrawalManager)
      → IsOver r m
      → is_ok (cancel_withdrawal id m).0 ≡ false
  unfolding cancel_withdrawal
  cancel-refused r m over = ground arith

  complete-ends :
      (m : WithdrawalManager) (r : WithdrawalRequest) (tx_hash height : ℕ)
      → (complete_withdrawal id tx_hash height m).0 ≡ ok r
      → (r.cooldown_ends ≤ height) × IsOver r (complete_withdrawal id tx_hash height m).1
  unfolding complete_withdrawal
  complete-ends m r tx_hash height done = elim (Option-cases (get id m.withdrawals)) [
    | inl missing ↦ ground arith
    | inr (old, found) ↦
        ground (arith, get-insert_self id (finished tx_hash height old) m.withdrawals)
  ]

  -- A withdrawal is paid once: it is completed no earlier than its cooldown ends, and no later call
  -- completes or cancels it, where none of the calls in between makes a request under its identifier.
  pub paid_once :
      (m : WithdrawalManager) (r : WithdrawalRequest) (tx_hash height : ℕ) (calls : List Call)
      → (complete_withdrawal id tx_hash height m).0 ≡ ok r
      → Avoids calls
      → (tx_hash' height' : ℕ)
      → let m' = run hash_data (complete_withdrawal id tx_hash height m).1 calls in
        (r.cooldown_ends ≤ height)
        × (is_ok (complete_withdrawal id tx_hash' height' m').0 ≡ false)
        × (is_ok (cancel_withdrawal id m').0 ≡ false)
  paid_once m r tx_hash height calls done avoids tx_hash' height' =
      let first = complete-ends m r tx_hash height done in
      let m' = run hash_data (complete_withdrawal id tx_hash height m).1 calls in
      let over = run-IsOver r (complete_withdrawal id tx_hash height m).1 calls first.1 avoids in
      (first.0, complete-refused r m' tx_hash' height' over, cancel-refused r m' over)
