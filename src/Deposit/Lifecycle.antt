-- ===== src/Deposit/Lifecycle.antt =====
-- The lifecycle of the deposits of core/blockchain/src/deposit/manager.rs.
use is_a_chain.Prelude.{
  ℕ, ◌≡◌, ◌≢◌, true, false, List, [], ◌∷◌, some, inl, inr, is_ok, String, get, get-insert,
  get-insert_self, get-insert_ne, Option-cases, arith,
}
use is_a_chain.Deposit.{
  DepositRequest, DepositManager, is_open, is_failed, id_input, requested, finished,
  initiate_deposit, complete_deposit, fail_deposit, refund_deposit, refunded, failed, Call,
  initiates, completes, fails, refunds, step, run,
}

module _ (hash_data : List ℕ → ℕ) (id : ℕ) where
  -- No call makes a deposit under the identifier.
  abbrev pub Avoids : List Call → Type 0
  Avoids [] = Unit
  Avoids (initiates user isa_amount isa_price_usd height ∷ cs) =
      (id ≢ hash_data (id_input user isa_amount height)) × Avoids cs
  Avoids (completes other tx_hash height ∷ cs) = Avoids cs
  Avoids (fails other reason ∷ cs) = Avoids cs
  Avoids (refunds other ∷ cs) = Avoids cs

  -- The deposit under the identifier is completed or refunded.
  abbrev pub IsSettled : DepositRequest → DepositManager → Type 0
  IsSettled d m =
      (get id m.deposits ≡ some d) × (is_open d.status ≡ false) × (is_failed d.status ≡ false)

  initiate-IsSettled :
      (d : DepositRequest) (m : DepositManager) (user isa_amount isa_price_usd height : ℕ)
      → IsSettled d m
      → id ≢ hash_data (id_input user isa_amount height)
      → IsSettled d (step hash_data m (initiates user isa_amount isa_price_usd height))
  unfolding step initiate_deposit
  initiate-IsSettled d m user isa_amount isa_price_usd height over other =
      let key = hash_data (id_input user isa_amount height) in
      let made = requested key user isa_amount isa_price_usd height m in
      ground (arith, get-insert_ne id key made m.deposits other)

  complete-IsSettled :
      (d : DepositRequest) (m : DepositManager) (other tx_hash height : ℕ)
      → IsSettled d m
      → IsSettled d (step hash_data m (completes other tx_hash height))
  unfolding step complete_deposit
  complete-IsSettled d m other tx_hash height over = elim (Option-cases (get other m.deposits)) [
    | inl missing ↦ ground arith
    | inr (old, found) ↦
        ground (arith, get-insert id other (finished tx_hash height old) m.deposits)
  ]

  fail-IsSettled :
      (d : DepositRequest) (m : DepositManager) (other : ℕ) (reason : String)
      → IsSettled d m
      → IsSettled d (step hash_data m (fails other reason))
  unfolding step fail_deposit
  fail-IsSettled d m other reason over = elim (Option-cases (get other m.deposits)) [
    | inl missing ↦ ground arith
    | inr (old, found) ↦
        ground (arith, get-insert id other (record old { status = failed reason }) m.deposits)
  ]

  refund-IsSettled :
      (d : DepositRequest) (m : DepositManager) (other : ℕ)
      → IsSettled d m
      → IsSettled d (step hash_data m (refunds other))
  unfolding step refund_deposit
  refund-IsSettled d m other over = elim (Option-cases (get other m.deposits)) [
    | inl missing ↦ ground arith
    | inr (old, found) ↦
        ground (arith, get-insert id other (record old { status = refunded }) m.deposits)
  ]

  run-IsSettled :
      (d : DepositRequest) (m : DepositManager) (cs : List Call)
      → IsSettled d m
      → Avoids cs
      → IsSettled d (run hash_data m cs)
  run-IsSettled d m [] over avoids = over
  run-IsSettled d m (initiates user isa_amount isa_price_usd height ∷ cs) over avoids =
      let after = initiate-IsSettled d m user isa_amount isa_price_usd height over avoids.0 in
      run-IsSettled d (step hash_data m (initiates user isa_amount isa_price_usd height)) cs after
        avoids.1
  run-IsSettled d m (completes other tx_hash height ∷ cs) over avoids =
      let after = complete-IsSettled d m other tx_hash height over in
      run-IsSettled d (step hash_data m (completes other tx_hash height)) cs after avoids
  run-IsSettled d m (fails other reason ∷ cs) over avoids =
      let after = fail-IsSettled d m other reason over in
      run-IsSettled d (step hash_data m (fails other reason)) cs after avoids
  run-IsSettled d m (refunds other ∷ cs) over avoids =
      let after = refund-IsSettled d m other over in
      run-IsSettled d (step hash_data m (refunds other)) cs after avoids

  -- What settles a deposit: a completion or a refund that succeeds.
  abbrev pub Settles : Call → DepositManager → Type 0
  Settles (completes other tx_hash height) m =
      (other ≡ id) × (is_ok (complete_deposit id tx_hash height m).0 ≡ true)
  Settles (refunds other) m = (other ≡ id) × (is_ok (refund_deposit id m).0 ≡ true)
  Settles _ m = (true ≡ false)

  settled :
      (c : Call) (m : DepositManager)
      → Settles c m
      → (d : DepositRequest) × IsSettled d (step hash_data m c)
  unfolding step complete_deposit refund_deposit
  settled (initiates user isa_amount isa_price_usd height) m h = cc
  settled (fails other reason) m h = cc
  settled (completes other tx_hash height) m (same, done) =
      elim (Option-cases (get id m.deposits)) [
        | inl missing ↦ cc
        | inr (old, found) ↦ (
          finished tx_hash height old,
          ground (arith, get-insert_self id (finished tx_hash height old) m.deposits),
        )
      ]
  settled (refunds other) m (same, done) = elim (Option-cases (get id m.deposits)) [
    | inl missing ↦ cc
    | inr (old, found) ↦
        let d : DepositRequest = record old { status = refunded } in
        (d, ground (arith, get-insert_self id d m.deposits))
  ]

  refused :
      (d : DepositRequest) (m : DepositManager) (tx_hash height : ℕ)
      → IsSettled d m
      → (is_ok (complete_deposit id tx_hash height m).0 ≡ false)
        × (is_ok (refund_deposit id m).0 ≡ false)
  unfolding complete_deposit refund_deposit
  refused d m tx_hash height over = ground arith

  -- A deposit is settled once: after it is completed or refunded no later call completes or refunds
  -- it, where none of the calls in between makes a deposit under its identifier.
  pub settled_once :
      (m : DepositManager) (c : Call) (calls : List Call)
      → Settles c m
      → Avoids calls
      → (tx_hash height : ℕ)
      → let m' = run hash_data (step hash_data m c) calls in
        (is_ok (complete_deposit id tx_hash height m').0 ≡ false)
        × (is_ok (refund_deposit id m').0 ≡ false)
  settled_once m c calls settles avoids tx_hash height =
      let (d, first) = settled c m settles in
      refused d (run hash_data (step hash_data m c) calls) tx_hash height
        (run-IsSettled d (step hash_data m c) calls first avoids)
