-- ===== src/Settlement/Records.antt =====
-- The indices by user and by provider of core/blockchain/src/settlement/engine.rs.
use is_a_chain.Prelude.{
  if◌then◌else◌, [], ◌∷◌, ◌++◌, some, List, ℕ, length, arith, some, ◌∷◌, ◌≡◌, ◌+◌, suc, Bool, ◌==◌,
  refl, ap, ◌∙◌, retain, get, inl, inr, Option-cases, get-insert,
}
use is_a_chain.Settlement.{
  settlement, records_at, new, run, Call, push_item, length, List, HashMap, listed, arith,
  get_provider_records, recorded, get_user_records, ℕ, SettlementRecord, SettlementEngine,
  run_keeps,
}

-- The positions from `n` on at which the test holds.
abbrev places : (SettlementRecord → Bool) → ℕ → List SettlementRecord → List ℕ
places p n [] = []
places p n (r ∷ rs) = if p r then n ∷ places p (suc n) rs else places p (suc n) rs

abbrev paid_by : ℕ → SettlementRecord → Bool
paid_by user r = r.user == user

abbrev paid_to : ℕ → SettlementRecord → Bool
paid_to provider r = r.provider == provider

record IsIndexed (e : SettlementEngine) : Type 0 where
  pub users : (user : ℕ) → listed user e.records_by_user ≡ places (paid_by user) 0 e.records
  pub providers :
      (provider : ℕ) → listed provider e.records_by_provider ≡ places (paid_to provider) 0 e.records

module _ (p : SettlementRecord → Bool) where
  places-append :
      (n : ℕ) (rs : List SettlementRecord) (r : SettlementRecord)
      → places p n (rs ++ r ∷ [])
        ≡ (if p r then places p n rs ++ (n + length rs) ∷ [] else places p n rs)
  places-append n [] r = ground arith
  places-append n (s ∷ rs) r = ground (arith, places-append (suc n) rs r)

  -- A position beyond the first record is one in the rest.
  records_at-suc :
      (s : SettlementRecord) (n : ℕ) (all rs : List SettlementRecord)
      → records_at (s ∷ all) (places p (suc n) rs) ≡ records_at all (places p n rs)
  records_at-suc s n all [] = refl
  records_at-suc s n all (r ∷ rs) = ground (arith, records_at-suc s (suc n) all rs)

  records_at-places :
      (rs : List SettlementRecord) → records_at rs (places p 0 rs) ≡ some (retain p rs)
  records_at-places [] = refl
  records_at-places (r ∷ rs) = ground (arith, records_at-suc r 0 rs rs, records_at-places rs)

listed-push :
    (asked key item : ℕ) (d : HashMap (List ℕ))
    → listed asked (push_item key item d)
      ≡ (if key == asked then listed asked d ++ item ∷ [] else listed asked d)
listed-push asked key item d = elim (Option-cases (get key d)) [
  | inl missing ↦ ground (arith, get-insert asked key (item ∷ []) d)
  | inr (items, found) ↦ ground (arith, get-insert asked key (items ++ item ∷ []) d)
]

recorded-IsIndexed :
    (r : SettlementRecord) (e : SettlementEngine) → IsIndexed e → IsIndexed (recorded r e)
recorded-IsIndexed r e x = record {
  users = λ user. ground (
    arith,
    x.users user,
    places-append (paid_by user) 0 e.records r,
    listed-push user r.user (length e.records) e.records_by_user,
  );
  providers = λ provider. ground (
    arith,
    x.providers provider,
    places-append (paid_to provider) 0 e.records r,
    listed-push provider r.provider (length e.records) e.records_by_provider,
  );
}

-- Whatever calls were made of a new engine, the look-up of a user's records by the index gives
-- exactly the records of which the user is the payer, in their order, and that of a provider the
-- records of which the provider is the recipient. No index is out of range.
pub records_found :
    (hash_data : List ℕ → ℕ) (fee_rate_bps : ℕ) (cs : List Call) (who : ℕ)
    → let e = run hash_data (new fee_rate_bps) cs in
      (get_user_records who e ≡ some (retain (λ r. r.user == who) e.records))
      × (get_provider_records who e ≡ some (retain (λ r. r.provider == who) e.records))
unfolding get_user_records get_provider_records
records_found hash_data fee_rate_bps cs who =
    let e = run hash_data (new fee_rate_bps) cs in
    let x =
      run_keeps IsIndexed hash_data
        (λ e user provider amount service_type height timestamp positive other x.
          recorded-IsIndexed
            (settlement hash_data user provider amount service_type height timestamp e) e x)
        (new fee_rate_bps) cs record { users = λ user. refl; providers = λ provider. refl } in
    (
      ap (records_at e.records) (x.users who) ∙ records_at-places (paid_by who) e.records,
      ap (records_at e.records) (x.providers who) ∙ records_at-places (paid_to who) e.records,
    )
