-- ===== src/Settlement/Tests.antt =====
-- Tests of the settlement engine, and its theorems at concrete inputs.
use is_a_chain.Prelude.{
  ℕ, ◌≡◌, ◌==◌, refl, List, [], ◌∷◌, some, err, All, sum_of, retain, length, saturated,
  saturating_add, saturating_mul, be_bytes, le_bytes, arith,
}
use is_a_chain.Budget.{storage, tool_execution, model_inference}
use is_a_chain.Settlement.{
  SettlementEngine, calculate_split, new, settle, batch_settle, get_user_records,
  get_provider_records, settles, settles_all, same_user_and_provider, step, run,
}
use is_a_chain.Settlement.Records.{records_found}
use is_a_chain.Settlement.Totals.{IsFair, books_add_up}

-- A hash for the tests: the sum of the bytes.
abbrev sum_bytes : List ℕ → ℕ
sum_bytes = sum_of (λ b. b)

abbrev busy : SettlementEngine
busy = run sum_bytes (new 250) (
    settles 1 2 10_000 storage 5 6
    ∷ settles_all ((1, 3, 20_000, tool_execution) ∷ (2, 2, 5, model_inference) ∷ []) 6 7
    ∷ [])

totals :
    (busy.total_settled ≡ 30_000)
    × (busy.total_fees ≡ 750)
    × (length busy.records ≡ 2)
    × ((settle sum_bytes 2 2 5 storage 1 1 busy).0 ≡ err same_user_and_provider)
unfolding step settle batch_settle calculate_split saturating_add saturating_mul be_bytes le_bytes
totals = (refl, refl, refl, refl)

records_found_example :
    (get_user_records 1 busy ≡ some (retain (λ r. r.user == 1) busy.records))
    × (get_provider_records 1 busy ≡ some (retain (λ r. r.provider == 1) busy.records))
records_found_example =
    records_found sum_bytes 250
      (settles 1 2 10_000 storage 5 6
        ∷ settles_all ((1, 3, 20_000, tool_execution) ∷ (2, 2, 5, model_inference) ∷ []) 6 7
        ∷ [])
      1

books_add_up_example :
    (busy.total_settled ≡ saturated (sum_of (λ r. r.gross_amount) busy.records))
    × (busy.total_fees ≡ saturated (sum_of (λ r. r.fee_amount) busy.records))
    × All IsFair busy.records
books_add_up_example =
    books_add_up sum_bytes 250
      (settles 1 2 10_000 storage 5 6
        ∷ settles_all ((1, 3, 20_000, tool_execution) ∷ (2, 2, 5, model_inference) ∷ []) 6 7
        ∷ [])
      (omega arith)
