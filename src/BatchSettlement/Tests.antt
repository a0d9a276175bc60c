-- ===== src/BatchSettlement/Tests.antt =====
-- Tests of the batch settlement, and its theorems at concrete inputs.
use is_a_chain.Prelude.{
  ℕ, ◌≡◌, true, false, refl, List, [], ◌∷◌, err, some, is_ok, All, sum_of, add_u64, saturating_add,
  saturating_mul, be_bytes, le_bytes,
}
use is_a_chain.BatchSettlement.{
  Call, pending, Entry, BatchSettlement, BatchProcessor, already_settled, invalid_settlement,
  appears_more_than_once, calculate_fee, gather, new, create_batch, process_batch, get_batch,
  is_channel_settled, creates, processes, step, run,
}
use is_a_chain.BatchSettlement.Batches.{IsWhole, batches_add_up}
use is_a_chain.BatchSettlement.Settled.{processed_for_good, batch_is_counted_twice}

-- A hash for the tests: the sum of the bytes.
abbrev sum_bytes : List ℕ → ℕ
sum_bytes = sum_of (λ b. b)

abbrev entry : (channel_id : ℕ) → Entry
entry channel_id = (channel_id, 1, 2, 200, 4)

-- The channel 7 is in both batches; the first has the identifier 5 + 7 + 200 + 4.
abbrev calls : List Call
calls = creates (entry 7 ∷ []) 5 ∷ creates (entry 7 ∷ entry 8 ∷ []) 5 ∷ []

abbrev two : BatchProcessor
two = run sum_bytes (new 2 250) calls

abbrev first : BatchSettlement
first = record {
  id = 216;
  settlements =
      record { channel_id = 7; sender = 1; receiver = 2; amount = 200; fee = 5; final_nonce = 4 }
      ∷ [];
  total_amount = 200;
  total_fees = 5;
  height = 5;
  status = pending;
}

-- The second batch settles the channel 7 a second time: a processed batch is not compared with the
-- pending ones.
channel_in_two_batches :
    (get_batch 216 two ≡ some first)
    × ((create_batch sum_bytes (entry 7 ∷ entry 7 ∷ []) 5 two).0
        ≡ err (invalid_settlement (appears_more_than_once 7)))
    × ((create_batch sum_bytes (entry 7 ∷ []) 6 (process_batch 216 two).1).0
        ≡ err (already_settled 7))
    × ((run sum_bytes two (processes 216 ∷ processes 429 ∷ [])).total_settled ≡ 600)
unfolding step create_batch process_batch get_batch gather calculate_fee add_u64 saturating_add
    saturating_mul be_bytes le_bytes
channel_in_two_batches = (refl, refl, refl, refl)

found_first : get_batch 216 two ≡ some first
found_first = channel_in_two_batches.0

batches_add_up_example : All (IsWhole two.max_batch_size) two.batches
batches_add_up_example = batches_add_up sum_bytes 2 250 calls

processed_for_good_example :
    let p' = run sum_bytes (process_batch 216 two).1 (processes 429 ∷ []) in
    (is_channel_settled 7 p' ≡ true)
    × (is_ok (create_batch sum_bytes (entry 9 ∷ entry 7 ∷ []) 6 p').0 ≡ false)
    × ((create_batch sum_bytes (entry 9 ∷ entry 7 ∷ []) 6 p').1 ≡ p')
processed_for_good_example =
    processed_for_good sum_bytes two 216 7 first (processes 429 ∷ []) (entry 9 ∷ entry 7 ∷ []) 6
      found_first refl refl

batch_is_counted_twice_example :
    let p1 = (process_batch 216 two).1 in
    let p2 = (process_batch 216 p1).1 in
    (is_ok (process_batch 216 p1).0 ≡ true)
    × (p2.total_settled ≡ saturating_add (saturating_add two.total_settled 200) 200)
    × (p2.total_batches_processed ≡ add_u64 (add_u64 two.total_batches_processed 1) 1)
batch_is_counted_twice_example = batch_is_counted_twice two 216 first found_first
