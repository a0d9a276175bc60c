-- ===== src/BatchSettlement/Settled.antt =====
-- What core/blockchain/src/batch_settlement/processor.rs does, and does not, prevent.
use is_a_chain.Prelude.{
  ◌∙◌, ==_iff, ◌∙◌, ==_iff, ap, ℕ, ◌≡◌, true, false, inl, inr, List, [], ◌∷◌, some, is_ok,
  Result-cases, Option-cases, contains, contains-set_insert, set_insert, if◌then◌else◌, ◌==◌,
  Bool-cases, arith, map, add_u64, saturating_add,
}
use is_a_chain.BatchSettlement.{
  processes, gathered, calculate_fee, creates, completed, run, channel_settlement, Call,
  complete_first, channels, channel_of, nothing_gathered, is_channel_settled, get_batch,
  create_batch, step, process_batch, insert_all, find_batch, gather, BatchSettlement,
  BatchProcessor, Gathered, Entry,
}

contains-insert_all :
    (c : ℕ) (cs set : List ℕ)
    → contains (insert_all cs set) c ≡ (if contains cs c then true else contains set c)
contains-insert_all c [] set = ground arith
contains-insert_all c (d ∷ ds) set =
    ground (arith, contains-insert_all c ds (set_insert set d), contains-set_insert d c set)

-- A channel that is settled stays so.
create-settled :
    (hash_data : List ℕ → ℕ) (entries : List Entry) (height : ℕ) (p : BatchProcessor)
    → (create_batch hash_data entries height p).1.settled_channels ≡ p.settled_channels
unfolding create_batch
create-settled hash_data entries height p =
    elim (Result-cases (gather p nothing_gathered entries)) [
      | inl (e, stopped) ↦ ground arith
      | inr (g, through) ↦ ground arith
    ]

process-settled :
    (c batch_id : ℕ) (p : BatchProcessor)
    → contains p.settled_channels c ≡ true
    → contains (process_batch batch_id p).1.settled_channels c ≡ true
unfolding process_batch
process-settled c batch_id p h = elim (Option-cases (find_batch batch_id p.batches)) [
  | inl missing ↦ ground arith
  | inr (b, found) ↦
      ground (arith, contains-insert_all c (channels b.settlements) p.settled_channels)
]

run-settled :
    (hash_data : List ℕ → ℕ) (c : ℕ) (p : BatchProcessor) (cs : List Call)
    → contains p.settled_channels c ≡ true
    → contains (run hash_data p cs).settled_channels c ≡ true
unfolding step
run-settled hash_data c p [] h = h
run-settled hash_data c p (creates entries height ∷ cs) h =
    run-settled hash_data c (create_batch hash_data entries height p).1 cs
      (ap (λ set. contains set c) (create-settled hash_data entries height p) ∙ h)
run-settled hash_data c p (processes batch_id ∷ cs) h =
    run-settled hash_data c (process_batch batch_id p).1 cs (process-settled c batch_id p h)

-- The loop does not get past an entry of a settled channel.
gather-refuses :
    (c : ℕ) (p : BatchProcessor) (g : Gathered) (entries : List Entry)
    → contains p.settled_channels c ≡ true
    → contains (map channel_of entries) c ≡ true
    → is_ok (gather p g entries) ≡ false
unfolding gather
gather-refuses c p g [] h there = ground arith
gather-refuses c p g ((channel_id, sender, receiver, amount, nonce) ∷ entries) h there =
    let s = channel_settlement channel_id sender receiver amount (calculate_fee amount p) nonce in
    elim (Bool-cases (channel_id == c)) [
      | inl this ↦
          let same : contains p.settled_channels channel_id ≡ true =
            ap (contains p.settled_channels) ((==_iff channel_id c).0 this) ∙ h in
          ground arith
      | inr other ↦ ground (arith, gather-refuses c p (gathered s g) entries h (ground arith))
    ]

create-refuses :
    (hash_data : List ℕ → ℕ) (c : ℕ) (entries : List Entry) (height : ℕ) (p : BatchProcessor)
    → contains p.settled_channels c ≡ true
    → contains (map channel_of entries) c ≡ true
    → (is_ok (create_batch hash_data entries height p).0 ≡ false)
      × ((create_batch hash_data entries height p).1 ≡ p)
unfolding create_batch
create-refuses hash_data c entries height p h there =
    let refused = gather-refuses c p nothing_gathered entries h there in
    elim (Result-cases (gather p nothing_gathered entries)) [
      | inl (e, stopped) ↦ ground arith
      | inr (g, through) ↦ ground arith
    ]

-- When a batch was processed, each of its channels counts as settled after whatever further calls,
-- and a list of entries that names such a channel is then refused as a batch and changes nothing.
pub processed_for_good :
    (hash_data : List ℕ → ℕ) (p : BatchProcessor) (batch_id c : ℕ) (b : BatchSettlement)
    (cs : List Call) (entries : List Entry) (height : ℕ)
    → get_batch batch_id p ≡ some b
    → contains (channels b.settlements) c ≡ true
    → contains (map channel_of entries) c ≡ true
    → let p' = run hash_data (process_batch batch_id p).1 cs in
      (is_channel_settled c p' ≡ true)
      × (is_ok (create_batch hash_data entries height p').0 ≡ false)
      × ((create_batch hash_data entries height p').1 ≡ p')
unfolding get_batch is_channel_settled process_batch
processed_for_good hash_data p batch_id c b cs entries height found there named =
    let first : contains (process_batch batch_id p).1.settled_channels c ≡ true =
      ground (arith, contains-insert_all c (channels b.settlements) p.settled_channels) in
    let over = run-settled hash_data c (process_batch batch_id p).1 cs first in
    let refused =
      create-refuses hash_data c entries height (run hash_data (process_batch batch_id p).1 cs) over
        named in
    (over, refused.0, refused.1)

find-complete_first :
    (id : ℕ) (b : BatchSettlement) (bs : List BatchSettlement)
    → find_batch id bs ≡ some b
    → find_batch id (complete_first id bs) ≡ some (record b { status = completed })
find-complete_first id b [] found = ground arith
find-complete_first id b (x ∷ xs) found = elim (Bool-cases (x.id == id)) [
  | inl hit ↦ ground arith
  | inr miss ↦ ground (arith, find-complete_first id b xs (ground arith))
]

-- `process_batch` does not look at the status: whenever a batch can be processed, it can be
-- processed again at once, with success, and its amount and the batch are counted a second time.
pub batch_is_counted_twice :
    (p : BatchProcessor) (batch_id : ℕ) (b : BatchSettlement)
    → get_batch batch_id p ≡ some b
    → let p1 = (process_batch batch_id p).1 in
      let p2 = (process_batch batch_id p1).1 in
      is_ok (process_batch batch_id p1).0 ≡ true
      × p2.total_settled
        ≡ saturating_add (saturating_add p.total_settled b.total_amount) b.total_amount
      × p2.total_batches_processed ≡ add_u64 (add_u64 p.total_batches_processed 1) 1
unfolding get_batch process_batch
batch_is_counted_twice p batch_id b found =
    ground (arith, find-complete_first batch_id b p.batches found)
