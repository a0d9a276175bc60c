-- ===== src/BatchSettlement.antt =====
-- core/blockchain/src/batch_settlement: payment channels settled in batches. `types.rs` is the
-- data, `processor.rs` the processor.
pub mod Batches
pub mod Settled
mod Tests
use is_a_chain.Prelude.{
  ℕ, Bool, true, false, not, List, [], ◌∷◌, ◌++◌, Option, none, some, if◌then◌else◌, ◌/◌, ◌==◌, ltb,
  Result, ok, err, String, length, map, retain, contains, set_insert, add_u64, saturating_add,
  saturating_mul, be_bytes, le_bytes,
}

pub data BatchStatus : Type 0 where
  pending processing completed : BatchStatus
  partially_completed : (succeeded failures : ℕ) → BatchStatus
  failed : (reason : String) → BatchStatus

-- The two texts that the code writes of a channel in `InvalidSettlement`.
pub data Complaint : Type 0 where
  has_zero_amount appears_more_than_once : (channel_id : ℕ) → Complaint

pub data BatchSettlementError : Type 0 where
  empty_batch : BatchSettlementError
  batch_too_large : (max actual : ℕ) → BatchSettlementError
  invalid_settlement : Complaint → BatchSettlementError
  channel_not_found already_settled : (id : ℕ) → BatchSettlementError

pub record ChannelSettlement : Type 0 where
  pub channel_id : ℕ
  pub sender : ℕ
  pub receiver : ℕ
  pub amount : ℕ
  pub fee : ℕ
  pub final_nonce : ℕ

pub record BatchSettlement : Type 0 where
  pub id : ℕ
  pub settlements : List ChannelSettlement
  pub total_amount : ℕ
  pub total_fees : ℕ
  pub height : ℕ
  pub status : BatchStatus

pub record BatchProcessor : Type 0 where
  pub batches : List BatchSettlement
  pub settled_channels : List ℕ
  pub max_batch_size : ℕ
  pub fee_rate_bps : ℕ
  pub total_batches_processed : ℕ
  pub total_settled : ℕ

abbrev pub new : (max_batch_size fee_rate_bps : ℕ) → BatchProcessor
new max_batch_size fee_rate_bps = record {
  batches = [];
  settled_channels = [];
  max_batch_size = max_batch_size;
  fee_rate_bps = fee_rate_bps;
  total_batches_processed = 0;
  total_settled = 0;
}

abbrev pub Outcome : Type 0 → Type 0
Outcome A = Result A BatchSettlementError × BatchProcessor

unfoldable pub calculate_fee : (amount : ℕ) → BatchProcessor → ℕ
calculate_fee amount p = saturating_mul amount p.fee_rate_bps / 10_000

-- The channel, the sender, the receiver, the amount and the nonce.
abbrev pub Entry : Type 0
Entry = ℕ × ℕ × ℕ × ℕ × ℕ

abbrev pub channel_of : Entry → ℕ
channel_of entry = entry.0

-- The variables of the loop over the entries of a batch.
pub record Gathered : Type 0 where
  pub channel_settlements : List ChannelSettlement
  pub seen_in_batch : List ℕ
  pub total_amount : ℕ
  pub total_fees : ℕ

abbrev pub nothing_gathered : Gathered
nothing_gathered = record {
  channel_settlements = [];
  seen_in_batch = [];
  total_amount = 0;
  total_fees = 0;
}

abbrev pub channel_settlement :
    (channel_id sender receiver amount fee nonce : ℕ) → ChannelSettlement
channel_settlement channel_id sender receiver amount fee nonce = record {
  channel_id = channel_id;
  sender = sender;
  receiver = receiver;
  amount = amount;
  fee = fee;
  final_nonce = nonce;
}

abbrev pub gathered : ChannelSettlement → Gathered → Gathered
gathered s g = record {
  channel_settlements = g.channel_settlements ++ s ∷ [];
  seen_in_batch = set_insert g.seen_in_batch s.channel_id;
  total_amount = saturating_add g.total_amount s.amount;
  total_fees = saturating_add g.total_fees s.fee;
}

-- The loop: it stops at the first entry that it refuses.
unfoldable pub gather :
    BatchProcessor → Gathered → List Entry → Result Gathered BatchSettlementError
gather p g [] = ok g
gather p g ((channel_id, sender, receiver, amount, nonce) ∷ entries) =
    let fee = calculate_fee amount p in
    let rest =
      gather p (gathered (channel_settlement channel_id sender receiver amount fee nonce) g)
        entries in
    if amount == 0
    then err (invalid_settlement (has_zero_amount channel_id))
    else if contains g.seen_in_batch channel_id
    then err (invalid_settlement (appears_more_than_once channel_id))
    else if contains p.settled_channels channel_id
    then err (already_settled channel_id)
    else rest

abbrev pub settlement_bytes : List ChannelSettlement → List ℕ
settlement_bytes [] = []
settlement_bytes (s ∷ rest) =
    be_bytes 32 s.channel_id
    ++ le_bytes 16 s.amount
    ++ le_bytes 8 s.final_nonce
    ++ settlement_bytes rest

-- The bytes that the identifier is the hash of.
abbrev pub id_input : (height : ℕ) → List ChannelSettlement → BatchProcessor → List ℕ
id_input height settlements p =
    le_bytes 8 height ++ le_bytes 8 (length p.batches) ++ settlement_bytes settlements

abbrev pub batch_of : (List ℕ → ℕ) → (height : ℕ) → Gathered → BatchProcessor → BatchSettlement
batch_of hash_data height g p = record {
  id = hash_data (id_input height g.channel_settlements p);
  settlements = g.channel_settlements;
  total_amount = g.total_amount;
  total_fees = g.total_fees;
  height = height;
  status = pending;
}

-- Blake3, as `Hash::hash_data` calls it, is a parameter.
unfoldable pub create_batch :
    (List ℕ → ℕ) → List Entry → (height : ℕ) → BatchProcessor → Outcome BatchSettlement
create_batch hash_data entries height p =
    if length entries == 0
    then (err empty_batch, p)
    else if ltb p.max_batch_size (length entries)
    then (err (batch_too_large p.max_batch_size (length entries)), p)
    else elim (gather p nothing_gathered entries) [
      | err e ↦ (err e, p)
      | ok g ↦
          let batch = batch_of hash_data height g p in
          (ok batch, record p { batches = p.batches ++ batch ∷ [] })
    ]

-- The first batch with the identifier.
abbrev pub find_batch : ℕ → List BatchSettlement → Option BatchSettlement
find_batch id [] = none
find_batch id (b ∷ bs) = if b.id == id then some b else find_batch id bs

-- The batches with the first of the identifier completed.
abbrev pub complete_first : ℕ → List BatchSettlement → List BatchSettlement
complete_first id [] = []
complete_first id (b ∷ bs) =
    if b.id == id then record b { status = completed } ∷ bs else b ∷ complete_first id bs

abbrev pub insert_all : List ℕ → List ℕ → List ℕ
insert_all [] set = set
insert_all (c ∷ cs) set = insert_all cs (set_insert set c)

abbrev pub channels : List ChannelSettlement → List ℕ
channels = map (λ s. s.channel_id)

abbrev pub processed : (batch_id : ℕ) → BatchSettlement → BatchProcessor → BatchProcessor
processed batch_id b p = record p {
  batches = complete_first batch_id p.batches;
  settled_channels = insert_all (channels b.settlements) p.settled_channels;
  total_batches_processed = add_u64 p.total_batches_processed 1;
  total_settled = saturating_add p.total_settled b.total_amount;
}

unfoldable pub process_batch : (batch_id : ℕ) → BatchProcessor → Outcome BatchSettlement
process_batch batch_id p = elim (find_batch batch_id p.batches) [
  | none ↦ (err (channel_not_found batch_id), p)
  | some b ↦ (ok (record b { status = completed }), processed batch_id b p)
]

unfoldable pub get_batch : (id : ℕ) → BatchProcessor → Option BatchSettlement
get_batch id p = find_batch id p.batches

unfoldable pub get_batches_at_height : (height : ℕ) → BatchProcessor → List BatchSettlement
get_batches_at_height height p = retain (λ b. b.height == height) p.batches

unfoldable pub is_channel_settled : (channel_id : ℕ) → BatchProcessor → Bool
is_channel_settled channel_id p = contains p.settled_channels channel_id

-- A call of a method that writes the processor.
pub data Call : Type 0 where
  creates : (entries : List Entry) (height : ℕ) → Call
  processes : (batch_id : ℕ) → Call

unfoldable pub step : (List ℕ → ℕ) → BatchProcessor → Call → BatchProcessor
unfolding create_batch process_batch
step hash_data p (creates entries height) = (create_batch hash_data entries height p).1
step hash_data p (processes batch_id) = (process_batch batch_id p).1

abbrev pub run : (List ℕ → ℕ) → BatchProcessor → List Call → BatchProcessor
run hash_data p [] = p
run hash_data p (c ∷ cs) = run hash_data (step hash_data p c) cs
