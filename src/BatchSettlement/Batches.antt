-- ===== src/BatchSettlement/Batches.antt =====
-- The batches that core/blockchain/src/batch_settlement/processor.rs makes.
use is_a_chain.Prelude.{
  Option-cases, Result-cases, ℕ, ◌≡◌, ◌+◌, ◌≤◌, ◌<◌, refl, subst, false, inl, inr, List, [], ◌∷◌,
  ◌++◌, ok, All, All-append, sum_of, count, contains, contains-set_insert, length, length-append,
  saturated, saturated-append, if◌then◌else◌, ◌==◌, ltb, Bool-cases, arith,
}
use is_a_chain.BatchSettlement.{
  processes, find_batch, creates, new, run, batch_of, Call, create_batch, process_batch,
  nothing_gathered, step, complete_first, calculate_fee, channel_settlement, gather, channels,
  gathered, ChannelSettlement, BatchSettlement, BatchProcessor, Gathered, Entry,
}

record IsGathered (g : Gathered) : Type 0 where
  pub once :
      (c : ℕ)
      → count c (channels g.channel_settlements) ≡ (if contains g.seen_in_batch c then 1 else 0)
  pub amount : g.total_amount ≡ saturated (sum_of (λ s. s.amount) g.channel_settlements)
  pub fees : g.total_fees ≡ saturated (sum_of (λ s. s.fee) g.channel_settlements)
  pub positive : All (λ s. 0 < s.amount) g.channel_settlements

count-channels :
    (c : ℕ) (xs : List ChannelSettlement) (s : ChannelSettlement)
    → count c (channels (xs ++ s ∷ []))
      ≡ count c (channels xs) + (if s.channel_id == c then 1 else 0)
count-channels c [] s = ground arith
count-channels c (x ∷ xs) s = ground (arith, count-channels c xs s)

gathered-IsGathered :
    (s : ChannelSettlement) (g : Gathered)
    → contains g.seen_in_batch s.channel_id ≡ false
    → 0 < s.amount
    → IsGathered g
    → IsGathered (gathered s g)
gathered-IsGathered s g unseen some_amount x = record {
  once = λ c. ground (
    arith,
    x.once c,
    count-channels c g.channel_settlements s,
    contains-set_insert s.channel_id c g.seen_in_batch,
  );
  amount = saturated-append (λ s. s.amount) g.channel_settlements s g.total_amount x.amount;
  fees = saturated-append (λ s. s.fee) g.channel_settlements s g.total_fees x.fees;
  positive = All-append (λ s. 0 < s.amount) g.channel_settlements s x.positive some_amount;
}

gather-IsGathered :
    (p : BatchProcessor) (g g' : Gathered) (entries : List Entry)
    → IsGathered g
    → gather p g entries ≡ ok g'
    → IsGathered g'
      × (length g'.channel_settlements ≡ length g.channel_settlements + length entries)
unfolding gather
gather-IsGathered p g g' [] x e =
    let same : g ≡ g' = ground arith in
    subst (λ h. IsGathered h × (length h.channel_settlements ≡ length g.channel_settlements + 0))
      same (x, omega arith)
gather-IsGathered p g g' ((channel_id, sender, receiver, amount, nonce) ∷ entries) x e =
    let s = channel_settlement channel_id sender receiver amount (calculate_fee amount p) nonce in
    let longer = length-append g.channel_settlements (s ∷ []) in
    elim (Bool-cases (amount == 0)) [
      | inl zero_amount ↦ ground arith
      | inr some_amount ↦ elim (Bool-cases (contains g.seen_in_batch channel_id)) [
        | inl seen ↦ ground arith
        | inr unseen ↦
            let after = gathered-IsGathered s g unseen (ground arith) x in
            let done = gather-IsGathered p (gathered s g) g' entries after (ground arith) in
            (done.0, ground (arith, done.1, longer))
      ]
    ]

-- A batch of at least one and at most `limit` settlements, each of a positive amount and no channel
-- twice, whose totals are the sums of the amounts and of the fees, cut off at the largest `u128`.
pub record IsWhole (limit : ℕ) (b : BatchSettlement) : Type 0 where
  pub nonempty : 0 < length b.settlements
  pub bounded : length b.settlements ≤ limit
  pub once : (c : ℕ) → count c (channels b.settlements) ≤ 1
  pub positive : All (λ s. 0 < s.amount) b.settlements
  pub amount : b.total_amount ≡ saturated (sum_of (λ s. s.amount) b.settlements)
  pub fees : b.total_fees ≡ saturated (sum_of (λ s. s.fee) b.settlements)

AreWhole : BatchProcessor → Type 0
AreWhole p = All (IsWhole p.max_batch_size) p.batches

nothing-IsGathered : IsGathered nothing_gathered
nothing-IsGathered = record { once = λ c. refl; amount = refl; fees = refl; positive = tt }

create-AreWhole :
    (hash_data : List ℕ → ℕ) (entries : List Entry) (height : ℕ) (p : BatchProcessor)
    → AreWhole p
    → AreWhole (create_batch hash_data entries height p).1
unfolding AreWhole create_batch
create-AreWhole hash_data entries height p w = elim (Bool-cases (length entries == 0)) [
  | inl nothing ↦ rw nothing w
  | inr some_entry ↦ elim (Bool-cases (ltb p.max_batch_size (length entries))) [
    | inl large ↦ rw (some_entry, large) w
    | inr small ↦ elim (Result-cases (gather p nothing_gathered entries)) [
      | inl (e, stopped) ↦ rw (some_entry, small, stopped) w
      | inr (g, through) ↦
          let (x, size) =
            gather-IsGathered p nothing_gathered g entries nothing-IsGathered through in
          rw (some_entry, small, through)
            (All-append (IsWhole p.max_batch_size) p.batches (batch_of hash_data height g p) w
              record {
                nonempty = ground (arith, size);
                bounded = ground (arith, size);
                once = λ c. ground (arith, x.once c);
                positive = x.positive;
                amount = x.amount;
                fees = x.fees;
              })
    ]
  ]
]

complete_first-AreWhole :
    (limit id : ℕ) (bs : List BatchSettlement)
    → All (IsWhole limit) bs
    → All (IsWhole limit) (complete_first id bs)
complete_first-AreWhole limit id [] w = tt
complete_first-AreWhole limit id (b ∷ bs) w = elim (Bool-cases (b.id == id)) [
  | inl hit ↦ rw hit (
    record {
      nonempty = w.0.nonempty;
      bounded = w.0.bounded;
      once = w.0.once;
      positive = w.0.positive;
      amount = w.0.amount;
      fees = w.0.fees;
    },
    w.1,
  )
  | inr miss ↦ rw miss (w.0, complete_first-AreWhole limit id bs w.1)
]

process-AreWhole :
    (batch_id : ℕ) (p : BatchProcessor) → AreWhole p → AreWhole (process_batch batch_id p).1
unfolding AreWhole process_batch
process-AreWhole batch_id p w = elim (Option-cases (find_batch batch_id p.batches)) [
  | inl missing ↦ rw (process_batch, missing) w
  | inr (b, found) ↦
      rw (process_batch, found) (complete_first-AreWhole p.max_batch_size batch_id p.batches w)
]

run-AreWhole :
    (hash_data : List ℕ → ℕ) (p : BatchProcessor) (cs : List Call)
    → AreWhole p
    → AreWhole (run hash_data p cs)
unfolding step
run-AreWhole hash_data p [] w = w
run-AreWhole hash_data p (creates entries height ∷ cs) w =
    run-AreWhole hash_data (create_batch hash_data entries height p).1 cs
      (create-AreWhole hash_data entries height p w)
run-AreWhole hash_data p (processes batch_id ∷ cs) w =
    run-AreWhole hash_data (process_batch batch_id p).1 cs (process-AreWhole batch_id p w)

-- Whatever calls are made of a new processor, every batch of it, processed or not, has at least one
-- settlement and no more than the limit of the processor, each of a positive amount and no channel
-- twice, and its totals are the sums of the amounts and of the fees of its settlements, each cut
-- off at the largest `u128`.
pub batches_add_up :
    (hash_data : List ℕ → ℕ) (max_batch_size fee_rate_bps : ℕ) (cs : List Call)
    → let p = run hash_data (new max_batch_size fee_rate_bps) cs in
      All (IsWhole p.max_batch_size) p.batches
unfolding AreWhole
batches_add_up hash_data max_batch_size fee_rate_bps cs =
    run-AreWhole hash_data (new max_batch_size fee_rate_bps) cs tt
