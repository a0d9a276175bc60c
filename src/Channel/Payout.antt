-- ===== src/Channel/Payout.antt =====
-- What `finalize_channel` of core/blockchain/src/channel/manager.rs pays, when, and how often;
-- and how channel identifiers tell openings apart.
use is_a_chain.Prelude.{
  ℕ, ◌+◌, ◌^◌, ◌≤◌, ◌<◌, ◌≡◌, ◌≢◌, refl, inl, inr, total, total-insert, ap, List, ◌++◌, All, arith,
  Option-cases, some, get, get-insert_self, ok, err, add_u64, add_u128, be_bytes, le_bytes,
  be_bytes-injective, le_bytes-injective, append-injective, length-be_bytes, AllValues-get,
}
use is_a_chain.Channel.{
  Channel, ChannelManager, Call, open_channel, finalize_channel, run, opened, closed,
  settling_since, id_preimage, channel_not_open,
}
use is_a_chain.Channel.Balances.{AreBacked, IsBacked}
use is_a_chain.Channel.Lifecycle.{Avoids, is_settled, settled_frozen}

-- A successful finalization pays the recorded balances, which add up to the deposit in 128-bit
-- arithmetic, of a closing or disputed channel whose dispute period is over.
pub finalize_pays :
    (id height paid_sender paid_receiver : ℕ) (c : Channel) (m : ChannelManager)
    → AreBacked m
    → get id m.channels ≡ some c
    → (finalize_channel id height m).0 ≡ ok (paid_sender, paid_receiver)
    → (paid_sender ≡ c.sender_balance)
      × (paid_receiver ≡ c.receiver_balance)
      × (add_u128 paid_sender paid_receiver ≡ c.deposit)
      × ((since : ℕ) × (settling_since c.status ≡ some since)
          × (add_u64 since c.dispute_period ≤ height))
unfolding finalize_channel
finalize_pays id height ps pr c m b found done =
    let backed : IsBacked c = AllValues-get IsBacked id c m.channels b found in ground arith

closed_after :
    (id height : ℕ) (paid : ℕ × ℕ) (m : ChannelManager)
    → (finalize_channel id height m).0 ≡ ok paid
    → (c : Channel) × (get id (finalize_channel id height m).1.channels ≡ some c)
      × (c.status ≡ closed)
unfolding finalize_channel
closed_after id height paid m done = elim (Option-cases (get id m.channels)) [
  | inl missing ↦ absurd (ground arith)
  | inr (c, found) ↦
      let c' : Channel = record c { status = closed; last_updated = height } in
      (c', ground (arith, get-insert_self id c' m.channels), refl)
]

finalize_closed :
    (id height : ℕ) (c : Channel) (m : ChannelManager)
    → get id m.channels ≡ some c
    → c.status ≡ closed
    → (finalize_channel id height m).0 ≡ err channel_not_open
unfolding finalize_channel
finalize_closed id height c m found e = ground arith

-- After a successful finalization, and any calls in which no opening hits the identifier again,
-- finalizing the channel once more is refused at every height.
pub finalize_once :
    (hash_data : List ℕ → ℕ) (id height later : ℕ) (paid : ℕ × ℕ) (m : ChannelManager)
    (cs : List Call)
    → (finalize_channel id height m).0 ≡ ok paid
    → All (Avoids hash_data id) cs
    → (finalize_channel id later (run hash_data (finalize_channel id height m).1 cs)).0
      ≡ err channel_not_open
finalize_once hash_data id height later paid m cs done avoids =
    let m' = (finalize_channel id height m).1 in
    let (c, found, e) = closed_after id height paid m done in
    finalize_closed id later c (run hash_data m' cs)
      (settled_frozen hash_data m' id c cs found (ap is_settled e) avoids) e

-- Openings of distinct channels, or at distinct heights, hash distinct bytes: the preimage
-- determines the sender, the receiver and the height.
pub id_preimage-injective :
    (s r h s' r' h' : ℕ)
    → s < 256 ^ 20
    → r < 256 ^ 20
    → h < 256 ^ 8
    → s' < 256 ^ 20
    → r' < 256 ^ 20
    → h' < 256 ^ 8
    → id_preimage s r h ≡ id_preimage s' r' h'
    → (s ≡ s') × (r ≡ r') × (h ≡ h')
unfolding id_preimage
id_preimage-injective s r h s' r' h' fs fr fh fs' fr' fh' e =
    let (es, rest) =
      append-injective (be_bytes 20 s) (be_bytes 20 r ++ le_bytes 8 h) (be_bytes 20 s')
        (be_bytes 20 r' ++ le_bytes 8 h')
        (omega (arith, length-be_bytes 20 s, length-be_bytes 20 s')) e in
    let (er, eh) =
      append-injective (be_bytes 20 r) (le_bytes 8 h) (be_bytes 20 r') (le_bytes 8 h')
        (omega (arith, length-be_bytes 20 r, length-be_bytes 20 r')) rest in
    (
      be_bytes-injective 20 s s' fs fs' es,
      be_bytes-injective 20 r r' fr fr' er,
      le_bytes-injective 8 h h' fh fh' eh,
    )

-- Opening a channel again between the same parties at the same height is accepted and replaces
-- the channel that is there: the record is the fresh one, and the old deposit is gone from the sum
-- of all deposits, where the new one takes its place.
pub reopen_overwrites :
    (hash_data : List ℕ → ℕ) (s r deposit height : ℕ) (c : Channel) (m : ChannelManager)
    → get (hash_data (id_preimage s r height)) m.channels ≡ some c
    → s ≢ r
    → deposit ≢ 0
    → let id = hash_data (id_preimage s r height) in
      let (result, m') = open_channel hash_data s r deposit height m in
      (result ≡ ok id)
      × (get id m'.channels ≡ some (opened id s r deposit height m))
      × (total (λ x. x.deposit) m'.channels + c.deposit
          ≡ total (λ x. x.deposit) m.channels + deposit)
unfolding open_channel
reopen_overwrites hash_data s r deposit height c m found distinct funded =
    let id = hash_data (id_preimage s r height) in
    let fresh = opened id s r deposit height m in
    ground (
      arith,
      get-insert_self id fresh m.channels,
      total-insert (λ x. x.deposit) id fresh m.channels,
    )
