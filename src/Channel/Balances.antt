-- ===== src/Channel/Balances.antt =====
-- What the balances of core/blockchain/src/channel/manager.rs add up to.
use is_a_chain.Prelude.{
  ℕ, ◌+◌, ◌-◌, ◌<◌, ◌≡◌, inl, inr, List, [], ◌∷◌, arith, All, Option-cases, some, get, ok,
  AllValues, AllValues-insert, AllValues-get, add_u128, u128_mod,
}
use is_a_chain.Channel.{
  Channel, ChannelUpdate, ChannelManager, Call, opens, updates, closes, disputes, finalizes,
  tops_up, expires, open_channel, update_channel, close_channel, dispute_channel, finalize_channel,
  top_up, check_expired, step, run, opened, put, id_preimage, ChannelStatus, closing, disputed,
  expired, is_open, closed,
}

-- The two balances add up to the deposit, in 128-bit arithmetic.
abbrev pub IsBacked : Channel → Type 0
IsBacked c = add_u128 c.sender_balance c.receiver_balance ≡ c.deposit

abbrev pub AreBacked : ChannelManager → Type 0
AreBacked m = AllValues IsBacked m.channels

-- The amounts of a call are 128-bit numbers.
abbrev pub IsTyped : Call → Type 0
IsTyped (opens sender receiver deposit height) = deposit < u128_mod
IsTyped _ = Unit

add-top_up :
    (sender receiver deposit amount : ℕ)
    → add_u128 sender receiver ≡ deposit
    → add_u128 (add_u128 sender amount) receiver ≡ add_u128 deposit amount
unfolding add_u128
add-top_up sender receiver deposit amount h = omega arith

add-zero : (n : ℕ) → n < u128_mod → add_u128 n 0 ≡ n
unfolding add_u128
add-zero n h = omega arith

module _ (m : ChannelManager) (b : AreBacked m) where
  put-AreBacked : (id : ℕ) (c : Channel) → IsBacked c → AreBacked (put m id c)
  put-AreBacked id c h = AllValues-insert IsBacked id c m.channels b h

  -- The writes that leave balances and deposit alone.
  found-IsBacked : (id : ℕ) (c : Channel) → get id m.channels ≡ some c → IsBacked c
  found-IsBacked id c e = AllValues-get IsBacked id c m.channels b e

  update_channel-AreBacked : (id : ℕ) (u : ChannelUpdate) → AreBacked (update_channel id u m).1
  unfolding update_channel
  update_channel-AreBacked id u = elim (Option-cases (get id m.channels)) [
    | inl missing ↦ ground arith
    | inr (c, found) ↦ ground (
      arith,
      put-AreBacked id (record c {
        nonce = u.nonce;
        sender_balance = u.sender_balance;
        receiver_balance = u.receiver_balance;
      }),
    )
  ]

  open_channel-AreBacked :
      (hash_data : List ℕ → ℕ) (sender receiver deposit height : ℕ)
      → deposit < u128_mod
      → AreBacked (open_channel hash_data sender receiver deposit height m).1
  unfolding open_channel
  open_channel-AreBacked hash_data sender receiver deposit height fits =
      let id = hash_data (id_preimage sender receiver height) in
      ground (
        arith,
        put-AreBacked id (opened id sender receiver deposit height m) (add-zero deposit fits),
      )

  dispute_channel-AreBacked :
      (id : ℕ) (u : ChannelUpdate) (who height : ℕ)
      → AreBacked (dispute_channel id u who height m).1
  unfolding dispute_channel
  dispute_channel-AreBacked id u who height = elim (Option-cases (get id m.channels)) [
    | inl missing ↦ ground arith
    | inr (c, found) ↦ ground (
      arith,
      put-AreBacked id (record c {
        nonce = u.nonce;
        sender_balance = u.sender_balance;
        receiver_balance = u.receiver_balance;
        status = disputed height;
        last_updated = height;
      }),
    )
  ]

  top_up-AreBacked : (id amount : ℕ) → AreBacked (top_up id amount m).1
  unfolding top_up
  top_up-AreBacked id amount = elim (Option-cases (get id m.channels)) [
    | inl missing ↦ ground arith
    | inr (c, found) ↦
        let sum =
          add-top_up c.sender_balance c.receiver_balance c.deposit amount
            (found-IsBacked id c found) in
        ground (
          arith,
          put-AreBacked id
              (record c {
                deposit = add_u128 c.deposit amount;
                sender_balance = add_u128 c.sender_balance amount;
              })
              sum,
        )
  ]

  -- A write of the status alone.
  status-AreBacked :
      (id : ℕ) (c : Channel) (status : ChannelStatus) (height : ℕ)
      → get id m.channels ≡ some c
      → AreBacked (put m id (record c { status = status; last_updated = height }))
  status-AreBacked id c status height found =
      put-AreBacked id (record c { status = status; last_updated = height })
        (found-IsBacked id c found)

  close_channel-AreBacked : (id who height : ℕ) → AreBacked (close_channel id who height m).1
  unfolding close_channel
  close_channel-AreBacked id who height = elim (Option-cases (get id m.channels)) [
    | inl missing ↦ ground arith
    | inr (c, found) ↦ ground (arith, status-AreBacked id c (closing height) height found)
  ]

  finalize_channel-AreBacked : (id height : ℕ) → AreBacked (finalize_channel id height m).1
  unfolding finalize_channel
  finalize_channel-AreBacked id height = elim (Option-cases (get id m.channels)) [
    | inl missing ↦ ground arith
    | inr (c, found) ↦ ground (arith, status-AreBacked id c closed height found)
  ]

  check_expired-AreBacked : (id height : ℕ) → AreBacked (check_expired id height m).1
  unfolding check_expired
  check_expired-AreBacked id height = elim (Option-cases (get id m.channels)) [
    | inl missing ↦ ground arith
    | inr (c, found) ↦ ground (arith, status-AreBacked id c expired height found)
  ]

  step-AreBacked : (hash_data : List ℕ → ℕ) (c : Call) → IsTyped c → AreBacked (step hash_data m c)
  unfolding step
  step-AreBacked hash_data (opens s r deposit height) fits =
      open_channel-AreBacked hash_data s r deposit height fits
  step-AreBacked hash_data (updates id u) _ = update_channel-AreBacked id u
  step-AreBacked hash_data (closes id who height) _ = close_channel-AreBacked id who height
  step-AreBacked hash_data (disputes id u who height) _ = dispute_channel-AreBacked id u who height
  step-AreBacked hash_data (finalizes id height) _ = finalize_channel-AreBacked id height
  step-AreBacked hash_data (tops_up id amount) _ = top_up-AreBacked id amount
  step-AreBacked hash_data (expires id height) _ = check_expired-AreBacked id height

-- In any history of calls with 128-bit deposits, from a manager whose channels are backed, the
-- two balances of every channel add up to its deposit in 128-bit arithmetic.
pub channels_stay_backed :
    (hash_data : List ℕ → ℕ) (m : ChannelManager) (cs : List Call)
    → AreBacked m
    → All IsTyped cs
    → AreBacked (run hash_data m cs)
unfolding run
channels_stay_backed hash_data m [] b typed = b
channels_stay_backed hash_data m (c ∷ cs) b typed =
    channels_stay_backed hash_data (step hash_data m c) cs (step-AreBacked m b hash_data c typed.0)
      typed.1

-- An update of an open channel with a later nonce may give the receiver one more than the
-- deposit: with the largest 128-bit number for the sender the sum wraps round to the deposit, and
-- the update is accepted.
pub update_wraps :
    (id nonce : ℕ) (c : Channel) (m : ChannelManager)
    → get id m.channels ≡ some c
    → c.status ≡ is_open
    → c.nonce < nonce
    → c.deposit + 1 < u128_mod
    → let u : ChannelUpdate = record {
      channel_id = id;
      nonce = nonce;
      sender_balance = u128_mod - 1;
      receiver_balance = c.deposit + 1;
    } in
      update_channel id u m ≡ (
        ok tt,
        put m id (record c {
          nonce = nonce;
          sender_balance = u128_mod - 1;
          receiver_balance = c.deposit + 1;
        }),
      )
unfolding update_channel add_u128
update_wraps id nonce c m found open_status later fits = ground arith
