-- ===== src/Channel/Lifecycle.antt =====
-- The life of one channel of core/blockchain/src/channel/manager.rs under any calls.
use is_a_chain.Prelude.{
  ℕ, ◌≤◌, ◌≡◌, ◌≢◌, refl, Bool, true, false, List, [], ◌∷◌, All, arith, Option, none, some, get,
  get-insert, ◌==◌,
}
use is_a_chain.Channel.{
  Channel, ChannelManager, ChannelStatus, Call, opens, updates, closes, disputes, finalizes,
  tops_up, expires, open_channel, update_channel, close_channel, dispute_channel, finalize_channel,
  top_up, check_expired, step, run, opened, is_open, closing, disputed, closed, expired,
  id_preimage,
}

-- The moves of the status. A settled channel never moves again.
abbrev pub may_move : ChannelStatus → ChannelStatus → Bool
may_move is_open closed = false
may_move is_open _ = true
may_move (closing h) (closing h') = h == h'
may_move (closing h) (disputed _) = true
may_move (closing h) closed = true
may_move (disputed h) (disputed h') = h == h'
may_move (disputed h) closed = true
may_move closed closed = true
may_move expired expired = true
may_move _ _ = false

abbrev pub is_settled : ChannelStatus → Bool
is_settled closed = true
is_settled expired = true
is_settled _ = false

-- What a call may do to a channel.
pub record Evolves (c c' : Channel) : Type 0 where
  pub same_sender : c'.sender ≡ c.sender
  pub same_receiver : c'.receiver ≡ c.receiver
  pub same_period : c'.dispute_period ≡ c.dispute_period
  pub nonce_mono : c.nonce ≤ c'.nonce
  pub moved : may_move c.status c'.status ≡ true

abbrev pub EvolvesTo : Channel → Option Channel → Type 0
EvolvesTo c none = ⊥
EvolvesTo c (some c') = Evolves c c'

-- The identifier under which a call opens a channel is not `j`.
abbrev pub Avoids : (List ℕ → ℕ) → ℕ → Call → Type 0
Avoids hash_data j (opens sender receiver deposit height) =
    hash_data (id_preimage sender receiver height) ≢ j
Avoids hash_data j _ = Unit

module _ (hash_data : List ℕ → ℕ) (m : ChannelManager) (j : ℕ) (c : Channel)
    (found : get j m.channels ≡ some c) where
  -- Any call but an opening under its identifier keeps a channel's parties and dispute period,
  -- never lowers its nonce, and moves its status only along the life cycle.
  pub step-EvolvesTo :
      (call : Call) → Avoids hash_data j call → EvolvesTo c (get j (step hash_data m call).channels)
  unfolding step open_channel update_channel close_channel dispute_channel finalize_channel top_up
      check_expired
  step-EvolvesTo (opens s r deposit height) avoids =
      let id = hash_data (id_preimage s r height) in
      ground (arith, get-insert j id (opened id s r deposit height m) m.channels)
  step-EvolvesTo (updates id u) avoids = grind (arith, get-insert)
  step-EvolvesTo (closes id who height) avoids = grind (arith, get-insert)
  step-EvolvesTo (disputes id u who height) avoids = grind (arith, get-insert)
  step-EvolvesTo (finalizes id height) avoids = grind (arith, get-insert)
  step-EvolvesTo (tops_up id amount) avoids = grind (arith, get-insert)
  step-EvolvesTo (expires id height) avoids = grind (arith, get-insert)

  -- A settled channel is not written by any of these calls.
  step-settled :
      (call : Call)
      → Avoids hash_data j call
      → is_settled c.status ≡ true
      → get j (step hash_data m call).channels ≡ some c
  unfolding step open_channel update_channel close_channel dispute_channel finalize_channel top_up
      check_expired
  step-settled (opens s r deposit height) avoids settled =
      let id = hash_data (id_preimage s r height) in
      ground (arith, get-insert j id (opened id s r deposit height m) m.channels)
  step-settled (updates id u) avoids settled = grind (arith, get-insert)
  step-settled (closes id who height) avoids settled = grind (arith, get-insert)
  step-settled (disputes id u who height) avoids settled = grind (arith, get-insert)
  step-settled (finalizes id height) avoids settled = grind (arith, get-insert)
  step-settled (tops_up id amount) avoids settled = grind (arith, get-insert)
  step-settled (expires id height) avoids settled = grind (arith, get-insert)

-- A closed or expired channel stays exactly as it is, with whatever balances it holds, in every
-- history in which no opening hits its identifier again.
pub settled_frozen :
    (hash_data : List ℕ → ℕ) (m : ChannelManager) (j : ℕ) (c : Channel) (cs : List Call)
    → get j m.channels ≡ some c
    → is_settled c.status ≡ true
    → All (Avoids hash_data j) cs
    → get j (run hash_data m cs).channels ≡ some c
unfolding run
settled_frozen hash_data m j c [] found settled avoids = found
settled_frozen hash_data m j c (call ∷ cs) found settled avoids =
    settled_frozen hash_data (step hash_data m call) j c cs
      (step-settled hash_data m j c found call avoids.0 settled) settled avoids.1

-- How far a status is in the life cycle.
abbrev pub stage : ChannelStatus → ℕ
stage is_open = 0
stage (closing _) = 1
stage (disputed _) = 2
stage closed = 3
stage expired = 3

pub record IsLater (c c' : Channel) : Type 0 where
  pub same_sender : c'.sender ≡ c.sender
  pub same_receiver : c'.receiver ≡ c.receiver
  pub same_period : c'.dispute_period ≡ c.dispute_period
  pub nonce_mono : c.nonce ≤ c'.nonce
  pub stage_mono : stage c.status ≤ stage c'.status

stage_mono : (s s' : ChannelStatus) → may_move s s' ≡ true → stage s ≤ stage s'
stage_mono s s' h = ground arith

Evolves-IsLater : (c c' : Channel) → Evolves c c' → IsLater c c'
Evolves-IsLater c c' e = ground (arith, stage_mono c.status c'.status)

IsLater-trans : (a b c : Channel) → IsLater a b → IsLater b c → IsLater a c
IsLater-trans a b c p q = ground arith

evolved :
    (c : Channel) (o : Option Channel)
    → EvolvesTo c o
    → (c' : Channel) × (o ≡ some c') × Evolves c c'
evolved c none e = absurd e
evolved c (some c') e = (c', refl, e)

-- In every history in which no opening hits the identifier of a channel again, the channel is
-- still there with the same parties and dispute period, a nonce at least as high, and a status
-- at the same stage of the life cycle or a later one.
pub channel_history :
    (hash_data : List ℕ → ℕ) (m : ChannelManager) (j : ℕ) (c : Channel) (cs : List Call)
    → get j m.channels ≡ some c
    → All (Avoids hash_data j) cs
    → (c' : Channel) × (get j (run hash_data m cs).channels ≡ some c') × IsLater c c'
unfolding run
channel_history hash_data m j c [] found avoids = (c, found, ground arith)
channel_history hash_data m j c (call ∷ cs) found avoids =
    let m' = step hash_data m call in
    let (c', found', e) =
      evolved c (get j m'.channels) (step-EvolvesTo hash_data m j c found call avoids.0) in
    let (c'', found'', later) = channel_history hash_data m' j c' cs found' avoids.1 in
    (c'', found'', IsLater-trans c c' c'' (Evolves-IsLater c c' e) later)
