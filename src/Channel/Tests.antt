-- ===== src/Channel/Tests.antt =====
-- Tests of the payment channels, and their theorems at concrete inputs.
use is_a_chain.Prelude.{ℕ, ◌+◌, ◌≡◌, refl, some, List, [], ◌∷◌, arith, get, add_u64, add_u128}
use is_a_chain.Channel.{
  Channel, ChannelUpdate, ChannelManager, Call, opens, updates, closes, finalizes, tops_up, is_open,
  closing, closed, expired, new, update_channel, close_channel, finalize_channel, top_up, step, run,
}
use is_a_chain.Channel.Balances.{AreBacked, channels_stay_backed}
use is_a_chain.Channel.Lifecycle.{channel_history, IsLater}

-- A hash that is the sum of the bytes.
abbrev hash_data : List ℕ → ℕ
hash_data [] = 0
hash_data (b ∷ bs) = b + hash_data bs

abbrev channel : Channel
channel = record {
  id = 8;
  sender = 1;
  receiver = 2;
  deposit = 1000;
  sender_balance = 700;
  receiver_balance = 300;
  nonce = 4;
  status = is_open;
  opened_at = 5;
  expires_at = 105;
  last_updated = 5;
  dispute_period = 10;
}

abbrev manager : ChannelManager
manager = record (new 10 100) { channels = (8, channel) ∷ [] }

abbrev at_status_closing : ChannelManager
at_status_closing = record manager { channels = (8, record channel { status = closing 20 }) ∷ [] }

abbrev update : ChannelUpdate
update = record { channel_id = 8; nonce = 5; sender_balance = 600; receiver_balance = 400 }

abbrev calls : List Call
calls = updates 8 update ∷ closes 8 2 20 ∷ tops_up 8 5 ∷ finalizes 8 29 ∷ finalizes 8 30 ∷ []

channels_stay_backed_example : AreBacked (run hash_data manager (opens 3 4 50 6 ∷ calls))
unfolding add_u128
channels_stay_backed_example =
    channels_stay_backed hash_data manager (opens 3 4 50 6 ∷ calls) (refl, tt) (omega arith)

-- The top-up comes after the closing and is refused; the dispute period ends at height 30.
run-calls :
    get 8 (run hash_data manager calls).channels
    ≡ some (record channel {
      sender_balance = 600;
      receiver_balance = 400;
      nonce = 5;
      status = closed;
      last_updated = 30;
    })
unfolding run step update_channel close_channel top_up finalize_channel add_u128 add_u64
run-calls = refl

abbrev expired_channel : Channel
expired_channel = record channel { status = expired }

abbrev with_expired : ChannelManager
with_expired = record manager { channels = (8, expired_channel) ∷ [] }

channel_history_example :
    (c' : Channel) × (get 8 (run hash_data manager calls).channels ≡ some c') × IsLater channel c'
channel_history_example =
    channel_history hash_data manager 8 channel calls refl (tt, (tt, (tt, (tt, (tt, tt)))))
