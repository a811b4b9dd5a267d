-- ===== src/Proto/State.antt =====
-- crates/sqsh-core/src/channel/state.rs: the states of a channel, and which way data may go.
use squish.Prelude.{Bool, true, false, ◌≡◌, refl}

-- `Open` is `opened`.
pub data ChannelState : Type 0 where
  opening opened eof_sent eof_received closing closed : ChannelState

pub can_send_data : ChannelState → Bool
can_send_data opened = true
can_send_data eof_received = true
can_send_data _ = false

pub can_recv_data : ChannelState → Bool
can_recv_data opened = true
can_recv_data eof_sent = true
can_recv_data _ = false

-- The state of the same channel as the other end has it, when every message has arrived.
abbrev mirror : ChannelState → ChannelState
mirror eof_sent = eof_received
mirror eof_received = eof_sent
mirror s = s

-- An end may send exactly when the other end, in the mirrored state, may receive.
pub can_send_data-mirror : (s : ChannelState) → can_send_data (mirror s) ≡ can_recv_data s
unfolding can_send_data can_recv_data
can_send_data-mirror opening = refl
can_send_data-mirror _ = refl
