-- ===== src/Server/Forward.antt =====
-- `pump` of crates/sqshd/src/channel/forward.rs: bytes between a TCP connection and a channel. Both
-- ends are taken as they are ready, so a run is a sequence of events in any order. `select!` drops
-- the future of the end that was not ready; that of `recv` keeps what it has read of a frame in a
-- buffer of its own (crates/sqsh-core/src/proto/codec.rs), so these bytes are dropped with it.
pub mod Transparent
pub mod Interrupted
pub mod Remote
use squish.Proto.Channel.{ChannelMessage, channel_data, eof, close}
use squish.Proto.Codec.{Postcard, Reader, read_message}
use squish.Proto.Message.{Bytes, SqshError}
use squish.Prelude.{ℕ, List, [], ◌∷◌, ◌++◌, Bool, true, false, Result, ok, err}

pub data PumpEvent : Type 0 where
  -- A chunk that `read` returned, how many bytes of a frame the `recv` that is dropped had taken
  -- from the stream, and whether the channel takes the message.
  tcp_read : Bytes → (taken : ℕ) → (sends : Bool) → PumpEvent
  -- End of the TCP stream, or an error.
  tcp_end : PumpEvent
  -- `recv` is ready, and whether `write_all` succeeds on the data of its message.
  received : (writes : Bool) → PumpEvent

module _ (p : Postcard ChannelMessage) (R : Reader) where
  -- What the channel and the TCP connection got, and the stream that the channel is read from.
  pub record PumpState : Type 0 where
    pub sent : List ChannelMessage
    pub written : Bytes
    pub stream : R.State

  -- The loop goes on, is left by `break`, or by an error.
  pub data Pump : Type 0 where
    pumping ended aborted : PumpState → Pump

  abbrev pub send_chunk : Bool → PumpState → Pump
  send_chunk true s = pumping s
  send_chunk false s = aborted s

  abbrev pub write_chunk : Bytes → Bool → PumpState → Pump
  write_chunk chunk true s = pumping (record s { written = s.written ++ chunk })
  write_chunk chunk false s = ended s

  abbrev pub receive_message : ChannelMessage → Bool → PumpState → Pump
  receive_message (channel_data chunk) writes s = write_chunk chunk writes s
  receive_message eof writes s = ended s
  receive_message close writes s = ended s
  receive_message _ writes s = pumping s

  abbrev pub receive_result : R.State × Result SqshError ChannelMessage → Bool → PumpState → Pump
  receive_result (r, ok m) writes s = receive_message m writes (record s { stream = r })
  receive_result (r, err e) writes s = ended (record s { stream = r })

  unfoldable pub pump_step : PumpState → PumpEvent → Pump
  pump_step s (tcp_read chunk taken sends) = send_chunk sends (record s {
    sent = s.sent ++ channel_data chunk ∷ [];
    stream = (R.read_exact s.stream taken).0;
  })
  pump_step s tcp_end = ended (record s { sent = s.sent ++ eof ∷ [] })
  pump_step s (received writes) = receive_result (read_message p R s.stream) writes s

  abbrev pub then_pump : Pump → PumpEvent → Pump
  then_pump (pumping s) e = pump_step s e
  then_pump (ended s) e = ended s
  then_pump (aborted s) e = aborted s

  unfoldable pub pump : Pump → List PumpEvent → Pump
  unfolding pump_step
  pump p [] = p
  pump p (e ∷ es) = pump (then_pump p e) es
