-- ===== src/Server/Forward/Transparent.antt =====
-- What `pump` of crates/sqshd/src/channel/forward.rs hands on.
use squish.Server.Forward.{
  PumpEvent, PumpState, pumping, tcp_read, tcp_end, received, pump, pump_step, receive_message,
  receive_result,
}
use squish.Proto.Codec.{Postcard, Reader, read_message, max_frame_size}
use squish.Proto.Codec.RoundTrip.{frame, read_message-frame}
use squish.Proto.Channel.{ChannelMessage, channel_data, eof, close}
use squish.Proto.Message.{Bytes, SqshError}
use squish.Prelude.{
  ◌≡◌, refl, List, [], ◌∷◌, ◌++◌, true, false, append_assoc, append-nil, sym, ◌∙◌, ap, ℕ, ◌+◌, ◌≤◌,
  Bool, length, some, ok, err, Result, arith, ok-injective, All,
}

-- The data that messages carry.
abbrev pub data_of : ChannelMessage → Bytes
data_of (channel_data chunk) = chunk
data_of _ = []

abbrev pub payload : List ChannelMessage → Bytes
payload [] = []
payload (m ∷ ms) = data_of m ++ payload ms

-- What was read from the TCP connection, and how often `recv` was ready.
abbrev pub from_tcp : List PumpEvent → Bytes
from_tcp [] = []
from_tcp (tcp_read chunk taken sends ∷ es) = chunk ++ from_tcp es
from_tcp (_ ∷ es) = from_tcp es

abbrev pub receipts : List PumpEvent → ℕ
receipts [] = 0
receipts (received writes ∷ es) = 1 + receipts es
receipts (_ ∷ es) = receipts es

-- Sending and writing succeed, the TCP connection goes on, and no `recv` was dropped behind the
-- first bytes of a frame.
abbrev pub Undisturbed : PumpEvent → Type 0
Undisturbed (tcp_read chunk taken sends) = (taken ≡ 0) × (sends ≡ true)
Undisturbed tcp_end = ⊥
Undisturbed (received writes) = writes ≡ true

-- The message does not end the channel.
abbrev pub GoesOn : ChannelMessage → Type 0
GoesOn eof = ⊥
GoesOn close = ⊥
GoesOn _ = Unit {0}

payload-append : (ms ns : List ChannelMessage) → payload (ms ++ ns) ≡ payload ms ++ payload ns
payload-append [] ns = refl
payload-append (m ∷ ms) ns =
    ap (λ l. data_of m ++ l) (payload-append ms ns)
    ∙ sym (append_assoc (data_of m) (payload ms) (payload ns))

module _ (p : Postcard ChannelMessage) (R : Reader) where
  -- The frames of messages that a reader takes, and what stands behind them.
  abbrev pub Brings : List ChannelMessage → Bytes → Bytes → Type 0
  Brings [] pending rest = pending ≡ rest
  Brings (m ∷ ms) pending rest =
      (bytes : Bytes) × (p.to_allocvec m ≡ some bytes)
      × (length bytes ≤ max_frame_size)
      × ((later : Bytes) × (pending ≡ frame bytes ++ later) × Brings ms later rest)

  receive_message-pumping :
      (m : ChannelMessage) (s : PumpState p R)
      → GoesOn m
      → (s' : PumpState p R) × (receive_message p R m true s ≡ pumping s')
        × (s'.sent ≡ s.sent)
        × (s'.stream ≡ s.stream)
        × (s'.written ≡ s.written ++ data_of m)
  receive_message-pumping (channel_data chunk) s g =
      (record s { written = s.written ++ chunk }, refl, refl, refl, refl)
  receive_message-pumping eof s g = absurd g
  receive_message-pumping close s g = absurd g
  receive_message-pumping _ s g = (s, refl, refl, refl, sym (append-nil s.written))

  receive_result-ok :
      (x : R.State × Result SqshError ChannelMessage) (writes : Bool) (s : PumpState p R)
      {m : ChannelMessage}
      → x.1 ≡ ok m
      → receive_result p R x writes s ≡ receive_message p R m writes (record s { stream = x.0 })
  receive_result-ok (r, ok m) writes s h = rw (ok-injective h)
  receive_result-ok (r, err e) writes s h = cc

  -- What has been handed on between two states of the loop.
  pub record Delivers (s s' : PumpState p R) (read : Bytes) (ms : List ChannelMessage)
      (rest : Bytes) : Type 0 where
    pub to_channel : payload s'.sent ≡ payload s.sent ++ read
    pub to_tcp : s'.written ≡ s.written ++ payload ms
    pub left : R.pending s'.stream ≡ rest

  -- While sending and writing succeed, neither end stops, and no `recv` is dropped behind the first
  -- bytes of a frame: the loop goes on; the channel has got exactly the bytes read from the TCP
  -- connection, and the connection exactly the data of the messages whose frames the channel's
  -- stream brought, in order; and what stands behind these frames is still to be read.
  pub pump_transparent :
      (es : List PumpEvent) (ms : List ChannelMessage) (rest : Bytes) (s : PumpState p R)
      → All Undisturbed es
      → All GoesOn ms
      → Brings ms (R.pending s.stream) rest
      → receipts es ≡ length ms
      → (s' : PumpState p R) × (pump p R (pumping s) es ≡ pumping s')
        × Delivers s s' (from_tcp es) ms rest
  unfolding pump pump_step
  pump_transparent [] [] rest s u g b n = (
    s,
    refl,
    record {
      to_channel = sym (append-nil (payload s.sent));
      to_tcp = sym (append-nil s.written);
      left = b;
    },
  )
  pump_transparent [] (m ∷ ms) rest s u g b n = absurd (omega arith)
  pump_transparent (tcp_end ∷ es) ms rest s u g b n = absurd u.0
  pump_transparent (tcp_read chunk taken false ∷ es) ms rest s u g b n = cc (u.0.1)
  pump_transparent (tcp_read chunk taken true ∷ es) ms rest s (u, us) g b n =
      let stream = (R.read_exact s.stream taken).0 in
      let untouched : R.pending stream ≡ R.pending s.stream =
        rw u.0 (R.pending-read_exact s.stream 0 (omega arith)) in
      let s₁ = record s { sent = s.sent ++ channel_data chunk ∷ []; stream = stream } in
      let (s', runs, d) = pump_transparent es ms rest s₁ us g (rw untouched b) n in
      (
        s',
        runs,
        record {
          to_channel =
              d.to_channel
              ∙ ap (λ l. l ++ from_tcp es) (payload-append s.sent (channel_data chunk ∷ []))
              ∙ rw (append_assoc, append-nil);
          to_tcp = d.to_tcp;
          left = d.left;
        },
      )
  pump_transparent (received writes ∷ es) [] rest s u g b n = absurd (omega arith)
  pump_transparent (received false ∷ es) (m ∷ ms) rest s u g b n = cc (u.0)
  pump_transparent (received true ∷ es) (m ∷ ms) rest s (u, us) (g, gs) b n =
      let (bytes, e, small, (later, first, others)) = b in
      let x = read_message p R s.stream in
      let (message, behind) = read_message-frame p R s.stream m bytes later e small first in
      let taken_up = receive_result-ok x true s message in
      let (s₂, go_on, same_sent, same_stream, got) =
        receive_message-pumping m (record s { stream = x.0 }) g in
      let (s', runs, d) =
        pump_transparent es ms rest s₂ us gs (rw (same_stream, behind) others) (omega arith) in
      (
        s',
        rw (taken_up, go_on) runs,
        record {
          to_channel = d.to_channel ∙ rw same_sent;
          to_tcp = d.to_tcp ∙ rw got (append_assoc s.written (data_of m) (payload ms));
          left = d.left;
        },
      )
