-- ===== src/Server/Forward/Interrupted.antt =====
-- What becomes of a message whose `recv` is dropped by `pump` of
-- crates/sqshd/src/channel/forward.rs.
use squish.Server.Forward.{
  PumpState, pumping, ended, tcp_read, received, pump, pump_step, receive_result,
}
use squish.Proto.Codec.{Postcard, Reader, read_message, max_frame_size}
use squish.Proto.Codec.RoundTrip.{frame, header_read, read_header-ok}
use squish.Proto.Codec.Words.{u32_from_le}
use squish.Proto.Channel.{ChannelMessage, channel_data}
use squish.Proto.Message.{Bytes, SqshError, codec, frame_too_large}
use squish.Prelude.{
  ◌≡◌, refl, [], ◌∷◌, ◌++◌, true, ◌≤◌, ◌<◌, Bool, length, take, some, ok, err, Result, lt→ltb, ◌∙◌,
}

module _ (p : Postcard ChannelMessage) (R : Reader) where
  read_message-header_large :
      (r : R.State) (behind : Bytes)
      → R.pending r ≡ behind
      → 4 ≤ length behind
      → max_frame_size < u32_from_le (take 4 behind)
      → (read_message p R r).1 ≡ err (codec (frame_too_large (u32_from_le (take 4 behind))))
  unfolding read_message
  read_message-header_large r behind e enough big =
      let header : (R.read_exact r 4).1 ≡ ok (take 4 behind) =
        R.read_exact-enough r 4 (rw e enough) ∙ rw e refl in
      rw (
        read_header-ok p R (R.read_exact r 4) header,
        lt→ltb max_frame_size (u32_from_le (take 4 behind)) big,
      )

  receive_result-err :
      (x : R.State × Result SqshError ChannelMessage) (writes : Bool) (s : PumpState p R)
      {e : SqshError}
      → x.1 ≡ err e
      → receive_result p R x writes s ≡ ended (record s { stream = x.0 })
  receive_result-err (r, ok m) writes s h = cc
  receive_result-err (r, err e) writes s h = refl

  -- A message is lost, and the connection ended, if data comes from the TCP connection when the
  -- `recv` has read the header of its frame and no more, and the next four bytes are the number of
  -- a length above the limit: the next `recv` takes these for a header and fails.
  pub pump-header_lost :
      (s : PumpState p R) (m : ChannelMessage) (chunk bytes rest : Bytes)
      → p.to_allocvec m ≡ some bytes
      → R.pending s.stream ≡ frame bytes ++ rest
      → 4 ≤ length (bytes ++ rest)
      → max_frame_size < u32_from_le (take 4 (bytes ++ rest))
      → (s' : PumpState p R) × (pump p R (pumping s) (tcp_read chunk 4 true ∷ received true ∷ [])
          ≡ ended s')
        × (s'.sent ≡ s.sent ++ channel_data chunk ∷ [])
        × (s'.written ≡ s.written)
  unfolding pump pump_step
  pump-header_lost s m chunk bytes rest e brings enough big =
      let stream = (R.read_exact s.stream 4).0 in
      let (_, behind) = header_read p R s.stream bytes rest brings in
      let s₁ = record s { sent = s.sent ++ channel_data chunk ∷ []; stream = stream } in
      let refused = read_message-header_large stream (bytes ++ rest) behind enough big in
      (
        record s₁ { stream = (read_message p R stream).0 },
        receive_result-err (read_message p R stream) true s₁ refused,
        refl,
        refl,
      )
