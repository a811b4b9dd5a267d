-- ===== src/Proto/Codec/RoundTrip.antt =====
-- Writing and reading one message, and the limit on the length of a frame
-- (crates/sqsh-core/src/proto/codec.rs).
use squish.Prelude.{
  length, ◌++◌, ◌≡◌, some, ok, ◌<◌, ◌≤◌, Result, ap, arith, Option, ◌∙◌, Bool-cases, refl,
  append_assoc, err, if◌then◌else◌, ltb, inl, ltb→lt, inr, length-append, none, lt→ltb,
  ok-injective, take-length-append, ltb-eq-false, drop-length-append,
}
use squish.Proto.Codec.{
  Postcard, Reader, Writer, read_message, write_payload, write_message, max_frame_size, write_frame,
  read_header, sent_payload, read_body, decode,
}
use squish.Proto.Message.{Bytes, IoError, codec, frame_too_large}
use squish.Proto.Codec.Words.{u32_mod, u32_to_le, u32_from_le, u32_from_le-u32_to_le}

-- A payload behind its length.
abbrev pub frame : Bytes → Bytes
frame payload = u32_to_le (length payload) ++ payload

module _ {T : Type 0} (p : Postcard T) (W : Writer) where
  sent_payload-ok :
      (x : W.State × Result IoError (Unit {0}))
      → (sent_payload p W x).1 ≡ ok tt
      → (x.1 ≡ ok tt) × ((sent_payload p W x).0 ≡ x.0)
  sent_payload-ok (w, err e) h = cc
  sent_payload-ok (w, ok tt) h = (refl, refl)

  write_payload-ok :
      (payload : Bytes) (x : W.State × Result IoError (Unit {0}))
      → (write_payload p W payload x).1 ≡ ok tt
      → (x.1 ≡ ok tt)
        × ((W.write_all x.0 payload).1 ≡ ok tt)
        × ((write_payload p W payload x).0 ≡ (W.write_all x.0 payload).0)
  write_payload-ok payload (w, err e) h = cc
  write_payload-ok payload (w, ok tt) h =
      let (a, b) = sent_payload-ok (W.write_all w payload) h in (refl, a, b)

  write_payload-sent :
      (payload : Bytes) (w : W.State)
      → (write_payload p W payload (W.write_all w (u32_to_le (length payload)))).1 ≡ ok tt
      → W.sent (write_payload p W payload (W.write_all w (u32_to_le (length payload)))).0
        ≡ W.sent w ++ frame payload
  write_payload-sent payload w h =
      let (a, b, c) = write_payload-ok payload (W.write_all w (u32_to_le (length payload))) h in
      ap W.sent c
      ∙ W.sent-write_all _ payload b
      ∙ rw (W.sent-write_all w (u32_to_le (length payload)) a)
          (append_assoc (W.sent w) (u32_to_le (length payload)) payload)

  write_frame-sent :
      (w : W.State) (o : Option Bytes)
      → (write_frame p W w o).1 ≡ ok tt
      → (payload : Bytes) × (o ≡ some payload)
        × (length payload < u32_mod)
        × (W.sent (write_frame p W w o).0 ≡ W.sent w ++ frame payload)
  write_frame-sent w none h = cc
  write_frame-sent w (some payload) h = elim (Bool-cases (ltb (length payload) u32_mod)) [
    | inl fits ↦
        (payload, refl, ltb→lt _ _ fits, rw fits (write_payload-sent payload w (rw fits at h)))
    | inr big ↦ cc (rw big at h)
  ]

  -- The bytes of a message that was written: what was sent before, and one frame.
  pub sent-write_message :
      (w : W.State) (msg : T)
      → (write_message p W w msg).1 ≡ ok tt
      → (payload : Bytes) × (p.to_allocvec msg ≡ some payload)
        × (length payload < u32_mod)
        × (W.sent (write_message p W w msg).0 ≡ W.sent w ++ frame payload)
  unfolding write_message
  sent-write_message w msg h = write_frame-sent w (p.to_allocvec msg) h

module _ {T : Type 0} (p : Postcard T) (R : Reader) where
  pub read_header-ok :
      (x : R.State × Result IoError Bytes) {buf : Bytes}
      → x.1 ≡ ok buf
      → read_header p R x ≡ (
          if ltb max_frame_size (u32_from_le buf)
          then (x.0, err (codec (frame_too_large (u32_from_le buf))))
          else read_body p R (R.read_exact x.0 (u32_from_le buf)))
  read_header-ok (r, err e) h = cc
  read_header-ok (r, ok b) h = rw (ok-injective h)

  read_body-ok :
      (x : R.State × Result IoError Bytes) {buf : Bytes}
      → x.1 ≡ ok buf
      → read_body p R x ≡ (x.0, decode p R (p.from_bytes buf))
  read_body-ok (r, err e) h = cc
  read_body-ok (r, ok b) h = rw (ok-injective h)

  -- The four bytes of the length, and what stands behind them.
  pub header_read :
      (r : R.State) (payload rest : Bytes)
      → R.pending r ≡ frame payload ++ rest
      → ((R.read_exact r 4).1 ≡ ok (u32_to_le (length payload)))
        × (R.pending (R.read_exact r 4).0 ≡ payload ++ rest)
  unfolding u32_to_le
  header_read r payload rest h =
      let enough : 4 ≤ length (R.pending r) = rw h (omega arith) in
      (R.read_exact-enough r 4 enough ∙ rw h refl, R.pending-read_exact r 4 enough ∙ rw h refl)

  -- A frame within the limit is read as the message that it encodes, and no byte more.
  pub read_message-frame :
      (r : R.State) (msg : T) (payload rest : Bytes)
      → p.to_allocvec msg ≡ some payload
      → length payload ≤ max_frame_size
      → R.pending r ≡ frame payload ++ rest
      → ((read_message p R r).1 ≡ ok msg) × (R.pending (read_message p R r).0 ≡ rest)
  unfolding read_message
  read_message-frame r msg payload rest e fits h =
      let (a, b) = header_read r payload rest h in
      let len = length payload in
      let r' = (R.read_exact r 4).0 in
      let enough : len ≤ length (R.pending r') = rw (b, length-append payload rest) (omega arith) in
      let c : (R.read_exact r' len).1 ≡ ok payload =
        R.read_exact-enough r' len enough ∙ rw (b, take-length-append payload rest) refl in
      rw
        (
          read_header-ok (R.read_exact r 4) a,
          u32_from_le-u32_to_le len (omega arith),
          ltb-eq-false max_frame_size len fits,
          read_body-ok (R.read_exact r' len) c,
          p.from_bytes-to_allocvec msg payload e,
        )
        (refl, R.pending-read_exact r' len enough ∙ rw (b, drop-length-append payload rest) refl)

  -- A longer one is refused by its length alone.
  pub read_message-too_large :
      (r : R.State) (payload rest : Bytes)
      → max_frame_size < length payload
      → length payload < u32_mod
      → R.pending r ≡ frame payload ++ rest
      → (read_message p R r).1 ≡ err (codec (frame_too_large (length payload)))
  unfolding read_message
  read_message-too_large r payload rest big small h =
      let (a, b) = header_read r payload rest h in
      rw (
        read_header-ok (R.read_exact r 4) a,
        u32_from_le-u32_to_le (length payload) small,
        lt→ltb max_frame_size (length payload) big,
      )
