-- ===== src/Proto/Codec/Streams.antt =====
-- Several messages on one stream, and the messages that are written but cannot be read.
use squish.Proto.Codec.Words.{u32_mod, u32_to_le}
use squish.Proto.Message.{Bytes, IoError, SqshError, codec, frame_too_large}
use squish.Proto.Codec.{
  Postcard, Writer, Reader, write_messages, read_messages, write_next, prepend, read_next,
  max_frame_size, write_message, read_message, write_payload, sent_payload,
}
use squish.Proto.Codec.RoundTrip.{
  frame, sent-write_message, read_message-frame, read_message-too_large,
}
use squish.Prelude.{
  ◌≡◌, Result, List, All, ◌++◌, ok, some, sym, length, err, ◌∷◌, refl, append-nil, ◌≤◌,
  ok-injective, [], append-injective, suc, ◌<◌, ◌∙◌, ap, append_assoc, lt→ltb,
}

module _ {T : Type 0} (p : Postcard T) (W : Writer) (R : Reader) where
  -- No payload is longer than a reader takes.
  abbrev pub Fits : List T → Type 0
  Fits = All (λ t. (bs : Bytes) → p.to_allocvec t ≡ some bs → length bs ≤ max_frame_size)

  -- What was sent after `before` is read as these messages, with nothing left over.
  abbrev ReadsAs : List T → Bytes → Bytes → Type 0
  ReadsAs ts before after =
      (frames : Bytes) × (after ≡ before ++ frames)
      × ((r : R.State) (rest : Bytes)
          → R.pending r ≡ frames ++ rest
          → ((read_messages p R (length ts) r).1 ≡ ok ts)
            × (R.pending (read_messages p R (length ts) r).0 ≡ rest))

  write_next-ok :
      (k : W.State → W.State × Result SqshError (Unit {0}))
      (x : W.State × Result SqshError (Unit {0}))
      → (write_next p W k x).1 ≡ ok tt
      → (x.1 ≡ ok tt) × (write_next p W k x ≡ k x.0)
  write_next-ok k (w, err e) h = cc
  write_next-ok k (w, ok tt) h = (refl, refl)

  read_next-ok :
      (k : R.State → R.State × Result SqshError (List T)) (x : R.State × Result SqshError T) {t : T}
      → x.1 ≡ ok t
      → read_next p R k x ≡ prepend p R t (k x.0)
  read_next-ok k (r, err e) h = cc
  read_next-ok k (r, ok t) h = rw (ok-injective h)

  prepend-ok :
      (t : T) (x : R.State × Result SqshError (List T)) {ts : List T}
      → x.1 ≡ ok ts
      → prepend p R t x ≡ (x.0, ok (t ∷ ts))
  prepend-ok t (r, err e) h = cc
  prepend-ok t (r, ok ts) h = rw (ok-injective h)

  read_first :
      (t : T) (ts : List T) (payload frames : Bytes) (r : R.State) (rest : Bytes)
      → p.to_allocvec t ≡ some payload
      → length payload ≤ max_frame_size
      → ((q : R.State) (rest' : Bytes)
          → R.pending q ≡ frames ++ rest'
          → ((read_messages p R (length ts) q).1 ≡ ok ts)
            × (R.pending (read_messages p R (length ts) q).0 ≡ rest'))
      → R.pending r ≡ (frame payload ++ frames) ++ rest
      → ((read_messages p R (suc (length ts)) r).1 ≡ ok (t ∷ ts))
        × (R.pending (read_messages p R (suc (length ts)) r).0 ≡ rest)
  unfolding read_messages
  read_first t ts payload frames r rest e small others h =
      let (a, b) =
        read_message-frame p R r t payload (frames ++ rest) e small
          (h ∙ append_assoc (frame payload) frames rest) in
      let q = (read_message p R r).0 in
      let (c, d) = others q rest b in
      rw
        (
          read_next-ok (read_messages p R (length ts)) (read_message p R r) a,
          prepend-ok t (read_messages p R (length ts) q) c,
        )
        (refl, d)

  write_messages-ReadsAs :
      (ts : List T) (w : W.State)
      → (write_messages p W ts w).1 ≡ ok tt
      → Fits ts
      → ReadsAs ts (W.sent w) (W.sent (write_messages p W ts w).0)
  unfolding write_messages read_messages
  write_messages-ReadsAs [] w h f = ([], sym (append-nil (W.sent w)), λ r rest e. (refl, e))
  write_messages-ReadsAs (t ∷ ts) w h f =
      let (a, b) = write_next-ok (write_messages p W ts) (write_message p W w t) h in
      let w' = (write_message p W w t).0 in
      let (payload, e, small, sent) = sent-write_message p W w t a in
      let (frames, after, others) = write_messages-ReadsAs ts w' (rw b at h) f.1 in
      (
        frame payload ++ frames,
        ap (λ (x : W.State × Result SqshError (Unit {0})). W.sent x.0) b
            ∙ after
            ∙ rw sent (append_assoc (W.sent w) (frame payload) frames),
        λ r rest. read_first t ts payload frames r rest e (f.0 payload e) others,
      )

  -- Messages that a writer sent without an error, each with a payload of at most 64 KiB, are read
  -- in order by a reader that receives what was written, and the reader stops behind the last.
  pub read_messages-write_messages :
      (ts : List T) (w : W.State) (r : R.State) (rest : Bytes)
      → (write_messages p W ts w).1 ≡ ok tt
      → Fits ts
      → W.sent w ++ R.pending r ≡ W.sent (write_messages p W ts w).0 ++ rest
      → ((read_messages p R (length ts) r).1 ≡ ok ts)
        × (R.pending (read_messages p R (length ts) r).0 ≡ rest)
  read_messages-write_messages ts w r rest h f e =
      let (frames, after, reads) = write_messages-ReadsAs ts w h f in
      reads r rest
        (append-injective (W.sent w) (W.sent w) refl
          (e ∙ rw after (append_assoc (W.sent w) frames rest))).1

  sent_payload-ok :
      (x : W.State × Result IoError (Unit {0})) → x.1 ≡ ok tt → (sent_payload p W x).1 ≡ ok tt
  sent_payload-ok (v, ok u) h = refl
  sent_payload-ok (v, err e) h = cc

  write_payload-ok :
      (payload : Bytes) (x : W.State × Result IoError (Unit {0}))
      → x.1 ≡ ok tt
      → ((v : W.State) (bs : Bytes) → (W.write_all v bs).1 ≡ ok tt)
      → (write_payload p W payload x).1 ≡ ok tt
  write_payload-ok payload (v, err e) h takes = cc
  write_payload-ok payload (v, ok u) h takes =
      sent_payload-ok (W.write_all v payload) (takes v payload)

  -- Without a failure of the stream a payload below 4 GiB is written.
  write_message-ok :
      (t : T) (w : W.State) (payload : Bytes)
      → ((v : W.State) (bs : Bytes) → (W.write_all v bs).1 ≡ ok tt)
      → p.to_allocvec t ≡ some payload
      → length payload < u32_mod
      → (write_message p W w t).1 ≡ ok tt
  unfolding write_message
  write_message-ok t w payload takes e small =
      rw (e, lt→ltb (length payload) u32_mod small)
        (write_payload-ok payload (W.write_all w (u32_to_le (length payload)))
          (takes w (u32_to_le (length payload))) takes)

  -- Over a stream that takes all it is given, a message whose payload is longer than 64 KiB, and
  -- shorter than 4 GiB, is written without an error, and the reader that receives it refuses it.
  pub read_message-write_message_too_large :
      (t : T) (w : W.State) (r : R.State) (payload rest : Bytes)
      → ((v : W.State) (bs : Bytes) → (W.write_all v bs).1 ≡ ok tt)
      → p.to_allocvec t ≡ some payload
      → max_frame_size < length payload
      → length payload < u32_mod
      → W.sent w ++ R.pending r ≡ W.sent (write_message p W w t).0 ++ rest
      → ((write_message p W w t).1 ≡ ok tt)
        × ((read_message p R r).1 ≡ err (codec (frame_too_large (length payload))))
  read_message-write_message_too_large t w r payload rest takes e big small received =
      let written = write_message-ok t w payload takes e small in
      let (q, eq, below, after) = sent-write_message p W w t written in
      let same : q ≡ payload = cc in
      (
        written,
        read_message-too_large p R r payload rest big small
            (append-injective (W.sent w) (W.sent w) refl
              (received ∙ rw (after, same) (append_assoc (W.sent w) (frame payload) rest))).1,
      )
