-- ===== src/Proto/Codec.antt =====
-- crates/sqsh-core/src/proto/codec.rs: messages as frames of a length and a payload. The streams
-- and the encoding of one message (postcard) are parameters, with the behaviour they document.
-- crates/sqsh-core/src/transport/framing.rs wraps the two functions around a QUIC stream.
pub mod Words
pub mod RoundTrip
pub mod Streams
use squish.Prelude.{
  ℕ, ◌≤◌, ◌<◌, ◌≡◌, Bool, Option, none, some, List, ◌++◌, length, take, drop, ltb, if◌then◌else◌,
  Result, ok, err, ◌*◌, ◌∷◌, [], suc, zero,
}
use squish.Proto.Message.{
  Bytes, IoError, unexpected_eof, CodecError, serialize, message_too_large, deserialize,
  frame_too_large, SqshError, codec, io,
}
use Words.{u32_mod, u32_to_le, u32_from_le}

abbrev pub max_frame_size : ℕ
max_frame_size = 64 * 1024

-- An `AsyncWrite`: `write_all` sends every byte, or fails.
pub record Writer : Type 1 where
  pub State : Type 0
  pub write_all : State → Bytes → State × Result IoError (Unit {0})
  -- What has been sent.
  pub sent : State → Bytes
  pub sent-write_all :
      (w : State) (bs : Bytes) → (write_all w bs).1 ≡ ok tt → sent (write_all w bs).0 ≡ sent w ++ bs

-- An `AsyncRead`: `read_exact` waits for as many bytes as it is asked for, and fails at the end.
pub record Reader : Type 1 where
  pub State : Type 0
  pub read_exact : State → ℕ → State × Result IoError Bytes
  -- What the stream still brings before it ends.
  pub pending : State → Bytes
  pub read_exact-enough :
      (r : State) (n : ℕ) → n ≤ length (pending r) → (read_exact r n).1 ≡ ok (take n (pending r))
  pub pending-read_exact :
      (r : State) (n : ℕ) → n ≤ length (pending r) → pending (read_exact r n).0 ≡ drop n (pending r)
  pub read_exact-short :
      (r : State) (n : ℕ) → length (pending r) < n → (read_exact r n).1 ≡ err unexpected_eof

-- postcard at one type of messages: what is encoded decodes to the same message.
pub record Postcard (T : Type 0) : Type 0 where
  pub to_allocvec : T → Option Bytes
  pub from_bytes : Bytes → Option T
  pub from_bytes-to_allocvec :
      (t : T) (bs : Bytes) → to_allocvec t ≡ some bs → from_bytes bs ≡ some t

module _ {T : Type 0} (p : Postcard T) (W : Writer) where
  abbrev pub sent_payload :
      W.State × Result IoError (Unit {0}) → W.State × Result SqshError (Unit {0})
  sent_payload (w, err e) = (w, err (io e))
  sent_payload (w, ok u) = (w, ok tt)

  -- The second `write_all` is made if the first went through.
  abbrev pub write_payload :
      Bytes → W.State × Result IoError (Unit {0}) → W.State × Result SqshError (Unit {0})
  write_payload payload (w, err e) = (w, err (io e))
  write_payload payload (w, ok u) = sent_payload (W.write_all w payload)

  abbrev pub write_frame : W.State → Option Bytes → W.State × Result SqshError (Unit {0})
  write_frame w none = (w, err (codec serialize))
  write_frame w (some payload) =
      if ltb (length payload) u32_mod
      then write_payload payload (W.write_all w (u32_to_le (length payload)))
      else (w, err (codec message_too_large))

  -- `write_message`.
  unfoldable pub write_message : W.State → T → W.State × Result SqshError (Unit {0})
  write_message w msg = write_frame w (p.to_allocvec msg)

module _ {T : Type 0} (p : Postcard T) (R : Reader) where
  abbrev pub decode : Option T → Result SqshError T
  decode none = err (codec deserialize)
  decode (some t) = ok t

  abbrev pub read_body : R.State × Result IoError Bytes → R.State × Result SqshError T
  read_body (r, err e) = (r, err (io e))
  read_body (r, ok buf) = (r, decode (p.from_bytes buf))

  abbrev pub read_header : R.State × Result IoError Bytes → R.State × Result SqshError T
  read_header (r, err e) = (r, err (io e))
  read_header (r, ok len_buf) =
      let len = u32_from_le len_buf in
      if ltb max_frame_size len
      then (r, err (codec (frame_too_large len)))
      else read_body (R.read_exact r len)

  -- `read_message`.
  unfoldable pub read_message : R.State → R.State × Result SqshError T
  read_message r = read_header (R.read_exact r 4)

-- A loop of `write_message` that stops at the first error.
module _ {T : Type 0} (p : Postcard T) (W : Writer) where
  abbrev pub write_next :
      (W.State → W.State × Result SqshError (Unit {0}))
      → W.State × Result SqshError (Unit {0})
      → W.State × Result SqshError (Unit {0})
  write_next rest (w, err e) = (w, err e)
  write_next rest (w, ok u) = rest w

  unfoldable pub write_messages : List T → W.State → W.State × Result SqshError (Unit {0})
  unfolding write_message
  write_messages [] w = (w, ok tt)
  write_messages (t ∷ ts) w = write_next (write_messages ts) (write_message p W w t)

-- `n` calls of `read_message`, up to the first error.
module _ {T : Type 0} (p : Postcard T) (R : Reader) where
  abbrev pub prepend : T → R.State × Result SqshError (List T) → R.State × Result SqshError (List T)
  prepend t (r, err e) = (r, err e)
  prepend t (r, ok ts) = (r, ok (t ∷ ts))

  abbrev pub read_next :
      (R.State → R.State × Result SqshError (List T))
      → R.State × Result SqshError T
      → R.State × Result SqshError (List T)
  read_next rest (r, err e) = (r, err e)
  read_next rest (r, ok t) = prepend t (rest r)

  unfoldable pub read_messages : ℕ → R.State → R.State × Result SqshError (List T)
  unfolding read_message
  read_messages zero r = (r, ok [])
  read_messages (suc n) r = read_next (read_messages n) (read_message p R r)
