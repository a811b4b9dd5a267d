-- ===== src/Tests/Proto.antt =====
-- Messages written to memory and read back.
use squish.Tests.Instances.{memory_writer, memory_reader, raw_messages, padding, length-replicate}
use squish.Proto.Codec.{write_messages, read_messages, write_message, read_message}
use squish.Proto.Codec.Streams.{read_messages-write_messages, read_message-write_message_too_large}
use squish.Proto.Codec.Words.{u32_to_le}
use squish.Proto.Message.{Bytes, codec, frame_too_large}
use squish.Prelude.{
  ℕ, ◌<◌, ◌≡◌, refl, sym, List, [], ◌∷◌, ◌++◌, length, replicate, ok, err, arith, Option,
  append-nil, some,
}

abbrev messages : List Bytes
messages = (1 ∷ 2 ∷ 3 ∷ []) ∷ [] ∷ []

abbrev written : Bytes
written = (write_messages raw_messages memory_writer messages []).0

-- What the two messages are on the wire.
written-frames : written ≡ 3 ∷ 0 ∷ 0 ∷ 0 ∷ 1 ∷ 2 ∷ 3 ∷ 0 ∷ 0 ∷ 0 ∷ 0 ∷ []
unfolding write_messages write_message u32_to_le
written-frames = refl

length-of : (xs ys : Bytes) → ◌≡◌ {A = Option Bytes} (some xs) (some ys) → length ys ≡ length xs
length-of xs ys e = cc e

read_messages-write_messages_example :
    ((read_messages raw_messages memory_reader 2 (written ++ 9 ∷ [])).1 ≡ ok messages)
    × ((read_messages raw_messages memory_reader 2 (written ++ 9 ∷ [])).0 ≡ 9 ∷ [])
unfolding write_messages write_message u32_to_le
read_messages-write_messages_example =
    read_messages-write_messages raw_messages memory_writer memory_reader messages []
      (written ++ 9 ∷ []) (9 ∷ []) refl
      (
        (λ bs e. omega (arith, length-of (1 ∷ 2 ∷ 3 ∷ []) bs e)),
        ((λ bs e. omega (arith, length-of [] bs e)), tt),
      )
      refl

padding-lt : (n m : ℕ) → n < m → length {A = ℕ} (replicate n 0) < m
padding-lt n m h = rw (length-replicate n 0) h

abbrev big : ℕ
big = 65537

read_message-write_message_too_large_example :
    ((write_message padding memory_writer [] big).1 ≡ ok tt)
    × ((read_message padding memory_reader (write_message padding memory_writer [] big).0).1
        ≡ err (codec (frame_too_large (length {A = ℕ} (replicate big 0)))))
read_message-write_message_too_large_example =
    read_message-write_message_too_large padding memory_writer memory_reader big []
      (write_message padding memory_writer [] big).0 (replicate big 0) [] (λ v bs. refl) refl
      (rw (length-replicate big 0) (omega arith)) (padding-lt big 4294967296 (omega arith))
      (sym (append-nil _))
