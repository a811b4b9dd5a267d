-- ===== src/Proto/Stream.antt =====
-- `FramedBiStream` of crates/sqsh-core/src/transport/framing.rs as its users see it: one direction
-- brings messages until it ends or a frame cannot be read, the other takes messages until it fails.
pub mod Steps
pub mod Sends
use squish.Prelude.{List, ok, err, ◌++◌, Result, [], ◌∷◌, Bool, if◌then◌else◌}

-- `incoming` is what the peer sends, up to the end of the stream or the first frame that is
-- refused; `sent` is what `send` was called with, the failed call included.
pub record FramedBiStream (M : Type 0) : Type 0 where
  pub incoming : List M
  pub sent : List M

abbrev pub fresh : {M : Type 0} → List M → FramedBiStream M
fresh incoming = record { incoming = incoming; sent = [] }

-- Code that talks over a stream of messages `M`, and may fail with `E`.
abbrev pub Talk : Type 0 → Type 0 → Type 0 → Type 0
Talk M E A = FramedBiStream M → FramedBiStream M × Result E A

module _ {M E A B : Type 0} where
  abbrev pub continue_with :
      (A → Talk M E B) → FramedBiStream M × Result E A → FramedBiStream M × Result E B
  continue_with f (s, ok a) = f a s
  continue_with f (s, err e) = (s, err e)

  infixl 5 ◌>>=◌
  abbrev pub ◌>>=◌ : Talk M E A → (A → Talk M E B) → Talk M E B
  ◌>>=◌ m f s = continue_with f (m s)

module _ {M E B : Type 0} where
  infixl 5 ◌>>◌
  abbrev pub ◌>>◌ : Talk M E (Unit {0}) → Talk M E B → Talk M E B
  m >> k = m >>= λ _. k

module _ {M E A : Type 0} where
  abbrev pub pure : A → Talk M E A
  pure a s = (s, ok a)

  -- `bail!`.
  abbrev pub bail : E → Talk M E A
  bail e s = (s, err e)

  -- A step that does not touch the stream.
  abbrev pub lift : Result E A → Talk M E A
  lift r s = (s, r)

module _ {M E : Type 0} where
  abbrev pub next_of : FramedBiStream M → E → List M → FramedBiStream M × Result E M
  next_of s e [] = (s, err e)
  next_of s e (m ∷ ms) = (record s { incoming = ms }, ok m)

  -- `receiver.recv().await?`.
  abbrev pub recv : E → Talk M E M
  recv e s = next_of s e s.incoming

  -- `sender.send(m).await?`: `link` says after which messages one more goes through.
  abbrev pub send : (List M → Bool) → E → M → Talk M E (Unit {0})
  send link e m s = (record s { sent = s.sent ++ m ∷ [] }, if link s.sent then ok tt else err e)

  -- `let _ = sender.send(m).await`: the result is dropped.
  abbrev pub try_send : M → Talk M E (Unit {0})
  try_send m s = (record s { sent = s.sent ++ m ∷ [] }, ok tt)
