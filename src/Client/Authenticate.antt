-- ===== src/Client/Authenticate.antt =====
-- `authenticate` of crates/sqsh/src/connection.rs, the client's side of the handshake, with
-- `load_signing_key` of crates/sqsh/src/auth.rs. The key file and ML-DSA-65 are parameters.
pub mod Sound
pub mod Agreement
use squish.Auth.Challenge.{build_challenge_payload}
use squish.Proto.Stream.{Talk, send, recv, pure, bail, lift, ◌>>=◌, ◌>>◌}
use squish.Proto.Message.{
  ControlMessage, Bytes, IoError, DisconnectReason, client_hello, auth_challenge, auth_response,
  auth_result, disconnect, success, failure, protocol_version,
}
use squish.Text.{Text}
use squish.Prelude.{
  ℕ, List, Bool, Result, ok, err, Option, none, some, bit_and, ◌==◌, length, if◌then◌else◌,
}

-- `bail!`, `?` and the panic of `build_challenge_payload`. `AuthFailed` is a type of its own.
pub data Failure : Type 0 where
  stream_failed : Failure
  disconnected : DisconnectReason → Failure
  not_a_challenge not_a_result auth_failed panic : Failure
  key_unreadable key_accessible bad_seed : Failure

-- What the client takes from its surroundings during one handshake.
pub record Signer : Type 0 where
  -- Mode and contents of the identity file.
  pub mode : Text → Result IoError ℕ
  pub read : Text → Result IoError Bytes
  pub sha512 : Bytes → Bytes
  -- ML-DSA-65: the encoded verifying key of a seed, and the encoded signature of a payload.
  pub verifying_key : Bytes → Bytes
  pub sign : Bytes → Bytes → Bytes

module _ (c : Signer) where
  open c use {mode, read, sha512, verifying_key, sign}

  abbrev pub readable_key : Result IoError Bytes → Result Failure Bytes
  readable_key (ok bs) = ok bs
  readable_key (err e) = err key_unreadable

  -- `validate_private_key_permissions`, and the read.
  abbrev pub checked_key : Text → Result IoError ℕ → Result Failure Bytes
  checked_key path (err e) = err key_unreadable
  checked_key path (ok m) =
      if bit_and m 0o077 == 0 then readable_key (read path) else err key_accessible

  unfoldable pub load_signing_key : Text → Result Failure Bytes
  load_signing_key path = checked_key path (mode path)

  abbrev pub seed_of : Result Failure Bytes → Result Failure Bytes
  seed_of (err e) = err e
  seed_of (ok bs) = if length bs == 32 then ok bs else err bad_seed

  -- The seed of the key pair, from a file of exactly 32 bytes.
  unfoldable pub load_seed : Text → Result Failure Bytes
  unfolding load_signing_key
  load_seed path = seed_of (load_signing_key path)

  abbrev pub response_of : Bytes → Result Failure Bytes → Result Failure ControlMessage
  response_of payload (err e) = err e
  response_of payload (ok seed) = ok (auth_response (verifying_key seed) (sign seed payload))

  abbrev pub response_to_payload : Text → Option Bytes → Result Failure ControlMessage
  response_to_payload identity_path none = err panic
  response_to_payload identity_path (some payload) = response_of payload (load_seed identity_path)

  -- Step 3: sign the challenge.
  unfoldable pub answer_challenge : Text → Text → Bytes → Bytes → Result Failure ControlMessage
  unfolding load_seed
  answer_challenge username identity_path fingerprint nonce =
      response_to_payload identity_path (build_challenge_payload sha512 nonce fingerprint username)

abbrev pub expect_challenge : ControlMessage → Talk ControlMessage Failure Bytes
expect_challenge (auth_challenge nonce) = pure nonce
expect_challenge (disconnect reason description) = bail (disconnected reason)
expect_challenge _ = bail not_a_challenge

abbrev pub expect_result : ControlMessage → Talk ControlMessage Failure (Unit {0})
expect_result (auth_result success) = pure tt
expect_result (auth_result failure) = bail auth_failed
expect_result _ = bail not_a_result

module _ (c : Signer) (link : List ControlMessage → Bool) where
  -- Steps 4 and 5: send the response, and receive the result.
  abbrev pub respond : ControlMessage → Talk ControlMessage Failure (Unit {0})
  respond response = send link stream_failed response >> (recv stream_failed >>= expect_result)

  -- Steps 2 and 3.
  abbrev pub receive_challenge : Text → Text → Bytes → Talk ControlMessage Failure (Unit {0})
  receive_challenge username identity_path fingerprint = recv stream_failed >>= λ m.
      expect_challenge m >>= λ nonce.
      lift (answer_challenge c username identity_path fingerprint nonce) >>= respond

  unfoldable pub authenticate : Text → Text → Bytes → Talk ControlMessage Failure (Unit {0})
  unfolding answer_challenge
  authenticate username identity_path fingerprint =
      send link stream_failed (client_hello protocol_version username)
      >> receive_challenge username identity_path fingerprint
