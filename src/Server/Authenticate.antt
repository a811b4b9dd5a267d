-- ===== src/Server/Authenticate.antt =====
-- `authenticate` of crates/sqshd/src/connection.rs, over the control stream.
pub mod Sound
pub mod Uniform
use squish.Text.{Text, str_eq, text}
use squish.Proto.Stream.{Talk, try_send, send, pure, bail, ◌>>◌, lift, ◌>>=◌, recv}
use squish.Proto.Message.{
  ControlMessage, Bytes, client_hello, auth_result, auth_response, failure, protocol_version,
  success, disconnect, protocol_error, auth_challenge,
}
use squish.Server.Config.{ServerConfig}
use squish.Server.Keys.{
  Host, keys_of_user, Failure, check_signature, User, stream_failed, not_authorized, not_a_response,
  verification_failed, version_mismatch, not_a_hello, lookup_user,
}
use squish.Prelude.{ℕ, List, Bool, Option, ◌==◌, true, some, not, false, any, none}

module _ (h : Host) (config : ServerConfig) (link : List ControlMessage → Bool) where
  abbrev pub check_version : ℕ → Text → Bool → Talk ControlMessage Failure Text
  check_version version username true = pure username
  check_version version username false =
      try_send (disconnect protocol_error (text "unsupported version"))
      >> bail (version_mismatch version)

  abbrev pub expect_hello : ControlMessage → Talk ControlMessage Failure Text
  expect_hello (client_hello version username) =
      check_version version username (version == protocol_version)
  expect_hello _ = bail not_a_hello

  abbrev pub expect_response : ControlMessage → Talk ControlMessage Failure (Bytes × Bytes)
  expect_response (auth_response pubkey signature) = pure (pubkey, signature)
  expect_response _ = bail not_a_response

  -- `user.is_none() || !authorized.iter().any(..)`.
  unfoldable pub is_refused : Option User → List Bytes → Bytes → Bool
  unfolding str_eq
  is_refused none authorized pubkey = true
  is_refused (some user) authorized pubkey = not (any (λ k. str_eq k pubkey) authorized)

  abbrev pub refuse : {A : Type 0} → Failure → Talk ControlMessage Failure A
  refuse why = try_send (auth_result failure) >> bail why

  abbrev pub conclude : Text → Bool → Talk ControlMessage Failure Text
  conclude username true = send link stream_failed (auth_result success) >> pure username
  conclude username false = refuse verification_failed

  abbrev pub verify_answer : Text → Bytes × Bytes → Bool → Talk ControlMessage Failure Text
  verify_answer username (pubkey, sig) true = refuse not_authorized
  verify_answer username (pubkey, sig) false =
      lift (check_signature h config.live_cert_fingerprint username pubkey sig)
      >>= conclude username

  abbrev pub decide :
      Text → Option User → List Bytes → Bytes × Bytes → Talk ControlMessage Failure Text
  decide username user authorized answer =
      verify_answer username answer (is_refused user authorized answer.0)

  -- Steps 4 and 5: receive the response, and verify it.
  abbrev pub receive_response : Text → Option User → List Bytes → Talk ControlMessage Failure Text
  receive_response username user authorized = recv stream_failed >>= λ response.
      expect_response response >>= decide username user authorized

  -- Step 3: send the challenge.
  abbrev pub challenge : Text → Option User → List Bytes → Talk ControlMessage Failure Text
  challenge username user authorized =
      send link stream_failed (auth_challenge h.nonce) >> receive_response username user authorized

  -- Step 2: look up the user and the keys.
  abbrev pub look_up : Text → Talk ControlMessage Failure Text
  look_up username = lift (lookup_user h username) >>= λ user.
      lift (keys_of_user h user) >>= challenge username user

  unfoldable pub authenticate : Talk ControlMessage Failure Text
  unfolding is_refused keys_of_user check_signature
  authenticate = do hello ← recv stream_failed; username ← expect_hello hello; look_up username
