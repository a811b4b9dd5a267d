-- ===== src/Client/Authenticate/Agreement.antt =====
-- The client of crates/sqsh/src/connection.rs against the daemon of crates/sqshd/src/connection.rs.
use squish.Server.Authenticate.Uniform.{authenticate_complete}
use squish.Server.Authenticate.Sound.{IsAuthentic, authenticate-Verdict, Verdict, refused, granted}
use squish.Proto.Stream.{fresh, FramedBiStream}
use squish.Auth.Challenge.{challenge_bytes, build_challenge_payload}
use squish.Proto.Codec.Words.{u16_mod}
use squish.Proto.Message.{
  Bytes, ControlMessage, auth_challenge, auth_result, success, client_hello, protocol_version,
  auth_response,
}
use squish.Text.{Text, as_bytes}
use squish.Server.Config.{ServerConfig}
use squish.Server.Keys.{Host, check_signature, User, load_user_authorized_keys}
use squish.Client.Authenticate.{Signer, authenticate, load_seed, answer_challenge}
use squish.Server.Keys
use squish.Server.Authenticate
use squish.Prelude.{
  ◌≡◌, length, List, some, Bool, true, ◌<◌, ok, ◌∷◌, [], Any, lt→ltb, Result, refl,
}

-- Both ends use SHA-512 and ML-DSA-65: what the client signs with a seed, the daemon verifies with
-- that seed's key.
pub record SameScheme (c : Signer) (h : Host) : Type 0 where
  pub same_hash : c.sha512 ≡ h.sha512
  pub verifies :
      (seed payload : Bytes)
      → (key : h.VerifyingKey) × (sig : h.Signature) × (h.verifying_key (c.verifying_key seed)
          ≡ some key)
        × (h.signature (c.sign seed payload) ≡ some sig)
        × (h.verify key payload sig ≡ true)

-- The user and the key that the client presents are known to the daemon.
pub record IsEnrolled (c : Signer) (h : Host) (username identity_path : Text) : Type 0 where
  pub fits : length (as_bytes username) < u16_mod
  pub seed : Bytes
  pub loaded : load_seed c identity_path ≡ ok seed
  pub user : User
  pub exists : h.from_name username ≡ ok (some user)
  pub keys : List Bytes
  pub keys_loaded : load_user_authorized_keys h user ≡ ok keys
  pub listed : Any (λ k. k ≡ c.verifying_key seed) keys

module _ (c : Signer) (h : Host) (config : ServerConfig)
    (client_link server_link : List ControlMessage → Bool) where
  abbrev payload_of : Text → Bytes
  payload_of username =
      c.sha512 (challenge_bytes h.nonce config.live_cert_fingerprint (as_bytes username))

  payload-built :
      (username : Text)
      → length (as_bytes username) < u16_mod
      → build_challenge_payload c.sha512 h.nonce config.live_cert_fingerprint username
        ≡ some (payload_of username)
  unfolding build_challenge_payload
  payload-built username fits = rw (lt→ltb _ _ fits)

  abbrev replies_to_client : List ControlMessage
  replies_to_client = auth_challenge h.nonce ∷ auth_result success ∷ []

  -- The client's side, given what the daemon is to send.
  client_side :
      (username identity_path : Text) (e : IsEnrolled c h username identity_path)
      → ((sent : List ControlMessage) → client_link sent ≡ true)
      → authenticate c client_link username identity_path config.live_cert_fingerprint
          (fresh replies_to_client)
        ≡ (
          record {
            incoming = [];
            sent =
                client_hello protocol_version username
                ∷ auth_response (c.verifying_key e.seed) (c.sign e.seed (payload_of username))
                ∷ [];
          },
          ok tt,
        )
  unfolding authenticate answer_challenge
  client_side username identity_path e up =
      rw (up [], payload-built username e.fits, e.loaded, up _)

  signature_verifies :
      (username : Text) (seed : Bytes)
      → SameScheme c h
      → length (as_bytes username) < u16_mod
      → check_signature h config.live_cert_fingerprint username
          (c.verifying_key seed)
          (c.sign seed (payload_of username))
        ≡ ok true
  unfolding check_signature
  signature_verifies username seed same fits =
      let (key, sig, is_key, is_sig, verified) = same.verifies seed (payload_of username) in
      rw (← same.same_hash, payload-built username fits, is_key, is_sig, verified)

  enrolled-IsAuthentic :
      (username identity_path : Text)
      → SameScheme c h
      → IsEnrolled c h username identity_path
      → IsAuthentic h config username
  enrolled-IsAuthentic username identity_path same e = record {
    user = e.user;
    exists = e.exists;
    keys = e.keys;
    loaded = e.keys_loaded;
    pubkey = c.verifying_key e.seed;
    sig = c.sign e.seed (payload_of username);
    listed = e.listed;
    signed = signature_verifies username e.seed same e.fits;
  }

  granted-sent :
      (x : FramedBiStream ControlMessage × Result Keys.Failure Text) {username : Text}
      → Verdict h config server_link x
      → x.1 ≡ ok username
      → x.0.sent ≡ replies_to_client
  granted-sent x (refused e quiet) h = cc
  granted-sent x (granted a sent result) h = sent

  -- An enrolled client and a daemon with the same signature scheme, which see the same certificate
  -- over a connection that takes every message, agree. If the client receives the challenge and
  -- `Success`, it succeeds; what it has sent lets it in at the daemon as this user; and on that the
  -- daemon sends exactly the challenge and `Success`.
  pub authenticate_agree :
      (username identity_path : Text)
      → SameScheme c h
      → IsEnrolled c h username identity_path
      → ((sent : List ControlMessage) → client_link sent ≡ true)
      → ((sent : List ControlMessage) → server_link sent ≡ true)
      → let client =
          authenticate c client_link username identity_path config.live_cert_fingerprint
            (fresh replies_to_client) in
        let server = Authenticate.authenticate h config server_link (fresh client.0.sent) in
        (client.1 ≡ ok tt) × (server.1 ≡ ok username) × (server.0.sent ≡ replies_to_client)
  unfolding enrolled-IsAuthentic
  authenticate_agree username identity_path same e up up' =
      let a = enrolled-IsAuthentic username identity_path same e in
      let in_order = authenticate_complete h config server_link username [] a up' in
      rw (client_side username identity_path e up)
        (refl, in_order, granted-sent _ (authenticate-Verdict h config server_link _) in_order)
