-- ===== src/Server/Authenticate/Sound.antt =====
-- When the daemon answers `AuthResult(Success)`, and when `authenticate` returns a user name.
use squish.Server.Authenticate.{
  expect_response, expect_hello, refuse, conclude, is_refused, check_version, verify_answer,
  authenticate, decide, challenge, look_up, receive_response,
}
use squish.Proto.Stream.{
  FramedBiStream, recv, Talk, next_of, continue_with, ◌>>=◌, fresh, send, lift,
}
use squish.Text.{Text, eq_of_str_eq, str_eq}
use squish.Proto.Message.{
  ControlMessage, auth_result, Bytes, success, client_hello, auth_response, auth_challenge,
  protocol_version, IoError,
}
use squish.Server.Config.{ServerConfig}
use squish.Server.Keys.{
  Host, User, keys_of_user, stream_failed, Failure, load_user_authorized_keys, check_signature,
  verification_failed, not_authorized, lookup_user,
}
use squish.Prelude.{
  ◌≡◌, List, All, Bool, Option, ◌≢◌, Result, ok, [], some, err, refl, Bool-cases, Any, ◌==◌, ◌∷◌,
  ◌⊎◌, true, inl, arith, inr, ℕ, false, Any-map, Any-any, none, ◌∙◌, ap, ok-injective,
}

-- Everything that must hold for a user to be let in.
pub record IsAuthentic (h : Host) (config : ServerConfig) (username : Text) : Type 0 where
  pub user : User
  pub exists : h.from_name username ≡ ok (some user)
  pub keys : List Bytes
  pub loaded : load_user_authorized_keys h user ≡ ok keys
  pub pubkey : Bytes
  pub sig : Bytes
  pub listed : Any (λ k. k ≡ pubkey) keys
  pub signed : check_signature h config.live_cert_fingerprint username pubkey sig ≡ ok true

-- No message says that the user is let in.
abbrev pub IsSilent : List ControlMessage → Type 0
IsSilent = All (λ m. m ≢ auth_result success)

module _ (h : Host) (config : ServerConfig) (link : List ControlMessage → Bool) where
  -- How a handshake ends: refused, or let in after exactly the challenge and the success message.
  pub data Verdict (x : FramedBiStream ControlMessage × Result Failure Text) : Type 0 where
    refused : {e : Failure} → x.1 ≡ err e → IsSilent x.0.sent → Verdict x
    granted :
        {username : Text}
        → IsAuthentic h config username
        → x.0.sent ≡ auth_challenge h.nonce ∷ auth_result success ∷ []
        → (x.1 ≡ ok username) ⊎ (x.1 ≡ err stream_failed)
        → Verdict x

  bind-Verdict :
      {A : Type 0} (x : FramedBiStream ControlMessage × Result Failure A)
      (f : A → Talk ControlMessage Failure Text)
      → ((e : Failure) → x.1 ≡ err e → IsSilent x.0.sent)
      → ((a : A) → x.1 ≡ ok a → Verdict (f a x.0))
      → Verdict (continue_with f x)
  bind-Verdict (s, err e) f fails goes = refused refl (fails e refl)
  bind-Verdict (s, ok a) f fails goes = goes a refl

  recv-sent : (s : FramedBiStream ControlMessage) → (recv stream_failed s).0.sent ≡ s.sent
  recv-sent s = next_of-sent s.incoming
    where
      next_of-sent : (l : List ControlMessage) → (next_of s stream_failed l).0.sent ≡ s.sent
      next_of-sent [] = refl
      next_of-sent (m ∷ ms) = refl

  check_version-IsSilent :
      (v : ℕ) (u : Text) (b : Bool) (s : FramedBiStream ControlMessage)
      → s.sent ≡ []
      → IsSilent (check_version h config link v u b s).0.sent
  check_version-IsSilent v u true s e = rw e tt
  check_version-IsSilent v u false s e = rw e ((λ q. cc), tt)

  check_version-ok :
      (v : ℕ) (u : Text) (b : Bool) (s : FramedBiStream ControlMessage) {w : Text}
      → (check_version h config link v u b s).1 ≡ ok w
      → (check_version h config link v u b s).0.sent ≡ s.sent
  check_version-ok v u true s e = refl
  check_version-ok v u false s e = cc

  expect_hello-IsSilent :
      (m : ControlMessage) (s : FramedBiStream ControlMessage)
      → s.sent ≡ []
      → IsSilent (expect_hello h config link m s).0.sent
  expect_hello-IsSilent (client_hello v u) s e =
      check_version-IsSilent v u (v == protocol_version) s e
  expect_hello-IsSilent _ s e = rw e tt

  expect_hello-ok :
      (m : ControlMessage) (s : FramedBiStream ControlMessage) {u : Text}
      → (expect_hello h config link m s).1 ≡ ok u
      → (expect_hello h config link m s).0.sent ≡ s.sent
  expect_hello-ok (client_hello v u) s e = check_version-ok v u (v == protocol_version) s e
  expect_hello-ok _ s e = refl

  expect_response-sent :
      (m : ControlMessage) (s : FramedBiStream ControlMessage)
      → (expect_response h config link m s).0 ≡ s
  expect_response-sent (auth_response k g) s = refl
  expect_response-sent _ s = refl

  challenged : {l : List ControlMessage} → l ≡ auth_challenge h.nonce ∷ [] → IsSilent l
  challenged e = rw e ((λ q. cc), tt)

  refuse-Verdict :
      (why : Failure) (s : FramedBiStream ControlMessage)
      → s.sent ≡ auth_challenge h.nonce ∷ []
      → Verdict (refuse h config link why s)
  refuse-Verdict why s e = refused refl (rw e ((λ q. cc), ((λ q. cc), tt)))

  conclude-Verdict :
      (username : Text) (b : Bool) (s : FramedBiStream ControlMessage)
      → (b ≡ true → IsAuthentic h config username)
      → s.sent ≡ auth_challenge h.nonce ∷ []
      → Verdict (conclude h config link username b s)
  conclude-Verdict username false s a e = refuse-Verdict verification_failed s e
  conclude-Verdict username true s a e = elim (Bool-cases (link s.sent)) [
    | inl t ↦ granted (a refl) (rw t (rw e)) (inl (rw t))
    | inr t ↦ granted (a refl) (rw t (rw e)) (inr (rw t))
  ]

  authorized_key :
      (user : Option User) (authorized : List Bytes) (pubkey : Bytes)
      → is_refused h config link user authorized pubkey ≡ false
      → (u : User) × (user ≡ some u) × Any (λ k. k ≡ pubkey) authorized
  unfolding is_refused
  authorized_key none authorized pubkey e = cc
  authorized_key (some u) authorized pubkey e = (
    u,
    refl,
    Any-map (λ k. eq_of_str_eq k pubkey) (Any-any (λ k. str_eq k pubkey) authorized (ground arith)),
  )

  verify_answer-Verdict :
      (username : Text) (user : Option User) (authorized : List Bytes) (pubkey sig : Bytes)
      (b : Bool) (s : FramedBiStream ControlMessage)
      → is_refused h config link user authorized pubkey ≡ b
      → h.from_name username ≡ ok user
      → keys_of_user h user ≡ ok authorized
      → s.sent ≡ auth_challenge h.nonce ∷ []
      → Verdict (verify_answer h config link username (pubkey, sig) b s)
  unfolding keys_of_user
  verify_answer-Verdict username user authorized pubkey sig true s r f k e =
      refuse-Verdict not_authorized s e
  verify_answer-Verdict username user authorized pubkey sig false s r f k e =
      let (u, some_u, listed) = authorized_key user authorized pubkey r in
      let checked = check_signature h config.live_cert_fingerprint username pubkey sig in
      bind-Verdict (s, checked) (conclude h config link username) (λ w q. challenged e)
        λ b q.
          conclude-Verdict username b s
            (λ t. record {
              user = u;
              exists = rw (← some_u) f;
              keys = authorized;
              loaded = rw some_u at k;
              pubkey = pubkey;
              sig = sig;
              listed = listed;
              signed = rw t at q;
            })
            e

  lookup_user-ok :
      (username : Text) (r : Result IoError (Option User)) {user : Option User}
      → h.from_name username ≡ r
      → lookup_user h username ≡ ok user
      → h.from_name username ≡ ok user
  lookup_user-ok username (err e) q l = cc (rw (q, lookup_user) at l)
  lookup_user-ok username (ok u) q l = q ∙ ap ok (ok-injective (rw (q, lookup_user) at l))

  receive_response-Verdict :
      (username : Text) (user : Option User) (authorized : List Bytes)
      (s : FramedBiStream ControlMessage)
      → h.from_name username ≡ ok user
      → keys_of_user h user ≡ ok authorized
      → s.sent ≡ auth_challenge h.nonce ∷ []
      → Verdict (receive_response h config link username user authorized s)
  receive_response-Verdict username user authorized s f k e =
      let x = recv {E = Failure} stream_failed s in
      let e₁ : x.0.sent ≡ auth_challenge h.nonce ∷ [] = recv-sent s ∙ e in
      bind-Verdict x
        (λ response.
          expect_response h config link response >>= decide h config link username user authorized)
        (λ w q. challenged e₁)
        λ response q₁.
          let same = expect_response-sent response x.0 in
          bind-Verdict (expect_response h config link response x.0)
            (decide h config link username user authorized) (λ w q. rw same (challenged e₁))
            λ answer q₂.
              verify_answer-Verdict username user authorized answer.0 answer.1
                (is_refused h config link user authorized answer.0)
                (expect_response h config link response x.0).0 refl f k (rw same e₁)

  challenge-Verdict :
      (username : Text) (user : Option User) (authorized : List Bytes)
      (s : FramedBiStream ControlMessage)
      → h.from_name username ≡ ok user
      → keys_of_user h user ≡ ok authorized
      → s.sent ≡ []
      → Verdict (challenge h config link username user authorized s)
  challenge-Verdict username user authorized s f k e =
      let z = send {E = Failure} link stream_failed (auth_challenge h.nonce) s in
      let e₁ : z.0.sent ≡ auth_challenge h.nonce ∷ [] = rw e in
      bind-Verdict z (λ _. receive_response h config link username user authorized)
        (λ w q. challenged e₁) λ u q. receive_response-Verdict username user authorized z.0 f k e₁

  look_up-Verdict :
      (username : Text) (s : FramedBiStream ControlMessage)
      → s.sent ≡ []
      → Verdict (look_up h config link username s)
  look_up-Verdict username s e =
      bind-Verdict (s, lookup_user h username)
        (λ user. lift (keys_of_user h user) >>= challenge h config link username user)
        (λ w q. rw e tt)
        λ user q₁.
          bind-Verdict (s, keys_of_user h user) (challenge h config link username user)
            (λ w q. rw e tt)
            λ authorized q₂.
              challenge-Verdict username user authorized s
                (lookup_user-ok username (h.from_name username) refl q₁) q₂ e

  -- Whatever a client sends, and wherever the stream breaks, a handshake ends in one of two ways.
  -- It is refused with an error, and no message said `Success`. Or the user exists, the keys file
  -- was accepted and lists a key whose signature over this challenge verifies, and the messages
  -- were the challenge and `Success`; the result is then the user's name, or the failure to send.
  pub authenticate-Verdict :
      (incoming : List ControlMessage) → Verdict (authenticate h config link (fresh incoming))
  unfolding authenticate
  authenticate-Verdict incoming =
      let x = recv {E = Failure} stream_failed (fresh incoming) in
      let e₁ : x.0.sent ≡ [] = recv-sent (fresh incoming) in
      bind-Verdict x (λ hello. expect_hello h config link hello >>= look_up h config link)
        (λ w q. rw e₁ tt)
        λ hello q₁.
          let y = expect_hello h config link hello x.0 in
          bind-Verdict y (look_up h config link) (λ w q. expect_hello-IsSilent hello x.0 e₁)
            λ username q₂. look_up-Verdict username y.0 (expect_hello-ok hello x.0 q₂ ∙ e₁)
