-- ===== src/Client/Authenticate/Sound.antt =====
-- When the client's `authenticate` of crates/sqsh/src/connection.rs succeeds, and what it has sent.
use squish.Client.Authenticate.{
  Signer, stream_failed, load_seed, answer_challenge, authenticate, expect_challenge, expect_result,
  respond, receive_challenge, disconnect, Failure,
}
use squish.Auth.Challenge.{build_challenge_payload}
use squish.Proto.Stream.Steps
use squish.Proto.Stream.Steps.{with_result, lift-eq-ok, recv-eq-ok, send-eq-ok}
use squish.Proto.Stream.{FramedBiStream, Talk, fresh, ◌>>=◌, send, recv, lift}
use squish.Proto.Message.{
  ControlMessage, Bytes, client_hello, auth_challenge, auth_response, auth_result, success,
  protocol_version, failure,
}
use squish.Text.{Text}
use squish.Prelude.{
  ◌≡◌, List, [], ◌∷◌, ◌++◌, Bool, ok, some, refl, inl, inr, Option-cases, Result-cases, sym,
  ok-injective,
}

-- What a successful client has received and sent.
pub record IsAuthenticated (c : Signer) (username identity_path : Text) (fingerprint : Bytes)
    (incoming sent : List ControlMessage) : Type 0 where
  pub nonce : Bytes
  pub rest : List ControlMessage
  pub received : incoming ≡ auth_challenge nonce ∷ auth_result success ∷ rest
  pub seed : Bytes
  pub loaded : load_seed c identity_path ≡ ok seed
  pub payload : Bytes
  pub built : build_challenge_payload c.sha512 nonce fingerprint username ≡ some payload
  pub answered :
      sent
      ≡ client_hello protocol_version username
        ∷ auth_response (c.verifying_key seed) (c.sign seed payload)
        ∷ []

expect_challenge-eq-ok :
    (m : ControlMessage) (s : FramedBiStream ControlMessage) {t : FramedBiStream ControlMessage}
    {nonce : Bytes}
    → expect_challenge m s ≡ (t, ok nonce)
    → (m ≡ auth_challenge nonce) × (t ≡ s)
expect_challenge-eq-ok (auth_challenge nonce) s h = (cc, cc)
expect_challenge-eq-ok (disconnect reason description) s h = cc
expect_challenge-eq-ok _ s h = cc

expect_result-eq-ok :
    (m : ControlMessage) (s : FramedBiStream ControlMessage) {t : FramedBiStream ControlMessage}
    → expect_result m s ≡ (t, ok tt)
    → (m ≡ auth_result success) × (t ≡ s)
expect_result-eq-ok (auth_result success) s h = (refl, cc)
expect_result-eq-ok (auth_result failure) s h = cc
expect_result-eq-ok _ s h = cc

-- How a challenge is answered.
record IsAnswer (c : Signer) (username identity_path : Text) (fingerprint nonce : Bytes)
    (m : ControlMessage) : Type 0 where
  pub seed : Bytes
  pub loaded : load_seed c identity_path ≡ ok seed
  pub payload : Bytes
  pub built : build_challenge_payload c.sha512 nonce fingerprint username ≡ some payload
  pub is_response : m ≡ auth_response (c.verifying_key seed) (c.sign seed payload)

answer_challenge-IsAnswer :
    (c : Signer) (username identity_path : Text) (fingerprint nonce : Bytes) {m : ControlMessage}
    → answer_challenge c username identity_path fingerprint nonce ≡ ok m
    → IsAnswer c username identity_path fingerprint nonce m
unfolding answer_challenge
answer_challenge-IsAnswer c username identity_path fingerprint nonce h =
    elim (Option-cases (build_challenge_payload c.sha512 nonce fingerprint username)) [
      | inl e ↦ cc (rw e at h)
      | inr (payload, e) ↦ elim (Result-cases (load_seed c identity_path)) [
        | inl (seed, q) ↦ record {
          seed = seed;
          loaded = q;
          payload = payload;
          built = e;
          is_response = sym (ok-injective (rw (e, q) at h));
        }
        | inr (w, q) ↦ cc (rw (e, q) at h)
      ]
    ]

module _ (c : Signer) (link : List ControlMessage → Bool) where
  -- The last two steps.
  respond-eq-ok :
      (response : ControlMessage) (s : FramedBiStream ControlMessage)
      {t : FramedBiStream ControlMessage}
      → respond c link response s ≡ (t, ok tt)
      → (s.incoming ≡ auth_result success ∷ t.incoming) × (t.sent ≡ s.sent ++ response ∷ [])
  respond-eq-ok response s h =
      let (s₁, u, e₁, h₁) =
        Steps.>>=-eq-ok (send link stream_failed response)
          (λ _. recv stream_failed >>= expect_result) s h in
      let (in₁, out₁) = send-eq-ok link stream_failed response s e₁ in
      let (s₂, m, e₂, h₂) = Steps.>>=-eq-ok (recv stream_failed) expect_result s₁ h₁ in
      let (in₂, out₂) = recv-eq-ok stream_failed s₁ e₂ in
      let (is_success, same) = expect_result-eq-ok m s₂ h₂ in (cc, cc)

  -- The challenge is answered, and the answer is accepted.
  record IsAnswered (username identity_path : Text) (fingerprint : Bytes)
      (s t : FramedBiStream ControlMessage) : Type 0 where
    pub nonce : Bytes
    pub response : ControlMessage
    pub received : s.incoming ≡ auth_challenge nonce ∷ auth_result success ∷ t.incoming
    pub answer : IsAnswer c username identity_path fingerprint nonce response
    pub sent : t.sent ≡ s.sent ++ response ∷ []

  receive_challenge-IsAnswered :
      (username identity_path : Text) (fingerprint : Bytes) (s : FramedBiStream ControlMessage)
      {t : FramedBiStream ControlMessage}
      → receive_challenge c link username identity_path fingerprint s ≡ (t, ok tt)
      → IsAnswered username identity_path fingerprint s t
  receive_challenge-IsAnswered username identity_path fingerprint s h =
      let answer = answer_challenge c username identity_path fingerprint in
      let go_on : Bytes → Talk ControlMessage Failure (Unit {0}) =
        λ nonce. lift (answer nonce) >>= respond c link in
      let (s₁, m, e₁, h₁) =
        Steps.>>=-eq-ok (recv stream_failed) (λ m. expect_challenge m >>= go_on) s h in
      let (in₁, out₁) = recv-eq-ok stream_failed s e₁ in
      let (s₂, nonce, e₂, h₂) = Steps.>>=-eq-ok (expect_challenge m) go_on s₁ h₁ in
      let (is_challenge, same₂) = expect_challenge-eq-ok m s₁ e₂ in
      let (s₃, response, e₃, h₃) = Steps.>>=-eq-ok (lift (answer nonce)) (respond c link) s₂ h₂ in
      let (same₃, answered) = lift-eq-ok (answer nonce) s₂ e₃ in
      let (in₄, out₄) = respond-eq-ok response s₃ h₃ in
      record {
        nonce = nonce;
        response = response;
        received = cc;
        answer = answer_challenge-IsAnswer c username identity_path fingerprint nonce answered;
        sent = cc;
      }

  -- The client is satisfied only by a challenge and `Success`, and has then sent exactly its name,
  -- its key, and its signature over this challenge, this server's fingerprint and this name.
  pub authenticate-IsAuthenticated :
      (username identity_path : Text) (fingerprint : Bytes) (incoming : List ControlMessage)
      → (authenticate c link username identity_path fingerprint (fresh incoming)).1 ≡ ok tt
      → IsAuthenticated c username identity_path fingerprint incoming
          (authenticate c link username identity_path fingerprint (fresh incoming)).0.sent
  unfolding authenticate
  authenticate-IsAuthenticated username identity_path fingerprint incoming h =
      let greeting = client_hello protocol_version username in
      let s : FramedBiStream ControlMessage = fresh incoming in
      let (s₁, u, e₁, h₁) =
        Steps.>>=-eq-ok (send link stream_failed greeting)
          (λ _. receive_challenge c link username identity_path fingerprint) s
          (with_result (authenticate c link username identity_path fingerprint s) h) in
      let (in₁, out₁) = send-eq-ok link stream_failed greeting s e₁ in
      let a = receive_challenge-IsAnswered username identity_path fingerprint s₁ h₁ in
      record {
        nonce = a.nonce;
        rest = (authenticate c link username identity_path fingerprint s).0.incoming;
        received = cc (a.received, in₁);
        seed = a.answer.seed;
        loaded = a.answer.loaded;
        payload = a.answer.payload;
        built = a.answer.built;
        answered = cc (a.sent, out₁, a.answer.is_response);
      }
