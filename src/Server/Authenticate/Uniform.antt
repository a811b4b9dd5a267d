-- ===== src/Server/Authenticate/Uniform.antt =====
-- What a client can learn of a user before it has proved a key, and the answer to a right key
-- (crates/sqshd/src/connection.rs).
use squish.Proto.Stream.{fresh, FramedBiStream}
use squish.Server.Authenticate.Sound.{IsAuthentic}
use squish.Server.Authenticate.{authenticate, is_refused, look_up, challenge}
use squish.Text.{Text, str_eq, str_eq_iff}
use squish.Proto.Message.{
  ControlMessage, Bytes, IoError, not_found, client_hello, protocol_version, auth_response,
  auth_challenge,
}
use squish.Server.Config.{ServerConfig}
use squish.Server.Keys.{
  Host, keys_of_user, load_user_authorized_keys, User, authorized_keys_path, lookup_user,
}
use squish.Prelude.{
  ◌≡◌, List, Bool, Option, Result, ok, true, Any, err, ℕ, none, some, ◌∷◌, false, [], any-Any,
  Bool-cases, ◌==◌, Any-map, inl, inr, ◌∙◌, sym, refl,
}

module _ (h : Host) (config : ServerConfig) (link : List ControlMessage → Bool) where
  -- The same host with another user database.
  abbrev pub with_users : (Text → Result IoError (Option User)) → Host
  with_users from_name = record h { from_name = from_name }

  lookup_user_of :
      (g : Host) (u : Text) {user : Option User}
      → g.from_name u ≡ ok user
      → lookup_user g u ≡ ok user
  lookup_user_of g u e = rw (e, lookup_user)

  missing_keys :
      (g : Host) (user : User)
      → g.files.metadata (authorized_keys_path user) ≡ err not_found
      → keys_of_user g (some user) ≡ ok []
  unfolding keys_of_user load_user_authorized_keys
  missing_keys g user e = rw e

  look_up-known :
      (g : Host) (u : Text) (s : FramedBiStream ControlMessage) (user : Option User)
      (keys : List Bytes)
      → g.from_name u ≡ ok user
      → keys_of_user g user ≡ ok keys
      → look_up g config link u s ≡ challenge g config link u user keys s
  look_up-known g u s user keys e k = rw (lookup_user_of g u e, k)

  -- With no authorized key every answer is refused, whether the user exists or not.
  challenge-no_keys :
      (f : Text → Result IoError (Option User)) (u : Text) (user : User)
      (s : FramedBiStream ControlMessage)
      → challenge h config link u none [] s
        ≡ challenge (with_users f) config link u (some user) [] s
  unfolding is_refused
  challenge-no_keys f u user s = refl

  -- A user who does not exist and a user with no keys file are refused alike: whatever the client
  -- sends after a greeting with that name, the two handshakes send the same messages and end in
  -- the same result.
  pub authenticate-uniform :
      (from_name : Text → Result IoError (Option User)) (version : ℕ) (username : Text)
      (incoming : List ControlMessage) (user : User)
      → h.from_name username ≡ ok none
      → from_name username ≡ ok (some user)
      → h.files.metadata (authorized_keys_path user) ≡ err not_found
      → authenticate h config link (fresh (client_hello version username ∷ incoming))
        ≡ authenticate
            (with_users from_name)
            config
            link
            (fresh (client_hello version username ∷ incoming))
  unfolding authenticate
  authenticate-uniform from_name version username incoming user e e' m =
      elim (Bool-cases (version == protocol_version)) [
        | inl t ↦
            let s : FramedBiStream ControlMessage = record { incoming = incoming; sent = [] } in
            rw t (
              look_up-known h username s none [] e refl
              ∙ challenge-no_keys from_name username user s
              ∙ sym (
                  look_up-known (with_users from_name) username s (some user) [] e'
                    (missing_keys (with_users from_name) user m)))
        | inr t ↦ rw t
      ]

  is_refused-listed :
      (user : User) (authorized : List Bytes) (pubkey : Bytes)
      → Any (λ k. k ≡ pubkey) authorized
      → is_refused h config link (some user) authorized pubkey ≡ false
  unfolding is_refused
  is_refused-listed user authorized pubkey a =
      rw (any-Any (λ k. str_eq k pubkey) (Any-map (λ k. (str_eq_iff k pubkey).1) a))

  -- A client that greets in the daemon's version, and answers with a key of the user's file and a
  -- signature that verifies, is let in, on a stream that takes every message.
  pub authenticate_complete :
      (username : Text) (incoming : List ControlMessage) (a : IsAuthentic h config username)
      → ((sent : List ControlMessage) → link sent ≡ true)
      → (authenticate h config link (
          fresh
            (client_hello protocol_version username ∷ auth_response a.pubkey a.sig ∷ incoming))).1
        ≡ ok username
  unfolding authenticate
  authenticate_complete username incoming a up =
      let s : FramedBiStream ControlMessage = record {
        incoming = auth_response a.pubkey a.sig ∷ incoming;
        sent = [];
      } in
      rw (
        look_up-known h username s (some a.user) a.keys a.exists a.loaded,
        up [],
        is_refused-listed a.user a.keys a.pubkey a.listed,
        a.signed,
        up (auth_challenge h.nonce ∷ []),
      )
