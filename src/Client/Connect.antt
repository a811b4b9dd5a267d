-- ===== src/Client/Connect.antt =====
-- `establish_connection` and `open_authenticated` of crates/sqsh/src/connection.rs: the checks and
-- the handshake of a client's connection, and the second attempt after a refused key. QUIC, TLS,
-- DNS and the system's `ssh` are parameters.
pub mod Pinned
pub mod Direct
use squish.Auth.Challenge.{cert_fingerprint}
use squish.Auth.AuthorizedKeys.{format_authorized_key, Base64}
use squish.Client.Authenticate.{load_seed, Signer, Failure, authenticate, auth_failed}
use squish.Proto.Stream.{FramedBiStream, fresh}
use squish.Client.Resolve.{ClientConfig, hex_bytes}
use squish.Client.KnownHosts.{KnownHostsError, KnownHosts, KnownHostsFile, Entries, load, verify}
use squish.Text.{Text, text, to_string}
use squish.Proto.Message.{Bytes, ControlMessage}
use squish.Client.Authenticate
use squish.Client.KnownHosts
use squish.Prelude.{
  ℕ, Bool, List, Option, err, Result, if◌then◌else◌, ◌++◌, true, ok, false, ◌∷◌, some, [], none,
}

-- `conn.peer_identity()`, if it is a certificate chain.
pub data PeerIdentity : Type 0 where
  certificates : List Bytes → PeerIdentity
  not_certificates : PeerIdentity

-- A QUIC connection as the client meets it: who the server says it is, whether a stream can be
-- opened, what comes on that stream, and after which messages one more can be sent.
pub record Peer : Type 0 where
  pub identity : Option PeerIdentity
  pub opens : Bool
  pub incoming : List ControlMessage
  pub link : List ControlMessage → Bool

pub data ConnectError : Type 0 where
  unresolved unreachable : ConnectError
  no_identity not_a_chain empty_chain : ConnectError
  known_hosts_error : KnownHostsError → ConnectError
  no_stream : ConnectError
  authenticate_error : Failure → ConnectError
  install_failed : ConnectError

-- What the attempts of a client change: the known hosts file, the lines appended to the server's
-- authorized keys, and the messages sent, to whichever server.
pub record World : Type 0 where
  pub hosts : Option KnownHostsFile
  pub installed : List Text
  pub sent : List ControlMessage

-- What the client takes from its surroundings.
pub record Network : Type 1 where
  -- Parsed as a socket address, or found by DNS.
  pub Addr : Type 0
  pub resolve : Text → Option Addr
  -- `endpoint.connect(addr, host)`, once certain lines have been installed.
  pub reach : List Text → Addr → Text → Option Peer
  pub sha256 : Bytes → Bytes
  pub signer : Signer
  pub base64 : Base64
  -- `install_authorized_key` of the SSH runner with user, host and port: whether it succeeds.
  pub install_authorized_key : (user host : Text) (ssh_port : ℕ) → Text → Bool
  -- Of the known hosts' map, and of saving it.
  pub order : Entries → Entries
  pub fault : Text → Option (Option KnownHostsFile)

-- `compute_cert_fingerprint`.
unfoldable pub compute_cert_fingerprint :
    (Bytes → Bytes) → Option PeerIdentity → Result ConnectError Bytes
compute_cert_fingerprint sha256 none = err no_identity
compute_cert_fingerprint sha256 (some not_certificates) = err not_a_chain
compute_cert_fingerprint sha256 (some (certificates [])) = err empty_chain
compute_cert_fingerprint sha256 (some (certificates (server_cert ∷ certs))) =
    ok (cert_fingerprint sha256 server_cert)

-- `format!("{}:{}", config.host, config.port)`.
abbrev pub host_port_of : ClientConfig → Text
host_port_of config = config.host ++ (text ":" ++ to_string config.port)

-- The errors that make the client install its key.
abbrev pub is_auth_failed : ConnectError → Bool
is_auth_failed (authenticate_error auth_failed) = true
is_auth_failed _ = false

module _ (n : Network) (config : ClientConfig) where
  open n use {resolve, reach, sha256, signer, base64, install_authorized_key, order, fault}

  abbrev pub Attempt : Type 0 → Type 0
  Attempt A = World × Result ConnectError A

  -- The end of the handshake: what was sent, and the control stream if it succeeded.
  abbrev pub after_authenticate :
      World
      → FramedBiStream ControlMessage × Result Failure (Unit {0})
      → Attempt (FramedBiStream ControlMessage)
  after_authenticate w (s, ok u) = (record w { sent = w.sent ++ s.sent }, ok s)
  after_authenticate w (s, err e) =
      (record w { sent = w.sent ++ s.sent }, err (authenticate_error e))

  abbrev pub open_control : Peer → Bytes → World → Attempt (FramedBiStream ControlMessage)
  open_control peer fingerprint w =
      if peer.opens
      then after_authenticate w (
          authenticate signer peer.link config.username config.identity_path fingerprint
            (fresh peer.incoming))
      else (w, err no_stream)

  -- The verdict on the fingerprint, and the file as it is after it.
  abbrev pub after_verify :
      Peer
      → Bytes
      → World
      → KnownHosts × Result KnownHostsError (Unit {0})
      → Attempt (FramedBiStream ControlMessage)
  after_verify peer fingerprint w (known_hosts, ok u) =
      open_control peer fingerprint (record w { hosts = known_hosts.file })
  after_verify peer fingerprint w (known_hosts, err e) =
      (record w { hosts = known_hosts.file }, err (known_hosts_error e))

  abbrev pub verify_host :
      Peer
      → Bytes
      → World
      → Result KnownHostsError Entries
      → Attempt (FramedBiStream ControlMessage)
  verify_host peer fingerprint w (err e) = (w, err (known_hosts_error e))
  verify_host peer fingerprint w (ok entries) = after_verify peer fingerprint w (
      verify order fault (host_port_of config) (hex_bytes fingerprint)
        (record { entries = entries; file = w.hosts }))

  abbrev pub check_host :
      Peer → World → Result ConnectError Bytes → Attempt (FramedBiStream ControlMessage)
  check_host peer w (err e) = (w, err e)
  check_host peer w (ok fingerprint) = verify_host peer fingerprint w (load w.hosts)

  abbrev pub with_peer : World → Option Peer → Attempt (FramedBiStream ControlMessage)
  with_peer w none = (w, err unreachable)
  with_peer w (some peer) = check_host peer w (compute_cert_fingerprint sha256 peer.identity)

  abbrev pub with_address : World → Option n.Addr → Attempt (FramedBiStream ControlMessage)
  with_address w none = (w, err unresolved)
  with_address w (some addr) = with_peer w (reach w.installed addr config.host)

  -- Up to the authenticated control stream.
  unfoldable pub establish_connection : World → Attempt (FramedBiStream ControlMessage)
  unfolding compute_cert_fingerprint
  establish_connection w = with_address w (resolve (host_port_of config))

  abbrev pub install_line : World → Text → Attempt (Unit {0})
  install_line w line =
      if install_authorized_key config.username config.host config.ssh_port line
      then (record w { installed = w.installed ++ line ∷ [] }, ok tt)
      else (w, err install_failed)

  abbrev pub install_seed : World → Result Failure Bytes → Attempt (Unit {0})
  install_seed w (err e) = (w, err install_failed)
  install_seed w (ok seed) =
      install_line w (format_authorized_key base64 (signer.verifying_key seed) [])

  -- `install_key_via_ssh`.
  unfoldable pub install_key_via_ssh : World → Attempt (Unit {0})
  install_key_via_ssh w = install_seed w (load_seed signer config.identity_path)

  module _ {A : Type 0} (attempt : World → Attempt A) where
    abbrev pub after_install : Attempt (Unit {0}) → Attempt A
    after_install (w, ok u) = attempt w
    after_install (w, err e) = (w, err e)

    abbrev pub after_error : World → ConnectError → Bool → Attempt A
    after_error w e true = after_install (install_key_via_ssh w)
    after_error w e false = (w, err e)

    abbrev pub after_attempt : Attempt A → Attempt A
    after_attempt (w, ok a) = (w, ok a)
    after_attempt (w, err e) = after_error w e (is_auth_failed e)

    -- `connect` and `open_authenticated`, which share this shape: on `AuthFailed` the key is
    -- installed, and a second attempt is the last.
    unfoldable pub with_install : World → Attempt A
    unfolding install_key_via_ssh
    with_install w = after_attempt (attempt w)

  unfoldable pub open_authenticated : World → Attempt (FramedBiStream ControlMessage)
  unfolding with_install establish_connection
  open_authenticated = with_install establish_connection
