-- ===== src/Client/Connect/Pinned.antt =====
-- What a client does with a server whose host has a stored fingerprint
-- (crates/sqsh/src/connection.rs).
use squish.Auth.AuthorizedKeys.{format_authorized_key}
use squish.Client.Authenticate.Sound.{IsAuthenticated, authenticate-IsAuthenticated}
use squish.Client.Authenticate.{Failure, authenticate, load_seed}
use squish.Proto.Message.{Bytes, ControlMessage}
use squish.Proto.Stream.{FramedBiStream, fresh}
use squish.Client.KnownHosts.{verify, KnownHostsFile, Entries, load, get, verification_failed}
use squish.Text.{Text, str_eq, eq_of_str_eq}
use squish.Client.Resolve.{ClientConfig, hex_bytes}
use squish.Client.Connect.{
  Network, World, establish_connection, host_port_of, Attempt, Peer, ConnectError,
  compute_cert_fingerprint, is_auth_failed, verify_host, after_authenticate, PeerIdentity,
  unresolved, known_hosts_error, no_identity, unreachable, no_stream, not_a_chain, certificates,
  empty_chain, after_install, install_seed, not_certificates, install_key_via_ssh, after_attempt,
  open_authenticated,
}
use squish.Prelude.{
  List, Option, Option-cases, ◌≡◌, inl, some, Result, inr, Result-cases, err, ok, Bool-cases, false,
  sym, refl, ◌⊎◌, ◌∷◌, none, ◌∙◌, [],
}

module _ (n : Network) (config : ClientConfig) (stored : Text) where
  -- The server that is reached, once some lines are installed, has the stored fingerprint.
  pub record KnownPeer (lines : List Text) : Type 0 where
    pub addr : n.Addr
    pub resolved : n.resolve (host_port_of config) ≡ some addr
    pub peer : Peer
    pub reached : n.reach lines addr config.host ≡ some peer
    pub fingerprint : Bytes
    pub computed : compute_cert_fingerprint n.sha256 peer.identity ≡ ok fingerprint
    pub same : hex_bytes fingerprint ≡ stored

  -- The handshake with a server that is trusted.
  abbrev handshake :
      {lines : List Text}
      → KnownPeer lines
      → FramedBiStream ControlMessage × Result Failure (Unit {0})
  handshake k =
      authenticate n.signer k.peer.link config.username config.identity_path k.fingerprint
        (fresh k.peer.incoming)

  -- Nothing has happened, or the handshake took place.
  data Contact (w : World) (x : Attempt n config (FramedBiStream ControlMessage)) : Type 0 where
    untouched : (e : ConnectError) → x ≡ (w, err e) → is_auth_failed e ≡ false → Contact w x
    reached_peer :
        (k : KnownPeer w.installed) → x ≡ after_authenticate n config w (handshake k) → Contact w x

  -- The entries of the known hosts file, and the one for this host.
  abbrev pub IsStored : Option KnownHostsFile → Type 0
  IsStored file =
      (entries : Entries) × (load file ≡ ok entries)
      × (get (host_port_of config) entries ≡ some stored)

  compute_cert_fingerprint-plain :
      (i : Option PeerIdentity) {e : ConnectError}
      → compute_cert_fingerprint n.sha256 i ≡ err e
      → is_auth_failed e ≡ false
  unfolding compute_cert_fingerprint
  compute_cert_fingerprint-plain none {e} h = let same : no_identity ≡ e = cc in rw (← same) refl
  compute_cert_fingerprint-plain (some not_certificates) {e} h =
      let same : not_a_chain ≡ e = cc in rw (← same) refl
  compute_cert_fingerprint-plain (some (certificates [])) {e} h =
      let same : empty_chain ≡ e = cc in rw (← same) refl
  compute_cert_fingerprint-plain (some (certificates (x ∷ xs))) h = cc

  verify_host-Contact :
      (w : World) (addr : n.Addr) (peer : Peer) (fingerprint : Bytes)
      → n.resolve (host_port_of config) ≡ some addr
      → n.reach w.installed addr config.host ≡ some peer
      → compute_cert_fingerprint n.sha256 peer.identity ≡ ok fingerprint
      → IsStored w.hosts
      → Contact w (verify_host n config peer fingerprint w (load w.hosts))
  unfolding verify
  verify_host-Contact w addr peer fingerprint r q c (entries, l, g) =
      elim (Bool-cases (str_eq stored (hex_bytes fingerprint))) [
        | inr other ↦
            untouched (known_hosts_error (verification_failed stored (hex_bytes fingerprint)))
              (rw (l, g, other)) refl
        | inl same ↦ elim (Bool-cases peer.opens) [
          | inr shut ↦ untouched no_stream (rw (l, g, same, shut)) refl
          | inl opens ↦
              reached_peer
                (record {
                  addr = addr;
                  resolved = r;
                  peer = peer;
                  reached = q;
                  fingerprint = fingerprint;
                  computed = c;
                  same = sym (eq_of_str_eq stored (hex_bytes fingerprint) same);
                })
                (rw (l, g, same, opens))
        ]
      ]

  establish_connection-Contact :
      (w : World) → IsStored w.hosts → Contact w (establish_connection n config w)
  unfolding establish_connection
  establish_connection-Contact w i = elim (Option-cases (n.resolve (host_port_of config))) [
    | inl none_found ↦ untouched unresolved (rw none_found) refl
    | inr (addr, r) ↦ elim (Option-cases (n.reach w.installed addr config.host)) [
      | inl no_peer ↦ untouched unreachable (rw (r, no_peer)) refl
      | inr (peer, q) ↦ elim (Result-cases (compute_cert_fingerprint n.sha256 peer.identity)) [
        | inl (fingerprint, c) ↦ rw (r, q, c) (verify_host-Contact w addr peer fingerprint r q c i)
        | inr (e, c) ↦ untouched e (rw (r, q, c)) (compute_cert_fingerprint-plain peer.identity c)
      ]
    ]
  ]

  -- What is known of the end of `open_authenticated`.
  pub record IsPinned (w : World) (x : Attempt n config (FramedBiStream ControlMessage))
      : Type 0 where
    pub kept : x.0.hosts ≡ w.hosts
    pub contacted : ((x.0.sent ≡ w.sent) × (x.0.installed ≡ w.installed)) ⊎ KnownPeer w.installed
    pub trusted :
        (s : FramedBiStream ControlMessage)
        → x.1 ≡ ok s
        → (lines : List Text) × (k : KnownPeer lines) × IsAuthenticated n.signer config.username
            config.identity_path k.fingerprint k.peer.incoming s.sent

  after_authenticate-hosts :
      (w : World) (y : FramedBiStream ControlMessage × Result Failure (Unit {0}))
      → (after_authenticate n config w y).0.hosts ≡ w.hosts
  after_authenticate-hosts w (s, ok u) = refl
  after_authenticate-hosts w (s, err e) = refl

  after_authenticate-ok :
      (w : World) (y : FramedBiStream ControlMessage × Result Failure (Unit {0}))
      {s : FramedBiStream ControlMessage}
      → (after_authenticate n config w y).1 ≡ ok s
      → (y.1 ≡ ok tt) × (y.0 ≡ s)
  after_authenticate-ok w (s, ok u) h = (refl, cc)
  after_authenticate-ok w (s, err e) h = cc

  Contact-hosts :
      (w : World) {x : Attempt n config (FramedBiStream ControlMessage)}
      → Contact w x
      → x.0.hosts ≡ w.hosts
  Contact-hosts w (untouched e q plain) = rw q refl
  Contact-hosts w (reached_peer k q) = rw q (after_authenticate-hosts w (handshake k))

  Contact-trusted :
      (w : World) {x : Attempt n config (FramedBiStream ControlMessage)}
      → Contact w x
      → (s : FramedBiStream ControlMessage) → x.1 ≡ ok s
      → (lines : List Text) × (k : KnownPeer lines) × IsAuthenticated n.signer config.username
          config.identity_path k.fingerprint k.peer.incoming s.sent
  Contact-trusted w (untouched e q plain) s h = cc (rw q at h)
  Contact-trusted w (reached_peer k q) s h =
      let (fine, same) = after_authenticate-ok w (handshake k) (rw q at h) in
      let a =
        authenticate-IsAuthenticated n.signer k.peer.link config.username config.identity_path
          k.fingerprint k.peer.incoming fine in
      (w.installed, k, rw same at a)

  install_key-hosts :
      (w : World) (r : Result Failure Bytes) → (install_seed n config w r).0.hosts ≡ w.hosts
  install_key-hosts w (err e) = refl
  install_key-hosts w (ok seed) =
      let line = format_authorized_key n.base64 (n.signer.verifying_key seed) [] in
      elim (Bool-cases
        (n.install_authorized_key config.username config.host config.ssh_port line)) [
          | inl b ↦ rw b refl
          | inr b ↦ rw b refl
        ]

  -- The second attempt, after a handshake with the server that has the stored fingerprint.
  after_install-IsPinned :
      (w : World) (x : Attempt n config (Unit {0}))
      → KnownPeer w.installed
      → IsStored w.hosts
      → x.0.hosts ≡ w.hosts
      → IsPinned w (after_install n config (establish_connection n config) x)
  after_install-IsPinned w (w', err e) k i same = record {
    kept = same;
    contacted = inr k;
    trusted = λ s h. cc;
  }
  after_install-IsPinned w (w', ok u) k i same =
      let contact = establish_connection-Contact w' (rw same i) in
      record {
        kept = Contact-hosts w' contact ∙ same;
        contacted = inr k;
        trusted = Contact-trusted w' contact;
      }

  Contact-contacted :
      (w : World) {x : Attempt n config (FramedBiStream ControlMessage)}
      → Contact w x
      → ((x.0.sent ≡ w.sent) × (x.0.installed ≡ w.installed)) ⊎ KnownPeer w.installed
  Contact-contacted w (untouched e q plain) = rw q (inl (refl, refl))
  Contact-contacted w (reached_peer k q) = inr k

  Contact-IsPinned :
      (w : World) (x : Attempt n config (FramedBiStream ControlMessage))
      → Contact w x
      → IsPinned w x
  Contact-IsPinned w x contact = record {
    kept = Contact-hosts w contact;
    contacted = Contact-contacted w contact;
    trusted = Contact-trusted w contact;
  }

  after_attempt-IsPinned :
      (w : World) (x : Attempt n config (FramedBiStream ControlMessage))
      → IsStored w.hosts
      → Contact w x
      → IsPinned w (after_attempt n config (establish_connection n config) x)
  unfolding install_key_via_ssh
  after_attempt-IsPinned w (w', ok s) i contact = Contact-IsPinned w (w', ok s) contact
  after_attempt-IsPinned w (w', err e) i (untouched e' q plain) =
      let same : e' ≡ e = cc in
      let goes : is_auth_failed e ≡ false = rw (← same) plain in
      rw goes (Contact-IsPinned w (w', err e) (untouched e' q plain))
  after_attempt-IsPinned w (w', err e) i (reached_peer k q) = elim (Bool-cases (is_auth_failed e)) [
    | inr f ↦ rw f (Contact-IsPinned w (w', err e) (reached_peer k q))
    | inl t ↦
        let first = Contact-hosts w (reached_peer k q) in
        let second = install_key-hosts w' (load_seed n.signer config.identity_path) in
        rw t (after_install-IsPinned w (install_key_via_ssh n config w') k i (second ∙ first))
  ]

  -- When the known hosts file has a fingerprint for this host and port: the file stays as it is;
  -- a message is sent, or a key installed, only if the server that is reached first has this
  -- fingerprint; and a connection that is handed out, from the first attempt or the second, is to
  -- a server with this fingerprint, and the client's signature in it is over this fingerprint.
  pub open_authenticated-IsPinned :
      (w : World) → IsStored w.hosts → IsPinned w (open_authenticated n config w)
  unfolding open_authenticated
  open_authenticated-IsPinned w i =
      after_attempt-IsPinned w (establish_connection n config w) i
        (establish_connection-Contact w i)
