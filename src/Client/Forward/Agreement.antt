-- ===== src/Client/Forward/Agreement.antt =====
-- Both ends of a forwarded connection: crates/sqsh/src/channel/forward.rs for the client,
-- crates/sqshd/src/connection.rs and channel/forward.rs for the daemon.
use squish.Server.Access.{direct_tcpip_allowed}
use squish.Proto.Stream.{fresh}
use squish.Text.{Text}
use squish.Client.ForwardSpec.{ForwardSpec}
use squish.Server.Config.{ServerConfig}
use squish.Proto.Channel.{ChannelMessage, administratively_prohibited}
use squish.Client.Forward.{
  handle_local_connection, handle_remote_forward_stream, find_spec, direct_params,
  target_unreachable, no_handler, refused, ForwardFailure,
}
use squish.Server.Forward.Remote as Daemon
use squish.Server.Forward.Remote.{handle_remote_connection, rejected, target_of, link_failed}
use squish.Server.Dispatch as Dispatch
use squish.Server.Dispatch.{dispatch_channel, direct_tcpip_handler}
use squish.Prelude.{
  ℕ, List, Bool, ◌≡◌, true, none, some, All, Any, ◌≢◌, [], ◌∷◌, Bool-cases, if◌then◌else◌, ◌==◌, ok,
  inl, some-injective, err, inr, here, refl, ==_iff, there, Option-cases, Result, arith, false,
}

pub find_spec-some :
    (port : ℕ) (specs : List ForwardSpec) {spec : ForwardSpec}
    → find_spec port specs ≡ some spec
    → Any (λ s. s ≡ spec) specs × (spec.bind_port ≡ port)
unfolding find_spec
find_spec-some port [] h = cc
find_spec-some port (s ∷ specs) {spec} h = elim (Bool-cases (s.bind_port == port)) [
  | inl t ↦
      let same : s ≡ spec = some-injective (rw t at h) in
      (here same, rw (← same) ((==_iff s.bind_port port).0 t))
  | inr f ↦ let (a, p) = find_spec-some port specs (rw f at h) in (there a, p)
]

pub find_spec-none :
    (port : ℕ) (specs : List ForwardSpec)
    → find_spec port specs ≡ none
    → All (λ s. s.bind_port ≢ port) specs
unfolding find_spec
find_spec-none port [] h = tt
find_spec-none port (s ∷ specs) h = elim (Bool-cases (s.bind_port == port)) [
  | inl t ↦ cc (rw t at h)
  | inr f ↦ (λ e. ground (arith, e, f), find_spec-none port specs (rw f at h))
]

-- How a connection to the daemon's listener ends at both sides.
pub data Met (specs : List ForwardSpec) (connect : Text → Bool) (port : ℕ)
    (client : Result ForwardFailure Text) (daemon : Result Daemon.ForwardFailure (Unit {0}))
    : Type 0 where
  joined :
      (spec : ForwardSpec)
      → Any (λ s. s ≡ spec) specs
      → spec.bind_port ≡ port
      → connect (target_of spec.target_host spec.target_port) ≡ true
      → client ≡ ok (target_of spec.target_host spec.target_port)
      → daemon ≡ ok tt
      → Met specs connect port client daemon
  unreachable :
      (spec : ForwardSpec)
      → Any (λ s. s ≡ spec) specs
      → spec.bind_port ≡ port
      → connect (target_of spec.target_host spec.target_port) ≡ false
      → client ≡ err target_unreachable
      → daemon ≡ err link_failed
      → Met specs connect port client daemon
  unknown :
      All (λ s. s.bind_port ≢ port) specs
      → client ≡ err no_handler
      → daemon ≡ err (rejected administratively_prohibited)
      → Met specs connect port client daemon

module _ (link daemon_link : List ChannelMessage → Bool)
    (up : (sent : List ChannelMessage) → link sent ≡ true)
    (daemon_up : (sent : List ChannelMessage) → daemon_link sent ≡ true) where
  -- A local forward on streams that take every message. The daemon hands the channel to the target
  -- that the specification names, and the client goes on with it, exactly if the daemon's list
  -- allows the target; else the client is told that it is refused.
  pub handle_local_connection_agree :
      (config : ServerConfig) (spec : ForwardSpec) (originator : Text × ℕ)
      → let opened = handle_local_connection link spec originator (fresh []) in
        let daemon = dispatch_channel config daemon_link (fresh opened.0.sent) in
        let client = handle_local_connection link spec originator (fresh daemon.0.sent) in
        let allowed =
          direct_tcpip_allowed spec.target_host spec.target_port config.direct_tcpip_allowlist in
        (daemon.1 ≡ (
          if allowed
          then ok (direct_tcpip_handler (direct_params spec originator))
          else ok Dispatch.no_handler))
        × (client.1 ≡ (if allowed then ok tt else err (refused administratively_prohibited)))
  unfolding handle_local_connection dispatch_channel
  handle_local_connection_agree config spec originator =
      elim (Bool-cases
        (direct_tcpip_allowed spec.target_host spec.target_port config.direct_tcpip_allowlist)) [
          | inl t ↦ rw (up [], t, daemon_up []) (refl, refl)
          | inr f ↦ rw (up [], f, daemon_up []) (refl, refl)
        ]

  -- A remote forward on streams that take every message: the client has connected to the target of
  -- one of its specifications for the daemon's port, joins the connection to it, and the daemon
  -- goes on; or it could not connect to the target of one of these, and both fail; or there is no
  -- specification for the port, and the daemon is told so.
  pub handle_remote_connection_agree :
      (specs : List ForwardSpec) (connect : Text → Bool) (addr : Text) (port : ℕ)
      (originator : Text × ℕ)
      → let opened = handle_remote_connection daemon_link addr port originator (fresh []) in
        let client = handle_remote_forward_stream link connect specs (fresh opened.0.sent) in
        let daemon =
          handle_remote_connection daemon_link addr port originator (fresh client.0.sent) in
        Met specs connect port client.1 daemon.1
  unfolding handle_remote_connection handle_remote_forward_stream
  handle_remote_connection_agree specs connect addr port originator =
      elim (Option-cases (find_spec port specs)) [
        | inl n ↦
            unknown (find_spec-none port specs n) (rw (daemon_up [], n) refl)
              (rw (daemon_up [], n) refl)
        | inr (spec, e) ↦
            let (a, p) = find_spec-some port specs e in
            elim (Bool-cases (connect (target_of spec.target_host spec.target_port))) [
              | inl t ↦
                  joined spec a p t (rw (daemon_up [], e, t, up []) refl)
                    (rw (daemon_up [], e, t, up []) refl)
              | inr f ↦
                  unreachable spec a p f (rw (daemon_up [], e, f) refl)
                    (rw (daemon_up [], e, f) refl)
            ]
      ]
