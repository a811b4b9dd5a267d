-- ===== src/Client/Control/Forwards.antt =====
-- A remote forward that two clients of one master (crates/sqsh/src/control.rs) ask for.
use squish.Proto.Stream.{fresh}
use squish.Server.Connection.Invariant.{Allowed}
use squish.Proto.Channel.{
  ChannelMessage, TcpipParams, open_channel, forwarded_tcpip, forwarded_tcpip_params,
}
use squish.Server.Connection.{forward_request, Connection, has_key, running, record_action, reply}
use squish.Proto.Message.{ControlMessage, tcp_forward_failure}
use squish.Server.Config.{ServerConfig}
use squish.Server.Access.{IpAddr}
use squish.Client.Forward.{find_spec, handle_remote_forward_stream, no_handler}
use squish.Text.{Text, text, str_eq, str_eq_refl}
use squish.Client.ForwardSpec.{ForwardSpec}
use squish.Client.Control.Handler.{register_forward, add_spec, drop_specs, declined, same_binding}
use squish.Prelude.{
  ℕ, Option, List, Bool-cases, All, ◌≡◌, any, none, ◌∷◌, inl, ◌==◌, Bool, inr, All-append, [], refl,
  true, err, ==_iff, false, ap, ◌∙◌,
}

-- Every specification for this port is for this address.
abbrev pub OneAddress : Text → ℕ → List ForwardSpec → Type 0
OneAddress addr port = All (λ s. s.bind_port ≡ port → s.bind_addr ≡ addr)

find_spec-other :
    (port : ℕ) (s : ForwardSpec) (specs : List ForwardSpec)
    → (s.bind_port == port) ≡ false
    → find_spec port (s ∷ specs) ≡ find_spec port specs
unfolding find_spec
find_spec-other port s specs f = rw f refl

drop_specs-other :
    (spec s : ForwardSpec) (specs : List ForwardSpec)
    → (s.bind_port == spec.bind_port) ≡ false
    → drop_specs spec (s ∷ specs) ≡ s ∷ drop_specs spec specs
unfolding drop_specs
drop_specs-other spec s specs f = elim (Bool-cases (str_eq s.bind_addr spec.bind_addr)) [
  | inl e ↦ rw (e, f) refl
  | inr e ↦ rw e refl
]

drop_specs-find_spec :
    (spec : ForwardSpec) (specs : List ForwardSpec)
    → OneAddress spec.bind_addr spec.bind_port specs
    → find_spec spec.bind_port (drop_specs spec specs) ≡ none
unfolding find_spec drop_specs
drop_specs-find_spec spec [] a = refl
drop_specs-find_spec spec (s ∷ specs) (one, a) =
    let rest = drop_specs-find_spec spec specs a in
    elim (Bool-cases (s.bind_port == spec.bind_port)) [
      | inl t ↦
          let addr = one ((==_iff s.bind_port spec.bind_port).0 t) in
          let same : str_eq s.bind_addr spec.bind_addr ≡ true =
            rw addr (str_eq_refl spec.bind_addr) in
          rw (same, t) rest
      | inr f ↦
          ap (find_spec spec.bind_port) (drop_specs-other spec s specs f)
          ∙ (find_spec-other spec.bind_port s (drop_specs spec specs) f ∙ rest)
    ]

add_spec-OneAddress :
    (spec : ForwardSpec) (specs : List ForwardSpec)
    → OneAddress spec.bind_addr spec.bind_port specs
    → OneAddress spec.bind_addr spec.bind_port (add_spec spec specs)
unfolding add_spec
add_spec-OneAddress spec specs a = elim (Bool-cases (any (same_binding spec) specs)) [
  | inl t ↦ rw t a
  | inr f ↦ rw f (All-append _ specs (spec ∷ []) a ((λ e. refl), tt))
]

module _ (parse_ip : Text → Option IpAddr) (config : ServerConfig)
    (link : List ControlMessage → Bool) where
  -- When a forward is active at the daemon, every specification that the master has for its port is
  -- for its address, and another client of the same master asks for it again: the daemon refuses,
  -- for the forward is active; the master then forgets the specification of the client that had
  -- it; and every later connection to the forward's port, which the daemon still listens on, is
  -- refused by the master.
  pub register_forward-forgets :
      (spec : ForwardSpec) (daemon : Connection) (specs : List ForwardSpec)
      (rest : List ControlMessage) (client_link : List ChannelMessage → Bool)
      (connect : Text → Bool) (p : TcpipParams)
      → ((sent : List ControlMessage) → link sent ≡ true)
      → Allowed parse_ip config spec.bind_addr spec.bind_port
      → has_key spec.bind_addr spec.bind_port daemon.forward_tasks ≡ true
      → OneAddress spec.bind_addr spec.bind_port specs
      → p.port ≡ spec.bind_port
      → let why = text "remote forward already active" in
        let refusal = tcp_forward_failure why in
        let after =
          register_forward link spec (record { specs = specs; control = fresh (refusal ∷ rest) }) in
        (forward_request parse_ip config spec.bind_addr spec.bind_port true daemon
          ≡ running (record_action (reply refusal) daemon))
        × (after.1 ≡ declined why)
        × ((handle_remote_forward_stream client_link connect after.0.specs
              (fresh (open_channel forwarded_tcpip (forwarded_tcpip_params p) ∷ []))).1
            ≡ err no_handler)
  unfolding forward_request register_forward handle_remote_forward_stream
  register_forward-forgets spec daemon specs rest client_link connect p up allowed active one same =
      let gone =
        drop_specs-find_spec spec (add_spec spec specs) (add_spec-OneAddress spec specs one) in
      (rw (allowed, active) refl, rw (up []) refl, rw (up [], same, gone) refl)
