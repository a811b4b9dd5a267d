-- ===== src/Tests/Server.antt =====
-- A handshake, a connection and a session with concrete settings.
use squish.Proto.Codec.Words.{u16_to_le, u32_to_le, u32_from_le}
use squish.Tests.Instances.{
  memory_reader, host, alice, alice_key, letter_code, letter_code-EncodesWords,
}
use squish.Auth.AuthorizedKeys.RoundTrip.{parse_authorized_keys-format_file}
use squish.Auth.Challenge.{challenge_bytes, build_challenge_payload}
use squish.Server.Config.{ServerConfig, default_config, env_accepted, pattern_accepts}
use squish.Server.Access.{
  IpAddr, v4, exact_host_port_match, direct_tcpip_allowed, remote_forward_allowed,
  is_loopback_bind_addr, str_eq_ignore_case, is_loopback,
}
use squish.Server.Access.Exact.{Names}
use squish.Server.Authenticate.{authenticate}
use squish.Server.Authenticate.Sound.{authenticate-Verdict, Verdict, IsAuthentic}
use squish.Server.Authenticate.Uniform.{authenticate-uniform, authenticate_complete, with_users}
use squish.Server.Connection.{
  Connection, Event, stream_accepted, control_received, channel_done, run, running, start, state,
  step, forward_request, forward_cancel, record_action, reply, start_forward, has_key,
}
use squish.Server.Connection.Invariant.{run-start-IsSound, IsSound, Allowed}
use squish.Server.Connection.Replies.{
  step-forward_replies, forward_request-forward_cancel, run-still_active, forward_replies,
}
use squish.Server.Dispatch.{dispatch_channel}
use squish.Server.Dispatch.Guarded.{dispatch_channel-allowed}
use squish.Server.Session.{session_loop, new_session, run_child, turn, add_env}
use squish.Server.Session.Environment.{session_loop-setup_of-Provides, Provides}
use squish.Server.Session.Process.{System, child_setup}
use squish.Server.Session.Replied.{turn-replies, replies, session_of}
use squish.Server.Session.Child.{
  configure_child, configure_child-IsIdentity, IsIdentity, IsDropped, value_of, ChildSetup,
}
use squish.Server.Keys.{
  Host, User, load_user_authorized_keys, check_signature, group_or_world_writable,
}
use squish.Proto.Stream.{fresh}
use squish.Proto.Channel.{
  ChannelMessage, TcpipParams, open_channel, direct_tcpip, direct_tcpip_params, open_confirmation,
  request, env, shell, channel_data,
}
use squish.Proto.Message.{
  Bytes, ControlMessage, client_hello, auth_response, protocol_version, tcp_forward_request,
  tcp_forward_confirm, tcp_forward_failure, tcp_forward_cancel, not_found, IoError,
}
use squish.Text.{
  Text, text, str_eq, as_bytes, encode_utf8, contains, rsplit_once, parse_unsigned, parse_digits,
  strip_suffix, is_digit, starts_with, to_ascii_lowercase, to_lower,
}
use squish.Server.Handle.{handle_connection, served, after_handshake}
use squish.Server.Handle.Admitted.{handle_connection-served}
use squish.Server.Forward.{PumpState, PumpEvent, pump, pumping, ended, tcp_read, received}
use squish.Server.Forward.Transparent.{pump_transparent, Delivers}
use squish.Server.Forward.Interrupted.{pump-header_lost}
use squish.Proto.Codec.{Postcard}
use squish.Prelude.{
  ℕ, ◌≡◌, ◌⊎◌, refl, List, [], ◌∷◌, ◌++◌, Bool, true, Option, some, none, ok, err, Any, here, arith,
  Result, if◌then◌else◌, ap,
}

abbrev pub config : ServerConfig
config = record (default_config (text "key") (text "cert")) {
  direct_tcpip_allowlist = text "db:5432" ∷ [];
}

abbrev pub up : {M : Type 0} → List M → Bool
up sent = true

abbrev pub parse_ip : Text → Option IpAddr
parse_ip s = if str_eq s (text "127.0.0.1") then some (v4 127 0 0 1) else none

abbrev alice_signature : Bytes
alice_signature =
    alice_key ++ challenge_bytes host.nonce config.live_cert_fingerprint (text "alice")

abbrev hello : List ControlMessage
hello = client_hello protocol_version (text "alice") ∷ auth_response alice_key alice_signature ∷ []

pub alice_keys : load_user_authorized_keys host alice ≡ ok (alice_key ∷ [])
unfolding load_user_authorized_keys group_or_world_writable contains
alice_keys = ap ok (
    parse_authorized_keys-format_file letter_code ((alice_key, text "laptop") ∷ [])
      letter_code-EncodesWords (((λ e. cc e), (refl, refl)), tt))

alice_signed :
    check_signature host config.live_cert_fingerprint (text "alice") alice_key alice_signature
    ≡ ok true
unfolding check_signature build_challenge_payload challenge_bytes as_bytes encode_utf8 str_eq
    u16_to_le
alice_signed = refl

pub alice_found : host.from_name (text "alice") ≡ ok (some alice)
unfolding str_eq
alice_found = refl

authenticate-Verdict_example : Verdict host config up (authenticate host config up (fresh hello))
authenticate-Verdict_example = authenticate-Verdict host config up hello

alice-let_in : (authenticate host config up (fresh hello)).1 ≡ ok (text "alice")
alice-let_in =
    authenticate_complete host config up (text "alice") []
      (record {
        user = alice;
        exists = alice_found;
        keys = alice_key ∷ [];
        loaded = alice_keys;
        pubkey = alice_key;
        sig = alice_signature;
        listed = here refl;
        signed = alice_signed;
      })
      λ sent. refl

-- Nobody exists, or `bob` without a file.
abbrev no_files : Host
no_files = record host {
  from_name = λ u. ok none;
  files = record { metadata = λ path. err not_found; read_to_string = λ path. err not_found };
}

abbrev everybody : Text → Result IoError (Option User)
everybody u = ok (some alice)

authenticate-uniform_example :
    authenticate no_files config up (fresh hello)
    ≡ authenticate (with_users no_files config up everybody) config up (fresh hello)
authenticate-uniform_example =
    authenticate-uniform no_files config up everybody protocol_version (text "alice")
      (auth_response alice_key alice_signature ∷ []) alice refl refl refl

abbrev events : List Event
events =
    stream_accepted
    ∷ control_received (tcp_forward_request (text "127.0.0.1") 80) true
    ∷ channel_done
    ∷ []

alice-served :
    handle_connection host parse_ip config up hello events
    ≡ served (text "alice") (run parse_ip config (running (start parse_ip config)) events)
alice-served =
    ap
      (λ r.
        after_handshake host parse_ip config up ((authenticate host config up (fresh hello)).0, r)
          events)
      alice-let_in

handle_connection-served_example :
    IsAuthentic host config (text "alice")
    × IsSound parse_ip config (state (run parse_ip config (running (start parse_ip config)) events))
handle_connection-served_example =
    handle_connection-served host parse_ip config up hello events alice-served

run-start-IsSound_example :
    IsSound parse_ip config (state (run parse_ip config (running (start parse_ip config)) events))
run-start-IsSound_example = run-start-IsSound parse_ip config events

step-forward_replies_example :
    forward_replies
      (state (
        step parse_ip config
          (start parse_ip config)
          (control_received (tcp_forward_request (text "127.0.0.1") 80) true))).log
    ≡ 1
step-forward_replies_example =
    step-forward_replies parse_ip config (start parse_ip config)
      (control_received (tcp_forward_request (text "127.0.0.1") 80) true)

abbrev pub one_forward : Connection
one_forward = record (start parse_ip config) { forward_tasks = (text "127.0.0.1", 80) ∷ [] }

pub loopback-Allowed : Allowed parse_ip config (text "127.0.0.1") 80
unfolding remote_forward_allowed is_loopback_bind_addr str_eq_ignore_case is_loopback str_eq
    to_ascii_lowercase to_lower
loopback-Allowed = refl

pub one_forward-active : has_key (text "127.0.0.1") 80 one_forward.forward_tasks ≡ true
unfolding has_key str_eq
one_forward-active = refl

forward_request-forward_cancel_example :
    forward_request parse_ip config
      (text "127.0.0.1")
      80
      true
      (forward_cancel parse_ip config (text "127.0.0.1") 80 one_forward)
    ≡ running (
        record_action (reply (tcp_forward_confirm 80)) (
          start_forward parse_ip config
            (text "127.0.0.1")
            80
            (forward_cancel parse_ip config (text "127.0.0.1") 80 one_forward)))
unfolding has_key
forward_request-forward_cancel_example =
    forward_request-forward_cancel parse_ip config (text "127.0.0.1") 80 one_forward
      (record {
        limited = omega arith;
        allowed = (loopback-Allowed, tt);
        distinct = (refl, tt);
        channels = refl;
        spawned = tt;
      })
      one_forward-active

abbrev other_events : List Event
other_events =
    stream_accepted
    ∷ control_received (tcp_forward_request (text "127.0.0.1") 81) true
    ∷ control_received (tcp_forward_cancel (text "127.0.0.1") 81) true
    ∷ []

run-still_active_example :
    let c' = state (run parse_ip config (running one_forward) other_events) in
    forward_request parse_ip config (text "127.0.0.1") 80 true c'
    ≡ running
        (record_action (reply (tcp_forward_failure (text "remote forward already active"))) c')
unfolding str_eq
run-still_active_example =
    run-still_active parse_ip config (text "127.0.0.1") 80 one_forward other_events loopback-Allowed
      one_forward-active (refl, (refl, (refl, tt)))

abbrev to_db : TcpipParams
to_db = record { host = text "db"; port = 5432; originator_addr = text "c"; originator_port = 1 }

dispatch_channel-allowed_example :
    ((rest : List ChannelMessage) × (open_channel direct_tcpip (direct_tcpip_params to_db) ∷ []
        ≡ open_channel direct_tcpip (direct_tcpip_params to_db) ∷ rest))
    × Any (Names (text "db") 5432) config.direct_tcpip_allowlist
    × ((dispatch_channel config up
          (fresh (open_channel direct_tcpip (direct_tcpip_params to_db) ∷ []))).0.sent
        ≡ open_confirmation 32768 ∷ [])
unfolding dispatch_channel direct_tcpip_allowed exact_host_port_match rsplit_once parse_unsigned
    parse_digits is_digit str_eq
dispatch_channel-allowed_example =
    dispatch_channel-allowed config up (open_channel direct_tcpip (direct_tcpip_params to_db) ∷ [])
      to_db refl

abbrev requests : List ChannelMessage
requests = request (env (text "LC_ALL") (text "C")) true ∷ request shell true ∷ []

abbrev daemon_system : System
daemon_system = record {
  effective_uid = 0;
  slave_fd = 5;
  openpty = λ size. true;
  spawn = λ command. true;
  to_uppercase = λ t. t;
}

abbrev locale_setup : ChildSetup
locale_setup = elim (child_setup daemon_system alice none ((text "LC_ALL", text "C") ∷ [])) [
  | some setup ↦ setup
  | none ↦ record { env_calls = []; current_dir = []; pre_exec = [] }
]

session_loop-setup_of-Provides_example :
    Provides
      (λ p. true)
      config
      up
      alice
      (run_child none none ((text "LC_ALL", text "C") ∷ []))
      locale_setup.env_calls
unfolding session_loop add_env env_accepted pattern_accepts strip_suffix starts_with str_eq
    configure_child contains
session_loop-setup_of-Provides_example =
    session_loop-setup_of-Provides (λ p. true) config up requests daemon_system alice
      {launch = run_child none none ((text "LC_ALL", text "C") ∷ [])} {setup = locale_setup} refl
      refl

turn-replies_example :
    replies (session_of (turn (λ p. true) config up (request shell true) new_session)).sent ≡ 1
turn-replies_example = turn-replies (λ p. true) config up (request shell true) new_session

abbrev root_setup : ChildSetup
root_setup = elim (configure_child 0 alice ((text "USER", text "root") ∷ []) none none) [
  | some setup ↦ setup
  | none ↦ record { env_calls = []; current_dir = []; pre_exec = [] }
]

configure_child-IsIdentity_example :
    IsIdentity alice (λ k. value_of k root_setup.env_calls)
    × ((◌≡◌ {A = ℕ} 0 1000) ⊎ IsDropped alice root_setup.pre_exec)
unfolding configure_child contains
configure_child-IsIdentity_example =
    configure_child-IsIdentity 0 alice ((text "USER", text "root") ∷ []) none none
      {setup = root_setup} refl

-- A data message is its bytes, anything else has no encoding.
abbrev encoded : ChannelMessage → Option Bytes
encoded (channel_data chunk) = some chunk
encoded _ = none

channel_data-encoded :
    (m : ChannelMessage) (bs : Bytes)
    → encoded m ≡ some bs
    → ◌≡◌ {A = Option ChannelMessage} (some (channel_data bs)) (some m)
channel_data-encoded (channel_data chunk) bs h = cc
channel_data-encoded _ bs h = cc

abbrev data_messages : Postcard ChannelMessage
data_messages = record {
  to_allocvec = encoded;
  from_bytes = λ bs. some (channel_data bs);
  from_bytes-to_allocvec = channel_data-encoded;
}

abbrev pump_from : Bytes → PumpState data_messages memory_reader
pump_from stream = record { sent = []; written = []; stream = stream }

abbrev traffic : List PumpEvent
traffic = tcp_read (1 ∷ 2 ∷ []) 0 true ∷ received true ∷ []

pump_transparent_example :
    let s = pump_from (1 ∷ 0 ∷ 0 ∷ 0 ∷ 3 ∷ []) in
    (s' : PumpState data_messages memory_reader) × (pump data_messages memory_reader
        (pumping s)
        traffic
      ≡ pumping s')
    × Delivers data_messages memory_reader s s' (1 ∷ 2 ∷ []) (channel_data (3 ∷ []) ∷ []) []
unfolding u32_to_le
pump_transparent_example =
    pump_transparent data_messages memory_reader traffic (channel_data (3 ∷ []) ∷ []) []
      (pump_from (1 ∷ 0 ∷ 0 ∷ 0 ∷ 3 ∷ [])) ((refl, refl), (refl, tt)) (tt, tt)
      (3 ∷ [], refl, omega arith, ([], refl, refl)) refl

abbrev four_bytes : Bytes
four_bytes = 1 ∷ 2 ∷ 3 ∷ 4 ∷ []

lost_header :
    let s = pump_from (4 ∷ 0 ∷ 0 ∷ 0 ∷ four_bytes) in
    (s' : PumpState data_messages memory_reader) × (pump data_messages memory_reader
        (pumping s)
        (tcp_read (9 ∷ []) 4 true ∷ received true ∷ [])
      ≡ ended s')
    × (s'.sent ≡ channel_data (9 ∷ []) ∷ [])
    × (◌≡◌ {A = Bytes} s'.written [])
unfolding u32_to_le u32_from_le
lost_header =
    pump-header_lost data_messages memory_reader (pump_from (4 ∷ 0 ∷ 0 ∷ 0 ∷ four_bytes))
      (channel_data four_bytes) (9 ∷ []) four_bytes [] refl refl (omega arith) (omega arith)
