-- ===== src/Client/Control/Handler.antt =====
-- `handle_master_client` and `run_session_for_client` of crates/sqsh/src/control.rs. The master's
-- specifications and its control stream are shared by the clients, behind locks.
use squish.Client.Session.{
  Failure, send_env, ask, process_request, not_a_confirmation, stream_failed,
}
use squish.Text.{Text, str_eq}
use squish.Proto.Stream.{FramedBiStream, Talk, send, ◌>>◌, recv, pure, bail, ◌>>=◌}
use squish.Proto.Channel.{
  ChannelMessage, close, channel_data, eof, extended_data, exit_status, request, window_change,
  PtyReqParams, open_confirmation, open_channel, open_failure, pty_req, session, session_params,
}
use squish.Client.ForwardSpec.{ForwardSpec}
use squish.Proto.Message.{
  ControlMessage, tcp_forward_confirm, tcp_forward_failure, tcp_forward_request,
}
use squish.Client.Control.{
  ClientMessage, open_request, MasterMessage, ready, master_eof, stdout_data, stderr_data,
  status_report, error_report, MasterSessionRequest, stdin_data, client_resize, client_eof,
}
use squish.Prelude.{
  ℕ, List, ◌++◌, Bool, ◌&&◌, Result, ◌∷◌, if◌then◌else◌, Option, ◌==◌, not, true, any, [], ok,
  false, ◌||◌, err, some, none,
}

-- `bail!` and `?`.
pub data HandlerFailure : Type 0 where
  control_failed not_a_reply not_an_open client_gone : HandlerFailure

pub record Shared : Type 0 where
  pub specs : List ForwardSpec
  pub control : FramedBiStream ControlMessage

-- `s.bind_addr == spec.bind_addr && s.bind_port == spec.bind_port`.
abbrev pub same_binding : ForwardSpec → ForwardSpec → Bool
same_binding spec s = str_eq s.bind_addr spec.bind_addr && s.bind_port == spec.bind_port

-- `specs.push(..)` unless the binding is there.
unfoldable pub add_spec : ForwardSpec → List ForwardSpec → List ForwardSpec
unfolding str_eq
add_spec spec specs = if any (same_binding spec) specs then specs else specs ++ spec ∷ []

-- `retain`.
unfoldable pub drop_specs : ForwardSpec → List ForwardSpec → List ForwardSpec
unfolding str_eq
drop_specs spec [] = []
drop_specs spec (s ∷ specs) =
    let rest = drop_specs spec specs in
    if not (str_eq s.bind_addr spec.bind_addr) || not (s.bind_port == spec.bind_port)
    then s ∷ rest
    else rest

-- How the requests for forwards end: all confirmed, one refused, or an error.
pub data Registered : Type 0 where
  confirmed : Registered
  declined : (description : Text) → Registered
  failed_on : HandlerFailure → Registered

abbrev pub drop_if_declined : ForwardSpec → List ForwardSpec → Registered → List ForwardSpec
drop_if_declined spec specs (declined description) = drop_specs spec specs
drop_if_declined spec specs r = specs

abbrev pub read_reply : ControlMessage → Registered
read_reply (tcp_forward_confirm port) = confirmed
read_reply (tcp_forward_failure description) = declined description
read_reply _ = failed_on not_a_reply

-- `?` on the send and the receive.
abbrev pub reply_of :
    FramedBiStream ControlMessage × Result HandlerFailure ControlMessage
    → FramedBiStream ControlMessage × Registered
reply_of (s, ok m) = (s, read_reply m)
reply_of (s, err e) = (s, failed_on e)

module _ (link : List ControlMessage → Bool) where
  abbrev pub ask_forward : ForwardSpec → Talk ControlMessage HandlerFailure ControlMessage
  ask_forward spec =
      send link control_failed (tcp_forward_request spec.bind_addr spec.bind_port)
      >> recv control_failed

  abbrev pub settle :
      ForwardSpec
      → List ForwardSpec
      → FramedBiStream ControlMessage × Registered
      → Shared × Registered
  settle spec specs (s, r) = (record { specs = drop_if_declined spec specs r; control = s }, r)

  -- One turn of the loop over `request.remote_forwards`.
  unfoldable pub register_forward : ForwardSpec → Shared → Shared × Registered
  unfolding add_spec drop_specs
  register_forward spec shared =
      settle spec (add_spec spec shared.specs) (reply_of (ask_forward spec shared.control))

  abbrev pub register_rest :
      (Shared → Shared × Registered) → Shared × Registered → Shared × Registered
  register_rest rest (shared, confirmed) = rest shared
  register_rest rest (shared, r) = (shared, r)

  unfoldable pub register_all : List ForwardSpec → Shared → Shared × Registered
  unfolding register_forward
  register_all [] shared = (shared, confirmed)
  register_all (spec ∷ specs) shared =
      register_rest (register_all specs) (register_forward spec shared)

  -- What a handler goes on with: a session for the request, a wait for the client's end, or its end
  -- after it has written a message to the client.
  pub data Next : Type 0 where
    session_for : MasterSessionRequest → Next
    holds_open ends : MasterMessage → Next
    fails : HandlerFailure → Next

  abbrev pub next_of_request : MasterSessionRequest → Registered → Next
  next_of_request opened confirmed =
      if opened.no_shell then holds_open ready else session_for opened
  next_of_request opened (declined description) = ends (error_report description)
  next_of_request opened (failed_on e) = fails e

  abbrev pub with_next : MasterSessionRequest → Shared × Registered → Shared × Next
  with_next opened (shared, r) = (shared, next_of_request opened r)

  -- `handle_master_client`, after its first message; the local listeners of the request are tasks
  -- of their own.
  unfoldable pub handle_master_client : ClientMessage → Shared → Shared × Next
  unfolding register_all
  handle_master_client (open_request opened) shared =
      with_next opened (register_all opened.remote_forwards shared)
  handle_master_client _ shared = (shared, fails not_an_open)

-- The start of `run_session_for_client`: `false` is a channel that is refused, of which the client
-- is told.
abbrev pub confirmed_channel : ChannelMessage → Talk ChannelMessage Failure Bool
confirmed_channel (open_confirmation size) = pure true
confirmed_channel (open_failure reason description) = pure false
confirmed_channel _ = bail not_a_confirmation

module _ (link : List ChannelMessage → Bool) where
  abbrev pub relay_pty : Option PtyReqParams → Talk ChannelMessage Failure (Unit {0})
  relay_pty none = pure tt
  relay_pty (some params) = ask link (pty_req params)

  abbrev pub relay_requests : MasterSessionRequest → Bool → Talk ChannelMessage Failure Bool
  relay_requests opened false = pure false
  relay_requests opened true =
      relay_pty opened.pty
      >> (send_env link opened.vars
          >> (ask link (process_request none opened.command) >> pure true))

  unfoldable pub start_relay : MasterSessionRequest → Talk ChannelMessage Failure Bool
  unfolding send_env
  start_relay opened =
      send link stream_failed (open_channel session session_params)
      >> (recv stream_failed >>= confirmed_channel >>= relay_requests opened)

-- What `run_session_for_client` has told the client, and the status it has seen.
pub record Relay : Type 0 where
  pub to_client : List MasterMessage
  pub sent : List ChannelMessage
  pub exit_status : Option ℕ

pub data RelayEvent : Type 0 where
  -- A message of the channel or of the client, and whether what is written on it succeeds.
  from_channel : ChannelMessage → (writes : Bool) → RelayEvent
  from_client : ClientMessage → (sends : Bool) → RelayEvent
  channel_ended client_ended : RelayEvent

-- The loop goes on, is left, or fails.
pub data RelayFlow : Type 0 where
  relaying relayed aborted : Relay → RelayFlow

abbrev pub told : MasterMessage → Relay → Relay
told m s = record s { to_client = s.to_client ++ m ∷ [] }

abbrev pub passed : ChannelMessage → Relay → Relay
passed m s = record s { sent = s.sent ++ m ∷ [] }

-- `?` on a write.
abbrev pub required : Bool → Relay → RelayFlow
required true s = relaying s
required false s = aborted s

abbrev pub relay_channel : ChannelMessage → Bool → Relay → RelayFlow
relay_channel (channel_data bytes) writes s = required writes (told (stdout_data bytes) s)
relay_channel (extended_data kind bytes) writes s = required writes (told (stderr_data bytes) s)
relay_channel (exit_status status) writes s =
    required writes (told (status_report status) (record s { exit_status = some status }))
relay_channel eof writes s = relayed (told master_eof s)
relay_channel close writes s = relayed (told master_eof s)
relay_channel _ writes s = relaying s

abbrev pub relay_client : ClientMessage → Bool → Relay → RelayFlow
relay_client (stdin_data bytes) sends s = required sends (passed (channel_data bytes) s)
relay_client client_eof sends s = relaying (passed eof s)
relay_client (client_resize params) sends s =
    relaying (passed (request (window_change params) false) s)
relay_client (open_request r) sends s = relaying s

abbrev pub relay_step : RelayEvent → Relay → RelayFlow
relay_step (from_channel m writes) s = relay_channel m writes s
relay_step (from_client m sends) s = relay_client m sends s
relay_step channel_ended s = relayed s
relay_step client_ended s = relayed s

abbrev pub then_relay : RelayFlow → RelayEvent → RelayFlow
then_relay (relaying s) e = relay_step e s
then_relay (relayed s) e = relayed s
then_relay (aborted s) e = aborted s

-- The loop of `run_session_for_client`.
unfoldable pub relay_loop : RelayFlow → List RelayEvent → RelayFlow
relay_loop f [] = f
relay_loop f (e ∷ es) = relay_loop (then_relay f e) es

-- After the loop: `Close` on the channel.
abbrev pub finish_relay : RelayFlow → RelayFlow
finish_relay (relayed s) = relayed (passed close s)
finish_relay f = f
