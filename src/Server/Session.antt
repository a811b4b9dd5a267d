-- ===== src/Server/Session.antt =====
-- `handle` of crates/sqshd/src/channel/session.rs: the requests on a session channel, up to the one
-- that starts a process. `exists` stands for `Path::exists`, `link` for the stream's sending side.
pub mod Environment
pub mod Replied
pub mod Child
pub mod Terminal
pub mod Process
use squish.Server.Config.{ServerConfig, env_accepted, resolve_subsystem}
use squish.Proto.Channel.{
  PtyReqParams, ChannelMessage, RequestType, request, close, request_success, pty_req, eof,
  request_failure, exec, window_change, env, subsystem, signal, shell,
}
use squish.Text.{Text}
use squish.Server.Keys.{User}
use squish.Proto.Message.{IoError}
use squish.Prelude.{
  Result, ok, err, ℕ, none, Option, Bool, [], List, if◌then◌else◌, ◌∷◌, true, ◌++◌, some, false,
  ◌&&◌, ltb, length,
}

-- The requests gathered so far, and the messages sent.
pub record Session : Type 0 where
  pub pty_params : Option PtyReqParams
  pub env_vars : List (Text × Text)
  pub sent : List ChannelMessage

-- What the loop hands over to.
pub data Launch : Type 0 where
  run_child :
      (command : Option Text) (pty : Option PtyReqParams) (env_vars : List (Text × Text)) → Launch
  run_subsystem : (command : Text) (env_vars : List (Text × Text)) → Launch
  closed_channel : Launch

-- One turn of the loop: it goes on, returns, or fails on the stream.
pub data Turn : Type 0 where
  goes_on : Session → Turn
  returns : Session → Launch → Turn
  fails : Session → Turn

abbrev pub env_limit : ℕ
env_limit = 64

module _ (exists : Text → Bool) (config : ServerConfig) (link : List ChannelMessage → Bool) where
  abbrev pub after_send : Bool → Session → (Session → Turn) → Turn
  after_send true s next = next s
  after_send false s next = fails s

  -- `sender.send(m).await?`, and what follows.
  abbrev pub send_then : ChannelMessage → Session → (Session → Turn) → Turn
  send_then m s next = after_send (link s.sent) (record s { sent = s.sent ++ m ∷ [] }) next

  -- `if want_reply { .. }`.
  abbrev pub reply_if : Bool → ChannelMessage → Session → (Session → Turn) → Turn
  reply_if true m s next = send_then m s next
  reply_if false m s next = next s

  unfoldable pub add_env : Text → Text → Session → Session
  add_env name value s =
      if env_accepted config name && ltb (length s.env_vars) env_limit
      then record s { env_vars = s.env_vars ++ (name, value) ∷ [] }
      else s

  abbrev pub open_subsystem : Option Text → Bool → Session → Turn
  open_subsystem (some command) want_reply s =
      reply_if want_reply request_success s λ s'. returns s' (run_subsystem command s'.env_vars)
  open_subsystem none want_reply s =
      reply_if want_reply request_failure s
        λ s'. send_then close s' λ s''. returns s'' closed_channel

  abbrev pub request_turn : RequestType → Bool → Session → Turn
  request_turn (pty_req params) want_reply s =
      reply_if want_reply request_success (record s { pty_params = some params }) goes_on
  request_turn shell want_reply s =
      reply_if want_reply request_success s
        λ s'. returns s' (run_child none s'.pty_params s'.env_vars)
  request_turn (exec command) want_reply s =
      reply_if want_reply request_success s
        λ s'. returns s' (run_child (some command) s'.pty_params s'.env_vars)
  request_turn (window_change params) want_reply s = reply_if want_reply request_success s goes_on
  request_turn (env name value) want_reply s =
      reply_if want_reply request_success (add_env name value s) goes_on
  request_turn (subsystem name) want_reply s =
      open_subsystem (resolve_subsystem exists config name) want_reply s
  request_turn (signal name) want_reply s = reply_if want_reply request_failure s goes_on

  abbrev pub turn : ChannelMessage → Session → Turn
  turn (request request_type want_reply) s = request_turn request_type want_reply s
  turn close s = send_then close s λ s'. returns s' closed_channel
  turn eof s = send_then close s λ s'. returns s' closed_channel
  turn _ s = goes_on s

  -- The loop; `none` is an error, of sending or at the end of the stream.
  unfoldable pub session_loop : List ChannelMessage → Session → Session × Option Launch
  unfolding add_env
  session_loop [] s = (s, none)
  session_loop (m ∷ ms) s = elim (turn m s) [
    | goes_on s' ↦ session_loop ms s'
    | returns s' launch ↦ (s', some launch)
    | fails s' ↦ (s', none)
  ]

abbrev pub new_session : Session
new_session = record { pty_params = none; env_vars = []; sent = [] }

-- The errors of the handler.
pub data SessionError : Type 0 where
  user_lookup_failed user_gone stream_error : SessionError

module _ (exists : Text → Bool) (config : ServerConfig) (link : List ChannelMessage → Bool) where
  abbrev pub finish_session :
      Session × Option Launch → List ChannelMessage × Result SessionError Launch
  finish_session (s, some launch) = (s.sent, ok launch)
  finish_session (s, none) = (s.sent, err stream_error)

  -- `handle`: the user is looked up again first. The result is what the handler starts.
  unfoldable pub handle :
      Result IoError (Option User)
      → List ChannelMessage
      → List ChannelMessage × Result SessionError Launch
  unfolding session_loop
  handle (err e) incoming = ([], err user_lookup_failed)
  handle (ok none) incoming = ([], err user_gone)
  handle (ok (some user)) incoming =
      finish_session (session_loop exists config link incoming new_session)
