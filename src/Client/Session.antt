-- ===== src/Client/Session.antt =====
-- `run` of crates/sqsh/src/channel/session.rs: a client's session, from the channel to the status of
-- the remote process. The terminal, the environment and standard input and output are parameters.
pub mod Requested
pub mod Launched
pub mod ExitStatus
pub mod Delivered
use squish.Proto.Stream.{Talk, send, ◌>>◌, pure, FramedBiStream, recv, bail, ◌>>=◌}
use squish.Text.{Text, str_eq, starts_with, text}
use squish.Proto.Channel.{
  ChannelMessage, ChannelFailureReason, PtyReqParams, RequestType, request, window_change, env,
  pty_req, open_confirmation, open_channel, subsystem, close, open_failure, channel_data, session,
  exec, session_params, shell, extended_data, exit_status, eof,
}
use squish.Client.Resolve.{ClientConfig, unwrap_or, is_some}
use squish.Proto.Message.{Bytes}
use squish.Prelude.{
  ℕ, List, Option, Bool, not, ◌∷◌, some, [], false, true, if◌then◌else◌, ◌||◌, Result, ◌&&◌, none,
  ◌++◌, ◌==◌, ok, err,
}

pub data Failure : Type 0 where
  stream_failed not_a_confirmation : Failure
  open_refused : ChannelFailureReason → Failure
  no_raw_mode no_sigwinch stdin_not_sent : Failure
  exited_with : (code : ℕ) → Failure

-- `is_forwarded_env_key`.
unfoldable pub is_forwarded_env_key : Text → Bool
unfolding str_eq starts_with
is_forwarded_env_key k = str_eq k (text "LANG") || starts_with (text "LC_") k

-- `forwarded_env`, of the variables of the process.
unfoldable pub forwarded_env : List (Text × Text) → List (Text × Text)
unfolding is_forwarded_env_key
forwarded_env [] = []
forwarded_env ((k, v) ∷ vars) =
    let rest = forwarded_env vars in if is_forwarded_env_key k then (k, v) ∷ rest else rest

-- What the client takes from its surroundings: the size of the terminal if there is one, `TERM` if
-- it is set, and the variables.
pub record Terminal : Type 0 where
  pub size : Option (ℕ × ℕ)
  pub term : Option Text
  pub vars : List (Text × Text)

abbrev pub is_interactive : ClientConfig → Bool
is_interactive config = not (is_some config.command) && not (is_some config.subsystem)

abbrev pub pty_of_size : Text → ℕ × ℕ → PtyReqParams
pty_of_size term (cols, rows) = record {
  term = term;
  width_cols = cols;
  height_rows = rows;
  width_px = 0;
  height_px = 0;
}

abbrev pub pty_params : Terminal → PtyReqParams
pty_params t = pty_of_size (unwrap_or t.term (text "xterm-256color")) (unwrap_or t.size (80, 24))

-- `subsystem`, then `exec`, then `shell`.
abbrev pub process_request : Option Text → Option Text → RequestType
process_request (some name) command = subsystem name
process_request none (some cmd) = exec cmd
process_request none none = shell

abbrev pub env_request : Text × Text → ChannelMessage
env_request (name, value) = request (env name value) false

abbrev pub expect_confirmation : ChannelMessage → Talk ChannelMessage Failure (Unit {0})
expect_confirmation (open_confirmation size) = pure tt
expect_confirmation (open_failure reason description) = bail (open_refused reason)
expect_confirmation _ = bail not_a_confirmation

module _ (link : List ChannelMessage → Bool) where
  -- A request, and a reply that is not looked at.
  abbrev pub ask : RequestType → Talk ChannelMessage Failure (Unit {0})
  ask request_type =
      send link stream_failed (request request_type true) >> (recv stream_failed >>= λ _. pure tt)

  abbrev pub open_session : Talk ChannelMessage Failure (Unit {0})
  open_session =
      send link stream_failed (open_channel session session_params)
      >> (recv stream_failed >>= expect_confirmation)

  abbrev pub request_pty : Bool → PtyReqParams → Talk ChannelMessage Failure (Unit {0})
  request_pty true params = ask (pty_req params)
  request_pty false params = pure tt

  unfoldable pub send_env : List (Text × Text) → Talk ChannelMessage Failure (Unit {0})
  send_env [] = pure tt
  send_env (v ∷ vars) = send link stream_failed (env_request v) >> send_env vars

  -- Steps 1 to 3 of `run`: the channel, the PTY, the variables, the process.
  unfoldable pub start_session : ClientConfig → Terminal → Talk ChannelMessage Failure (Unit {0})
  unfolding send_env forwarded_env
  start_session config t =
      open_session
      >> (request_pty (is_interactive config) (pty_params t)
          >> (send_env (forwarded_env t.vars)
              >> ask (process_request config.subsystem config.command)))

-- What the stdout task has written, and what it reports.
pub record Output : Type 0 where
  pub stdout : Bytes
  pub stderr : Bytes
  pub status : Option ℕ

-- The stdout task: `accepts` says whether a write succeeds after what is already written. The end
-- of the list is an error of `recv`.
module _ (accepts : Bytes → Bool) where
  unfoldable pub stdout_pump : List ChannelMessage → Bytes → Bytes → Output
  stdout_pump (channel_data data' ∷ ms) out errs = elim (accepts out) [
    | true ↦ stdout_pump ms (out ++ data') errs
    | false ↦ record { stdout = out; stderr = errs; status = none }
  ]
  stdout_pump (extended_data data_type data' ∷ ms) out errs = stdout_pump ms out (errs ++ data')
  stdout_pump (exit_status status ∷ ms) out errs = record {
    stdout = out;
    stderr = errs;
    status = some status;
  }
  stdout_pump (eof ∷ ms) out errs = record { stdout = out; stderr = errs; status = none }
  stdout_pump (close ∷ ms) out errs = record { stdout = out; stderr = errs; status = none }
  stdout_pump (_ ∷ ms) out errs = stdout_pump ms out errs
  stdout_pump [] out errs = record { stdout = out; stderr = errs; status = none }

-- What the stdin loop selects.
pub data InputEvent : Type 0 where
  stdin_read : Bytes → InputEvent
  stdin_end stdin_error : InputEvent
  -- SIGWINCH, and the size that is read then.
  resized : Option (ℕ × ℕ) → InputEvent
  stdout_finished : InputEvent

abbrev pub window_change_of : ℕ × ℕ → ChannelMessage
window_change_of (cols, rows) =
    request
      (window_change
        (record { width_cols = cols; height_rows = rows; width_px = 0; height_px = 0 }))
      false

module _ (link : List ChannelMessage → Bool) where
  -- The stdin loop; a list that ends is a loop that is still waiting, and gives `none`.
  unfoldable pub stdin_loop :
      List InputEvent
      → FramedBiStream ChannelMessage
      → FramedBiStream ChannelMessage × Option (Result Failure (Unit {0}))
  stdin_loop [] s = (s, none)
  stdin_loop (stdin_read chunk ∷ es) s =
      let s' = record s { sent = s.sent ++ channel_data chunk ∷ [] } in
      elim (link s.sent) [ true ↦ stdin_loop es s' | false ↦ (s', some (err stdin_not_sent)) ]
  stdin_loop (stdin_end ∷ es) s = (record s { sent = s.sent ++ eof ∷ [] }, some (ok tt))
  stdin_loop (stdin_error ∷ es) s = (s, some (ok tt))
  stdin_loop (resized none ∷ es) s = stdin_loop es s
  stdin_loop (resized (some size) ∷ es) s =
      stdin_loop es (record s { sent = s.sent ++ window_change_of size ∷ [] })
  stdin_loop (stdout_finished ∷ es) s = (s, some (ok tt))

  abbrev pub report_status : Option ℕ → Talk ChannelMessage Failure (Unit {0})
  report_status none = pure tt
  report_status (some code) = if code == 0 then pure tt else bail (exited_with code)

  -- The end of `run`, with the status that the stdout task reported.
  abbrev pub finish : Option ℕ → Talk ChannelMessage Failure (Unit {0})
  finish status = send link stream_failed close >> report_status status

-- What can fail on this side: raw mode, the handler of SIGWINCH, and a write to standard output.
pub record Local : Type 0 where
  pub raw_mode : Bool
  pub sigwinch : Bool
  pub accepts : Bytes → Bool

module _ (link : List ChannelMessage → Bool) (config : ClientConfig) (l : Local) where
  -- How far a session is: `none` while it waits for its input.
  abbrev pub Progress : Type 0
  Progress = FramedBiStream ChannelMessage × Option (Result Failure (Unit {0}))

  abbrev pub finished : FramedBiStream ChannelMessage × Result Failure (Unit {0}) → Progress
  finished (s, r) = (s, some r)

  abbrev pub after_input : Option ℕ → Progress → Progress
  after_input status (s, none) = (s, none)
  after_input status (s, some (err e)) = (s, some (err e))
  after_input status (s, some (ok u)) = finished (finish link status s)

  -- Step 4 of `run`: what `recv` brings goes to the stdout task.
  unfoldable pub pump_io : List InputEvent → FramedBiStream ChannelMessage → Progress
  unfolding stdin_loop stdout_pump
  pump_io events s =
      if is_interactive config && not l.raw_mode
      then (s, some (err no_raw_mode))
      else if not l.sigwinch
      then (s, some (err no_sigwinch))
      else after_input (stdout_pump l.accepts s.incoming [] []).status (stdin_loop link events s)

  abbrev pub after_start :
      List InputEvent → FramedBiStream ChannelMessage × Result Failure (Unit {0}) → Progress
  after_start events (s, err e) = (s, some (err e))
  after_start events (s, ok u) = pump_io events s

  -- `run`.
  unfoldable pub run : Terminal → List InputEvent → FramedBiStream ChannelMessage → Progress
  unfolding pump_io start_session
  run t events s = after_start events (start_session link config t s)
