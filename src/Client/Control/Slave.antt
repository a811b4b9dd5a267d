-- ===== src/Client/Control/Slave.antt =====
-- The client's side of crates/sqsh/src/control.rs: a session through a master, and the choice
-- between a master that runs, one that is started, and none. The socket is a parameter.
use squish.Proto.Channel.{WindowChangeParams}
use squish.Client.Resolve.{ClientConfig, unwrap_or, is_some}
use squish.Proto.Message.{Bytes, IoError, not_found, connection_refused}
use squish.Text.{Text, text, to_string}
use squish.Client.Control.{
  ClientMessage, MasterMessage, MasterSessionRequest, open_request, stdin_data, client_eof,
  client_resize, ready, master_eof, stdout_data, stderr_data, status_report, error_report,
}
use squish.Client.Session.{Terminal, pty_params, forwarded_env}
use squish.Client.ControlPersist.{is_enabled, as_arg}
use squish.Prelude.{
  ℕ, none, List, Result, Bool, Option, ◌++◌, some, [], not, ◌∷◌, ok, true, false, if◌then◌else◌,
  ◌==◌, ◌&&◌, err,
}

pub data SlaveError : Type 0 where
  socket_failed not_ready no_raw_mode output_failed refused_to_remove master_not_started :
      SlaveError
  timed_out not_accepted : SlaveError
  reported : Text → SlaveError
  exited_with : (code : ℕ) → SlaveError

-- `config.command.is_none() && !config.no_shell`.
abbrev pub is_interactive : ClientConfig → Bool
is_interactive config = not (is_some config.command) && not config.no_shell

-- The request that opens the conversation with the master.
abbrev pub session_request : ClientConfig → Terminal → MasterSessionRequest
session_request config t = record {
  command = config.command;
  no_shell = config.no_shell;
  local_forwards = config.local_forwards;
  remote_forwards = config.remote_forwards;
  pty = if is_interactive config then some (pty_params t) else none;
  vars = forwarded_env t.vars;
}

-- What `select!` brings in `run_slave_io`.
pub data SlaveEvent : Type 0 where
  -- Standard input, and whether the socket takes the message.
  stdin_read : Bytes → (sends : Bool) → SlaveEvent
  stdin_end stdin_error : SlaveEvent
  -- A message of the master, and whether writing it out succeeds.
  from_master : MasterMessage → (writes : Bool) → SlaveEvent
  master_gone : SlaveEvent
  resized : Option WindowChangeParams → SlaveEvent

pub record SlaveState : Type 0 where
  pub sent : List ClientMessage
  pub stdout : Bytes
  pub stderr : Bytes
  pub exit_status : Option ℕ
  pub stdin_open : Bool

-- The loop goes on, is left, or fails.
pub data SlaveFlow : Type 0 where
  talking hung_up : SlaveState → SlaveFlow
  given_up : SlaveState → SlaveError → SlaveFlow

abbrev pub put : ClientMessage → SlaveState → SlaveState
put m s = record s { sent = s.sent ++ m ∷ [] }

abbrev pub required : Bool → SlaveError → SlaveState → SlaveFlow
required true e s = talking s
required false e s = given_up s e

-- A branch whose guard does not hold is not taken.
abbrev pub guarded : Bool → SlaveState → SlaveFlow → SlaveFlow
guarded true s f = f
guarded false s f = talking s

abbrev pub read_master : MasterMessage → Bool → SlaveState → SlaveFlow
read_master (stdout_data bytes) writes s =
    required writes output_failed (record s { stdout = s.stdout ++ bytes })
read_master (stderr_data bytes) writes s =
    required writes output_failed (record s { stderr = s.stderr ++ bytes })
read_master (status_report status) writes s = talking (record s { exit_status = some status })
read_master master_eof writes s = hung_up s
read_master (error_report message) writes s = given_up s (reported message)
read_master ready writes s = talking s

abbrev pub resize_to : Option WindowChangeParams → SlaveState → SlaveState
resize_to none s = s
resize_to (some params) s = put (client_resize params) s

module _ (interactive : Bool) where
  abbrev pub slave_step : SlaveState → SlaveEvent → SlaveFlow
  slave_step s (stdin_read bytes sends) =
      guarded s.stdin_open s (required sends socket_failed (put (stdin_data bytes) s))
  slave_step s stdin_end =
      guarded s.stdin_open s (talking (record (put client_eof s) { stdin_open = false }))
  slave_step s stdin_error = guarded s.stdin_open s (hung_up s)
  slave_step s (from_master m writes) = read_master m writes s
  slave_step s master_gone = hung_up s
  slave_step s (resized size) = guarded interactive s (talking (resize_to size s))

  abbrev pub then_slave : SlaveFlow → SlaveEvent → SlaveFlow
  then_slave (talking s) e = slave_step s e
  then_slave (hung_up s) e = hung_up s
  then_slave (given_up s w) e = given_up s w

  unfoldable pub slave_loop : SlaveFlow → List SlaveEvent → SlaveFlow
  slave_loop f [] = f
  slave_loop f (e ∷ es) = slave_loop (then_slave f e) es

abbrev pub new_slave : List ClientMessage → SlaveState
new_slave sent = record {
  sent = sent;
  stdout = [];
  stderr = [];
  exit_status = none;
  stdin_open = true;
}

abbrev pub status_result : Option ℕ → Result SlaveError (Unit {0})
status_result none = ok tt
status_result (some code) = if code == 0 then ok tt else err (exited_with code)

-- How far a session is: `none` while it goes on.
abbrev pub Progress : Type 0
Progress = SlaveState × Option (Result SlaveError (Unit {0}))

abbrev pub finish_slave : SlaveFlow → Progress
finish_slave (talking s) = (s, none)
finish_slave (hung_up s) = (s, some (status_result s.exit_status))
finish_slave (given_up s e) = (s, some (err e))

-- `run_slave_io`; `raw_mode` says whether the terminal can be set to it.
unfoldable pub run_slave_io : Bool → Bool → SlaveState → List SlaveEvent → Progress
unfolding slave_loop
run_slave_io interactive raw_mode s events =
    if interactive && not raw_mode
    then (s, some (err no_raw_mode))
    else finish_slave (slave_loop interactive (talking s) events)

-- The first answer of the master; `none` is an error of reading.
abbrev pub after_answer :
    ClientConfig → Bool → SlaveState → List SlaveEvent → Option MasterMessage → Progress
after_answer config raw_mode s events (some ready) =
    if config.no_shell
    then (put client_eof s, some (ok tt))
    else run_slave_io (is_interactive config) raw_mode s events
after_answer config raw_mode s events (some (error_report message)) =
    (s, some (err (reported message)))
after_answer config raw_mode s events (some m) = (s, some (err not_ready))
after_answer config raw_mode s events none = (s, some (err socket_failed))

-- `run_slave_session`, on a socket that takes the request; with `no_shell` it ends by `ctrl_c`.
unfoldable pub run_slave_session :
    ClientConfig → Terminal → Bool → Option MasterMessage → List SlaveEvent → Progress
unfolding run_slave_io
run_slave_session config t raw_mode answer events =
    after_answer config raw_mode (new_slave (open_request (session_request config t) ∷ [])) events
      answer

-- What is at the control path.
pub data AtPath : Type 0 where
  nothing other_file stat_fails : AtPath
  socket : (removable : Bool) → AtPath

-- `remove_socket_file`.
unfoldable pub remove_socket_file : AtPath → AtPath × Result SlaveError (Unit {0})
remove_socket_file nothing = (nothing, ok tt)
remove_socket_file (socket true) = (nothing, ok tt)
remove_socket_file (socket false) = (socket false, err socket_failed)
remove_socket_file other_file = (other_file, err refused_to_remove)
remove_socket_file stat_fails = (stat_fails, err socket_failed)

-- `UnixStream::connect`, with the end of the session if it succeeds.
pub data Connected : Type 0 where
  session_result : Result SlaveError (Unit {0}) → Connected
  connect_fails : IoError → Connected

abbrev pub then_false : AtPath × Result SlaveError (Unit {0}) → AtPath × Result SlaveError Bool
then_false (p, ok u) = (p, ok false)
then_false (p, err e) = (p, err e)

abbrev pub then_true : Result SlaveError (Unit {0}) → Result SlaveError Bool
then_true (ok u) = ok true
then_true (err e) = err e

-- `send_request_to_master`.
unfoldable pub send_request_to_master : Connected → AtPath → AtPath × Result SlaveError Bool
unfolding remove_socket_file
send_request_to_master (session_result r) p = (p, then_true r)
send_request_to_master (connect_fails not_found) p = (p, ok false)
send_request_to_master (connect_fails connection_refused) p = then_false (remove_socket_file p)
send_request_to_master (connect_fails e) p = (p, err socket_failed)

-- `wait_for_master`, by the outcomes of its attempts, one every 50 ms: each is a connection or an
-- error, with whether the deadline of 5 s has passed then. The list of a run that still polls ends.
unfoldable pub wait_for_master :
    List (Option IoError × Bool) → Option (Result SlaveError (Unit {0}))
wait_for_master [] = none
wait_for_master ((none, late) ∷ attempts) = some (ok tt)
wait_for_master ((some not_found, late) ∷ attempts) = elim late [
  | true ↦ some (err timed_out)
  | false ↦ wait_for_master attempts
]
wait_for_master ((some connection_refused, late) ∷ attempts) = elim late [
  | true ↦ some (err timed_out)
  | false ↦ wait_for_master attempts
]
wait_for_master ((some e, late) ∷ attempts) = some (err socket_failed)

-- The arguments of `spawn_master`.
unfoldable pub master_args : ClientConfig → List Text
unfolding as_arg
master_args config =
    text "--control-master"
    ∷ text "--control-path"
    ∷ config.control_path
    ∷ text "--control-persist"
    ∷ unwrap_or (as_arg config.control_persist) (text "yes")
    ∷ text "-p"
    ∷ to_string config.port
    ∷ text "-l"
    ∷ config.username
    ∷ text "-i"
    ∷ config.identity_path
    ∷ config.host
    ∷ []

-- What `run_via_master_or_spawn` meets: the first connection, the start of a master, the wait for
-- it, and the second connection.
pub record Attempts : Type 0 where
  pub first : Connected
  pub spawns : Bool
  pub waits : Result SlaveError (Unit {0})
  pub second : Connected

module _ (config : ClientConfig) (a : Attempts) where
  abbrev pub accepted_after_start : AtPath × Result SlaveError Bool → Result SlaveError Bool
  accepted_after_start (p, ok true) = ok true
  accepted_after_start (p, ok false) = err not_accepted
  accepted_after_start (p, err e) = err e

  abbrev pub after_wait : AtPath → Result SlaveError (Unit {0}) → Result SlaveError Bool
  after_wait p (ok u) = accepted_after_start (send_request_to_master a.second p)
  after_wait p (err e) = err e

  abbrev pub start_master : AtPath → Result SlaveError Bool
  start_master p = if a.spawns then after_wait p a.waits else err master_not_started

  abbrev pub after_first : AtPath × Result SlaveError Bool → Result SlaveError Bool
  after_first (p, ok true) = ok true
  after_first (p, ok false) = if is_enabled config.control_persist then start_master p else ok false
  after_first (p, err e) = err e

  -- `run_via_master_or_spawn`: `false` is no master, and a direct connection follows.
  unfoldable pub run_via_master_or_spawn : AtPath → Result SlaveError Bool
  unfolding send_request_to_master
  run_via_master_or_spawn p = after_first (send_request_to_master a.first p)
