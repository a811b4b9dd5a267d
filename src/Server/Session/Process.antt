-- ===== src/Server/Session/Process.antt =====
-- `run_child` and `run_subsystem` of crates/sqshd/src/channel/session.rs: a process for a session,
-- from its command line to the messages that end the channel.
pub mod Status
use squish.Client.Resolve.{unwrap_or}
use squish.Server.Session.Child.{configure_child, ExitStatus, ChildSetup, exit_code_from_status}
use squish.Text.{str_eq, Text, split, text}
use squish.Server.Keys.{User}
use squish.Server.Session.Terminal.{
  running, with_status, IoState, Winsize, Ended, io_pump, IoEvent, Wait, winsize, with_status,
  failed,
}
use squish.Proto.Channel.{
  ChannelMessage, eof, PtyReqParams, exit_status, extended_data, channel_data, close,
}
use squish.Proto.Message.{Bytes}
use squish.Prelude.{
  ℕ, Option, if◌then◌else◌, List, ◌∷◌, true, Result, Bool, none, [], ◌++◌, false, some, is_empty,
  ◌||◌, err, ok,
}

-- The parts of a path that count: neither empty nor `.`.
unfoldable pub named_parts : List Text → List Text
unfolding str_eq
named_parts [] = []
named_parts (p ∷ ps) =
    let rest = named_parts ps in if is_empty p || str_eq p (text ".") then rest else p ∷ rest

abbrev pub last_name : List Text → Option Text
last_name [] = none
last_name (p ∷ []) = if str_eq p (text "..") then none else some p
last_name (p ∷ q ∷ ps) = last_name (q ∷ ps)

-- `Path::file_name`.
unfoldable pub file_name : Text → Option Text
unfolding named_parts
file_name path = last_name (named_parts (split b'/' path))

-- `std::process::Command`.
pub record Command : Type 0 where
  pub program : Text
  pub arg0 : Option Text
  pub args : List Text
  pub setup : ChildSetup

pub data ProcessError : Type 0 where
  openpty_failed setup_failed spawn_failed pump_failed : ProcessError

-- What the daemon takes from the system: its effective user, the slave side of the PTY, and whether
-- opening the PTY and starting the process succeed.
pub record System : Type 0 where
  pub effective_uid : ℕ
  pub slave_fd : ℕ
  pub openpty : Option Winsize → Bool
  pub spawn : Command → Bool
  pub to_uppercase : Text → Text

abbrev pub winsize_of : Option PtyReqParams → Option Winsize
winsize_of none = none
winsize_of (some p) = some (winsize p.height_rows p.width_cols p.width_px p.height_px)

abbrev pub term_of : Option PtyReqParams → Text
term_of none = text "xterm"
term_of (some p) = p.term

-- `-c`, or the name of a login shell.
abbrev pub shell_command : User → Option Text → ChildSetup → Command
shell_command user (some command) setup = record {
  program = user.shell;
  arg0 = none;
  args = text "-c" ∷ command ∷ [];
  setup = setup;
}
shell_command user none setup = record {
  program = user.shell;
  arg0 = some (text "-" ++ unwrap_or (file_name user.shell) (text "sh"));
  args = [];
  setup = setup;
}

abbrev pub end_messages : ℕ → List ChannelMessage
end_messages status = eof ∷ exit_status status ∷ close ∷ []

-- What was sent, and the result once there is one.
abbrev pub Run : Type 0
Run = List ChannelMessage × Option (Result ProcessError ℕ)

abbrev pub finish_child : IoState × Ended → Run
finish_child (s, running) = (s.sent, none)
finish_child (s, failed) = (s.sent, some (err pump_failed))
finish_child (s, with_status status) = (s.sent ++ end_messages status, some (ok status))

-- The PTY before the loop, when some messages are sent already.
abbrev pub fresh_io : List ChannelMessage → IoState
fresh_io sent = record { sent = sent; written = []; sizes = []; signals = []; killed = false }

module _ (sys : System) (user : User) where
  -- How `run_child` and `run_subsystem` configure the process.
  abbrev pub child_setup : Option PtyReqParams → List (Text × Text) → Option ChildSetup
  child_setup pty_params env_vars =
      configure_child sys.effective_uid user env_vars (some (term_of pty_params))
        (some sys.slave_fd)

  abbrev pub subsystem_setup : List (Text × Text) → Option ChildSetup
  subsystem_setup env_vars = configure_child sys.effective_uid user env_vars none none

module _ (sys : System) (user : User) (sent : List ChannelMessage) where
  abbrev pub spawn_child : Option ChildSetup → Option Text → List IoEvent → Wait → Run
  spawn_child none command events wait = (sent, some (err setup_failed))
  spawn_child (some setup) command events wait =
      if sys.spawn (shell_command user command setup)
      then finish_child (io_pump sys.to_uppercase (fresh_io sent) events wait)
      else (sent, some (err spawn_failed))

  -- `run_child`.
  unfoldable pub run_child :
      Option Text → Option PtyReqParams → List (Text × Text) → List IoEvent → Wait → Run
  unfolding io_pump file_name configure_child
  run_child command pty_params env_vars events wait =
      if sys.openpty (winsize_of pty_params)
      then spawn_child (child_setup sys user pty_params env_vars) command events wait
      else (sent, some (err openpty_failed))

-- What the loop of a subsystem selects.
pub data PipeEvent : Type 0 where
  stdout_read : Bytes → (sends : Bool) → PipeEvent
  stdout_end : PipeEvent
  stderr_read : Bytes → PipeEvent
  stderr_end : PipeEvent
  -- A message, and whether `write_all` succeeds on its data.
  message_received : ChannelMessage → (writes : Bool) → PipeEvent
  stream_ended : PipeEvent
  -- `child.wait()`, which may fail.
  child_waited : Option ExitStatus → PipeEvent

pub record PipeState : Type 0 where
  pub sent : List ChannelMessage
  -- Whether `child_stdin` is there, and what it got.
  pub stdin_open : Bool
  pub written : Bytes
  pub stderr_done : Bool
  pub status : Option ExitStatus
  pub killed : Bool

pub data PipeFlow : Type 0 where
  piping left : PipeState → PipeFlow

abbrev pub pipe_out : Bytes → Bool → PipeState → PipeFlow
pipe_out chunk true s = piping (record s { sent = s.sent ++ channel_data chunk ∷ [] })
pipe_out chunk false s = left (record s { sent = s.sent ++ channel_data chunk ∷ [] })

abbrev pub pipe_in : Bytes → (is_open writes : Bool) → PipeState → PipeState
pipe_in bytes true true s = record s { written = s.written ++ bytes }
pipe_in bytes true false s = record s { stdin_open = false }
pipe_in bytes false writes s = s

abbrev pub pipe_message : ChannelMessage → Bool → PipeState → PipeFlow
pipe_message (channel_data bytes) writes s = piping (pipe_in bytes s.stdin_open writes s)
pipe_message eof writes s = piping (record s { stdin_open = false })
pipe_message close writes s = left (record s { killed = true })
pipe_message _ writes s = piping s

-- A branch whose guard does not hold is not taken.
abbrev pub unless_set : Option ExitStatus → Option ExitStatus → PipeState → PipeFlow
unless_set none w s = piping (record s { status = w })
unless_set (some status) w s = piping s

abbrev pub pipe_step : PipeState → PipeEvent → PipeFlow
pipe_step s (stdout_read chunk sends) = pipe_out chunk sends s
pipe_step s stdout_end = left s
pipe_step s (stderr_read chunk) =
    if s.stderr_done
    then piping s
    else piping (record s { sent = s.sent ++ extended_data 1 chunk ∷ [] })
pipe_step s stderr_end = piping (record s { stderr_done = true })
pipe_step s (message_received m writes) = pipe_message m writes s
pipe_step s stream_ended = left (record s { killed = true })
pipe_step s (child_waited w) = unless_set s.status w s

abbrev pub then_pipe : PipeFlow → PipeEvent → PipeFlow
then_pipe (piping s) e = pipe_step s e
then_pipe (left s) e = left s

unfoldable pub pipe_loop : PipeFlow → List PipeEvent → PipeFlow
pipe_loop f [] = f
pipe_loop f (e ∷ es) = pipe_loop (then_pipe f e) es

-- The status: the one that was captured, else that of a last `wait`.
abbrev pub pipe_status : Option ExitStatus → Option ExitStatus → ℕ
pipe_status (some status) w = exit_code_from_status status
pipe_status none (some status) = exit_code_from_status status
pipe_status none none = 255

abbrev pub finish_pipes : Option ExitStatus → PipeFlow → Run
finish_pipes w (piping s) = (s.sent, none)
finish_pipes w (left s) =
    (s.sent ++ end_messages (pipe_status s.status w), some (ok (pipe_status s.status w)))

abbrev pub fresh_pipes : List ChannelMessage → PipeState
fresh_pipes sent = record {
  sent = sent;
  stdin_open = true;
  written = [];
  stderr_done = false;
  status = none;
  killed = false;
}

module _ (sys : System) (user : User) (sent : List ChannelMessage) where
  abbrev pub spawn_subsystem : Option ChildSetup → Text → List PipeEvent → Option ExitStatus → Run
  spawn_subsystem none command events w = (sent, some (err setup_failed))
  spawn_subsystem (some setup) command events w =
      if sys.spawn (shell_command user (some command) setup)
      then finish_pipes w (pipe_loop (piping (fresh_pipes sent)) events)
      else (sent, some (err spawn_failed))

  -- `run_subsystem`.
  unfoldable pub run_subsystem :
      Text → List (Text × Text) → List PipeEvent → Option ExitStatus → Run
  unfolding pipe_loop configure_child
  run_subsystem command env_vars events w =
      spawn_subsystem (subsystem_setup sys user env_vars) command events w
