-- ===== src/Server/Connection.antt =====
-- The loop of `handle` in crates/sqshd/src/connection.rs, after the handshake: channel streams under
-- a limit, and the remote forwards of one connection. `select!` takes what is ready, so a run is a
-- sequence of events in any order.
pub mod Invariant
pub mod Replies
use squish.Server.Config.{ServerConfig}
use squish.Server.Access.{IpAddr, remote_forward_allowed}
use squish.Proto.Channel.{ChannelMessage, open_failure, resource_shortage}
use squish.Proto.Message.{
  ControlMessage, tcp_forward_request, tcp_forward_cancel, tcp_forward_failure, keep_alive,
  keep_alive_ack, tcp_forward_confirm,
}
use squish.Text.{Text, str_eq, text}
use squish.Prelude.{
  ℕ, List, Bool, ◌++◌, Option, ◌∷◌, false, ◌&&◌, true, [], if◌then◌else◌, ◌==◌, not, ◌||◌, suc, ◌+◌,
  zero, leb, length,
}

-- What the loop does to the outside, in order.
pub data Action : Type 0 where
  reply : ControlMessage → Action
  spawn_forward : (bind_addr : Text) (bind_port : ℕ) → Action
  abort_forward : (bind_addr : Text) (bind_port : ℕ) → Action
  spawn_channel : Action
  channel_reply : ChannelMessage → Action

-- `free_channels` are the permits of the semaphore, `open_channels` the tasks that hold one.
pub record Connection : Type 0 where
  pub forward_tasks : List (Text × ℕ)
  pub free_channels : ℕ
  pub open_channels : ℕ
  pub log : List Action

pub data Event : Type 0 where
  stream_accepted application_closed connection_lost control_failed channel_done : Event
  -- A control message, and whether the stream takes the reply.
  control_received : ControlMessage → (sends : Bool) → Event

-- The loop goes on, is left by `break`, or by an error.
pub data Flow : Type 0 where
  running finished failed : Connection → Flow

abbrev pub record_action : Action → Connection → Connection
record_action a c = record c { log = c.log ++ a ∷ [] }

-- `control.sender.send(..).await?`.
abbrev pub answer : Bool → ControlMessage → Connection → Flow
answer true m c = running (record_action (reply m) c)
answer false m c = failed (record_action (reply m) c)

-- `HashMap::contains_key`.
unfoldable pub has_key : Text → ℕ → List (Text × ℕ) → Bool
unfolding str_eq
has_key addr port [] = false
has_key addr port ((a, p) ∷ ks) = str_eq a addr && p == port || has_key addr port ks

-- `HashMap::remove`.
unfoldable pub remove_key : Text → ℕ → List (Text × ℕ) → List (Text × ℕ)
unfolding str_eq
remove_key addr port [] = []
remove_key addr port ((a, p) ∷ ks) =
    let rest = remove_key addr port ks in if str_eq a addr && p == port then rest else (a, p) ∷ rest

module _ (parse_ip : Text → Option IpAddr) (config : ServerConfig) where
  abbrev pub start_forward : Text → ℕ → Connection → Connection
  start_forward addr port c =
      record_action (spawn_forward addr port)
        (record c { forward_tasks = (addr, port) ∷ c.forward_tasks })

  unfoldable pub forward_request : Text → ℕ → Bool → Connection → Flow
  unfolding has_key
  forward_request addr port sends c =
      if not (remote_forward_allowed parse_ip addr port config.remote_forward_allowlist)
      then answer sends (tcp_forward_failure (text "remote forward denied")) c
      else if has_key addr port c.forward_tasks
      then answer sends (tcp_forward_failure (text "remote forward already active")) c
      else if leb config.max_remote_forwards_per_connection (length c.forward_tasks)
      then answer sends (tcp_forward_failure (text "listener limit reached")) c
      else answer sends (tcp_forward_confirm port) (start_forward addr port c)

  unfoldable pub forward_cancel : Text → ℕ → Connection → Connection
  unfolding has_key remove_key
  forward_cancel addr port c =
      if has_key addr port c.forward_tasks
      then record_action (abort_forward addr port)
          (record c { forward_tasks = remove_key addr port c.forward_tasks })
      else c

  abbrev pub control_message : ControlMessage → Bool → Connection → Flow
  control_message (tcp_forward_request addr port) sends c = forward_request addr port sends c
  control_message (tcp_forward_cancel addr port) sends c = running (forward_cancel addr port c)
  control_message (keep_alive seq) sends c = running (record_action (reply (keep_alive_ack seq)) c)
  control_message _ sends c = running c

  -- `try_acquire_owned`.
  abbrev pub accept_stream : ℕ → Connection → Connection
  accept_stream zero c =
      record_action
        (channel_reply
          (open_failure resource_shortage (text "per-connection channel limit reached")))
        c
  accept_stream (suc n) c =
      record_action spawn_channel
        (record c { free_channels = n; open_channels = c.open_channels + 1 })

  -- The permit of a task that ends is given back.
  abbrev pub release : ℕ → Connection → Connection
  release zero c = c
  release (suc n) c = record c { free_channels = c.free_channels + 1; open_channels = n }

  unfoldable pub step : Connection → Event → Flow
  unfolding forward_request forward_cancel
  step c stream_accepted = running (accept_stream c.free_channels c)
  step c application_closed = finished c
  step c connection_lost = failed c
  step c control_failed = finished c
  step c channel_done = running (release c.open_channels c)
  step c (control_received m sends) = control_message m sends c

  abbrev pub then_step : Flow → Event → Flow
  then_step (running c) e = step c e
  then_step (finished c) e = finished c
  then_step (failed c) e = failed c

  unfoldable pub run : Flow → List Event → Flow
  unfolding step
  run s [] = s
  run s (e ∷ es) = run (then_step s e) es

  abbrev pub start : Connection
  start = record {
    forward_tasks = [];
    free_channels = config.max_channels_per_connection;
    open_channels = 0;
    log = [];
  }

-- The state, whether the loop goes on or not.
abbrev pub state : Flow → Connection
state (running c) = c
state (finished c) = c
state (failed c) = c
