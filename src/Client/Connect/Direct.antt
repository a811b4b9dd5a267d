-- ===== src/Client/Connect/Direct.antt =====
-- `connect`, `connect_once` and `connect_direct` of crates/sqsh/src/connection.rs: which way a
-- client takes, and the requests for remote forwards on a connection of its own. What is then done
-- with the connection, the session, the master and the socket, has models of its own.
use squish.Client.ControlPersist.{is_enabled}
use squish.Proto.Message.{
  ControlMessage, tcp_forward_confirm, tcp_forward_failure, tcp_forward_request,
}
use squish.Proto.Stream.{FramedBiStream, Talk, pure, bail, send, ◌>>◌, recv, ◌>>=◌}
use squish.Client.Resolve.{ClientConfig, is_some}
use squish.Text.{Text}
use squish.Client.ForwardSpec.{ForwardSpec}
use squish.Client.Connect.{
  Network, World, Attempt, ConnectError, with_install, establish_connection, err, ok,
}
use squish.Prelude.{
  ℕ, List, Bool, if◌then◌else◌, Result, ◌||◌, ◌++◌, drop, true, ◌∷◌, false, length, [],
}

-- The errors of `connect_direct` on the control stream.
pub data ForwardError : Type 0 where
  stream_failed not_a_reply : ForwardError
  forward_failed : (bind_port : ℕ) (description : Text) → ForwardError

abbrev pub expect_confirm :
    ForwardSpec → ControlMessage → Talk ControlMessage ForwardError (Unit {0})
expect_confirm rf (tcp_forward_confirm bound_port) = pure tt
expect_confirm rf (tcp_forward_failure description) = bail (forward_failed rf.bind_port description)
expect_confirm rf _ = bail not_a_reply

-- The loop over `config.remote_forwards`.
unfoldable pub request_forwards :
    (List ControlMessage → Bool) → List ForwardSpec → Talk ControlMessage ForwardError (Unit {0})
request_forwards link [] = pure tt
request_forwards link (rf ∷ rfs) =
    send link stream_failed (tcp_forward_request rf.bind_addr rf.bind_port)
    >> (recv stream_failed >>= expect_confirm rf)
    >> request_forwards link rfs

-- What the parts do that have models of their own.
pub record Parts (n : Network) (config : ClientConfig) : Type 0 where
  -- The errors of `connect`, of which those of `establish_connection` are some.
  pub forwards_error : ForwardError → ConnectError
  -- The control stream takes a message.
  pub link : List ControlMessage → Bool
  -- `session::run` on the connection, or the wait for `ctrl_c`.
  pub session : World → Attempt n config (Unit {0})
  pub ctrl_c : World → Attempt n config (Unit {0})
  -- `run_master`, and `run_via_master_or_spawn`.
  pub run_master : World → FramedBiStream ControlMessage → Attempt n config (Unit {0})
  pub via_master : World → Attempt n config Bool

module _ (n : Network) (config : ClientConfig) (parts : Parts n config) where
  abbrev pub after_forwards :
      World
      → List ControlMessage
      → FramedBiStream ControlMessage × Result ForwardError (Unit {0})
      → Attempt n config (Unit {0})
  after_forwards w before (s, err e) =
      (record w { sent = w.sent ++ drop (length before) s.sent }, err (parts.forwards_error e))
  after_forwards w before (s, ok u) =
      let w' = record w { sent = w.sent ++ drop (length before) s.sent } in
      if config.no_shell then parts.ctrl_c w' else parts.session w'

  abbrev pub with_control :
      Attempt n config (FramedBiStream ControlMessage) → Attempt n config (Unit {0})
  with_control (w, err e) = (w, err e)
  with_control (w, ok s) =
      after_forwards w s.sent (request_forwards parts.link config.remote_forwards s)

  -- `connect_direct`.
  unfoldable pub connect_direct : World → Attempt n config (Unit {0})
  unfolding request_forwards establish_connection
  connect_direct w = with_control (establish_connection n config w)

  abbrev pub as_master :
      Attempt n config (FramedBiStream ControlMessage) → Attempt n config (Unit {0})
  as_master (w, err e) = (w, err e)
  as_master (w, ok s) = parts.run_master w s

  abbrev pub unless_served : Attempt n config Bool → Attempt n config (Unit {0})
  unless_served (w, err e) = (w, err e)
  unless_served (w, ok true) = (w, ok tt)
  unless_served (w, ok false) = connect_direct w

  -- `connect_once`.
  unfoldable pub connect_once : World → Attempt n config (Unit {0})
  unfolding connect_direct establish_connection
  connect_once w =
      if is_some config.subsystem
      then connect_direct w
      else if config.control_master
      then as_master (establish_connection n config w)
      else if config.control_path_explicit
          || config.control_master_auto
          || is_enabled config.control_persist
      then unless_served (parts.via_master w)
      else connect_direct w

  -- `connect`.
  unfoldable pub connect : World → Attempt n config (Unit {0})
  unfolding connect_once with_install
  connect = with_install n config connect_once
