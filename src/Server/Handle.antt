-- ===== src/Server/Handle.antt =====
-- `handle` of crates/sqshd/src/connection.rs: the handshake, and the loop if it succeeds.
pub mod Admitted
use squish.Server.Config.{ServerConfig}
use squish.Server.Access.{IpAddr}
use squish.Server.Keys.{Host, Failure}
use squish.Server.Authenticate.{authenticate}
use squish.Server.Connection.{Event, Flow, run, running, start}
use squish.Proto.Message.{ControlMessage}
use squish.Proto.Stream.{FramedBiStream, fresh}
use squish.Text.{Text}
use squish.Prelude.{Option, List, Bool, Result, ok, err}

-- How a connection goes.
pub data Course : Type 0 where
  rejected : (sent : List ControlMessage) → Failure → Course
  served : (username : Text) → Flow → Course

module _ (h : Host) (parse_ip : Text → Option IpAddr) (config : ServerConfig)
    (link : List ControlMessage → Bool) where
  abbrev pub after_handshake :
      FramedBiStream ControlMessage × Result Failure Text → List Event → Course
  after_handshake (s, err e) events = rejected s.sent e
  after_handshake (s, ok username) events =
      served username (run parse_ip config (running (start parse_ip config)) events)

  -- `incoming` is what comes before the loop, `events` what happens in it.
  abbrev pub handle_connection : List ControlMessage → List Event → Course
  handle_connection incoming events =
      after_handshake (authenticate h config link (fresh incoming)) events
