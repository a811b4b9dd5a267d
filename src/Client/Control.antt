-- ===== src/Client/Control.antt =====
-- crates/sqsh/src/control.rs: one connection that several clients of a user share, over a socket.
pub mod Serve
pub mod Handler
pub mod Forwards
pub mod Slave
use squish.Client.ForwardSpec.{ForwardSpec}
use squish.Text.{Text}
use squish.Proto.Channel.{WindowChangeParams, PtyReqParams}
use squish.Proto.Message.{Bytes}
use squish.Prelude.{ℕ, Option, Bool, List}

pub record MasterSessionRequest : Type 0 where
  pub command : Option Text
  pub no_shell : Bool
  pub local_forwards : List ForwardSpec
  pub remote_forwards : List ForwardSpec
  pub pty : Option PtyReqParams
  pub vars : List (Text × Text)

pub data ClientMessage : Type 0 where
  open_request : MasterSessionRequest → ClientMessage
  stdin_data : Bytes → ClientMessage
  client_eof : ClientMessage
  client_resize : WindowChangeParams → ClientMessage

pub data MasterMessage : Type 0 where
  ready master_eof : MasterMessage
  stdout_data stderr_data : Bytes → MasterMessage
  status_report : ℕ → MasterMessage
  error_report : Text → MasterMessage
