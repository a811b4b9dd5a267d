-- ===== src/Server.antt =====
-- crates/sqshd/src: the daemon. `Config` and `Access` hold its settings and its access lists,
-- `Authenticate` the handshake, `Connection` the loop over one connection, `Dispatch` the opening
-- of a channel, and `Session` what runs on a session channel.
pub mod Config
pub mod Access
pub mod Keys
pub mod Authenticate
pub mod Connection
pub mod Dispatch
pub mod Session
pub mod Handle
pub mod Forward
