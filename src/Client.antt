-- ===== src/Client.antt =====
-- The client: crates/sqsh/src.
pub mod Target
pub mod KnownHosts
pub mod HostPatterns
pub mod Tokens
pub mod ForwardSpec
pub mod ControlPersist
pub mod SshConfig
pub mod Resolve
pub mod Migration
pub mod RemotePath
pub mod Authenticate
pub mod Connect
pub mod Session
pub mod Forward
pub mod Control
pub mod Bootstrap
