-- ===== src/Server/Config.antt =====
-- crates/sqshd/src/config.rs: the settings of the daemon.
pub mod Accepted
use squish.Proto.Message.{Bytes}
use squish.Text.{Text, strip_suffix, text, starts_with, str_eq}
use squish.Prelude.{ℕ, List, Bool, Option, any, none, ◌∷◌, [], some, if◌then◌else◌, replicate}

pub record ServerConfig : Type 0 where
  pub bind_addr : Text
  pub port : ℕ
  pub host_key : Text
  pub host_cert : Text
  pub max_connections : ℕ
  pub idle_timeout_secs : ℕ
  pub direct_tcpip_allowlist : List Text
  pub remote_forward_allowlist : List Text
  pub max_channels_per_connection : ℕ
  pub max_remote_forwards_per_connection : ℕ
  pub accept_env : List Text
  pub subsystems : List (Text × Text)
  pub live_cert_fingerprint : Bytes

-- What serde fills in for the keys that a file leaves out; the paths have no default.
abbrev pub default_config : Text → Text → ServerConfig
default_config host_key host_cert = record {
  bind_addr = text "0.0.0.0";
  port = 2222;
  host_key = host_key;
  host_cert = host_cert;
  max_connections = 100;
  idle_timeout_secs = 300;
  direct_tcpip_allowlist = [];
  remote_forward_allowlist = [];
  max_channels_per_connection = 32;
  max_remote_forwards_per_connection = 8;
  accept_env = text "LANG" ∷ text "LC_*" ∷ [];
  subsystems = [];
  live_cert_fingerprint = replicate 32 0;
}

-- One pattern of `accept_env`.
unfoldable pub pattern_accepts : Text → Text → Bool
unfolding strip_suffix starts_with str_eq
pattern_accepts name pat = elim (strip_suffix b'*' pat) [
  | some prefix ↦ starts_with prefix name
  | none ↦ str_eq pat name
]

unfoldable pub env_accepted : ServerConfig → Text → Bool
unfolding pattern_accepts
env_accepted config name = any (pattern_accepts name) config.accept_env

-- `HashMap::get`.
unfoldable pub get : Text → List (Text × Text) → Option Text
get k [] = none
get k ((j, v) ∷ m) = if str_eq j k then some v else get k m

abbrev pub sftp_server_paths : List Text
sftp_server_paths =
    text "/usr/lib/openssh/sftp-server"
    ∷ text "/usr/libexec/openssh/sftp-server"
    ∷ text "/usr/libexec/sftp-server"
    ∷ text "/usr/lib/ssh/sftp-server"
    ∷ []

-- The first path that exists.
unfoldable pub first_existing : (Text → Bool) → List Text → Option Text
first_existing exists [] = none
first_existing exists (p ∷ ps) = if exists p then some p else first_existing exists ps

-- `resolve_subsystem`; `exists` is `Path::exists` at the time of the call.
unfoldable pub resolve_subsystem : (Text → Bool) → ServerConfig → Text → Option Text
unfolding get first_existing
resolve_subsystem exists config name = elim (get name config.subsystems) [
  | some cmd ↦ some cmd
  | none ↦ if str_eq name (text "sftp") then first_existing exists sftp_server_paths else none
]
