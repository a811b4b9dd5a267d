-- ===== src/Client/Resolve.antt =====
-- `ClientConfig::resolve_with_home` of crates/sqsh/src/config.rs, with the paths it builds. The file
-- system and SHA-256 are parameters. A path is a text.
pub mod Overrides
use squish.Client.Target.{Target, TargetError}
use squish.Client.Target as Target
use squish.Client.ForwardSpec.{ForwardSpec, ForwardError}
use squish.Client.ForwardSpec as ForwardSpec
use squish.Client.ControlPersist.{ControlPersist, PersistError}
use squish.Client.ControlPersist as ControlPersist
use squish.Client.SshConfig.{SshHostConfig, SshConfigError, default_ssh_config}
use squish.Client.SshConfig as SshConfig
use squish.Proto.Message.{Bytes, IoError, not_found}
use squish.Text.{Text, text, str_eq, strip_prefix, to_string, join, join_path, as_bytes}
use squish.Prelude.{
  ℕ, ◌+◌, ◌/◌, ◌%◌, ltb, Option, none, some, List, [], ◌∷◌, ◌++◌, Bool, true, false, ◌||◌, ◌==◌,
  if◌then◌else◌, is_empty, take, Result, ok, err, ◌>>=◌,
}

-- The arguments of the function, but for the target, in their order.
pub record Options : Type 0 where
  pub port_override : Option ℕ
  pub ssh_port_override : Option ℕ
  pub user_override : Option Text
  pub identity_override : Option Text
  pub command_parts : List Text
  pub subsystem : Option Text
  pub local_forward_strs : List Text
  pub remote_forward_strs : List Text
  pub no_shell : Bool
  pub control_path_override : Option Text
  pub control_master : Bool
  pub control_persist : Option Text
  pub home : Text
  pub user_env : Option Text

pub record ClientConfig : Type 0 where
  pub host : Text
  pub port : ℕ
  pub ssh_port : ℕ
  pub username : Text
  pub identity_path : Text
  pub known_hosts_path : Text
  pub command : Option Text
  pub subsystem : Option Text
  pub local_forwards : List ForwardSpec
  pub remote_forwards : List ForwardSpec
  pub no_shell : Bool
  pub control_path : Text
  pub control_path_explicit : Bool
  pub control_master : Bool
  pub control_master_auto : Bool
  pub control_persist : ControlPersist

pub data ResolveError : Type 0 where
  bad_target : TargetError → ResolveError
  config_unreadable : ResolveError
  bad_config : SshConfigError → ResolveError
  bad_forward : ForwardError → ResolveError
  bad_persist : PersistError → ResolveError

-- The `?` on an error of another type.
abbrev pub map_err {ℓ} : {A : Type ℓ} {E F : Type 0} → (E → F) → Result E A → Result F A
map_err f (ok a) = ok a
map_err f (err e) = err (f e)

-- `Option::or`, `Option::unwrap_or` and `Option::is_some`.
infixr 3 ◌or◌
abbrev pub ◌or◌ {ℓ} : {A : Type ℓ} → Option A → Option A → Option A
some a or o = some a
none or o = o

abbrev pub unwrap_or {ℓ} : {A : Type ℓ} → Option A → A → A
unwrap_or (some a) d = a
unwrap_or none d = d

abbrev pub is_some {ℓ} : {A : Type ℓ} → Option A → Bool
is_some (some a) = true
is_some none = false

-- What `%` and a character stand for.
abbrev pub percent : Text → Text → ℕ → Text → ℕ → Text
percent host original_host port username c =
    if c == b'h'
    then host
    else if c == b'n'
    then original_host
    else if c == b'p'
    then to_string port
    else if c == b'r'
    then username
    else if c == b'%'
    then text "%"
    else b'%' ∷ c ∷ []

unfoldable pub expand_percents : Text → Text → ℕ → Text → Text → Text
expand_percents host original_host port username [] = []
expand_percents host original_host port username (c ∷ []) = c ∷ []
expand_percents host original_host port username (c ∷ d ∷ cs) = elim (c == b'%') [
  | true ↦
      percent host original_host port username d
      ++ expand_percents host original_host port username cs
  | false ↦ c ∷ expand_percents host original_host port username (d ∷ cs)
]

abbrev pub expand_home : Text → Text → Option Text → Text
expand_home home expanded (some rest) = join_path home rest
expand_home home expanded none = expanded

unfoldable pub expand_ssh_path : Text → Text → Text → Text → ℕ → Text → Text
unfolding expand_percents
expand_ssh_path path home host original_host port username =
    let expanded = expand_percents host original_host port username path in
    if str_eq expanded (text "~")
    then home
    else expand_home home expanded (strip_prefix (text "~/") expanded)

-- `{:x}` of a number below 16.
abbrev pub hex_digit : ℕ → ℕ
hex_digit n = if ltb n 10 then b'0' + n else 87 + n

abbrev pub hex_bytes : Bytes → Text
hex_bytes [] = []
hex_bytes (b ∷ bs) = hex_digit (b / 16) ∷ hex_digit (b % 16) ∷ hex_bytes bs

unfoldable pub default_control_path : (Bytes → Bytes) → Text → Text → Text → ℕ → Text
default_control_path sha256 config_dir username host port =
    let digest =
      sha256 (as_bytes username ++ 0 ∷ (as_bytes host ++ 0 ∷ port % 256 ∷ port / 256 ∷ [])) in
    join_path (join_path config_dir (text "control"))
      (text "cm-" ++ (hex_bytes (take 8 digest) ++ text ".sock"))

abbrev pub parse_forwards : List Text → Result ResolveError (List ForwardSpec)
parse_forwards [] = ok []
parse_forwards (s ∷ ss) =
    map_err bad_forward (ForwardSpec.parse s) >>= λ f. (parse_forwards ss >>= λ fs. ok (f ∷ fs))

abbrev pub joined_command : List Text → Option Text
joined_command [] = none
joined_command (p ∷ ps) = some (join (text " ") (p ∷ ps))

abbrev pub command_of : Option Text → List Text → Option Text
command_of (some s) parts = none
command_of none parts = joined_command parts

module _ (read_to_string : Text → Result IoError Text) (sha256 : Bytes → Bytes) where
  -- `SshHostConfig::load`.
  abbrev pub load_contents : Result IoError Text → Text → Result ResolveError SshHostConfig
  load_contents (ok contents) target_host =
      map_err bad_config (SshConfig.parse contents target_host)
  load_contents (err not_found) target_host = ok default_ssh_config
  load_contents (err e) target_host = err config_unreadable

  abbrev pub load_ssh_config : Text → Text → Result ResolveError SshHostConfig
  load_ssh_config path target_host = load_contents (read_to_string path) target_host

  abbrev pub expanded_in : Options → Target → Text → ℕ → Text → Option Text → Option Text
  expanded_in o target host port username none = none
  expanded_in o target host port username (some path) =
      some (expand_ssh_path path o.home host target.host port username)

  -- The record at the end, from the target, the file and the parsed parts.
  abbrev pub assemble :
      Options
      → Target
      → SshHostConfig
      → List ForwardSpec
      → List ForwardSpec
      → ControlPersist
      → ClientConfig
  assemble o target ssh local remote persist =
      let config_dir = join_path (join_path o.home (text ".config")) (text "sqsh") in
      let host = unwrap_or ssh.host_name target.host in
      let username =
        unwrap_or (o.user_override or target.user or ssh.user or o.user_env) (text "root") in
      let port = unwrap_or (o.port_override or target.port or ssh.port) 2222 in
      record {
        host = host;
        port = port;
        ssh_port = unwrap_or o.ssh_port_override 22;
        username = username;
        identity_path =
            unwrap_or
              (o.identity_override or expanded_in o target host port username ssh.identity_file)
              (join_path config_dir (text "id_ml_dsa_65"));
        known_hosts_path = join_path config_dir (text "known_hosts");
        command = command_of o.subsystem o.command_parts;
        subsystem = o.subsystem;
        local_forwards = ssh.local_forwards ++ local;
        remote_forwards = ssh.remote_forwards ++ remote;
        no_shell = o.no_shell;
        control_path =
            unwrap_or
              (o.control_path_override or expanded_in o target host port username ssh.control_path)
              (default_control_path sha256 config_dir username host port);
        control_path_explicit = is_some o.control_path_override || is_some ssh.control_path;
        control_master = o.control_master;
        control_master_auto = unwrap_or ssh.control_master false;
        control_persist = persist;
      }

  abbrev pub finish_resolve : Options → Target → SshHostConfig → Result ResolveError ClientConfig
  finish_resolve o target ssh = parse_forwards o.local_forward_strs >>= λ local.
      (parse_forwards o.remote_forward_strs >>= λ remote.
      (map_err bad_persist (ControlPersist.parse (o.control_persist or ssh.control_persist))
        >>= λ persist. ok (assemble o target ssh local remote persist)))

  unfoldable pub resolve_with_home : Text → Options → Result ResolveError ClientConfig
  resolve_with_home target_str o = map_err bad_target (Target.parse target_str) >>= λ target.
      (load_ssh_config (join_path (join_path o.home (text ".ssh")) (text "config")) target.host
        >>= finish_resolve o target)
