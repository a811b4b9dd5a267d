-- ===== src/Client/Bootstrap/Run.antt =====
-- `run` of crates/sqsh/src/bootstrap/mod.rs, with ssh.rs, detect.rs and service.rs beside it: what is
-- done on the remote host, and in which order. The system's `ssh` and `scp` are parameters.
use squish.Text.{starts_with, str_eq, text, Text, trim, to_string}
use squish.Client.Bootstrap.{
  Release, BootstrapError, validate_version, download_and_verify_sqshd_release, remote_failed,
  unsupported_os, no_release_asset, Text, List, Option, str_eq, text, Bool, some, ◌∷◌, Result,
  is_empty, trim, [], ok, err,
}
use squish.Proto.Stream.{Talk, pure, bail, lift, ◌>>=◌, ◌>>◌}
use squish.Prelude.{
  ℕ, List, Option, Bool, ◌∷◌, ◌++◌, true, Result, false, is_empty, [], ◌||◌, none, ok,
  if◌then◌else◌, err, ◌==◌,
}

pub data OsKind : Type 0 where
  linux macos : OsKind

-- What is asked of the remote host.
pub data Remote : Type 0 where
  run_command sudo_command : Text → Remote
  upload : (from to : Text) → Remote
  write_file : (path contents : Text) → Remote

-- `SshRunner`: the output of each request after those before it, or its failure.
abbrev pub Runner : Type 0
Runner = List Remote → Remote → Option Text

-- `userhost`.
abbrev pub userhost : Option Text → Text → Text
userhost (some user) host = user ++ (text "@" ++ host)
userhost none host = host

-- `shell_single_quote`.
unfoldable pub quote_chars : Text → Text
quote_chars [] = []
quote_chars (c ∷ cs) =
    let rest = quote_chars cs in
    if c == b'\'' then b'\'' ∷ b'\\' ∷ b'\'' ∷ b'\'' ∷ rest else c ∷ rest

unfoldable pub shell_single_quote : Text → Text
unfolding quote_chars
shell_single_quote input = text "'" ++ (quote_chars input ++ text "'")

-- The arguments of `ssh` for `run` and `sudo`, and those of `scp` for `upload`, also of the temporary
-- file that `write_file` sends.
abbrev pub remote_args : (temp : Text) → Option Text → Text → ℕ → Remote → List Text
remote_args temp user host port (run_command cmd) =
    text "-p" ∷ to_string port ∷ text "-o" ∷ text "BatchMode=yes" ∷ userhost user host ∷ cmd ∷ []
remote_args temp user host port (sudo_command cmd) =
    text "-p"
    ∷ to_string port
    ∷ text "-t"
    ∷ userhost user host
    ∷ (text "sudo sh -c " ++ shell_single_quote cmd)
    ∷ []
remote_args temp user host port (upload from to) =
    text "-P" ∷ to_string port ∷ from ∷ (userhost user host ++ (text ":" ++ to)) ∷ []
remote_args temp user host port (write_file path contents) =
    text "-P" ∷ to_string port ∷ temp ∷ (userhost user host ++ (text ":" ++ path)) ∷ []

-- `release_target`.
unfoldable pub release_target : OsKind → Text → Result BootstrapError Text
unfolding str_eq
release_target linux arch =
    if str_eq arch (text "x86_64")
    then ok (text "x86_64-unknown-linux-gnu")
    else if str_eq arch (text "aarch64")
    then ok (text "aarch64-unknown-linux-gnu")
    else err no_release_asset
release_target macos arch =
    if str_eq arch (text "arm64") || str_eq arch (text "aarch64")
    then ok (text "aarch64-apple-darwin")
    else if str_eq arch (text "x86_64")
    then ok (text "x86_64-apple-darwin")
    else err no_release_asset

abbrev pub os_of : Text → Result BootstrapError OsKind
os_of uname =
    if str_eq uname (text "Linux")
    then ok linux
    else if str_eq uname (text "Darwin")
    then ok macos
    else err unsupported_os

-- `str::contains` and `str::ends_with` for a text.
unfoldable pub contains_text : Text → Text → Bool
unfolding starts_with
contains_text p [] = is_empty p
contains_text p (c ∷ cs) = starts_with p (c ∷ cs) || contains_text p cs

unfoldable pub ends_with : Text → Text → Bool
unfolding str_eq
ends_with p [] = is_empty p
ends_with p (c ∷ cs) = str_eq p (c ∷ cs) || ends_with p cs

abbrev pub says_installed : Option Text → Bool
says_installed none = false
says_installed (some out) = contains_text (text "yes") out || ends_with (text "sqshd") out

abbrev pub says_running : Option Text → Bool
says_running none = false
says_running (some out) = str_eq (trim out) (text "running")

-- `build_server_config`.
unfoldable pub build_server_config : ℕ → Text
build_server_config port =
    text "bind_addr = \"0.0.0.0\"\nport = "
    ++ (to_string port
        ++ text "\nhost_key = \"/etc/sqsh/host.key\"\nhost_cert = \"/etc/sqsh/host.cert\"\n")

pub record BootstrapConfig : Type 0 where
  pub host : Text
  pub ssh_port : ℕ
  pub sqshd_port : ℕ
  pub ssh_user : Option Text
  pub squishd_version : Option Text

abbrev pub remote_key_path : Text
remote_key_path = text "/tmp/sqsh-authorized-key"

abbrev pub installed_query : Remote
installed_query =
    run_command (text "command -v sqshd || test -f /usr/local/bin/sqshd && echo yes || echo no")

abbrev pub trimmed : Option Text → Option Text
trimmed none = none
trimmed (some stdout) = some (trim stdout)

module _ (runner : Runner) where
  abbrev pub Steps : Type 0 → Type 0
  Steps A = Talk Remote BootstrapError A

  -- What `run` gives: the output without white space at its ends.
  abbrev pub stdout_of : List Remote → Remote → Option Text
  stdout_of earlier m = trimmed (runner earlier m)

  -- A request, with its output if it succeeds.
  abbrev pub attempt : Remote → Steps (Option Text)
  attempt m s = (record s { sent = s.sent ++ m ∷ [] }, ok (stdout_of s.sent m))

  abbrev pub require : Option Text → Steps Text
  require none = bail remote_failed
  require (some out) = pure out

  abbrev pub perform : Remote → Steps Text
  perform m = attempt m >>= require

  abbrev pub perform_only : Remote → Steps (Unit {0})
  perform_only m = perform m >>= λ out. pure tt

  abbrev pub sudo : Text → Steps (Unit {0})
  sudo cmd = perform_only (sudo_command cmd)

  abbrev pub detect_os : Steps OsKind
  detect_os = perform (run_command (text "uname -s")) >>= λ uname. lift (os_of uname)

  abbrev pub is_sqshd_installed : Steps Bool
  is_sqshd_installed = attempt installed_query >>= λ out. pure (says_installed out)

  abbrev pub is_sqshd_running : Steps Bool
  is_sqshd_running =
      attempt (run_command (text "pgrep -x sqshd > /dev/null 2>&1 && echo running || echo stopped"))
      >>= λ out. pure (says_running out)

  -- The upload and the installation of a binary that was verified.
  abbrev pub install_binary : Text → Steps (Unit {0})
  install_binary binary =
      perform_only (upload binary (text "/tmp/sqshd"))
      >> sudo (text "install -m 755 /tmp/sqshd /usr/local/bin/sqshd")

  abbrev pub check_version : Option Text → Result BootstrapError (Unit {0})
  check_version none = ok tt
  check_version (some v) = validate_version v

  module _ (r : Release) (staging : Text) (version : Option Text) where
    -- Step 2 of `run`.
    abbrev pub ensure_installed : Text → Bool → Steps (Unit {0})
    ensure_installed target true = pure tt
    ensure_installed target false =
        lift (check_version version)
        >> (lift (download_and_verify_sqshd_release r staging version target) >>= install_binary)

    abbrev pub with_target : OsKind → Text → Steps OsKind
    with_target os target =
        is_sqshd_installed >>= λ installed. ensure_installed target installed >> pure os

    abbrev pub with_arch : OsKind → Text → Steps OsKind
    with_arch os arch = lift (release_target os arch) >>= with_target os

    abbrev pub with_os : OsKind → Steps OsKind
    with_os os = perform (run_command (text "uname -m")) >>= with_arch os

    -- Steps 1 and 2 of `run`; the result is the system.
    unfoldable pub install_release : Steps OsKind
    unfolding release_target validate_version download_and_verify_sqshd_release
    install_release = detect_os >>= with_os

  -- Step 3: the configuration.
  unfoldable pub write_config : ℕ → Steps (Unit {0})
  unfolding build_server_config
  write_config port =
      sudo (text "mkdir -p /etc/sqsh && chmod 700 /etc/sqsh")
      >> perform_only (write_file (text "/tmp/sqshd.toml") (build_server_config port))
      >> sudo (text "install -m 644 /tmp/sqshd.toml /etc/sqsh/sqshd.toml")
