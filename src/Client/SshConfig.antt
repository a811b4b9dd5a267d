-- ===== src/Client/SshConfig.antt =====
-- `SshHostConfig` of crates/sqsh/src/config.rs. An error carries its line's number.
pub mod FirstWins
use squish.Client.ForwardSpec.{ForwardSpec, parse_ssh_config}
use squish.Client.HostPatterns.{host_patterns_match}
use squish.Client.Tokens.{tokenize_config_line}
use squish.Text.{Text, text, str_eq, trim, lines, to_ascii_lowercase, join, parse_unsigned, u16_max}
use squish.Prelude.{
  ℕ, ◌+◌, Option, none, some, List, [], ◌∷◌, ◌++◌, Bool, true, false, not, ◌||◌, if◌then◌else◌,
  is_empty, any, Result, ok, err, ◌>>=◌, ok_or,
}

pub record SshHostConfig : Type 0 where
  pub host_name : Option Text
  pub user : Option Text
  pub port : Option ℕ
  pub identity_file : Option Text
  pub local_forwards : List ForwardSpec
  pub remote_forwards : List ForwardSpec
  pub control_path : Option Text
  pub control_master : Option Bool
  pub control_persist : Option Text

-- `SshHostConfig::default`.
abbrev pub default_ssh_config : SshHostConfig
default_ssh_config = record {
  host_name = none;
  user = none;
  port = none;
  identity_file = none;
  local_forwards = [];
  remote_forwards = [];
  control_path = none;
  control_master = none;
  control_persist = none;
}

pub data SshConfigError : Type 0 where
  bad_port bad_local_forward bad_remote_forward : (line_no : ℕ) → SshConfigError

abbrev pub set_once : Option Text → Text → Option Text
set_once none value = some value
set_once (some v) value = some v

unfoldable pub parse_control_master : Text → Bool
parse_control_master value =
    any (str_eq (to_ascii_lowercase (trim value)))
      (text "yes" ∷ text "true" ∷ text "auto" ∷ text "autoask" ∷ text "ask" ∷ [])

abbrev pub set_master : Option Bool → Text → Option Bool
set_master none value = some (parse_control_master value)
set_master (some b) value = some b

abbrev pub set_port : ℕ → Option ℕ → Text → Result SshConfigError (Option ℕ)
set_port line_no none value =
    ok_or (parse_unsigned u16_max value) (bad_port line_no) >>= λ n. ok (some n)
set_port line_no (some p) value = ok (some p)

-- `.with_context(..)?`.
abbrev pub with_context {ℓ} : {A : Type ℓ} {E F : Type 0} → Result E A → F → Result F A
with_context (ok a) f = ok a
with_context (err e) f = err f

-- The match on the keyword.
unfoldable pub apply_keyword : ℕ → Text → Text → SshHostConfig → Result SshConfigError SshHostConfig
apply_keyword line_no keyword value c =
    if str_eq keyword (text "hostname")
    then ok (record c { host_name = set_once c.host_name value })
    else if str_eq keyword (text "user")
    then ok (record c { user = set_once c.user value })
    else if str_eq keyword (text "port")
    then (set_port line_no c.port value >>= λ p. ok (record c { port = p }))
    else if str_eq keyword (text "identityfile")
    then ok (record c { identity_file = set_once c.identity_file value })
    else if str_eq keyword (text "localforward")
    then (with_context (parse_ssh_config value) (bad_local_forward line_no) >>= λ f.
        ok (record c { local_forwards = c.local_forwards ++ f ∷ [] }))
    else if str_eq keyword (text "remoteforward")
    then (with_context (parse_ssh_config value) (bad_remote_forward line_no) >>= λ f.
        ok (record c { remote_forwards = c.remote_forwards ++ f ∷ [] }))
    else if str_eq keyword (text "controlpath")
    then ok (record c { control_path = set_once c.control_path value })
    else if str_eq keyword (text "controlmaster")
    then ok (record c { control_master = set_master c.control_master value })
    else if str_eq keyword (text "controlpersist")
    then ok (record c { control_persist = set_once c.control_persist value })
    else ok c

-- The flag `active` and the configuration read so far.
abbrev pub ParseState : Type 0
ParseState = Bool × SshHostConfig

unfoldable pub parse_keyword :
    Text → ℕ → Text → List Text → ParseState → Result SshConfigError ParseState
unfolding apply_keyword
parse_keyword target_host line_no keyword args (active, c) =
    if str_eq keyword (text "host")
    then ok (host_patterns_match args target_host, c)
    else if not active || is_empty args
    then ok (active, c)
    else apply_keyword line_no keyword (join (text " ") args) c >>= λ c'. ok (active, c')

abbrev pub parse_line : Text → ℕ → List Text → ParseState → Result SshConfigError ParseState
parse_line target_host line_no [] s = ok s
parse_line target_host line_no (keyword ∷ args) s =
    parse_keyword target_host line_no (to_ascii_lowercase keyword) args s

unfoldable pub parse_lines : Text → ℕ → List Text → ParseState → Result SshConfigError ParseState
unfolding parse_keyword
parse_lines target_host line_no [] s = ok s
parse_lines target_host line_no (l ∷ ls) s =
    parse_line target_host line_no (tokenize_config_line l) s >>= λ s'.
    parse_lines target_host (line_no + 1) ls s'

-- `SshHostConfig::parse`.
unfoldable pub parse : Text → Text → Result SshConfigError SshHostConfig
unfolding parse_lines
parse contents target_host =
    parse_lines target_host 1 (lines contents) (true, default_ssh_config) >>= λ s. ok s.1
