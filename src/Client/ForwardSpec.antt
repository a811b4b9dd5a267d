-- ===== src/Client/ForwardSpec.antt =====
-- `ForwardSpec` of crates/sqsh/src/config.rs.
pub mod RoundTrip
use squish.Client.Tokens.{tokenize_config_line}
use squish.Text.{Text, text, split, parse_unsigned, u16_max}
use squish.Prelude.{ℕ, List, [], ◌∷◌, ◌++◌, Result, ok, err, ◌>>=◌, ok_or}

pub record ForwardSpec : Type 0 where
  pub bind_addr : Text
  pub bind_port : ℕ
  pub target_host : Text
  pub target_port : ℕ

pub data ForwardError : Type 0 where
  bad_bind_port bad_target_port invalid_forward_spec : ForwardError

-- The fields of the record, in order.
abbrev pub parse_ports : Text → Text → Text → Text → Result ForwardError ForwardSpec
parse_ports bind_addr bind_port host target_port =
    ok_or (parse_unsigned u16_max bind_port) bad_bind_port >>= λ b.
    (ok_or (parse_unsigned u16_max target_port) bad_target_port >>= λ t.
    ok (record { bind_addr = bind_addr; bind_port = b; target_host = host; target_port = t }))

abbrev pub parse_parts : List Text → Result ForwardError ForwardSpec
parse_parts (bind_port ∷ host ∷ target_port ∷ []) =
    parse_ports (text "127.0.0.1") bind_port host target_port
parse_parts (bind_addr ∷ bind_port ∷ host ∷ target_port ∷ []) =
    parse_ports bind_addr bind_port host target_port
parse_parts _ = err invalid_forward_spec

-- `ForwardSpec::parse`.
unfoldable pub parse : Text → Result ForwardError ForwardSpec
parse s = parse_parts (split b':' s)

abbrev pub parse_tokens : List Text → Result ForwardError ForwardSpec
parse_tokens (single ∷ []) = parse single
parse_tokens (listen ∷ target ∷ []) = parse (listen ++ text ":" ++ target)
parse_tokens _ = err invalid_forward_spec

-- `ForwardSpec::parse_ssh_config`.
unfoldable pub parse_ssh_config : Text → Result ForwardError ForwardSpec
unfolding parse
parse_ssh_config value = parse_tokens (tokenize_config_line value)
