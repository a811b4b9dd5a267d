-- ===== src/Client/Target.antt =====
-- `Target::parse` of crates/sqsh/src/target.rs. Each error is its cause.
pub mod RoundTrip
use squish.Text.{Text, text, strip_prefix, split_once, rsplit_once, parse_unsigned, u16_max}
use squish.Prelude.{
  ℕ, Option, none, some, List, [], ◌∷◌, Bool, true, false, if◌then◌else◌, is_empty, Result, ok, err,
  ◌>>=◌, ◌>>◌, ensure, ok_or,
}

pub record Target : Type 0 where
  pub user : Option Text
  pub host : Text
  pub port : Option ℕ

pub data TargetError : Type 0 where
  empty_target empty_user unclosed_bracket expected_port invalid_port empty_host : TargetError

-- `p.parse()?` at `u16`.
abbrev pub parse_port : Text → Result TargetError (Option ℕ)
parse_port p = ok_or (parse_unsigned u16_max p) invalid_port >>= λ n. ok (some n)

abbrev pub split_user : Text → Option (Text × Text) → Result TargetError (Option Text × Text)
split_user input (some (u, rest)) = if is_empty u then err empty_user else ok (some u, rest)
split_user input none = ok (none, input)

-- What follows the closing bracket.
abbrev pub bracket_port : Text → Result TargetError (Option ℕ)
bracket_port [] = ok none
bracket_port (c ∷ cs) = ok_or (strip_prefix (text ":") (c ∷ cs)) expected_port >>= λ p. parse_port p

-- An IPv6 literal, after its opening bracket.
abbrev pub bracketed : Text → Result TargetError (Text × Option ℕ)
bracketed stripped = ok_or (split_once b']' stripped) unclosed_bracket >>= λ parts.
    (bracket_port parts.1 >>= λ port. ok (parts.0, port))

abbrev pub plain : Text → Option (Text × Text) → Result TargetError (Text × Option ℕ)
plain rest (some (h, p)) =
    if is_empty h then ok (rest, none) else parse_port p >>= λ port. ok (h, port)
plain rest none = ok (rest, none)

abbrev pub split_host : Text → Option Text → Result TargetError (Text × Option ℕ)
split_host rest (some stripped) = bracketed stripped
split_host rest none = plain rest (rsplit_once b':' rest)

abbrev pub checked_host : Option Text → Text × Option ℕ → Result TargetError Target
checked_host user (host, port) =
    if is_empty host then err empty_host else ok (record { user = user; host = host; port = port })

unfoldable pub parse : Text → Result TargetError Target
parse input =
    if is_empty input
    then err empty_target
    else split_user input (split_once b'@' input) >>= λ parts.
        split_host parts.1 (strip_prefix (text "[") parts.1) >>= λ place. checked_host parts.0 place
