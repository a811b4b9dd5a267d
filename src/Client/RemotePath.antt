-- ===== src/Client/RemotePath.antt =====
-- `parse_remote` of crates/sqsh/src/bin/sqcp.rs. Where the source cuts at the place that `find`
-- returns, the text is split there.
pub mod RoundTrip
use squish.Text.{Text, text, split_once, contains}
use squish.Prelude.{
  Option, none, some, List, [], ◌∷◌, ◌++◌, Bool, true, false, if◌then◌else◌, is_empty,
}

-- `if path.is_empty() { "." } else { path }`.
abbrev pub path_or_dot : Text → Text
path_or_dot path = if is_empty path then text "." else path

-- The first colon after the bracket that closes.
abbrev pub bracketed_path : Text → Text → Option (Text × Text) → Option (Text × Text)
bracketed_path before inside none = none
bracketed_path before inside (some (between, path)) =
    some (before ++ b'[' ∷ (inside ++ b']' ∷ between), path_or_dot path)

abbrev pub bracketed_host : Text → Option (Text × Text) → Option (Text × Text)
bracketed_host before none = none
bracketed_host before (some (inside, after)) = bracketed_path before inside (split_once b':' after)

-- A slash before the colon makes it a local path.
abbrev pub plain_host : Option (Text × Text) → Option (Text × Text)
plain_host none = none
plain_host (some (host, path)) = if contains b'/' host then none else some (host, path_or_dot path)

abbrev pub remote_of : Text → Option (Text × Text) → Option (Text × Text)
remote_of arg (some (before, rest)) = bracketed_host before (split_once b']' rest)
remote_of arg none = plain_host (split_once b':' arg)

unfoldable pub parse_remote : Text → Option (Text × Text)
parse_remote arg = remote_of arg (split_once b'[' arg)
