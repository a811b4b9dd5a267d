-- ===== src/Client/RemotePath/RoundTrip.antt =====
-- What `parse_remote` of crates/sqsh/src/bin/sqcp.rs finds in a remote path.
use squish.Client.RemotePath.{parse_remote, path_or_dot}
use squish.Text.{Text, contains, split_once-append, split_once-absent, split_once}
use squish.Prelude.{◌≡◌, some, [], ◌∷◌, ◌++◌, false, none}

-- An argument `host:path` without `[`, its host without colon and slash, is split at its first
-- colon. An argument `user[address]:file`, its user without `[` and its address without `]`, is split
-- at the colon behind the bracket. An empty path stands for the current directory. If `host:path`
-- goes on with `[`, a name without `]`, `]` and a rest without colon, it is no remote path at all.
pub parse_remote-append :
    (host path user address file inside rest : Text)
    → contains b'[' (host ++ b':' ∷ path) ≡ false
    → contains b':' host ≡ false
    → contains b'/' host ≡ false
    → contains b'[' user ≡ false
    → contains b']' address ≡ false
    → contains b']' inside ≡ false
    → contains b':' rest ≡ false
    → (parse_remote (host ++ b':' ∷ path) ≡ some (host, path_or_dot path))
      × (parse_remote (user ++ b'[' ∷ (address ++ b']' ∷ b':' ∷ file))
          ≡ some (user ++ b'[' ∷ (address ++ b']' ∷ []), path_or_dot file))
      × (parse_remote ((host ++ b':' ∷ path) ++ b'[' ∷ (inside ++ b']' ∷ rest)) ≡ none)
unfolding parse_remote split_once
parse_remote-append host path user address file inside rest none_open colon slash opens closes end
      more =
    (
      rw (
        split_once-absent b'[' (host ++ b':' ∷ path) none_open,
        split_once-append b':' host path colon,
        slash,
      ),
      rw (
        split_once-append b'[' user (address ++ b']' ∷ b':' ∷ file) opens,
        split_once-append b']' address (b':' ∷ file) closes,
      ),
      rw (
        split_once-append b'[' (host ++ b':' ∷ path) (inside ++ b']' ∷ rest) none_open,
        split_once-append b']' inside rest end,
        split_once-absent b':' rest more,
      ),
    )
