-- ===== src/Client/KnownHosts.antt =====
-- `KnownHosts` of crates/sqsh/src/known_hosts.rs: trust on first use. The `HashMap` is an
-- association list with one entry for a key. `order` stands for its order of iteration and `fault`
-- for a failure of the file system: what it leaves at the path, if saving a text fails.
pub mod Lookup
pub mod Saved
pub mod Reloaded
use squish.Text.{Text, str_eq, trim, lines, split_once, starts_with, text}
use squish.Prelude.{
  ℕ, Option, none, some, List, [], ◌∷◌, ◌++◌, Bool, true, false, not, ◌||◌, ◌==◌, if◌then◌else◌,
  is_empty, bit_and, Result, ok, err, ◌>>=◌, ◌>>◌, ensure, ok_or,
}

abbrev pub Entries : Type 0
Entries = List (Text × Text)

-- `HashMap::get`.
unfoldable pub get : Text → Entries → Option Text
get k [] = none
get k ((j, v) ∷ m) = if str_eq j k then some v else get k m

-- `HashMap::insert`.
unfoldable pub insert : Text → Text → Entries → Entries
insert k v [] = (k, v) ∷ []
insert k v ((j, w) ∷ m) =
    let rest = insert k v m in if str_eq j k then (k, v) ∷ m else (j, w) ∷ rest

pub data KnownHostsError : Type 0 where
  accessible_by_others io_error : KnownHostsError
  verification_failed : (expected got : Text) → KnownHostsError

-- What is at the path, with its mode bits; `none` for contents that are no UTF-8.
pub record KnownHostsFile : Type 0 where
  pub contents : Option Text
  pub mode : ℕ

abbrev owner_only : ℕ
owner_only = 0o600

-- `validate_known_hosts_permissions`.
abbrev pub validate_permissions : KnownHostsFile → Result KnownHostsError (Unit {0})
validate_permissions f = ensure (bit_and f.mode 0o077 == 0) accessible_by_others

abbrev pub insert_pair : Option (Text × Text) → Entries → Entries
insert_pair none m = m
insert_pair (some (host, fingerprint)) m = insert host fingerprint m

abbrev pub insert_line : Text → Entries → Entries
insert_line line m =
    if is_empty line || starts_with (text "#") line then m else insert_pair (split_once b' ' line) m

unfoldable pub insert_lines : List Text → Entries → Entries
insert_lines [] m = m
insert_lines (l ∷ ls) m = insert_lines ls (insert_line (trim l) m)

-- `KnownHosts::load`.
unfoldable pub load : Option KnownHostsFile → Result KnownHostsError Entries
load none = ok []
load (some f) = validate_permissions f >> ok_or f.contents io_error >>= λ contents.
    ok (insert_lines (lines contents) [])

-- The lines that `save` writes.
abbrev pub format_entries : Entries → Text
format_entries [] = []
format_entries ((host, fp) ∷ m) = host ++ b' ' ∷ fp ++ b'\n' ∷ format_entries m

-- The entries in memory and the file.
pub record KnownHosts : Type 0 where
  pub entries : Entries
  pub file : Option KnownHostsFile

module _ (order : Entries → Entries) (fault : Text → Option (Option KnownHostsFile)) where
  abbrev pub written :
      Text
      → Option (Option KnownHostsFile)
      → Entries
      → KnownHosts × Result KnownHostsError (Unit {0})
  written contents (some left) m = (record { entries = m; file = left }, err io_error)
  written contents none m = (
    record { entries = m; file = some (record { contents = some contents; mode = owner_only }) },
    ok tt,
  )

  unfoldable pub save : Entries → KnownHosts × Result KnownHostsError (Unit {0})
  save m = let contents = format_entries (order m) in written contents (fault contents) m

  -- `KnownHosts::pin`.
  unfoldable pub pin : Text → Text → KnownHosts → KnownHosts × Result KnownHostsError (Unit {0})
  unfolding save insert
  pin host_port fingerprint s = save (insert host_port fingerprint s.entries)

  abbrev pub verify_stored :
      Option Text → Text → Text → KnownHosts → KnownHosts × Result KnownHostsError (Unit {0})
  verify_stored none host_port fingerprint s = save (insert host_port fingerprint s.entries)
  verify_stored (some stored) host_port fingerprint s =
      (s, ensure (str_eq stored fingerprint) (verification_failed stored fingerprint))

  -- `KnownHosts::verify`.
  unfoldable pub verify : Text → Text → KnownHosts → KnownHosts × Result KnownHostsError (Unit {0})
  unfolding save insert get
  verify host_port fingerprint s = verify_stored (get host_port s.entries) host_port fingerprint s

  abbrev pub verify_loaded :
      Result KnownHostsError Entries
      → Text
      → Text
      → Option KnownHostsFile
      → Option KnownHostsFile × Result KnownHostsError (Unit {0})
  verify_loaded (err e) host_port fingerprint file = (file, err e)
  verify_loaded (ok m) host_port fingerprint file =
      let verdict = verify host_port fingerprint (record { entries = m; file = file }) in
      (verdict.0.file, verdict.1)

  -- What a connection does with the file: `KnownHosts::load`, then `verify`. The map is dropped.
  unfoldable pub verify_file :
      Text
      → Text
      → Option KnownHostsFile
      → Option KnownHostsFile × Result KnownHostsError (Unit {0})
  unfolding verify load
  verify_file host_port fingerprint file = verify_loaded (load file) host_port fingerprint file
