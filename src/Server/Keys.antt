-- ===== src/Server/Keys.antt =====
-- `load_user_authorized_keys` and the signature check of crates/sqshd/src/connection.rs. The user
-- database, the file system, the random nonce and ML-DSA-65 are parameters.
use squish.Auth.Challenge.{build_challenge_payload}
use squish.Auth.AuthorizedKeys.{Base64, parse_authorized_keys}
use squish.Text.{Text, join_path, text}
use squish.Proto.Message.{Bytes, IoError, not_found}
use squish.Prelude.{
  ◌>>=◌, ℕ, Option, Result, Bool, not, List, err, if◌then◌else◌, ok, bit_and, [], ◌==◌, ◌&&◌, some,
  none, ok_or,
}

-- `nix::unistd::User`.
pub record User : Type 0 where
  pub name : Text
  pub uid : ℕ
  pub gid : ℕ
  pub dir : Text
  pub shell : Text

-- Owner and mode of a file.
pub record Metadata : Type 0 where
  pub owner : ℕ
  pub mode : ℕ

pub record FileSystem : Type 0 where
  pub metadata : Text → Result IoError Metadata
  pub read_to_string : Text → Result IoError Text

-- `bail!`, `?` and the panic of `build_challenge_payload`.
pub data Failure : Type 0 where
  version_mismatch : ℕ → Failure
  stream_failed not_a_hello no_user_database not_a_response : Failure
  stat_failed wrong_owner writable_by_others read_failed : Failure
  not_authorized invalid_verifying_key invalid_signature verification_failed panic : Failure

-- What the daemon takes from its surroundings during one handshake.
pub record Host : Type 1 where
  -- `User::from_name`: an error, or whether the user exists.
  pub from_name : Text → Result IoError (Option User)
  pub files : FileSystem
  pub base64 : Base64
  -- 32 random bytes.
  pub nonce : Bytes
  pub sha512 : Bytes → Bytes
  -- ML-DSA-65: `try_from` and `decode` of a key and a signature, and `verify`.
  pub VerifyingKey : Type 0
  pub Signature : Type 0
  pub verifying_key : Bytes → Option VerifyingKey
  pub signature : Bytes → Option Signature
  pub verify : VerifyingKey → Bytes → Signature → Bool

-- `mode & 0o022 != 0`.
unfoldable pub group_or_world_writable : ℕ → Bool
group_or_world_writable mode = not (bit_and mode 18 == 0)

abbrev pub authorized_keys_path : User → Text
authorized_keys_path user = join_path (join_path user.dir (text ".squish")) (text "authorized_keys")

module _ (h : Host) where
  open h use {from_name, files, base64, nonce, sha512, verifying_key, signature, verify}

  abbrev pub read_keys : Text → Result Failure (List Bytes)
  read_keys path = elim (files.read_to_string path) [
    | err e ↦ err read_failed
    | ok contents ↦ ok (parse_authorized_keys base64 contents)
  ]

  abbrev pub check_owner : User → Text → Metadata → Result Failure (List Bytes)
  check_owner user path meta =
      if not (meta.owner == user.uid) && not (meta.owner == 0)
      then err wrong_owner
      else if group_or_world_writable meta.mode
      then err writable_by_others
      else read_keys path

  abbrev pub keys_of_metadata : User → Text → Result IoError Metadata → Result Failure (List Bytes)
  keys_of_metadata user path (err not_found) = ok []
  keys_of_metadata user path (err e) = err stat_failed
  keys_of_metadata user path (ok meta) = check_owner user path meta

  unfoldable pub load_user_authorized_keys : User → Result Failure (List Bytes)
  unfolding group_or_world_writable
  load_user_authorized_keys user =
      let path = authorized_keys_path user in keys_of_metadata user path (files.metadata path)

  abbrev pub lookup_user : Text → Result Failure (Option User)
  lookup_user username = elim (from_name username) [
    | err e ↦ err no_user_database
    | ok user ↦ ok user
  ]

  unfoldable pub keys_of_user : Option User → Result Failure (List Bytes)
  unfolding load_user_authorized_keys
  keys_of_user none = ok []
  keys_of_user (some user) = load_user_authorized_keys user

  -- The signature check, up to the answer.
  unfoldable pub check_signature : Bytes → Text → Bytes → Bytes → Result Failure Bool
  check_signature fingerprint username pubkey sig = do
    payload ← ok_or (build_challenge_payload sha512 nonce fingerprint username) panic
    key ← ok_or (verifying_key pubkey) invalid_verifying_key
    s ← ok_or (signature sig) invalid_signature
    ok (verify key payload s)
