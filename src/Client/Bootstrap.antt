-- ===== src/Client/Bootstrap.antt =====
-- crates/sqsh/src/bootstrap/mod.rs: which release is fetched for a host, and the check of its signed
-- checksums. The files that were fetched, SHA-256 and minisign are parameters.
pub mod Signed
pub mod Listed
pub mod Run
pub mod Sequence
use squish.Client.KnownHosts.{KnownHostsError}
use squish.Text.{
  is_digit, strip_prefix, as_bytes, Text, lines, join_path, text, str_eq, to_ascii_lowercase, trim,
  split_whitespace,
}
use squish.Proto.Message.{IoError, Bytes}
use squish.Client.Resolve.{hex_bytes, unwrap_or}
use squish.Prelude.{
  ℕ, ◌>>=◌, ◌>>◌, Bool, Option, Result, ok, List, ◌&&◌, err, if◌then◌else◌, ◌||◌, ensure, true,
  ok_or, some, none, ◌∷◌, leb, not, is_empty, ◌==◌, length, ◌++◌, [],
}

pub data BootstrapError : Type 0 where
  empty_version no_digit_first disallowed_characters : BootstrapError
  invalid_signing_key invalid_signature not_verified : BootstrapError
  invalid_entry duplicate_entry missing_entry : BootstrapError
  unreadable : IoError → BootstrapError
  checksum_mismatch : (expected got : Text) → BootstrapError
  download_failed extract_failed : BootstrapError
  remote_failed unsupported_os no_release_asset : BootstrapError
  key_failed : BootstrapError
  pin_failed : KnownHostsError → BootstrapError

-- `is_ascii_alphanumeric` and `is_ascii_hexdigit`.
abbrev pub is_alphanumeric : ℕ → Bool
is_alphanumeric c = is_digit c || (leb b'a' c && leb c b'z') || (leb b'A' c && leb c b'Z')

abbrev pub is_hex_digit : ℕ → Bool
is_hex_digit c = is_digit c || (leb b'a' c && leb c b'f') || (leb b'A' c && leb c b'F')

unfoldable pub all_chars : (ℕ → Bool) → Text → Bool
all_chars p [] = true
all_chars p (c ∷ cs) = p c && all_chars p cs

abbrev pub version_char : ℕ → Bool
version_char c = is_alphanumeric c || c == b'.' || c == b'+' || c == b'-'

-- `validate_version`.
unfoldable pub validate_version : Text → Result BootstrapError (Unit {0})
unfolding is_digit all_chars
validate_version [] = err empty_version
validate_version (c ∷ cs) =
    if not (is_digit c)
    then err no_digit_first
    else if not (all_chars version_char (c ∷ cs))
    then err disallowed_characters
    else ok tt

abbrev pub release_archive_name : Text → Text
release_archive_name target = text "squish-" ++ (target ++ text ".tar.gz")

abbrev pub releases : Text
releases = text "https://github.com/alexclewontin/squish/releases/"

-- `release_asset_url`.
unfoldable pub release_asset_url : Option Text → Text → Text
release_asset_url (some v) asset = releases ++ (text "download/v" ++ (v ++ (text "/" ++ asset)))
release_asset_url none asset = releases ++ (text "latest/download/" ++ asset)

-- The name in an entry, as the code strips it: where no `*` follows, the whole name is taken again.
unfoldable pub stripped_asset : Text → Text
unfolding strip_prefix
stripped_asset asset =
    unwrap_or (strip_prefix (text "*") (unwrap_or (strip_prefix (text "./") asset) asset)) asset

abbrev pub entry_of_words : Text → List Text → Option Text
entry_of_words asset_name (checksum ∷ asset ∷ rest) =
    if str_eq (stripped_asset asset) asset_name then some checksum else none
entry_of_words asset_name _ = none

-- The checksum of a line, if the line is for the asset.
unfoldable pub entry_of : Text → Text → Option Text
unfolding stripped_asset
entry_of asset_name line =
    if is_empty (trim line) then none else entry_of_words asset_name (split_whitespace (trim line))

unfoldable pub is_checksum : Text → Bool
unfolding all_chars is_digit
is_checksum checksum = all_chars is_hex_digit checksum && length (as_bytes checksum) == 64

-- `found.replace(..)`.
abbrev pub replace : Option Text → Text → Result BootstrapError (Option Text)
replace none checksum = ok (some (to_ascii_lowercase checksum))
replace (some c) checksum = err duplicate_entry

abbrev pub take_entry : Option Text → Option Text → Result BootstrapError (Option Text)
take_entry none found = ok found
take_entry (some checksum) found =
    if not (is_checksum checksum) then err invalid_entry else replace found checksum

-- The loop over the lines.
unfoldable pub scan_lines : Text → List Text → Option Text → Result BootstrapError (Option Text)
unfolding entry_of is_checksum
scan_lines asset_name [] found = ok found
scan_lines asset_name (l ∷ ls) found =
    take_entry (entry_of asset_name l) found >>= scan_lines asset_name ls

-- `checksum_for_asset`.
unfoldable pub checksum_for_asset : Text → Text → Result BootstrapError Text
unfolding scan_lines
checksum_for_asset checksums asset_name =
    scan_lines asset_name (lines checksums) none >>= λ found. ok_or found missing_entry

-- The files of a release on disk, SHA-256, and minisign: the embedded key if it is well formed,
-- the signature of a text, and its verification.
pub record Release : Type 1 where
  pub read_to_string : Text → Result IoError Text
  pub read : Text → Result IoError Bytes
  pub sha256 : Bytes → Bytes
  pub Key : Type 0
  pub Signature : Type 0
  pub signing_key : Option Key
  pub decode : Text → Option Signature
  pub verify : Key → Bytes → Signature → Bool
  -- Whether a download to a path succeeds, and whether `tar` gives a file from an archive.
  pub download : (url destination : Text) → Bool
  pub extract : (archive : Text) → Bool

module _ (r : Release) where
  open r use {read_to_string, read, sha256, signing_key, decode, verify, download, extract}

  abbrev pub readable : {A : Type 0} → Result IoError A → Result BootstrapError A
  readable (ok a) = ok a
  readable (err e) = err (unreadable e)

  -- `verify_signed_checksum_manifest`.
  unfoldable pub verify_signed_checksum_manifest : Text → Text → Result BootstrapError (Unit {0})
  unfolding as_bytes
  verify_signed_checksum_manifest checksums signature_text =
      ok_or signing_key invalid_signing_key >>= λ public_key.
      (ok_or (decode signature_text) invalid_signature >>= λ signature.
      ensure (verify public_key (as_bytes checksums) signature) not_verified)

  -- `sha256_file_hex`.
  abbrev pub sha256_file_hex : Text → Result BootstrapError Text
  sha256_file_hex path = readable (read path) >>= λ bytes. ok (hex_bytes (sha256 bytes))

  abbrev pub compare_checksums : Text → Text → Result BootstrapError (Unit {0})
  compare_checksums expected actual =
      ensure (str_eq actual expected) (checksum_mismatch expected actual)

  -- `verify_release_artifact`.
  unfoldable pub verify_release_artifact :
      (archive_path checksums_path signature_path asset_name : Text)
      → Result BootstrapError (Unit {0})
  unfolding verify_signed_checksum_manifest checksum_for_asset
  verify_release_artifact archive_path checksums_path signature_path asset_name =
      readable (read_to_string checksums_path) >>= λ checksums.
      (readable (read_to_string signature_path) >>= λ signature_text.
      (verify_signed_checksum_manifest checksums signature_text >>= λ u.
      (checksum_for_asset checksums asset_name >>= λ expected.
      (sha256_file_hex archive_path >>= compare_checksums expected))))

  abbrev pub download_to_path : Text → Text → Result BootstrapError (Unit {0})
  download_to_path url destination = ensure (download url destination) download_failed

  -- `download_and_verify_sqshd_release`, in a staging directory; the result is the binary's path.
  unfoldable pub download_and_verify_sqshd_release :
      (staging : Text) → Option Text → Text → Result BootstrapError Text
  unfolding verify_release_artifact release_asset_url
  download_and_verify_sqshd_release staging version target =
      let asset_name = release_archive_name target in
      let archive_path = join_path staging asset_name in
      let checksums_path = join_path staging (text "SHA256SUMS") in
      let signature_path = join_path staging (text "SHA256SUMS.minisig") in
      download_to_path (release_asset_url version asset_name) archive_path
      >> (download_to_path (release_asset_url version (text "SHA256SUMS")) checksums_path
          >> (download_to_path (release_asset_url version (text "SHA256SUMS.minisig"))
                signature_path
              >> (verify_release_artifact archive_path checksums_path signature_path asset_name
                  >> (ensure (extract archive_path) extract_failed
                      >> ok (join_path staging (text "sqshd"))))))
