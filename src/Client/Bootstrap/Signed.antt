-- ===== src/Client/Bootstrap/Signed.antt =====
-- What a release that is accepted (crates/sqsh/src/bootstrap/mod.rs) has gone through.
use squish.Client.Resolve.{hex_bytes}
use squish.Proto.Message.{IoError, Bytes}
use squish.Text.{Text, lines, as_bytes, to_ascii_lowercase, eq_of_str_eq, join_path, text}
use squish.Client.Bootstrap.{
  Release, BootstrapError, entry_of, is_checksum, scan_lines, checksum_for_asset,
  verify_release_artifact, verify_signed_checksum_manifest, readable, sha256_file_hex, Text, Result,
  Option, Bool, List, IoError, ok_or, ensure, ◌∷◌, some, none, ok, true, as_bytes, err, lines,
  to_ascii_lowercase, Bytes, hex_bytes, download_and_verify_sqshd_release, join_path,
  release_archive_name, text, download_to_path, release_asset_url,
}
use squish.Prelude.{
  ℕ, >>=-eq-ok, Result, Bool, Option, ◌≡◌, ensure, List, ok_or, none, ◌∷◌, some, ok, true,
  Option-cases, Any, suc, ◌∙◌, false, [], inl, refl, ap, ok-injective, there, inr, Bool-cases, here,
}

-- How many lines are for an asset.
unfoldable pub entry_count : Text → List Text → ℕ
entry_count asset_name [] = 0
entry_count asset_name (l ∷ ls) = elim (entry_of asset_name l) [
  | none ↦ entry_count asset_name ls
  | some checksum ↦ suc (entry_count asset_name ls)
]

-- The line for the asset has this checksum, in either letter case.
pub record IsEntry (asset_name expected line : Text) : Type 0 where
  pub checksum : Text
  pub listed : entry_of asset_name line ≡ some checksum
  pub well_formed : is_checksum checksum ≡ true
  pub in_lower_case : to_ascii_lowercase checksum ≡ expected

-- What is known when the scan has found something.
scan_lines-found :
    (asset_name : Text) (ls : List Text) (c expected : Text)
    → scan_lines asset_name ls (some c) ≡ ok (some expected)
    → (c ≡ expected) × (entry_count asset_name ls ≡ 0)
unfolding scan_lines entry_count
scan_lines-found asset_name [] c expected h = (cc, refl)
scan_lines-found asset_name (l ∷ ls) c expected h = elim (Option-cases (entry_of asset_name l)) [
  | inl n ↦ rw (entry_count, n) (scan_lines-found asset_name ls c expected (rw n at h))
  | inr (d, e) ↦ elim (Bool-cases (is_checksum d)) [
    | inl t ↦ cc (rw (e, t) at h)
    | inr f ↦ cc (rw (e, f) at h)
  ]
]

scan_lines-none :
    (asset_name : Text) (ls : List Text) (expected : Text)
    → scan_lines asset_name ls none ≡ ok (some expected)
    → Any (IsEntry asset_name expected) ls × (entry_count asset_name ls ≡ 1)
unfolding scan_lines entry_count
scan_lines-none asset_name [] expected h = cc
scan_lines-none asset_name (l ∷ ls) expected h = elim (Option-cases (entry_of asset_name l)) [
  | inl n ↦
      let (a, c) = scan_lines-none asset_name ls expected (rw n at h) in
      rw (entry_count, n) (there a, c)
  | inr (d, e) ↦ elim (Bool-cases (is_checksum d)) [
    | inr f ↦ cc (rw (e, f) at h)
    | inl t ↦
        let (same, count) =
          scan_lines-found asset_name ls (to_ascii_lowercase d) expected (rw (e, t) at h) in
        rw (entry_count, e)
          (
            here (record { checksum = d; listed = e; well_formed = t; in_lower_case = same }),
            ap suc count,
          )
  ]
]

-- What an accepted release has.
pub record IsSigned (r : Release) (archive_path checksums_path signature_path asset_name : Text)
    : Type 0 where
  pub checksums : Text
  pub checksums_read : r.read_to_string checksums_path ≡ ok checksums
  pub signature_text : Text
  pub signature_read : r.read_to_string signature_path ≡ ok signature_text
  pub key : r.Key
  pub is_signing_key : r.signing_key ≡ some key
  pub signature : r.Signature
  pub decoded : r.decode signature_text ≡ some signature
  pub signed : r.verify key (as_bytes checksums) signature ≡ true
  pub archive : Bytes
  pub archive_read : r.read archive_path ≡ ok archive
  pub listed : Any (IsEntry asset_name (hex_bytes (r.sha256 archive))) (lines checksums)
  pub once : entry_count asset_name (lines checksums) ≡ 1

module _ (r : Release) where
  readable-eq-ok : {A : Type 0} (x : Result IoError A) {a : A} → readable r x ≡ ok a → x ≡ ok a
  readable-eq-ok (ok b) h = cc
  readable-eq-ok (err e) h = cc

  ok_or-eq-ok :
      {A : Type 0} (o : Option A) (e : BootstrapError) {a : A} → ok_or o e ≡ ok a → o ≡ some a
  ok_or-eq-ok (some b) e h = cc
  ok_or-eq-ok none e h = cc

  ensure-eq-ok : (b : Bool) (e : BootstrapError) {u : Unit {0}} → ensure b e ≡ ok u → b ≡ true
  ensure-eq-ok true e h = refl
  ensure-eq-ok false e h = cc

  -- A signature that is accepted.
  verify_manifest-eq-ok :
      (checksums signature_text : Text) {u : Unit {0}}
      → verify_signed_checksum_manifest r checksums signature_text ≡ ok u
      → (key : r.Key) × (signature : r.Signature) × (r.signing_key ≡ some key)
        × (r.decode signature_text ≡ some signature)
        × (r.verify key (as_bytes checksums) signature ≡ true)
  unfolding verify_signed_checksum_manifest
  verify_manifest-eq-ok checksums signature_text h =
      let (key, k, h₁) = >>=-eq-ok (ok_or r.signing_key _) _ h in
      let (signature, s, h₂) = >>=-eq-ok (ok_or (r.decode signature_text) _) _ h₁ in
      (key, signature, ok_or-eq-ok _ _ k, ok_or-eq-ok _ _ s, ensure-eq-ok _ _ h₂)

  checksum_for_asset-eq-ok :
      (checksums asset_name : Text) {expected : Text}
      → checksum_for_asset checksums asset_name ≡ ok expected
      → scan_lines asset_name (lines checksums) none ≡ ok (some expected)
  unfolding checksum_for_asset
  checksum_for_asset-eq-ok checksums asset_name h =
      let (found, f, h₁) = >>=-eq-ok (scan_lines asset_name (lines checksums) none) _ h in
      f ∙ ap ok (ok_or-eq-ok found _ h₁)

  -- A release artifact is accepted only if the manifest carries a signature by the embedded key,
  -- and lists this asset exactly once, with the SHA-256 of the archive.
  pub verify_release_artifact-IsSigned :
      (archive_path checksums_path signature_path asset_name : Text)
      → verify_release_artifact r archive_path checksums_path signature_path asset_name ≡ ok tt
      → IsSigned r archive_path checksums_path signature_path asset_name
  unfolding verify_release_artifact
  verify_release_artifact-IsSigned archive_path checksums_path signature_path asset_name h =
      let (checksums, c, h₁) = >>=-eq-ok (readable r (r.read_to_string checksums_path)) _ h in
      let (signature_text, s, h₂) = >>=-eq-ok (readable r (r.read_to_string signature_path)) _ h₁ in
      let (u, v, h₃) =
        >>=-eq-ok (verify_signed_checksum_manifest r checksums signature_text) _ h₂ in
      let (expected, e, h₄) = >>=-eq-ok (checksum_for_asset checksums asset_name) _ h₃ in
      let (actual, a, h₅) = >>=-eq-ok (sha256_file_hex r archive_path) _ h₄ in
      let (archive, b, h₆) = >>=-eq-ok (readable r (r.read archive_path)) _ a in
      let (key, signature, k, d, verified) = verify_manifest-eq-ok checksums signature_text v in
      let (listed, once) =
        scan_lines-none asset_name (lines checksums) expected
          (checksum_for_asset-eq-ok checksums asset_name e) in
      let same : hex_bytes (r.sha256 archive) ≡ expected =
        ok-injective h₆ ∙ eq_of_str_eq actual expected (ensure-eq-ok _ _ h₅) in
      record {
        checksums = checksums;
        checksums_read = readable-eq-ok (r.read_to_string checksums_path) c;
        signature_text = signature_text;
        signature_read = readable-eq-ok (r.read_to_string signature_path) s;
        key = key;
        is_signing_key = k;
        signature = signature;
        decoded = d;
        signed = verified;
        archive = archive;
        archive_read = readable-eq-ok (r.read archive_path) b;
        listed = rw same listed;
        once = once;
      }

  -- The check is the fourth of five steps of the download.
  pub download_and_verify-IsSigned :
      (staging : Text) (version : Option Text) (target : Text) {binary : Text}
      → download_and_verify_sqshd_release r staging version target ≡ ok binary
      → IsSigned r
          (join_path staging (release_archive_name target))
          (join_path staging (text "SHA256SUMS"))
          (join_path staging (text "SHA256SUMS.minisig"))
          (release_archive_name target)
  unfolding download_and_verify_sqshd_release
  download_and_verify-IsSigned staging version target h =
      let asset_name = release_archive_name target in
      let archive = join_path staging asset_name in
      let checksums = join_path staging (text "SHA256SUMS") in
      let signature = join_path staging (text "SHA256SUMS.minisig") in
      let download = download_to_path r in
      let url = release_asset_url version in
      let (a, _, h₁) = >>=-eq-ok (download (url asset_name) archive) _ h in
      let (b, _, h₂) = >>=-eq-ok (download (url (text "SHA256SUMS")) checksums) _ h₁ in
      let (c, _, h₃) = >>=-eq-ok (download (url (text "SHA256SUMS.minisig")) signature) _ h₂ in
      let (d, verified, h₄) =
        >>=-eq-ok (verify_release_artifact r archive checksums signature asset_name) _ h₃ in
      verify_release_artifact-IsSigned archive checksums signature asset_name verified
