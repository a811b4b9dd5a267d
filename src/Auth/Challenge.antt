-- ===== src/Auth/Challenge.antt =====
-- crates/sqsh-core/src/auth/challenge.rs and fingerprint.rs. The hash functions are parameters.
use squish.Proto.Codec.Words.{u16_to_le, u16_mod}
use squish.Proto.Message.{Bytes}
use squish.Text.{as_bytes, Text, text}
use squish.Prelude.{◌≡◌, ◌++◌, Option, length, if◌then◌else◌, ltb, some, none}
pub mod Binding

abbrev pub domain_separator : Bytes
domain_separator = text "sqsh-auth-challenge-v1"

-- The bytes that are hashed, in the order of the calls of `update`.
unfoldable pub challenge_bytes : Bytes → Bytes → Bytes → Bytes
challenge_bytes nonce server_cert_fingerprint username_bytes =
    domain_separator
    ++ (nonce ++ (server_cert_fingerprint ++ (u16_to_le (length username_bytes) ++ username_bytes)))

-- `none` is the panic of `expect`, at a name of 65536 bytes or more.
unfoldable pub build_challenge_payload : (Bytes → Bytes) → Bytes → Bytes → Text → Option Bytes
unfolding challenge_bytes as_bytes
build_challenge_payload sha512 nonce server_cert_fingerprint username =
    let username_bytes = as_bytes username in
    if ltb (length username_bytes) u16_mod
    then some (sha512 (challenge_bytes nonce server_cert_fingerprint username_bytes))
    else none

-- `cert_fingerprint`.
abbrev pub cert_fingerprint : (Bytes → Bytes) → Bytes → Bytes
cert_fingerprint sha256 cert_der = sha256 cert_der
