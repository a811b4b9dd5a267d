-- ===== src/Tests/Auth.antt =====
-- A challenge and a keys file.
use squish.Tests.Instances.{letter_code, letter_code-EncodesWords, alice_key}
use squish.Auth.Challenge.{build_challenge_payload, challenge_bytes}
use squish.Auth.Challenge.Binding.{build_challenge_payload-binds, Collision}
use squish.Auth.AuthorizedKeys.{parse_authorized_keys}
use squish.Auth.AuthorizedKeys.RoundTrip.{parse_authorized_keys-format_file, format_file}
use squish.Text.{text, as_bytes, encode_utf8, contains}
use squish.Proto.Message.{Bytes}
use squish.Prelude.{◌≡◌, refl, [], ◌∷◌, replicate, ◌⊎◌}

abbrev nonce : Bytes
nonce = replicate 32 5

abbrev fingerprint : Bytes
fingerprint = replicate 32 6

build_challenge_payload-binds_example :
    ((nonce ≡ nonce)
      × (fingerprint ≡ fingerprint)
      × (as_bytes (text "bob") ≡ as_bytes (text "bob")))
    ⊎ Collision
        (λ bs. bs)
        (challenge_bytes nonce fingerprint (as_bytes (text "bob")))
        (challenge_bytes nonce fingerprint (as_bytes (text "bob")))
unfolding build_challenge_payload as_bytes encode_utf8
build_challenge_payload-binds_example =
    build_challenge_payload-binds (λ bs. bs) nonce nonce fingerprint fingerprint (text "bob")
      (text "bob") {h = challenge_bytes nonce fingerprint (text "bob")} refl refl refl refl refl
      refl

parse_authorized_keys-format_file_example :
    parse_authorized_keys letter_code
      (format_file letter_code ((alice_key, text "laptop") ∷ (3 ∷ [], []) ∷ []))
    ≡ alice_key ∷ (3 ∷ []) ∷ []
unfolding contains
parse_authorized_keys-format_file_example =
    parse_authorized_keys-format_file letter_code ((alice_key, text "laptop") ∷ (3 ∷ [], []) ∷ [])
      letter_code-EncodesWords (((λ e. cc e), (refl, refl)), (((λ e. cc e), (refl, refl)), tt))
