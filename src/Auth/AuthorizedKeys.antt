-- ===== src/Auth/AuthorizedKeys.antt =====
-- crates/sqsh-core/src/auth/keys.rs, and the writer of a line in crates/sqsh/src/bootstrap/keys.rs.
-- Base64 (`general_purpose::STANDARD`) is a parameter.
pub mod RoundTrip
use squish.Text.{Text, lines, trim, split_whitespace, text, str_eq, starts_with}
use squish.Proto.Message.{Bytes}
use squish.Prelude.{
  ◌≡◌, Option, List, Bool, if◌then◌else◌, some, none, ◌∷◌, is_empty, not, [], ◌&&◌, ◌++◌,
}

pub record Base64 : Type 0 where
  pub encode : Bytes → Text
  pub decode : Text → Option Bytes
  pub decode-encode : (bs : Bytes) → decode (encode bs) ≡ some bs

abbrev pub key_type : Text
key_type = text "ml-dsa-65"

-- The filter: neither blank nor a comment.
unfoldable pub is_key_line : Text → Bool
unfolding trim
is_key_line line =
    let trimmed = trim line in not (is_empty trimmed) && not (starts_with (text "#") trimmed)

abbrev pub key_of_words : Base64 → List Text → Option Bytes
key_of_words b [] = none
key_of_words b (t ∷ []) = none
key_of_words b (t ∷ k ∷ rest) = if str_eq t key_type then b.decode k else none

abbrev pub cons_some : Option Bytes → List Bytes → List Bytes
cons_some none ks = ks
cons_some (some k) ks = k ∷ ks

unfoldable pub keys_of_lines : Base64 → List Text → List Bytes
unfolding is_key_line split_whitespace str_eq
keys_of_lines b [] = []
keys_of_lines b (l ∷ ls) =
    let rest = keys_of_lines b ls in
    if is_key_line l then cons_some (key_of_words b (split_whitespace l)) rest else rest

unfoldable pub parse_authorized_keys : Base64 → Text → List Bytes
unfolding keys_of_lines lines
parse_authorized_keys b contents = keys_of_lines b (lines contents)

-- `format_authorized_key`.
unfoldable pub format_authorized_key : Base64 → Bytes → Text → Text
format_authorized_key b pubkey comment =
    if is_empty comment
    then key_type ++ b' ' ∷ b.encode pubkey
    else key_type ++ b' ' ∷ (b.encode pubkey ++ b' ' ∷ comment)
