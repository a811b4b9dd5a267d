-- ===== src/Auth/AuthorizedKeys/RoundTrip.antt =====
-- Reading a file of formatted keys (crates/sqsh-core/src/auth/keys.rs, and
-- crates/sqsh/src/bootstrap/keys.rs for the format).
use squish.Proto.Message.{Bytes}
use squish.Text.{
  Text, contains, IsWord, split_whitespace, NoSpace, is_whitespace, split_whitespace-append,
  NoSpace-contains, trim_start, lines-append, contains-append, trim_end, strip_cr-absent,
  starts_with, split_whitespace-word, trim,
}
use squish.Auth.AuthorizedKeys.{
  format_authorized_key, Base64, key_type, is_key_line, parse_authorized_keys, keys_of_lines,
}
use squish.Prelude.{◌≡◌, List, All, false, ◌≢◌, [], ◌∷◌, ◌++◌, ◌∙◌, refl, ap, true, ℕ, ◌==◌, arith}

-- No line break is in the text.
abbrev pub IsOneLine : Text → Type 0
IsOneLine s = (contains b'\n' s ≡ false) × (contains b'\r' s ≡ false)

-- The text that stands for a key is one word, as base64 is.
abbrev pub EncodesWords : Base64 → Type 0
EncodesWords b = (bs : Bytes) → bs ≢ [] → IsWord (b.encode bs)

-- The lines of a file, for keys with their comments.
abbrev pub format_file : Base64 → List (Bytes × Text) → Text
format_file b [] = []
format_file b ((k, comment) ∷ ks) = format_authorized_key b k comment ++ b'\n' ∷ format_file b ks

abbrev pub keys_of : List (Bytes × Text) → List Bytes
keys_of [] = []
keys_of ((k, c) ∷ ks) = k ∷ keys_of ks

abbrev pub AreKeys : List (Bytes × Text) → Type 0
AreKeys = All (λ e. (e.0 ≢ []) × IsOneLine e.1)

NoSpace-IsOneLine : (w : Text) → NoSpace w → IsOneLine w
unfolding is_whitespace
NoSpace-IsOneLine w h = (NoSpace-contains b'\n' w refl h, NoSpace-contains b'\r' w refl h)

format_line-IsOneLine :
    (b : Base64) (k : Bytes) (comment : Text)
    → NoSpace (b.encode k)
    → IsOneLine comment
    → IsOneLine (format_authorized_key b k comment)
unfolding format_authorized_key contains
format_line-IsOneLine b k [] w c = NoSpace-IsOneLine (b.encode k) w
format_line-IsOneLine b k (x ∷ comment) w c =
    let (p, q) = NoSpace-IsOneLine (b.encode k) w in
    (
      rw (contains-append b'\n' (b.encode k) (b' ' ∷ x ∷ comment), p) c.0,
      rw (contains-append b'\r' (b.encode k) (b' ' ∷ x ∷ comment), q) c.1,
    )

key_type-word :
    (rest : Text) → split_whitespace (key_type ++ b' ' ∷ rest) ≡ key_type ∷ split_whitespace rest
unfolding is_whitespace
key_type-word rest =
    split_whitespace-append key_type rest b' '
      ((refl, (refl, (refl, (refl, (refl, (refl, (refl, (refl, (refl, tt))))))))), λ e. cc) refl

line_words :
    (b : Base64) (k : Bytes) (comment : Text)
    → IsWord (b.encode k)
    → (rest : List Text) × (split_whitespace (format_authorized_key b k comment)
        ≡ key_type ∷ b.encode k ∷ rest)
unfolding format_authorized_key is_whitespace
line_words b k [] w =
    ([], key_type-word (b.encode k) ∙ ap (◌∷◌ key_type) (split_whitespace-word (b.encode k) w))
line_words b k (x ∷ comment) w = (
  split_whitespace (x ∷ comment),
  key_type-word (b.encode k ++ b' ' ∷ x ∷ comment)
      ∙ ap (◌∷◌ key_type) (split_whitespace-append (b.encode k) (x ∷ comment) b' ' w refl),
)

-- A line that begins with another character than white space and `#` is no comment.
is_key_line-cons :
    (x : ℕ) (s : Text) → is_whitespace x ≡ false → (b'#' == x) ≡ false → is_key_line (x ∷ s) ≡ true
unfolding is_key_line trim trim_start trim_end starts_with
is_key_line-cons x s h k = ground arith

format_line-is_key_line :
    (b : Base64) (k : Bytes) (comment : Text)
    → is_key_line (format_authorized_key b k comment) ≡ true
unfolding format_authorized_key is_whitespace
format_line-is_key_line b k [] = is_key_line-cons b'm' _ refl refl
format_line-is_key_line b k (x ∷ comment) = is_key_line-cons b'm' _ refl refl

-- Reading a file of formatted keys gives these keys in order, whatever the comments, as long as
-- each comment is on one line and base64 writes a key as one word that it decodes to the key.
pub parse_authorized_keys-format_file :
    (b : Base64) (ks : List (Bytes × Text))
    → EncodesWords b
    → AreKeys ks
    → parse_authorized_keys b (format_file b ks) ≡ keys_of ks
unfolding parse_authorized_keys
parse_authorized_keys-format_file b [] w h = refl
parse_authorized_keys-format_file b ((k, comment) ∷ ks) w ((n, c), h) =
    let line = format_authorized_key b k comment in
    let (one, two) = format_line-IsOneLine b k comment (w k n).0 c in
    let (rest, words) = line_words b k comment (w k n) in
    rw
      (
        lines-append line (format_file b ks) one,
        strip_cr-absent line two,
        keys_of_lines,
        format_line-is_key_line b k comment,
        words,
        b.decode-encode k,
      )
      (ap (◌∷◌ k) (parse_authorized_keys-format_file b ks w h))
