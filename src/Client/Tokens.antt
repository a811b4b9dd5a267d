-- ===== src/Client/Tokens.antt =====
-- `tokenize_config_line` of crates/sqsh/src/config.rs.
pub mod Quoting
use squish.Text.{Text, is_whitespace, flush}
use squish.Prelude.{
  ℕ, Option, none, some, List, [], ◌∷◌, ◌++◌, Bool, true, false, ◌&&◌, ◌||◌, ◌==◌, if◌then◌else◌,
}

-- What a character does outside an escape.
pub data TokenChar : Type 0 where
  escape open_quote close_quote comment separator ordinary : TokenChar

abbrev pub is_quote : ℕ → Bool
is_quote c = c == b'\'' || c == b'"'

abbrev pub quoted_by : Option ℕ → ℕ → Bool
quoted_by none c = false
quoted_by (some q) c = q == c

abbrev pub unquoted : Option ℕ → Bool
unquoted none = true
unquoted (some q) = false

-- The arms of the match, in order.
unfoldable pub token_char : Option ℕ → ℕ → TokenChar
token_char quote c =
    if c == b'\\'
    then escape
    else if is_quote c && quoted_by quote c
    then close_quote
    else if is_quote c && unquoted quote
    then open_quote
    else if c == b'#' && unquoted quote
    then comment
    else if c == b'=' && unquoted quote
    then separator
    else if is_whitespace c && unquoted quote
    then separator
    else ordinary

-- `cur` is the token being read.
unfoldable pub tokens_from : Text → Option ℕ → Bool → Text → List Text
unfolding token_char
tokens_from cur quote escaped [] = flush cur []
tokens_from cur quote true (c ∷ cs) = tokens_from (cur ++ c ∷ []) quote false cs
tokens_from cur quote false (c ∷ cs) = elim (token_char quote c) [
  | escape ↦ tokens_from cur quote true cs
  | open_quote ↦ tokens_from cur (some c) false cs
  | close_quote ↦ tokens_from cur none false cs
  | comment ↦ flush cur []
  | separator ↦ flush cur (tokens_from [] quote false cs)
  | ordinary ↦ tokens_from (cur ++ c ∷ []) quote false cs
]

unfoldable pub tokenize_config_line : Text → List Text
unfolding tokens_from
tokenize_config_line line = tokens_from [] none false line
