-- ===== src/Client/Tokens/Quoting.antt =====
-- Words in quotes on a line of an ssh config file (crates/sqsh/src/config.rs).
use squish.Client.Tokens.{tokenize_config_line, tokens_from, token_char, ordinary}
use squish.Text.{Text, is_whitespace, flush-ne-nil}
use squish.Prelude.{
  ℕ, none, some, List, [], ◌∷◌, ◌++◌, false, ◌||◌, ◌==◌, if◌then◌else◌, ◌≡◌, ◌≢◌, refl, All,
  Bool-cases, inl, inr, append_assoc, append-nil, arith, ◌∙◌, ap,
}

-- A backslash before each backslash and double quote.
abbrev pub escape_text : Text → Text
escape_text [] = []
escape_text (c ∷ cs) =
    let rest = escape_text cs in if c == b'\\' || c == b'"' then b'\\' ∷ c ∷ rest else c ∷ rest

-- Each word in double quotes, with a space after it.
abbrev pub quote_words : List Text → Text
quote_words [] = []
quote_words (w ∷ ws) = b'"' ∷ escape_text w ++ b'"' ∷ b' ' ∷ quote_words ws

inside-ordinary : (c : ℕ) → (c == b'\\' || c == b'"') ≡ false → token_char (some b'"') c ≡ ordinary
unfolding token_char
inside-ordinary c h = ground arith

tokens_from-escape_text :
    (cur w rest : Text)
    → tokens_from cur (some b'"') false (escape_text w ++ b'"' ∷ rest)
      ≡ tokens_from (cur ++ w) none false rest
unfolding tokens_from token_char
tokens_from-escape_text cur [] rest = rw append-nil
tokens_from-escape_text cur (c ∷ w) rest = elim (Bool-cases (c == b'\\' || c == b'"')) [
  | inl special ↦ rw special (tokens_from-escape_text (cur ++ c ∷ []) w rest ∙ rw append_assoc)
  | inr plain ↦
      rw (plain, tokens_from, inside-ordinary c plain)
        (tokens_from-escape_text (cur ++ c ∷ []) w rest ∙ rw append_assoc)
]

-- A line of quoted words is split into exactly these words, whatever characters they hold, as long
-- as none is empty.
pub tokenize_config_line-quote_words :
    (ws : List Text) → All (λ w. w ≢ []) ws → tokenize_config_line (quote_words ws) ≡ ws
unfolding tokenize_config_line tokens_from token_char is_whitespace
tokenize_config_line-quote_words [] h = refl
tokenize_config_line-quote_words (w ∷ ws) h =
    tokens_from-escape_text [] w (b' ' ∷ quote_words ws)
    ∙ flush-ne-nil w _ h.0
    ∙ ap (◌∷◌ w) (tokenize_config_line-quote_words ws h.1)
