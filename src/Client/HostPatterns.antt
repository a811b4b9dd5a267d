-- ===== src/Client/HostPatterns.antt =====
-- `wildcard_match` and `host_patterns_match` of crates/sqsh/src/config.rs.
pub mod Matching
use squish.Text.{Text, text, as_bytes, eq_ignore_case, strip_prefix}
use squish.Prelude.{
  ℕ, List, [], ◌∷◌, Bool, true, false, ◌&&◌, ◌||◌, ◌==◌, if◌then◌else◌, is_empty, none, some,
  Option,
}

-- `*`: what follows matches here or after some of the bytes.
abbrev pub match_star : (List ℕ → Bool) → List ℕ → Bool
match_star next [] = next []
match_star next (v ∷ vs) = next (v ∷ vs) || match_star next vs

-- One byte that passes a test, and what follows.
abbrev pub match_byte : (ℕ → Bool) → (List ℕ → Bool) → List ℕ → Bool
match_byte test next [] = false
match_byte test next (v ∷ vs) = test v && next vs

-- `inner` of `wildcard_match`.
unfoldable pub match_bytes : List ℕ → List ℕ → Bool
match_bytes [] value = is_empty value
match_bytes (c ∷ rest) value =
    let next = match_bytes rest in
    if c == b'*'
    then match_star next value
    else if c == b'?'
    then match_byte (λ v. true) next value
    else match_byte (eq_ignore_case c) next value

unfoldable pub wildcard_match : Text → Text → Bool
unfolding match_bytes
wildcard_match pattern value = match_bytes (as_bytes pattern) (as_bytes value)

-- The loop over the patterns; `matched` is its flag.
unfoldable pub match_patterns : Bool → List Text → Text → Bool
unfolding wildcard_match
match_patterns matched [] host = matched
match_patterns matched (p ∷ ps) host = elim (strip_prefix (text "!") p) [
  | some pattern ↦
      let rest = match_patterns matched ps host in
      if wildcard_match pattern host then false else rest
  | none ↦ match_patterns (wildcard_match p host || matched) ps host
]

unfoldable pub host_patterns_match : List Text → Text → Bool
unfolding match_patterns
host_patterns_match patterns host = match_patterns false patterns host
