-- ===== src/Text/Chars.antt =====
-- Texts as lists of Unicode scalar values: comparison, prefixes, letter case, UTF-8.
use Prim.Native.Char.{code}
use Prim.Native.String.{String}
use squish.Prelude.{
  ℕ, ◌+◌, ◌/◌, ◌%◌, ◌≡◌, refl, ◌↔◌, Bool, true, false, ◌&&◌, ◌||◌, Option, none, some, List, [],
  ◌∷◌, ◌++◌, arith, ltb, leb, ◌==◌, ==_refl, if◌then◌else◌, and-eq-true, ==_iff,
}

-- A Rust `str` or `String`.
abbrev pub Text : Type 0
Text = List ℕ

-- The text of a literal.
abbrev pub text : String → Text
text String.[] = []
text (String.◌∷◌ c s) = code c ∷ text s

-- `str == str`.
unfoldable pub str_eq : Text → Text → Bool
str_eq [] [] = true
str_eq [] (y ∷ ys) = false
str_eq (x ∷ xs) [] = false
str_eq (x ∷ xs) (y ∷ ys) = x == y && str_eq xs ys

pub str_eq_refl : (s : Text) → str_eq s s ≡ true
unfolding str_eq
str_eq_refl [] = refl
str_eq_refl (x ∷ xs) = ground (arith, str_eq_refl xs)

pub eq_of_str_eq : (s t : Text) → str_eq s t ≡ true → s ≡ t
unfolding str_eq
eq_of_str_eq [] [] h = refl
eq_of_str_eq [] (y ∷ ys) h = cc
eq_of_str_eq (x ∷ xs) [] h = cc
eq_of_str_eq (x ∷ xs) (y ∷ ys) h =
    let (p, q) = and-eq-true (x == y) (str_eq xs ys) h in
    cc (eq_of_str_eq xs ys q, (==_iff x y).0 p)

pub str_eq_iff : (s t : Text) → (str_eq s t ≡ true) ↔ (s ≡ t)
str_eq_iff s t = (eq_of_str_eq s t, λ e. rw (← e) (str_eq_refl s))

-- `str::contains(char)`.
unfoldable pub contains : ℕ → Text → Bool
contains c [] = false
contains c (x ∷ xs) = x == c || contains c xs

pub contains-append : (c : ℕ) (s t : Text) → contains c (s ++ t) ≡ (contains c s || contains c t)
unfolding contains
contains-append c [] t = refl
contains-append c (x ∷ s) t = ground (arith, contains-append c s t)

-- `str::strip_prefix`.
unfoldable pub strip_prefix : Text → Text → Option Text
strip_prefix [] s = some s
strip_prefix (p ∷ ps) [] = none
strip_prefix (p ∷ ps) (x ∷ s) = if p == x then strip_prefix ps s else none

pub strip_prefix-append : (p s : Text) → strip_prefix p (p ++ s) ≡ some s
unfolding strip_prefix
strip_prefix-append [] s = refl
strip_prefix-append (c ∷ p) s = rw (==_refl c) (strip_prefix-append p s)

pub strip_prefix-eq-some : (p s : Text) {r : Text} → strip_prefix p s ≡ some r → s ≡ p ++ r
unfolding strip_prefix
strip_prefix-eq-some [] s h = cc
strip_prefix-eq-some (c ∷ p) [] h = cc
strip_prefix-eq-some (c ∷ p) (x ∷ s) {r} h = ground (arith, strip_prefix-eq-some p s {r = r})

-- `str::starts_with`.
unfoldable pub starts_with : Text → Text → Bool
starts_with [] s = true
starts_with (p ∷ ps) [] = false
starts_with (p ∷ ps) (x ∷ s) = p == x && starts_with ps s

-- `u8::to_ascii_lowercase` and `char::to_ascii_lowercase`.
unfoldable pub to_lower : ℕ → ℕ
to_lower c = if leb b'A' c && leb c b'Z' then c + 32 else c

-- `eq_ignore_ascii_case` of one character.
unfoldable pub eq_ignore_case : ℕ → ℕ → Bool
unfolding to_lower
eq_ignore_case a b = to_lower a == to_lower b

-- `str::to_ascii_lowercase`.
unfoldable pub to_ascii_lowercase : Text → Text
unfolding to_lower
to_ascii_lowercase [] = []
to_ascii_lowercase (c ∷ cs) = to_lower c ∷ to_ascii_lowercase cs

-- The UTF-8 bytes of one character.
unfoldable pub encode_utf8 : ℕ → List ℕ
encode_utf8 c =
    if ltb c 0x80
    then c ∷ []
    else if ltb c 0x800
    then (0xc0 + c / 64) ∷ (0x80 + c % 64) ∷ []
    else if ltb c 0x10000
    then (0xe0 + c / 4096) ∷ (0x80 + c / 64 % 64) ∷ (0x80 + c % 64) ∷ []
    else (0xf0 + c / 262144) ∷ (0x80 + c / 4096 % 64) ∷ (0x80 + c / 64 % 64) ∷ (0x80 + c % 64) ∷ []

-- `str::as_bytes`.
unfoldable pub as_bytes : Text → List ℕ
unfolding encode_utf8
as_bytes [] = []
as_bytes (c ∷ cs) = encode_utf8 c ++ as_bytes cs
