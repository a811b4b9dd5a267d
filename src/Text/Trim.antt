-- ===== src/Text/Trim.antt =====
-- White space: `trim`, `lines`, `split_whitespace`.
use squish.Prelude.{
  ℕ, ◌≡◌, refl, Bool, true, false, ◌&&◌, ◌||◌, List, [], ◌∷◌, ◌++◌, arith, leb, ◌==◌, if◌then◌else◌,
  is_empty, append_assoc, append-nil, All, Bool-cases, ◌∙◌, ◌≢◌, inl, ==_iff, inr,
}
use squish.Text.Chars.{Text, contains}

-- `char::is_whitespace`: the Unicode property White_Space.
unfoldable pub is_whitespace : ℕ → Bool
is_whitespace c =
    leb 9 c && leb c 13
    || c == 32
    || c == 0x85
    || c == 0xa0
    || c == 0x1680
    || leb 0x2000 c && leb c 0x200a
    || c == 0x2028
    || c == 0x2029
    || c == 0x202f
    || c == 0x205f
    || c == 0x3000

unfoldable pub trim_start : Text → Text
trim_start [] = []
trim_start (x ∷ xs) = if is_whitespace x then trim_start xs else x ∷ xs

unfoldable pub trim_end : Text → Text
trim_end [] = []
trim_end (x ∷ xs) =
    let rest = trim_end xs in if is_empty rest && is_whitespace x then [] else x ∷ rest

-- `str::trim`.
unfoldable pub trim : Text → Text
unfolding trim_start trim_end
trim s = trim_end (trim_start s)

-- A line's text before `\n`, less one `\r` at its end.
unfoldable pub strip_cr : Text → Text
strip_cr [] = []
strip_cr (x ∷ xs) = if x == b'\r' && is_empty xs then [] else x ∷ strip_cr xs

-- `cur` is what has been read of the line.
unfoldable pub lines_from : Text → Text → List Text
unfolding strip_cr
lines_from cur [] = if is_empty cur then [] else cur ∷ []
lines_from cur (x ∷ xs) = elim (x == b'\n') [
  | true ↦ strip_cr cur ∷ lines_from [] xs
  | false ↦ lines_from (cur ++ x ∷ []) xs
]

-- `str::lines`.
unfoldable pub lines : Text → List Text
unfolding lines_from
lines = lines_from []

abbrev pub flush : Text → List Text → List Text
flush [] ws = ws
flush (x ∷ xs) ws = (x ∷ xs) ∷ ws

unfoldable pub words_from : Text → Text → List Text
words_from cur [] = flush cur []
words_from cur (x ∷ xs) = elim (is_whitespace x) [
  | true ↦ flush cur (words_from [] xs)
  | false ↦ words_from (cur ++ x ∷ []) xs
]

-- `str::split_whitespace`.
unfoldable pub split_whitespace : Text → List Text
unfolding words_from
split_whitespace = words_from []

pub lines_from-append :
    (cur l rest : Text)
    → contains b'\n' l ≡ false
    → lines_from cur (l ++ b'\n' ∷ rest) ≡ strip_cr (cur ++ l) ∷ lines_from [] rest
unfolding lines_from contains
lines_from-append cur [] rest h = rw append-nil
lines_from-append cur (x ∷ l) rest h =
    ground (arith, lines_from-append (cur ++ x ∷ []) l rest, append_assoc cur (x ∷ []) l)

pub lines-append :
    (l rest : Text) → contains b'\n' l ≡ false → lines (l ++ b'\n' ∷ rest) ≡ strip_cr l ∷ lines rest
unfolding lines
lines-append l rest h = lines_from-append [] l rest h

pub strip_cr-absent : (l : Text) → contains b'\r' l ≡ false → strip_cr l ≡ l
unfolding strip_cr contains
strip_cr-absent [] h = refl
strip_cr-absent (x ∷ l) h = ground (arith, strip_cr-absent l)

-- A text without white space, that is not empty.
abbrev pub NoSpace : Text → Type 0
NoSpace = All (λ c. is_whitespace c ≡ false)

abbrev pub IsWord : Text → Type 0
IsWord w = NoSpace w × (w ≢ [])

words_from-append :
    (cur w rest : Text) (c : ℕ)
    → NoSpace w
    → is_whitespace c ≡ true
    → words_from cur (w ++ c ∷ rest) ≡ flush (cur ++ w) (words_from [] rest)
unfolding words_from
words_from-append cur [] rest c h s = rw (s, words_from, append-nil)
words_from-append cur (x ∷ w) rest c h s =
    rw (h.0, words_from) (words_from-append (cur ++ x ∷ []) w rest c h.1 s ∙ rw append_assoc)

words_from-word : (cur w : Text) → NoSpace w → words_from cur w ≡ flush (cur ++ w) []
unfolding words_from
words_from-word cur [] h = rw append-nil
words_from-word cur (x ∷ w) h =
    rw (h.0, words_from) (words_from-word (cur ++ x ∷ []) w h.1 ∙ rw append_assoc)

pub flush-ne-nil : (w : Text) (ws : List Text) → w ≢ [] → flush w ws ≡ w ∷ ws
flush-ne-nil [] ws h = absurd (h refl)
flush-ne-nil (x ∷ w) ws h = refl

pub split_whitespace-append :
    (w rest : Text) (c : ℕ)
    → IsWord w
    → is_whitespace c ≡ true
    → split_whitespace (w ++ c ∷ rest) ≡ w ∷ split_whitespace rest
unfolding split_whitespace
split_whitespace-append w rest c (h, n) s =
    words_from-append [] w rest c h s ∙ flush-ne-nil w (words_from [] rest) n

pub split_whitespace-word : (w : Text) → IsWord w → split_whitespace w ≡ w ∷ []
unfolding split_whitespace
split_whitespace-word w (h, n) = words_from-word [] w h ∙ flush-ne-nil w [] n

-- A word holds no white space character.
pub NoSpace-contains :
    (c : ℕ) (w : Text) → is_whitespace c ≡ true → NoSpace w → contains c w ≡ false
unfolding contains
NoSpace-contains c [] s h = refl
NoSpace-contains c (x ∷ w) s h = elim (Bool-cases (x == c)) [
  | inl e ↦ cc (h.0, s, (==_iff x c).0 e)
  | inr e ↦ rw e (NoSpace-contains c w s h.1)
]
