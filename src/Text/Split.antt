-- ===== src/Text/Split.antt =====
-- Cutting a text at a character: `split_once`, `rsplit_once`, `split`, and `join` of the pieces.
use squish.Prelude.{
  ℕ, ◌≡◌, refl, false, Option, none, some, List, [], ◌∷◌, ◌++◌, arith, ◌==◌, ==_refl, if◌then◌else◌,
  Bool-cases, Option-cases, inl, inr, is_empty, append-ne-nil,
}
use squish.Text.Chars.{Text, contains}

abbrev pub cons_first : ℕ → Option (Text × Text) → Option (Text × Text)
cons_first x none = none
cons_first x (some (a, b)) = some (x ∷ a, b)

-- `str::split_once(char)`: at the first occurrence.
unfoldable pub split_once : ℕ → Text → Option (Text × Text)
split_once c [] = none
split_once c (x ∷ xs) = if x == c then some ([], xs) else cons_first x (split_once c xs)

-- What `rsplit_once` finds in the rest decides first.
abbrev pub last_or : ℕ → ℕ → Text → Option (Text × Text) → Option (Text × Text)
last_or c x xs (some (a, b)) = some (x ∷ a, b)
last_or c x xs none = if x == c then some ([], xs) else none

-- `str::rsplit_once(char)`: at the last occurrence.
unfoldable pub rsplit_once : ℕ → Text → Option (Text × Text)
rsplit_once c [] = none
rsplit_once c (x ∷ xs) = last_or c x xs (rsplit_once c xs)

abbrev pub push_first : ℕ → List Text → List Text
push_first x [] = (x ∷ []) ∷ []
push_first x (w ∷ ws) = (x ∷ w) ∷ ws

-- `str::split(char)`: every piece, the empty ones too.
unfoldable pub split : ℕ → Text → List Text
split c [] = [] ∷ []
split c (x ∷ xs) = let rest = split c xs in if x == c then [] ∷ rest else push_first x rest

-- `[T]::join`.
unfoldable pub join : Text → List Text → Text
join sep [] = []
join sep (w ∷ []) = w
join sep (w ∷ v ∷ ws) = w ++ sep ++ join sep (v ∷ ws)

pub split_once-append :
    (c : ℕ) (a b : Text) → contains c a ≡ false → split_once c (a ++ c ∷ b) ≡ some (a, b)
unfolding split_once contains
split_once-append c [] b h = rw (==_refl c)
split_once-append c (x ∷ a) b h = ground (arith, split_once-append c a b)

pub split_once-absent : (c : ℕ) (s : Text) → contains c s ≡ false → split_once c s ≡ none
unfolding split_once contains
split_once-absent c [] h = refl
split_once-absent c (x ∷ s) h = ground (arith, split_once-absent c s)

pub split_once-eq-some :
    (c : ℕ) (s : Text) {a b : Text}
    → split_once c s ≡ some (a, b)
    → (s ≡ a ++ c ∷ b) × (contains c a ≡ false)
unfolding split_once contains
split_once-eq-some c [] h = cc
split_once-eq-some c (x ∷ s) {a} {b} h = elim (Bool-cases (x == c)) [
  | inl e ↦ ground arith
  | inr e ↦ elim (Option-cases (split_once c s)) [
    | inl n ↦ ground arith
    | inr (p, q) ↦ ground (arith, split_once-eq-some c s {a = p.0} {b = p.1})
  ]
]

pub rsplit_once-absent : (c : ℕ) (s : Text) → contains c s ≡ false → rsplit_once c s ≡ none
unfolding rsplit_once contains
rsplit_once-absent c [] h = refl
rsplit_once-absent c (x ∷ s) h = ground (arith, rsplit_once-absent c s)

pub rsplit_once-eq-none : (c : ℕ) (s : Text) → rsplit_once c s ≡ none → contains c s ≡ false
unfolding rsplit_once contains
rsplit_once-eq-none c [] h = refl
rsplit_once-eq-none c (x ∷ s) h = elim (Option-cases (rsplit_once c s)) [
  | inl n ↦ ground (arith, rsplit_once-eq-none c s n)
  | inr (p, q) ↦ ground arith
]

pub rsplit_once-append :
    (c : ℕ) (a b : Text) → contains c b ≡ false → rsplit_once c (a ++ c ∷ b) ≡ some (a, b)
unfolding rsplit_once
rsplit_once-append c [] b h = rw (rsplit_once-absent c b h, ==_refl c)
rsplit_once-append c (x ∷ a) b h = rw (rsplit_once-append c a b h)

pub rsplit_once-eq-some :
    (c : ℕ) (s : Text) {a b : Text}
    → rsplit_once c s ≡ some (a, b)
    → (s ≡ a ++ c ∷ b) × (contains c b ≡ false)
unfolding rsplit_once contains
rsplit_once-eq-some c [] h = cc
rsplit_once-eq-some c (x ∷ s) {a} {b} h = elim (Option-cases (rsplit_once c s)) [
  | inl n ↦ ground (arith, rsplit_once-eq-none c s n)
  | inr (p, q) ↦ ground (arith, rsplit_once-eq-some c s {a = p.0} {b = p.1})
]

pub split-absent : (c : ℕ) (s : Text) → contains c s ≡ false → split c s ≡ s ∷ []
unfolding split contains
split-absent c [] h = refl
split-absent c (x ∷ s) h = ground (arith, split-absent c s)

pub split-append :
    (c : ℕ) (a b : Text) → contains c a ≡ false → split c (a ++ c ∷ b) ≡ a ∷ split c b
unfolding split contains
split-append c [] b h = rw (==_refl c)
split-append c (x ∷ a) b h = ground (arith, split-append c a b)

-- `str::strip_suffix(char)`.
unfoldable pub strip_suffix : ℕ → Text → Option Text
strip_suffix c [] = none
strip_suffix c (x ∷ xs) =
    if is_empty xs
    then if x == c then some [] else none
    else elim (strip_suffix c xs) [ none ↦ none | some r ↦ some (x ∷ r) ]

pub strip_suffix-append : (c : ℕ) (s : Text) → strip_suffix c (s ++ c ∷ []) ≡ some s
unfolding strip_suffix
strip_suffix-append c [] = rw (==_refl c)
strip_suffix-append c (x ∷ s) = ground (arith, strip_suffix-append c s, append-ne-nil s c)

pub strip_suffix-eq-some :
    (c : ℕ) (s : Text) {r : Text} → strip_suffix c s ≡ some r → s ≡ r ++ c ∷ []
unfolding strip_suffix
strip_suffix-eq-some c [] h = cc
strip_suffix-eq-some c (x ∷ s) h = elim (Option-cases (strip_suffix c s)) [
  | inl n ↦ ground arith
  | inr (q, e) ↦ ground (arith, strip_suffix-eq-some c s {r = q})
]
