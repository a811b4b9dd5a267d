-- ===== src/Client/HostPatterns/Matching.antt =====
-- What a wildcard pattern and a list of `Host` patterns match (crates/sqsh/src/config.rs).
use squish.Client.HostPatterns.{
  match_bytes, match_star, match_byte, wildcard_match, match_patterns, host_patterns_match,
}
use squish.Text.{Text, text, as_bytes, eq_ignore_case, strip_prefix}
use squish.Prelude.{
  ℕ, List, [], ◌∷◌, ◌++◌, Bool, true, false, ◌==◌, ==_iff, ◌≡◌, ◌≢◌, ◌↔◌, refl, Any, here, there,
  none, some, Bool-cases, Option-cases, inl, inr, or-eq-true, arith, or-true, ◌⊎◌, and-eq-true,
  ◌||◌, some-injective, sym, ◌∙◌,
}

-- `*` stands for any bytes, `?` for one, any other byte for itself in either case.
pub data Matches : List ℕ → List ℕ → Type 0 where
  done : Matches [] []
  any_bytes :
      {c : ℕ} {rest vs : List ℕ} (star : c ≡ b'*') (us : List ℕ) (tail : Matches rest vs)
      → Matches (c ∷ rest) (us ++ vs)
  any_byte :
      {c : ℕ} {rest vs : List ℕ} (mark : c ≡ b'?') (v : ℕ) (tail : Matches rest vs)
      → Matches (c ∷ rest) (v ∷ vs)
  same_byte :
      {c v : ℕ} {rest vs : List ℕ} (plain : (c ≢ b'*') × (c ≢ b'?'))
      (same : eq_ignore_case c v ≡ true) (tail : Matches rest vs)
      → Matches (c ∷ rest) (v ∷ vs)

match_star-eq-true :
    (next : List ℕ → Bool) (value : List ℕ)
    → match_star next value ≡ true
    → (us : List ℕ) × (vs : List ℕ) × (value ≡ us ++ vs) × (next vs ≡ true)
match_star-eq-true next [] h = ([], [], refl, h)
match_star-eq-true next (v ∷ vs) h = elim (or-eq-true (next (v ∷ vs)) (match_star next vs) h) [
  | inl e ↦ ([], v ∷ vs, refl, e)
  | inr e ↦ let (us, ws, split, k) = match_star-eq-true next vs e in (v ∷ us, ws, rw split, k)
]

match_star-append :
    (next : List ℕ → Bool) (us vs : List ℕ) → next vs ≡ true → match_star next (us ++ vs) ≡ true
match_star-append next [] [] h = h
match_star-append next [] (v ∷ vs) h = rw h
match_star-append next (u ∷ us) vs h =
    rw (match_star-append next us vs h) (or-true (next (u ∷ us ++ vs)))

match_byte-eq-true :
    (test : ℕ → Bool) (next : List ℕ → Bool) (value : List ℕ)
    → match_byte test next value ≡ true
    → (v : ℕ) × (vs : List ℕ) × (value ≡ v ∷ vs) × (test v ≡ true) × (next vs ≡ true)
match_byte-eq-true test next [] h = cc
match_byte-eq-true test next (v ∷ vs) h =
    let (a, b) = and-eq-true (test v) (next vs) h in (v, vs, refl, a, b)

ne_of_test : (c d : ℕ) → (c == d) ≡ false → c ≢ d
ne_of_test c d h = ground arith

test_of_ne : (c d : ℕ) → c ≢ d → (c == d) ≡ false
test_of_ne c d h = ground arith

match_bytes-Matches :
    (pattern value : List ℕ) → match_bytes pattern value ≡ true → Matches pattern value
unfolding match_bytes
match_bytes-Matches [] [] h = done
match_bytes-Matches [] (v ∷ vs) h = cc
match_bytes-Matches (c ∷ rest) value h = elim (Bool-cases (c == b'*')) [
  | inl star ↦
      let (us, vs, split, k) = match_star-eq-true (match_bytes rest) value (rw star at h) in
      rw split (any_bytes ((==_iff c b'*').0 star) us (match_bytes-Matches rest vs k))
  | inr no_star ↦ elim (Bool-cases (c == b'?')) [
    | inl mark ↦
        let (v, vs, split, same, k) =
          match_byte-eq-true (λ v. true) (match_bytes rest) value (rw (no_star, mark) at h) in
        rw split (any_byte ((==_iff c b'?').0 mark) v (match_bytes-Matches rest vs k))
    | inr plain ↦
        let (v, vs, split, same, k) =
          match_byte-eq-true (eq_ignore_case c) (match_bytes rest) value
            (rw (no_star, plain) at h) in
        rw split (
          same_byte (ne_of_test c b'*' no_star, ne_of_test c b'?' plain) same
            (match_bytes-Matches rest vs k))
  ]
]

Matches-match_bytes :
    {pattern value : List ℕ} → Matches pattern value → match_bytes pattern value ≡ true
unfolding match_bytes
Matches-match_bytes done = refl
Matches-match_bytes (any_bytes {c} {rest} {vs} star us tail) =
    rw ((==_iff c b'*').1 star)
      (match_star-append (match_bytes rest) us vs (Matches-match_bytes tail))
Matches-match_bytes (any_byte {c} {rest} {vs} mark v tail) = rw mark (Matches-match_bytes tail)
Matches-match_bytes (same_byte {c} {v} {rest} {vs} (no_star, no_mark) same tail) =
    rw (test_of_ne c b'*' no_star, test_of_ne c b'?' no_mark, same) (Matches-match_bytes tail)

-- `wildcard_match` is exactly the match of a pattern: `*` stands for any bytes, `?` for one byte,
-- every other byte for itself in either letter case.
pub wildcard_match_iff :
    (pattern value : Text)
    → (wildcard_match pattern value ≡ true) ↔ Matches (as_bytes pattern) (as_bytes value)
unfolding wildcard_match
wildcard_match_iff pattern value =
    (match_bytes-Matches (as_bytes pattern) (as_bytes value), λ m. Matches-match_bytes m)

-- A pattern that selects the host.
abbrev pub Selects : Text → Text → Type 0
Selects host p = (strip_prefix (text "!") p ≡ none) × Matches (as_bytes p) (as_bytes host)

-- A negated pattern that matches the host.
abbrev pub Excludes : Text → Text → Type 0
Excludes host p =
    (q : Text) × (strip_prefix (text "!") p ≡ some q) × Matches (as_bytes q) (as_bytes host)

-- Inversions of `Any`.
no_Any : {P : Text → Type 0} → ¬ Any P []
no_Any a = elim a [ ]

Any-cons : {P : Text → Type 0} {x : Text} {xs : List Text} → Any P (x ∷ xs) → P x ⊎ Any P xs
Any-cons (here h) = inl h
Any-cons (there a) = inr a

positive_iff :
    (matched : Bool) (p : Text) (ps : List Text) (host : Text)
    → strip_prefix (text "!") p ≡ none
    → (((wildcard_match p host || matched) ≡ true) ⊎ Any (Selects host) ps)
        × ¬ Any (Excludes host) ps
      ↔ (((matched ≡ true) ⊎ Any (Selects host) (p ∷ ps)) × ¬ Any (Excludes host) (p ∷ ps))
positive_iff matched p ps host positive = (
  λ (a, n). (
    elim a [
      | inl t ↦ elim (or-eq-true (wildcard_match p host) matched t) [
        | inl m ↦ inr (here (positive, (wildcard_match_iff p host).0 m))
        | inr t' ↦ inl t'
      ]
      | inr a' ↦ inr (there a')
    ],
    λ x. elim (Any-cons x) [ inl (q, s, m) ↦ cc (positive, s) | inr y ↦ n y ],
  ),
  λ (a, n). (
    elim a [
      | inl t ↦ inl (rw t (or-true (wildcard_match p host)))
      | inr a' ↦ elim (Any-cons a') [
        | inl (s, m) ↦ inl (rw ((wildcard_match_iff p host).1 m))
        | inr a'' ↦ inr a''
      ]
    ],
    λ x. n (there x),
  ),
)

skipped_iff :
    (matched : Bool) (p q : Text) (ps : List Text) (host : Text)
    → strip_prefix (text "!") p ≡ some q
    → wildcard_match q host ≡ false
    → (((matched ≡ true) ⊎ Any (Selects host) ps) × ¬ Any (Excludes host) ps)
      ↔ (((matched ≡ true) ⊎ Any (Selects host) (p ∷ ps)) × ¬ Any (Excludes host) (p ∷ ps))
skipped_iff matched p q ps host negated m = (
  λ (a, n). (
    elim a [ inl t ↦ inl t | inr a' ↦ inr (there a') ],
    λ x. elim (Any-cons x) [
      | inl (q', s, m') ↦
          let same : q ≡ q' = some-injective (sym negated ∙ s) in
          cc (m, (wildcard_match_iff q' host).1 m', same)
      | inr y ↦ n y
    ],
  ),
  λ (a, n). (
    elim a [
      | inl t ↦ inl t
      | inr a' ↦ elim (Any-cons a') [ inl (s, m') ↦ cc (negated, s) | inr a'' ↦ inr a'' ]
    ],
    λ x. n (there x),
  ),
)

match_patterns_iff :
    (matched : Bool) (ps : List Text) (host : Text)
    → (match_patterns matched ps host ≡ true)
      ↔ (((matched ≡ true) ⊎ Any (Selects host) ps) × ¬ Any (Excludes host) ps)
unfolding match_patterns strip_prefix
match_patterns_iff matched [] host =
    (λ h. (inl h, λ x. no_Any x), λ (a, n). elim a [ inl h ↦ h | inr x ↦ absurd (no_Any x) ])
match_patterns_iff matched (p ∷ ps) host = elim (Option-cases (strip_prefix (text "!") p)) [
  | inl positive ↦
      let (to, from) = match_patterns_iff (wildcard_match p host || matched) ps host in
      let (there', back) = positive_iff matched p ps host positive in
      (λ h. there' (to (rw positive at h)), λ x. rw positive (from (back x)))
  | inr (q, negated) ↦ elim (Bool-cases (wildcard_match q host)) [
    | inl m ↦ (
      λ h. cc (rw (negated, m) at h),
      λ (a, n). absurd (n (here (q, negated, (wildcard_match_iff q host).0 m))),
    )
    | inr m ↦
        let (to, from) = match_patterns_iff matched ps host in
        let (there', back) = skipped_iff matched p q ps host negated m in
        (λ h. there' (to (rw (negated, m) at h)), λ x. rw (negated, m) (from (back x)))
  ]
]

-- The patterns of a `Host` line apply to a host exactly if one of them matches it and none that
-- begins with `!` does.
pub host_patterns_match_iff :
    (ps : List Text) (host : Text)
    → (host_patterns_match ps host ≡ true) ↔ (Any (Selects host) ps × ¬ Any (Excludes host) ps)
unfolding host_patterns_match
host_patterns_match_iff ps host =
    let (to, from) = match_patterns_iff false ps host in
    (λ h. let (a, n) = to h in (elim a [ inl t ↦ cc t | inr x ↦ x ], n), λ (a, n). from (inr a, n))
