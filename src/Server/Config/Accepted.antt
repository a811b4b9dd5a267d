-- ===== src/Server/Config/Accepted.antt =====
-- Which environment variables a client may set.
use squish.Text.{
  Text, starts_with, strip_suffix, strip_suffix-append, eq_of_str_eq, str_eq_iff,
  strip_suffix-eq-some,
}
use squish.Server.Config.{env_accepted, pattern_accepts, ServerConfig}
use squish.Prelude.{
  ◌≡◌, ◌++◌, true, ◌↔◌, ◌∷◌, Option-cases, inl, Any, [], and-eq-true, ==_refl, ◌==◌, inr, refl,
  Any-map, ◌⊎◌, none, Any-any, ==_iff, any-Any, arith,
}

-- What a pattern of `accept_env` says: a prefix before one trailing star, or a whole name.
abbrev pub Covers : Text → Text → Type 0
Covers name pat =
    ((prefix : Text) × (rest : Text) × (pat ≡ prefix ++ b'*' ∷ []) × (name ≡ prefix ++ rest))
    ⊎ ((strip_suffix b'*' pat ≡ none) × (pat ≡ name))

starts_with-eq-true : (p s : Text) → starts_with p s ≡ true → (rest : Text) × (s ≡ p ++ rest)
unfolding starts_with
starts_with-eq-true [] s h = (s, refl)
starts_with-eq-true (x ∷ p) [] h = cc
starts_with-eq-true (x ∷ p) (y ∷ s) h =
    let (a, b) = and-eq-true (x == y) (starts_with p s) h in
    let (rest, e) = starts_with-eq-true p s b in (rest, cc (e, (==_iff x y).0 a))

starts_with-append : (p s : Text) → starts_with p (p ++ s) ≡ true
unfolding starts_with
starts_with-append [] s = refl
starts_with-append (x ∷ p) s = rw (==_refl x) (starts_with-append p s)

pattern_accepts-Covers : (name pat : Text) → pattern_accepts name pat ≡ true → Covers name pat
unfolding pattern_accepts
pattern_accepts-Covers name pat h = elim (Option-cases (strip_suffix b'*' pat)) [
  | inl n ↦ inr (n, eq_of_str_eq pat name (rw (n, pattern_accepts) at h))
  | inr (prefix, e) ↦
      let (rest, q) = starts_with-eq-true prefix name (rw (e, pattern_accepts) at h) in
      inl (prefix, rest, strip_suffix-eq-some b'*' pat e, q)
]

Covers-pattern_accepts : (name pat : Text) → Covers name pat → pattern_accepts name pat ≡ true
unfolding pattern_accepts
Covers-pattern_accepts name pat (inl (prefix, rest, p, n)) =
    rw (p, pattern_accepts, strip_suffix-append b'*' prefix, n) (starts_with-append prefix rest)
Covers-pattern_accepts name pat (inr (e, same)) = ground (arith, (str_eq_iff pat name).1 same)

-- A variable is accepted exactly when a pattern of `accept_env` covers its name.
pub env_accepted_iff :
    (config : ServerConfig) (name : Text)
    → (env_accepted config name ≡ true) ↔ Any (Covers name) config.accept_env
unfolding env_accepted
env_accepted_iff config name = (
  λ h. Any-map (pattern_accepts-Covers name) (Any-any (pattern_accepts name) _ h),
  λ a. any-Any (pattern_accepts name) (Any-map (Covers-pattern_accepts name) a),
)
