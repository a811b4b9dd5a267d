-- ===== src/Server/Access/Exact.antt =====
-- What an entry of an access list allows.
use squish.Server.Access.{exact_host_port_match, direct_tcpip_allowed}
use squish.Text.{
  Text, rsplit_once-append, rsplit_once, contains, str_eq_refl, parse_unsigned, u16_max,
  rsplit_once-eq-some, str_eq, eq_of_str_eq,
}
use squish.Prelude.{
  ◌≡◌, ℕ, ◌++◌, List, true, ◌↔◌, Option-cases, ◌∷◌, Any, arith, Any-map, false, inl, Any-any, inr,
  any-Any, some, ◌&&◌, ◌==◌, and-eq-true, ◌∙◌, ap, ==_iff,
}

-- The entry is the host, a colon and a text that reads as the port.
abbrev pub Names : Text → ℕ → Text → Type 0
Names host port entry =
    (digits : Text) × (entry ≡ host ++ b':' ∷ digits)
    × (contains b':' digits ≡ false)
    × (parse_unsigned u16_max digits ≡ some port)

exact_host_port_match-Names :
    (entry host : Text) (port : ℕ)
    → exact_host_port_match entry host port ≡ true
    → Names host port entry
unfolding exact_host_port_match
exact_host_port_match-Names entry host port h = elim (Option-cases (rsplit_once b':' entry)) [
  | inl n ↦ ground arith
  | inr (x, e) ↦
      let (split, absent) = rsplit_once-eq-some b':' entry {a = x.0} {b = x.1} e in
      elim (Option-cases (parse_unsigned u16_max x.1)) [
        | inl n ↦ ground arith
        | inr (p, q) ↦
            let same : (str_eq x.0 host && p == port) ≡ true = ground arith in
            let (a, b) = and-eq-true (str_eq x.0 host) (p == port) same in
            (
              x.1,
              split ∙ ap (λ t. t ++ b':' ∷ x.1) (eq_of_str_eq x.0 host a),
              absent,
              q ∙ ap some ((==_iff p port).0 b),
            )
      ]
]

Names-exact_host_port_match :
    (entry host : Text) (port : ℕ)
    → Names host port entry
    → exact_host_port_match entry host port ≡ true
unfolding exact_host_port_match
Names-exact_host_port_match entry host port (digits, e, c, p) =
    rw e (ground (arith, rsplit_once-append b':' host digits c, str_eq_refl host))

-- An entry matches exactly the host and the port that it is written from.
pub exact_host_port_match_iff :
    (entry host : Text) (port : ℕ)
    → (exact_host_port_match entry host port ≡ true) ↔ Names host port entry
exact_host_port_match_iff entry host port =
    (exact_host_port_match-Names entry host port, Names-exact_host_port_match entry host port)

-- A direct connection is allowed exactly when an entry of the list names its host and port.
pub direct_tcpip_allowed_iff :
    (host : Text) (port : ℕ) (allowlist : List Text)
    → (direct_tcpip_allowed host port allowlist ≡ true) ↔ Any (Names host port) allowlist
unfolding direct_tcpip_allowed
direct_tcpip_allowed_iff host port allowlist = (
  λ h. Any-map (λ e. exact_host_port_match-Names e host port) (Any-any _ allowlist h),
  λ a. any-Any _ (Any-map (λ e. Names-exact_host_port_match e host port) a),
)
