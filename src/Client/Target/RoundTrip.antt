-- ===== src/Client/Target/RoundTrip.antt =====
-- Writing a target down and parsing it, for crates/sqsh/src/target.rs.
use squish.Client.Target.{Target, parse, parse_port, split_host, split_user, plain, bracketed}
use squish.Text.{
  Text, text, contains, strip_prefix, contains-append, split_once, rsplit_once, split_once-append,
  split_once-absent, rsplit_once-append, rsplit_once-absent, to_string, u16_max,
  parse_unsigned-to_string, to_string-IsDigits, IsDigits-contains, is_digit,
}
use squish.Prelude.{
  ℕ, ◌≡◌, ◌≢◌, ◌≤◌, refl, Option, none, some, [], ◌∷◌, ◌++◌, false, if◌then◌else◌, is_empty, ok,
  arith, Bool-cases, inl, inr, append_assoc, ◌==◌, append-nil,
}

-- `user@`, when there is a user.
abbrev pub user_part : Option Text → Text
user_part none = []
user_part (some u) = u ++ b'@' ∷ []

-- `:port`, when there is a port.
abbrev pub port_part : Option ℕ → Text
port_part none = []
port_part (some n) = b':' ∷ to_string n

-- A host with a colon is an IPv6 literal, in brackets.
abbrev pub host_part : Text → Text
host_part h = if contains b':' h then b'[' ∷ h ++ b']' ∷ [] else h

unfoldable pub to_text : Target → Text
to_text t = user_part t.user ++ (host_part t.host ++ port_part t.port)

-- What a target can hold.
pub data IsUser : Option Text → Type 0 where
  no_user : IsUser none
  named_user : {u : Text} (nonempty : u ≢ []) (clean : contains b'@' u ≡ false) → IsUser (some u)

pub data IsPort : Option ℕ → Type 0 where
  no_port : IsPort none
  u16_port : {n : ℕ} (fits : n ≤ u16_max) → IsPort (some n)

pub record IsHost (h : Text) : Type 0 where
  pub nonempty : h ≢ []
  pub no_at : contains b'@' h ≡ false
  pub no_open : contains b'[' h ≡ false
  pub no_close : contains b']' h ≡ false

pub record IsTarget (t : Target) : Type 0 where
  pub user_ok : IsUser t.user
  pub host_ok : IsHost t.host
  pub port_ok : IsPort t.port

to_string-clean : (c n : ℕ) → is_digit c ≡ false → contains c (to_string n) ≡ false
to_string-clean c n h = IsDigits-contains c (to_string n) h (to_string-IsDigits n)

port_part-clean :
    (c : ℕ) (p : Option ℕ)
    → is_digit c ≡ false
    → (b':' == c) ≡ false
    → contains c (port_part p) ≡ false
unfolding contains
port_part-clean c none h k = refl
port_part-clean c (some n) h k = rw (k, to_string-clean c n h)

parse_port-to_string : {n : ℕ} → n ≤ u16_max → parse_port (to_string n) ≡ ok (some n)
parse_port-to_string {n} h = rw (parse_unsigned-to_string u16_max n h)

bracketed-port :
    (h : Text) {p : Option ℕ}
    → contains b']' h ≡ false
    → IsPort p
    → bracketed (h ++ b']' ∷ port_part p) ≡ ok (h, p)
unfolding strip_prefix
bracketed-port h clean no_port = rw (split_once-append b']' h [] clean)
bracketed-port h clean (u16_port {n} fits) =
    rw (split_once-append b']' h (b':' ∷ to_string n) clean, parse_port-to_string fits)

plain-port :
    (h : Text) {p : Option ℕ}
    → h ≢ []
    → contains b':' h ≡ false
    → IsPort p
    → plain (h ++ port_part p) (rsplit_once b':' (h ++ port_part p)) ≡ ok (h, p)
unfolding is_digit
plain-port h nonempty clean no_port = rw (append-nil, rsplit_once-absent b':' h clean)
plain-port [] nonempty clean (u16_port {n} fits) = absurd (nonempty refl)
plain-port (c ∷ h) nonempty clean (u16_port {n} fits) = rw (
  rsplit_once-append b':' (c ∷ h) (to_string n) (to_string-clean b':' n refl),
  parse_port-to_string fits,
)

-- A text that does not begin with the bracket.
strip_open-absent :
    (h rest : Text) → h ≢ [] → contains b'[' h ≡ false → strip_prefix (text "[") (h ++ rest) ≡ none
unfolding strip_prefix contains
strip_open-absent [] rest n k = absurd (n refl)
strip_open-absent (c ∷ h) rest n k = ground arith

split_host-parts :
    (h : Text) {p : Option ℕ}
    → IsHost h
    → IsPort p
    → split_host (host_part h ++ port_part p) (strip_prefix (text "[") (host_part h ++ port_part p))
      ≡ ok (h, p)
unfolding strip_prefix
split_host-parts h {p} v w = elim (Bool-cases (contains b':' h)) [
  | inl literal ↦ rw (literal, append_assoc) (bracketed-port h v.no_close w)
  | inr name ↦
      rw (name, strip_open-absent h (port_part p) v.nonempty v.no_open)
        (plain-port h v.nonempty name w)
]

host_part-clean : (h : Text) → contains b'@' h ≡ false → contains b'@' (host_part h) ≡ false
unfolding contains
host_part-clean h k = elim (Bool-cases (contains b':' h)) [
  | inl literal ↦ rw (literal, contains-append b'@' h (b']' ∷ []), k) refl
  | inr name ↦ rw (name, k) refl
]

place-clean :
    {t : Target} → IsTarget t → contains b'@' (host_part t.host ++ port_part t.port) ≡ false
unfolding is_digit
place-clean {t} v =
    rw
      (
        contains-append b'@' (host_part t.host) (port_part t.port),
        host_part-clean t.host v.host_ok.no_at,
        port_part-clean b'@' t.port refl refl,
      )
      refl

is_empty-nonempty : (s rest : Text) → s ≢ [] → is_empty (s ++ rest) ≡ false
is_empty-nonempty [] rest h = absurd (h refl)
is_empty-nonempty (c ∷ s) rest h = refl

host_part-nonempty : (h : Text) → h ≢ [] → host_part h ≢ []
host_part-nonempty h k e = elim (Bool-cases (contains b':' h)) [
  | inl literal ↦ cc (rw literal at e)
  | inr name ↦ k (rw name at e)
]

split_user-parts :
    (rest : Text) {u : Option Text}
    → rest ≢ []
    → IsUser u
    → contains b'@' rest ≡ false
    → (split_user (user_part u ++ rest) (split_once b'@' (user_part u ++ rest)) ≡ ok (u, rest))
      × (is_empty (user_part u ++ rest) ≡ false)
split_user-parts rest n no_user clean =
    (rw (split_once-absent b'@' rest clean), rw (append-nil) at (is_empty-nonempty rest [] n))
split_user-parts rest n (named_user {u} nonempty no_at) clean = (
  rw (
    append_assoc,
    split_once-append b'@' u rest no_at,
    (rw (append-nil) at (is_empty-nonempty u [] nonempty)),
  ),
  rw (append_assoc) (is_empty-nonempty u (b'@' ∷ rest) nonempty),
)

parse-parts :
    (input rest h : Text) (user : Option Text) (p : Option ℕ)
    → (split_user input (split_once b'@' input) ≡ ok (user, rest)) × (is_empty input ≡ false)
    → split_host rest (strip_prefix (text "[") rest) ≡ ok (h, p)
    → is_empty h ≡ false
    → parse input ≡ ok (record { user = user; host = h; port = p })
unfolding parse
parse-parts input rest h user p (e, n) k m = rw (n, e, k, m)

-- A target written as `[user@]host[:port]`, an IPv6 literal in brackets, parses to the same target,
-- for every user without `@`, host without `@` and brackets, and 16-bit port.
pub parse-to_text : (t : Target) → IsTarget t → parse (to_text t) ≡ ok t
unfolding to_text
parse-to_text t v =
    let rest = host_part t.host ++ port_part t.port in
    let nonempty = host_part-nonempty t.host v.host_ok.nonempty in
    parse-parts (to_text t) rest t.host t.user t.port
      (split_user-parts rest
        (λ e. cc (rw e at (is_empty-nonempty (host_part t.host) (port_part t.port) nonempty)))
        v.user_ok (place-clean v))
      (split_host-parts t.host v.host_ok v.port_ok)
      (rw (append-nil) at (is_empty-nonempty t.host [] v.host_ok.nonempty))
