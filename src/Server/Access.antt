-- ===== src/Server/Access.antt =====
-- crates/sqshd/src/connection.rs: the access lists for forwarding. The parser of IP addresses
-- (`str::parse::<IpAddr>`) is a parameter.
pub mod Exact
use squish.Text.{str_eq, Text, to_ascii_lowercase, rsplit_once, text, parse_unsigned, u16_max}
use squish.Prelude.{ℕ, List, Bool, Option, any, ◌==◌, ◌||◌, ◌∷◌, [], none, false, some, ◌&&◌}

-- `IpAddr`: four bytes, or eight segments of 16 bits.
pub data IpAddr : Type 0 where
  v4 : (a b c d : ℕ) → IpAddr
  v6 : (segments : List ℕ) → IpAddr

-- `IpAddr::is_loopback`: 127.0.0.0/8, or ::1.
unfoldable pub is_loopback : IpAddr → Bool
unfolding str_eq
is_loopback (v4 a b c d) = a == 127
is_loopback (v6 segments) = str_eq segments (0 ∷ 0 ∷ 0 ∷ 0 ∷ 0 ∷ 0 ∷ 0 ∷ 1 ∷ [])

unfoldable pub exact_host_port_match : Text → Text → ℕ → Bool
exact_host_port_match entry host port = elim (rsplit_once b':' entry) [
  | none ↦ false
  | some (entry_host, entry_port) ↦ elim (parse_unsigned u16_max entry_port) [
    | none ↦ false
    | some parsed_port ↦ str_eq entry_host host && parsed_port == port
  ]
]

unfoldable pub direct_tcpip_allowed : Text → ℕ → List Text → Bool
unfolding exact_host_port_match
direct_tcpip_allowed host port allowlist =
    any (λ entry. exact_host_port_match entry host port) allowlist

-- `str::eq_ignore_ascii_case`.
unfoldable pub str_eq_ignore_case : Text → Text → Bool
unfolding to_ascii_lowercase str_eq
str_eq_ignore_case s t = str_eq (to_ascii_lowercase s) (to_ascii_lowercase t)

module _ (parse_ip : Text → Option IpAddr) where
  unfoldable pub is_loopback_bind_addr : Text → Bool
  unfolding is_loopback str_eq_ignore_case
  is_loopback_bind_addr bind_addr =
      str_eq_ignore_case bind_addr (text "localhost")
      || (elim (parse_ip bind_addr) [ none ↦ false | some ip ↦ is_loopback ip ])

  unfoldable pub remote_forward_allowed : Text → ℕ → List Text → Bool
  unfolding is_loopback_bind_addr exact_host_port_match
  remote_forward_allowed bind_addr bind_port allowlist =
      is_loopback_bind_addr bind_addr
      || any (λ entry. exact_host_port_match entry bind_addr bind_port) allowlist
