-- ===== src/Client/ForwardSpec/RoundTrip.antt =====
-- Writing a forward down and parsing it, for crates/sqsh/src/config.rs.
use squish.Client.ForwardSpec.{ForwardSpec, parse, parse_ports}
use squish.Text.{
  Text, text, contains, split, split-append, split-absent, to_string, u16_max,
  parse_unsigned-to_string, to_string-IsDigits, IsDigits-contains, is_digit,
}
use squish.Prelude.{ℕ, ◌≡◌, ◌≤◌, refl, [], ◌∷◌, ◌++◌, false, ok}

-- `bind_port:target_host:target_port`.
abbrev pub short_text : ForwardSpec → Text
short_text s = to_string s.bind_port ++ b':' ∷ (s.target_host ++ b':' ∷ to_string s.target_port)

abbrev pub long_text : ForwardSpec → Text
long_text s = s.bind_addr ++ b':' ∷ short_text s

pub record IsForward (s : ForwardSpec) : Type 0 where
  pub addr_clean : contains b':' s.bind_addr ≡ false
  pub host_clean : contains b':' s.target_host ≡ false
  pub bind_fits : s.bind_port ≤ u16_max
  pub target_fits : s.target_port ≤ u16_max

digits-clean : (n : ℕ) → contains b':' (to_string n) ≡ false
unfolding is_digit
digits-clean n = IsDigits-contains b':' (to_string n) refl (to_string-IsDigits n)

split-short_text :
    (s : ForwardSpec)
    → IsForward s
    → split b':' (short_text s)
      ≡ to_string s.bind_port ∷ s.target_host ∷ to_string s.target_port ∷ []
split-short_text s v = rw (
  split-append b':' (to_string s.bind_port) (s.target_host ++ b':' ∷ to_string s.target_port)
      (digits-clean s.bind_port),
  split-append b':' s.target_host (to_string s.target_port) v.host_clean,
  split-absent b':' (to_string s.target_port) (digits-clean s.target_port),
)

parse_ports-to_string :
    (a : Text) (s : ForwardSpec)
    → IsForward s
    → parse_ports a (to_string s.bind_port) s.target_host (to_string s.target_port)
      ≡ ok (record s { bind_addr = a })
parse_ports-to_string a s v = rw (
  parse_unsigned-to_string u16_max s.bind_port v.bind_fits,
  parse_unsigned-to_string u16_max s.target_port v.target_fits,
)

-- A forward written as `[bind_addr:]bind_port:target_host:target_port` parses to the same forward,
-- and without an address to the one at 127.0.0.1, for an address and a host without a colon and
-- 16-bit ports.
pub parse-long_text :
    (s : ForwardSpec)
    → IsForward s
    → (parse (long_text s) ≡ ok s)
      × (parse (short_text s) ≡ ok (record s { bind_addr = text "127.0.0.1" }))
unfolding parse
parse-long_text s v = (
  rw (split-append b':' s.bind_addr (short_text s) v.addr_clean, split-short_text s v)
      (parse_ports-to_string s.bind_addr s v),
  rw (split-short_text s v) (parse_ports-to_string (text "127.0.0.1") s v),
)
