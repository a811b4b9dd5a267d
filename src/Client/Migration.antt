-- ===== src/Client/Migration.antt =====
-- crates/sqsh/src/migration.rs: which addresses no migration starts from. The rest of the file watches
-- network interfaces.
use squish.Server.Access.{IpAddr, v6, is_loopback}
use squish.Prelude.{◌∷◌, Bool, false, not, ◌&&◌, ◌||◌, ◌==◌, bit_and}

-- fe80::/10.
unfoldable pub is_ipv6_link_local : IpAddr → Bool
is_ipv6_link_local (v6 (s ∷ segments)) = bit_and s 0xffc0 == 0xfe80
is_ipv6_link_local _ = false

unfoldable pub should_skip : IpAddr → Bool → Bool
unfolding is_ipv6_link_local
should_skip addr endpoint_is_ipv6 =
    is_loopback addr || is_ipv6_link_local addr && not endpoint_is_ipv6
