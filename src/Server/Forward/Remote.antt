-- ===== src/Server/Forward/Remote.antt =====
-- `handle_direct_tcpip` and `handle_remote_connection` of crates/sqshd/src/channel/forward.rs, up to
-- the pump.
use squish.Proto.Stream.{Talk, send, pure, bail, ◌>>◌, recv, ◌>>=◌}
use squish.Proto.Channel.{
  ChannelFailureReason, ChannelMessage, TcpipParams, open_confirmation, open_channel,
  forwarded_tcpip, open_failure, forwarded_tcpip_params,
}
use squish.Text.{Text, text, to_string}
use squish.Prelude.{ℕ, List, ◌++◌, Bool, Result, if◌then◌else◌, ok, err}

-- `bail!` and `?` of both.
pub data ForwardFailure : Type 0 where
  link_failed unexpected_reply target_unreachable : ForwardFailure
  rejected : ChannelFailureReason → ForwardFailure

-- `format!("{}:{}", ..)`.
abbrev pub target_of : Text → ℕ → Text
target_of host port = host ++ (text ":" ++ to_string port)

-- `handle_direct_tcpip`: where it connects to, if that succeeds.
abbrev pub handle_direct_tcpip : (Text → Bool) → TcpipParams → Result ForwardFailure Text
handle_direct_tcpip connect p =
    if connect (target_of p.host p.port)
    then ok (target_of p.host p.port)
    else err target_unreachable

abbrev pub expect_open : ChannelMessage → Talk ChannelMessage ForwardFailure (Unit {0})
expect_open (open_confirmation size) = pure tt
expect_open (open_failure reason description) = bail (rejected reason)
expect_open _ = bail unexpected_reply

-- `handle_remote_connection`, for one connection to the listener.
unfoldable pub handle_remote_connection :
    (List ChannelMessage → Bool)
    → Text
    → ℕ
    → Text × ℕ
    → Talk ChannelMessage ForwardFailure (Unit {0})
handle_remote_connection link bind_addr bind_port (ip, port) =
    send link link_failed (
      open_channel forwarded_tcpip (
        forwarded_tcpip_params (record {
          host = bind_addr;
          port = bind_port;
          originator_addr = ip;
          originator_port = port;
        })))
    >> (recv link_failed >>= expect_open)
