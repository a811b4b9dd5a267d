-- ===== src/Client/Forward.antt =====
-- crates/sqsh/src/channel/forward.rs: the client's end of a forwarded connection, up to the pump,
-- which is the same code as the daemon's. `connect` stands for `TcpStream::connect`.
pub mod Agreement
use squish.Text.{Text, text, to_string}
use squish.Proto.Stream.{Talk, recv, send, try_send, ◌>>=◌, pure, bail, ◌>>◌}
use squish.Proto.Channel.{
  ChannelFailureReason, ChannelMessage, TcpipParams, open_confirmation, open_channel, open_failure,
  direct_tcpip, forwarded_tcpip_params, administratively_prohibited, direct_tcpip_params,
  forwarded_tcpip,
}
use squish.Client.ForwardSpec.{ForwardSpec}
use squish.Prelude.{
  ℕ, List, Option, Bool, none, ◌∷◌, ◌*◌, if◌then◌else◌, ◌==◌, true, some, ◌++◌, false, [],
}

-- `bail!` and `?`.
pub data ForwardFailure : Type 0 where
  forward_stream_failed not_an_open unexpected_reply no_handler target_unreachable : ForwardFailure
  refused : ChannelFailureReason → ForwardFailure

abbrev pub direct_params : ForwardSpec → Text × ℕ → TcpipParams
direct_params spec (ip, port) = record {
  host = spec.target_host;
  port = spec.target_port;
  originator_addr = ip;
  originator_port = port;
}

abbrev pub expect_open : ChannelMessage → Talk ChannelMessage ForwardFailure (Unit {0})
expect_open (open_confirmation size) = pure tt
expect_open (open_failure reason description) = bail (refused reason)
expect_open _ = bail unexpected_reply

-- The first specification for a port.
unfoldable pub find_spec : ℕ → List ForwardSpec → Option ForwardSpec
find_spec port [] = none
find_spec port (s ∷ specs) = if s.bind_port == port then some s else find_spec port specs

module _ (link : List ChannelMessage → Bool) where
  -- `handle_local_connection`.
  unfoldable pub handle_local_connection :
      ForwardSpec → Text × ℕ → Talk ChannelMessage ForwardFailure (Unit {0})
  handle_local_connection spec originator =
      send link forward_stream_failed
        (open_channel direct_tcpip (direct_tcpip_params (direct_params spec originator)))
      >> (recv forward_stream_failed >>= expect_open)

  module _ (connect : Text → Bool) where
    -- The target is connected to before the channel is confirmed.
    abbrev pub confirm_target : Text → Bool → Talk ChannelMessage ForwardFailure Text
    confirm_target target true =
        send link forward_stream_failed (open_confirmation (32 * 1024)) >> pure target
    confirm_target target false = bail target_unreachable

    abbrev pub with_spec : ℕ → Option ForwardSpec → Talk ChannelMessage ForwardFailure Text
    with_spec port none =
        try_send (
          open_failure administratively_prohibited
            (text "no handler for forwarded port " ++ to_string port))
        >> bail no_handler
    with_spec port (some spec) =
        let target = spec.target_host ++ (text ":" ++ to_string spec.target_port) in
        confirm_target target (connect target)

    abbrev pub open_forwarded :
        List ForwardSpec → ChannelMessage → Talk ChannelMessage ForwardFailure Text
    open_forwarded specs (open_channel forwarded_tcpip (forwarded_tcpip_params p)) =
        with_spec p.port (find_spec p.port specs)
    open_forwarded specs _ = bail not_an_open

    -- `handle_remote_forward_stream`; the result is the target.
    unfoldable pub handle_remote_forward_stream :
        List ForwardSpec → Talk ChannelMessage ForwardFailure Text
    unfolding find_spec
    handle_remote_forward_stream specs = recv forward_stream_failed >>= open_forwarded specs
