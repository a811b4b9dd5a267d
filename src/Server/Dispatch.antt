-- ===== src/Server/Dispatch.antt =====
-- `dispatch_channel` of crates/sqshd/src/connection.rs: the first message of a channel's stream.
pub mod Guarded
use squish.Text.{text}
use squish.Server.Access.{direct_tcpip_allowed}
use squish.Proto.Stream.{Talk, recv, send, ◌>>=◌, ◌>>◌, bail, pure}
use squish.Proto.Channel.{
  TcpipParams, ChannelType, ChannelMessage, open_channel, open_confirmation, open_failure,
  direct_tcpip_params, unknown_channel_type, administratively_prohibited, session, direct_tcpip,
}
use squish.Server.Config.{ServerConfig}
use squish.Prelude.{ℕ, ◌*◌, List, Bool, true, false}

-- `bail!` and `?` of the dispatcher.
pub data Failure : Type 0 where
  stream_failed not_an_open : Failure
  unsupported : ChannelType → Failure

-- What takes the channel over.
pub data Handler : Type 0 where
  session_handler no_handler : Handler
  direct_tcpip_handler : TcpipParams → Handler

abbrev pub max_packet_size : ℕ
max_packet_size = 32 * 1024

module _ (config : ServerConfig) (link : List ChannelMessage → Bool) where
  abbrev pub confirm : Handler → Talk ChannelMessage Failure Handler
  confirm handler = send link stream_failed (open_confirmation max_packet_size) >> pure handler

  abbrev pub open_direct_tcpip : TcpipParams → Bool → Talk ChannelMessage Failure Handler
  open_direct_tcpip p true = confirm (direct_tcpip_handler p)
  open_direct_tcpip p false =
      send link stream_failed
        (open_failure administratively_prohibited (text "not in direct_tcpip_allowlist"))
      >> pure no_handler

  abbrev pub open_unsupported : ChannelType → Talk ChannelMessage Failure Handler
  open_unsupported t =
      send link stream_failed (open_failure unknown_channel_type (text "unsupported channel type"))
      >> bail (unsupported t)

  abbrev pub dispatch_message : ChannelMessage → Talk ChannelMessage Failure Handler
  dispatch_message (open_channel session params) = confirm session_handler
  dispatch_message (open_channel direct_tcpip (direct_tcpip_params p)) =
      open_direct_tcpip p (direct_tcpip_allowed p.host p.port config.direct_tcpip_allowlist)
  dispatch_message (open_channel t params) = open_unsupported t
  dispatch_message _ = bail not_an_open

  unfoldable pub dispatch_channel : Talk ChannelMessage Failure Handler
  dispatch_channel = recv stream_failed >>= dispatch_message
