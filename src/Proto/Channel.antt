-- ===== src/Proto/Channel.antt =====
-- crates/sqsh-core/src/proto/channel.rs: the messages of a channel's stream.
use squish.Prelude.{ℕ, Bool}
use squish.Text.{Text}
use squish.Proto.Message.{Bytes}

pub data ChannelType : Type 0 where
  session direct_tcpip forwarded_tcpip : ChannelType

pub record TcpipParams : Type 0 where
  pub host : Text
  pub port : ℕ
  pub originator_addr : Text
  pub originator_port : ℕ

pub data ChannelParams : Type 0 where
  session_params : ChannelParams
  direct_tcpip_params : TcpipParams → ChannelParams
  forwarded_tcpip_params : TcpipParams → ChannelParams

pub record PtyReqParams : Type 0 where
  pub term : Text
  pub width_cols : ℕ
  pub height_rows : ℕ
  pub width_px : ℕ
  pub height_px : ℕ

pub record WindowChangeParams : Type 0 where
  pub width_cols : ℕ
  pub height_rows : ℕ
  pub width_px : ℕ
  pub height_px : ℕ

pub data RequestType : Type 0 where
  pty_req : PtyReqParams → RequestType
  shell : RequestType
  exec : (command : Text) → RequestType
  window_change : WindowChangeParams → RequestType
  signal : (name : Text) → RequestType
  env : (name value : Text) → RequestType
  subsystem : (name : Text) → RequestType

pub data ChannelFailureReason : Type 0 where
  administratively_prohibited unknown_channel_type resource_shortage : ChannelFailureReason

-- `Open` and `Data` are `open_channel` and `channel_data`.
pub data ChannelMessage : Type 0 where
  open_channel : ChannelType → ChannelParams → ChannelMessage
  open_confirmation : (max_packet_size : ℕ) → ChannelMessage
  open_failure : ChannelFailureReason → (description : Text) → ChannelMessage
  close eof : ChannelMessage
  channel_data : Bytes → ChannelMessage
  extended_data : (data_type : ℕ) → Bytes → ChannelMessage
  request : RequestType → (want_reply : Bool) → ChannelMessage
  request_success request_failure : ChannelMessage
  exit_status : (status : ℕ) → ChannelMessage
  exit_signal : (signal : Text) (core_dumped : Bool) (message : Text) → ChannelMessage
