-- ===== src/Proto/Message.antt =====
-- crates/sqsh-core/src/error.rs and proto/message.rs: errors, and the messages of the control stream.
use squish.Prelude.{ℕ, List}
use squish.Text.{Text}

abbrev pub Bytes : Type 0
Bytes = List ℕ

-- `std::io::Error`, by the kinds that the program tells apart.
pub data IoError : Type 0 where
  not_found unexpected_eof connection_refused : IoError
  other_io : ℕ → IoError

-- What the text of `SqshError::Codec` says.
pub data CodecError : Type 0 where
  serialize message_too_large deserialize : CodecError
  frame_too_large : ℕ → CodecError

-- `SqshError`; a message text is kept where the program passes one on.
pub data SqshError : Type 0 where
  auth_failed : Text → SqshError
  protocol : Text → SqshError
  channel : Text → SqshError
  codec : CodecError → SqshError
  io : IoError → SqshError

abbrev pub protocol_version : ℕ
protocol_version = 1

pub data AuthOutcome : Type 0 where
  success failure : AuthOutcome

pub data DisconnectReason : Type 0 where
  by_application protocol_error auth_failure timeout : DisconnectReason

pub data ControlMessage : Type 0 where
  client_hello : (version : ℕ) (username : Text) → ControlMessage
  auth_challenge : (nonce : Bytes) → ControlMessage
  auth_response : (pubkey signature : Bytes) → ControlMessage
  auth_result : AuthOutcome → ControlMessage
  disconnect : DisconnectReason → (description : Text) → ControlMessage
  keep_alive : (seq : ℕ) → ControlMessage
  keep_alive_ack : (seq : ℕ) → ControlMessage
  tcp_forward_request : (bind_addr : Text) (bind_port : ℕ) → ControlMessage
  tcp_forward_confirm : (bound_port : ℕ) → ControlMessage
  tcp_forward_failure : (description : Text) → ControlMessage
  tcp_forward_cancel : (bind_addr : Text) (bind_port : ℕ) → ControlMessage
