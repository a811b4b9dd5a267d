-- ===== src/Proto.antt =====
-- crates/sqsh-core/src/{error,proto/*,transport/framing,channel/state}.rs: the messages of the
-- protocol, their frames on a stream, and the life of a channel.
pub mod Message
pub mod Channel
pub mod State
pub mod Codec
pub mod Stream
