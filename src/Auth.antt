-- ===== src/Auth.antt =====
-- crates/sqsh-core/src/auth: the challenge that a client signs, the fingerprint that it binds, and
-- the file of authorized keys.
pub mod Challenge
pub mod AuthorizedKeys
