-- ===== src/Tests.antt =====
-- Concrete instances of the parameters, and the theorems at concrete inputs.
mod Instances
mod Proto
mod Auth
mod Server
mod Client
mod Handshake
mod Channels
mod Release
