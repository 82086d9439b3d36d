-- ===== src/Relay.antt =====
-- internal/relay: the server that brings a sender and a receiver together.
pub mod Session
pub mod Server
