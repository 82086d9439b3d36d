-- ===== src/Signaling.antt =====
-- internal/signaling: the messages of the relay and the transfer codes.
pub mod Messages
pub mod Codes
pub mod Client
pub mod Wire
