-- ===== src/Transfer.antt =====
-- internal/transfer: the protocol on the direct connection.
pub mod Framing
pub mod Hex
pub mod Protocol
pub mod Peer
pub mod Resume
pub mod Checksum
pub mod Sender
pub mod Receiver
pub mod EndToEnd
pub mod Retry
pub mod Ends
pub mod Closer
