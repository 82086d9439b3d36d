-- ===== src/Cmd.antt =====
-- cmd/p2pft: the commands send and receive.
pub mod Relayed
pub mod World
pub mod Receive
pub mod Send
pub mod Delivery
