-- ===== src/Tests.antt =====
-- The theorems at concrete inputs.
pub mod Stubs
mod Transfer
mod Retry
mod Closer
mod Relay
mod Server
mod Commands
mod Addresses
mod Bar
mod Delivery
mod Store
mod Certificate
mod Wire
