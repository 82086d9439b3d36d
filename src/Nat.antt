-- ===== src/Nat.antt =====
-- internal/nat: the local candidate addresses, and the race of dials to the candidates.
pub mod Punch
pub mod Discover
