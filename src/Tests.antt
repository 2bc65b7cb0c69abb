-- ===== src/Tests.antt =====
-- The theorems at concrete inputs.
pub mod Codings
pub mod Streams
pub mod Cache
pub mod Transfers
pub mod Stores
pub mod Hub
pub mod Evictions
pub mod Sharing
pub mod Daemon
