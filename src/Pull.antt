-- ===== src/Pull.antt =====
-- internal/pull: where a pull may fetch from, the checks on what a peer answers, the transfer of one
-- file, and the order of the sources.
pub mod Sources
pub mod Binding
pub mod Fetch
pub mod Leaves
pub mod Transfer
pub mod HfFallback
pub mod ReadThrough
pub mod Run
