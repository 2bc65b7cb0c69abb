-- ===== src/Node.antt =====
-- internal/node/node.go: the two stream protocols, the choice of addresses and the announcements of a node.
pub mod MapHandler
pub mod BlockHandler
pub mod Addresses
pub mod Announce
