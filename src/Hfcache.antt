-- ===== src/Hfcache.antt =====
-- internal/hfcache: the layout of the hub cache of the hf command line. The names of its directories,
-- the tests on names that come from elsewhere, the tree document and the order of lists.
pub mod RepoNames
pub mod Paths
pub mod Refs
pub mod Listing
pub mod Snapshot
pub mod Write
pub mod Sorting
pub mod Tree
pub mod Safety
