-- ===== src/Lib.antt =====
-- A verification library for hf-ipfs, a peer-to-peer cache of Hugging Face repositories.
--
-- The program keeps the hub cache of the hf command line and shares its files over IPFS. A node
-- announces every revision that it holds under a dummy CID made from the commit hash. A puller asks
-- a provider for the content CID and the manifest of a commit (the map protocol), walks the DAG
-- below the CID, fetches its blocks (the block protocol), and rebuilds every file under a check of
-- its SHA-256; where no peer delivers, it downloads the revision from the Hub. What a node shares is
-- recorded in a mapping of commits to entries, in a bucket of one bbolt file.
--
-- The parts, by the files of the repository:
--   Protoio       internal/protoio/protoio.go: WriteFrame, ReadFrame, WriteJSON, ReadJSON
--   Dummy         internal/dummy/dummy.go: FromCommit, Commit, Is
--   Hfcache       internal/hfcache/cache.go and tree.go: RepoNames and Paths for the layout, Safety for
--                 SafeBlobName, SafeRelPath and isInsideBookkeeping, Sorting, Tree for trees/<commit>.json,
--                 Refs for CurrentCommit, Listing for ListRepos, Snapshot for ReadSnapshot and SnapshotComplete, Write for
--                 WriteSnapshot, WriteRef and writeAtomic
--   Store         internal/store/bolt.go: the datastore over a bucket, and its batches
--   Mapping       internal/mapping/mapping.go: Entries for the types, Database for DB
--   Wire          internal/wire/wire.go: the messages of the map protocol; Controls has the control messages
--   Node          internal/node/node.go: MapHandler for handleMap, BlockHandler for handleBlocks,
--                 Addresses for announceAddrs, dialOrder and loopbackOnly, Announce for ProvideCommit,
--                 ReprovideAll and FindProvidersForCommit
--   Pull          internal/pull: Sources for sources.go; of pull.go, Run for Run, Binding for mapExchange,
--                 Fetch for blockClient, ReadThrough for readThrough, Leaves for findNode and
--                 collectLeaves, Transfer for reconstructFile; HfFallback for hffallback.go
--   Hfapi         internal/hfapi/hfapi.go: the requests to the Hub
--   Evict         internal/evict/evict.go: Repo, Commit, referencedPaths, and Walk for walk
--   Ingest        internal/ingest/ingest.go: Dirs for dirOf and byDir, Build for buildTree, buildDir and
--                 addFileNocopy, Run for Run and RunRepo
--   Controls      internal/controls/controls.go: handle and Call
--   Watch         internal/watch/watch.go: the pending repositories, flush, tryIngest, pruneOrphans, Scan
--   Prelude       shared names and lemmas, byte strings, int64 and tables
--   Cids          go-cid and go-multihash as a parameter with laws, and a small instance of them
--   Tests         the theorems at concrete inputs
--
-- How the code is read. A string is the list of its bytes, `Text`; an int64 is a `ℤ` whose sums wrap
-- around (`add64`); a Go result is `Result`, with an error type of each part; a function that changes
-- shared state takes the state and returns it. A map is an association list. The handlers of a
-- stream work on the bytes that are still to come and the bytes written so far, and a writer breaks
-- where its room ends. An eviction, an ingest and a write of the cache take the state of what they
-- change, and `and_next` puts a step behind one that returned no error. The order in which Go goes
-- through a map is a parameter (`shuffle`).
--
-- How the parts meet. Ingest reads refs, snapshots and tree documents through Hfcache, records the
-- revision in the mapping and announces it through Node. Evict takes back what an ingest made, and asks
-- the entries of the mapping what must stay. Watch and Controls call both: for them the operations are an
-- interface (`Ops`). Commands that come as far as pull.Run end with the events of that pull, which are not
-- modelled; every other command has its answer in Controls.
--
-- Parameters. go-cid and go-multihash (`CidLib`), bbolt (`Bolt`), the filestore (`Filestore`), JSON
-- (`Codec`, `EntryJson`, `TreeJson`), SHA-256 and SHA-1, the DAG service, UnixFS (`Dag`, `Dags`), the HTTP
-- server, url.PathEscape, and whether each call of the system succeeds (`Env`, `Hub`, `Tools`, `Os`). Their laws are records next to them, and
-- say what their documentation does. Nothing is assumed of
-- blocks.NewBlockWithCid, which compares a hash only in the debug mode of its library. What a failed write
-- left in a temporary file is not modelled. Blocks and filestore references stand under the multihash of a
-- CID, as boxo keeps them.
--
-- Bounds and fuel. Frames are at most 8 MiB, batches of the block protocol 1024 CIDs, and transfers
-- fetch 64 leaves at a time. The loop of a transfer runs on the number of leaves as its fuel, and the
-- walk of a DAG on a bound of its depth; both have an error of their own for want of fuel. The walk of an
-- eviction has two more than the number of links in the blocks, since below its root it goes deeper only at
-- a link that it has not seen, and the directories of an ingest have one more than the length of the longest directory, since a
-- directory is longer than the one above it.
--
-- Not modelled: connecting, the DHT, relays and timers, since they are network I/O; logs, progress
-- events and deadlines; the time an entry was added, which nothing reads; ToLower and TrimSpace beyond
-- ASCII; the watches of fsnotify, the control socket, what a client
-- that goes away does to a running command, the rest of the two pulls, the configuration, the identity and
-- the command line.
pub mod Prelude
pub mod Protoio
pub mod Cids
pub mod Dummy
pub mod Hfcache
pub mod Store
pub mod Mapping
pub mod Wire
pub mod Node
pub mod Evict
pub mod Ingest
pub mod Controls
pub mod Watch
pub mod Pull
pub mod Hfapi
pub mod Tests
