-- ===== src/Lib.antt =====
-- A model of malcom, a tool that fetches, serves and imports Cosmos state-sync snapshots, and proofs
-- about it.
--
-- A fetch has two phases. The walk (internal/snapfetch/walk.go) goes down the heights and asks the
-- peers that offer a snapshot for its chunk 0, which it checks against the hashes in the offer's
-- metadata (helpers.go). The download (download.go) then schedules the chunks over the peers, checks
-- each against its hash and writes it to the snapshot directory, where a later run takes it over.
-- The dial manager (internal/connect/manager.go) and the peer watch (peerwatch.go) decide which peers
-- are dialled and dropped. Messages come and go through the state-sync reactor
-- (internal/statesync/reactor.go), whose events the mux (eventmux.go) hands to the walk, the download
-- and the watch, and which answers other peers' requests in serve mode. What it then
-- offers comes from the catalog of the snapshot server (internal/snapserve), which scans a directory for
-- verified snapshots. The ban list (internal/helpers/banlist) remembers addresses between runs.
-- The import (internal/snapshotimport) reads the chunks, decompressed, through a ring in memory
-- (chunkring.go), decodes the items of the snapshot from it (snapproto.go) and rebuilds each store's
-- tree from its nodes (importer.go), writing them to the database with the hashes that the commit info
-- holds (iavlenc.go, commitinfo.go). internal/snapshotdiff makes the difference of two snapshots and
-- applies it to the older one.
--
-- The files, with the code they are about:
--   Fetch/Metadata      parseChunkHashes and verifyChunkZero of internal/snapfetch/helpers.go
--   Fetch/Offers        offerSet of internal/snapfetch/offerset.go and snapKey of config.go
--   Fetch/Walk          walkBackward of internal/snapfetch/walk.go, its dispatch, its two kinds of
--                       event, and its helpers
--   Fetch/Download      peerStat and chunkScheduler of internal/snapfetch/download.go: Pick is pickPeer,
--                       Dispatch is dispatch, Handlers the on... methods with banAndDrop and
--                       addProvisional, Resume is init with resumeFromDisk, Run is run, FileName the
--                       names of the chunk files
--   Varint              the encoders of internal/snapshotimport/iavlenc.go, uvarintLen of
--                       snapproto.go, and Uvarint of Go's encoding/binary
--   Import/ChunkRing    chunkRing and chunkRingReader of internal/snapshotimport/chunkring.go
--   Import/SnapItem     snapReader and its decoder, internal/snapshotimport/snapproto.go
--   Import/Encoding     the keys, values and hashes of internal/snapshotimport/iavlenc.go
--   Import/Nonces       nextNonce of internal/snapshotimport/importer.go
--   Import/Store        storeImporter of importer.go, in its sequential form
--   Import/CommitInfo   internal/snapshotimport/commitinfo.go
--   Import/Run          runImport of importer.go and extensionWriter of extensions.go
--   Diff/Compute        computeStream and diffStore of internal/snapshotdiff/diff.go
--   Diff/Apply          the loop of Apply over the stores, peekSection, readStoreChanges,
--                       processBaseItem, emitStoreFromBase and emitTargetOnlyStore of
--                       internal/snapshotdiff/apply.go
--   Diff/Wire           the encoders of diff.go, and emit
--   Diff/Parse          the parsers of bodies in diff.go and apply.go
--   Diff/Stream         peekRecord of apply.go, and what the readers of a section make of a record
--   Diff/Extensions     readAllExtensions and diffExtensions of diff.go, readExtChanges and the
--                       extensions in Apply of apply.go
--   Diff/Header         WriteHeader, ReadHeader and their helpers of internal/snapshotdiff/format.go
--   Diff/ChunkWriter    chunkWriter of internal/snapshotdiff/apply.go
--   Peers/Manager       Manager of internal/connect/manager.go
--   Peers/Watch         peerWatch of internal/snapfetch/peerwatch.go
--   Peers/Banlist       Set of internal/helpers/banlist/banlist.go
--   StateSync/Wire      the messages, events and providers of internal/statesync/reactor.go
--   StateSync/Reactor   Reactor of reactor.go: Limits is its state with the limiters, Serve the two
--                       requests of Receive, Reactor the other methods
--   StateSync/Mux       eventMux of internal/snapfetch/eventmux.go
--   Serve/Store         Store, LoadStore, LoadStoreFromRoot and what they call of
--                       internal/snapserve/store.go, and ParseChunkHashes of
--                       internal/snapshotinspect/inspect.go
--   Serve/Catalog       NewCatalog, SetOnStore, Rescan and storeFingerprint of
--                       internal/snapserve/catalog.go
--   Serve/Answers       the store behind the reactor
--   Prelude             shared names, lists, Go's maps as association lists, outcomes of Go calls
--   Examples            runs at concrete inputs
-- A file with laws stands under the file whose definitions it is about.
--
-- How state and effects are modelled. The fields of a Go struct are those of a record, under their
-- names in snake case, and a method is a function from the record to the record. A Go map is an
-- association list whose order is the order in which `range` visits it. Calls on collaborators are
-- added to a list of effects. What the code asks of its surroundings, such as the clock, the p2p
-- switch, the disk, the address book and the answers to requests, is a record of functions (Env, Net)
-- that may answer differently at each step; SHA-256 is a parameter everywhere. Code that runs under a
-- mutex, or in one loop over a channel, is one step, and a run is a list of such steps with what each
-- meets. A runtime panic is a result of its own.
--
-- Numbers are natural numbers. Where the code converts a length from the wire to an int, and where it
-- shifts, counts in uint32 or adds in uint64, the wrap-around is written out; counters of events are
-- unbounded. Fuel: the loops over bytes and over buffers have one round for each byte left, since
-- each round takes one, and the search for a field one for each offset and one more, since the offset
-- is all its state; a number is printed with fuel for the ten digits of 32 bits or the
-- twenty of 64 bits; the loop of Apply has a turn for each store of the base and each record of the
-- diff, one of which each turn takes.
--
-- Not modelled: timers and goroutines beyond the order of steps, logs and hints, the JSON and the files
-- of the lists, the parallel import, the pebble database and its batches, the files of the diffs, the
-- watcher and the persisted state of the snapshot server, the configuration and the commands.
pub mod Prelude
pub mod Varint
pub mod Fetch
pub mod Diff
pub mod Import
pub mod Peers
pub mod StateSync
pub mod Serve
pub mod Examples
