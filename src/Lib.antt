-- ===== src/Lib.antt =====
-- icegres: the replicated log behind the `--tail-quorum` option, the local tail log, the leader
-- lease and the caches of the server, as executable definitions with proofs.
--
-- The program serves SQL over lakehouse tables and acknowledges a write once it is durable in a tail
-- log. The quorum tail replicates that log from one proposer, inside the server, to three acceptors,
-- each a small daemon; an append counts when two of them have flushed it. This library models that
-- subsystem from the bytes of a frame up to the election, and four parts of the server beside it:
--
--   * Segment: icegres/src/segment.rs, the framing `[len][crc][payload]` and the scan of a buffer of
--     frames. The CRC-32 is a library's and so the parameter `Crc`.
--   * Quorum.TermHistory, Quorum.Record, Quorum.Message: icegres/src/quorum/proto.rs, the term
--     histories with `find_highest_common_point`, the records with their strict decoder, and the
--     messages as values. The UTF-8 test is a parameter.
--   * Quorum.Stores: what an acceptor persists and the traits `ControlStore` and `WalStore` of
--     icegres/src/quorum/acceptor.rs, as records of operations, with their laws beside them.
--   * Quorum.Acceptor: `Acceptor::process` and its handlers, over any two stores. A handler is a
--     function from the node to a result and the node after it, in the order of the source's
--     statements; a failed write of the control file wedges the node, as in the source.
--   * Quorum.SegmentWal: the file-backed log `SegmentWal` of the same file, an instance of `WalStore`.
--     Each file operation succeeds or fails as a list of outcomes says. Quorum.SegmentWal.Boot is
--     `SegmentWal::open` with `scan_wal_segment`, over the files of the directory.
--   * Quorum.Proposer: icegres/src/quorum/proposer.rs, the state behind `Shared` and its rules:
--     the commit rule, the retained log, batches, coverage and the horizon.
--   * Quorum.Election: the same file's conversations: `handshake`, `reelect`, `run_supervisor`,
--     `wait_commit` and the download of `open`, over a network that is a parameter and may answer
--     anything. Each of these takes the state of the proposer and returns the state after it.
--   * Quorum.RunPeer: the same file's `run_peer`, the task of one peer, as a function from one place
--     where other tasks may run to the next; runs interleave such steps with whatever the other tasks
--     do to the shared state.
--   * Quorum.Open: the same file's `Quorum::open`, phase by phase, up to the tasks that it starts and
--     the wait that ends it.
--   * Tail: icegres/src/tail.rs, the tail log of a single server: one segment with the tasks that append
--     to it and share its fsync, as the events that may interleave; Tail.Watermark, the
--     truncation of covered frames; Tail.Replay, what a replay reads, truncates and deletes;
--     Tail.Names, the directory names of tables.
--   * Lease: icegres/src/lease.rs, `parse_lease_addrs`, the expiry tracker and `lease_loop` as a
--     function of the turns that it takes; what a turn finds (answers, times, the outcome of an
--     acquisition) is its argument.
--   * Freshness: icegres/src/freshness.rs, `TableFreshness`, each method one atomic step.
--   * PlanCache: icegres/src/plancache.rs, the caches of plans and of results, over Prelude.Maps.
--   * Examples: the theorems at concrete inputs.
--
-- The parts interact as in the program: the acceptor decodes with Record, which scans with Segment;
-- the proposer encodes with the same functions; both sides compute the start of streaming with
-- TermHistory.
--
-- Bounds and fuel. Positions are `u64` in the source; additions that may wrap are written with
-- `add_u64`, and the theorems that need it take positions to lie in the lower half of `u64`. The
-- scan has the length of the buffer as fuel and each round takes eight bytes or more. The download
-- has the length of its range as fuel and each round reads a byte or more. The retention loop has
-- the number of peers and one, and each round drops a live peer. An eviction loop has the number
-- of entries as fuel and each round removes one. The lengths and sequences of the local tail are taken to stay below 2^64.
--
-- Not modelled: the JSON headers of messages, sockets and timers, the control file's JSON,
-- the identity and the format marker of the local tail, the watermarks that its replay reads, the
-- holder records of the lease, the refresher of the tables, the query hook over the caches, and the rest of the server (SQL, tables, authentication, operations), which uses the
-- tail through `submit`, `wait_commit` and `note_covered`. Steps that a mutex or an atomic makes
-- indivisible in the source are single functions; `reelect` and `handshake` are single functions
-- too, though other tasks may run between their messages.
pub mod Prelude
pub mod Segment
pub mod Quorum
pub mod Lease
pub mod Tail
pub mod Freshness
pub mod PlanCache
pub mod Examples
