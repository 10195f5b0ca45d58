-- ===== src/Quorum.antt =====
-- icegres/src/quorum: the replicated log of the quorum tail, its consensus types, the acceptor and
-- the proposer.
pub mod TermHistory
pub mod Record
pub mod Message
pub mod Stores
pub mod Acceptor
pub mod SegmentWal
pub mod Proposer
pub mod Election
pub mod RunPeer
pub mod Open
