-- ===== src/Examples.antt =====
-- The theorems applied at concrete inputs: a checksum, a control file kept in memory whose writes
-- succeed or fail as a list says, segment logs, and small logs of both sides of the protocol.
pub mod Setting
mod Acceptors
mod Proposers
mod Logs
mod Restarts
mod Servers
mod Tails
mod Peers
mod Openings
mod Replays
