-- ===== src/Quorum/Open/Started.antt =====
-- The wait with which `Quorum::open` of icegres/src/quorum/proposer.rs ends.
use Prim.Native.String.{String}
use icegres.Prelude.{ℕ, ◌-◌, ◌≤◌, ◌<◌, ◌^◌, ◌≡◌, none, List, Bool, false, arith}
use icegres.Prelude.Bytes.{Bytes}
use icegres.Prelude.Results.{ok}
use icegres.Segment.{Crc}
use icegres.Quorum.Message.{Message}
use icegres.Quorum.Proposer.{Shared}
use icegres.Quorum.Election.{Network}
use icegres.Quorum.Election.Supervisor.{
  Wake, Waited, committed, wait_commit, Justified, wait_commit-Justified,
}
use icegres.Quorum.Open.{Opened, everyone, max_greeted, on_waited, finish_open}
use icegres.Quorum.Open.Phases.{query_all, open_election}
use icegres.Quorum.Open.Seeded.{IsBytewise}
use icegres.Quorum.Open.Elected.{open_election-IsElected}

on_waited-ok :
    (start : ℕ) (o o' : Opened) (r : Waited × Shared)
    → Justified start r
    → on_waited o r ≡ ok o'
    → (start ≤ o'.shared.commit) × (o'.shared.poison ≡ none) × (o'.recovered ≡ o.recovered)
on_waited-ok start o o' (committed, s) h e = ground (arith, h)
on_waited-ok start o o' (_, s) h e = absurd (ground arith)

module _ (c : Crc) (is_utf8 : Bytes → Bool) where
  module _ (net : Network) (chunk : ℕ)
      (bytewise : (w : net.World) (i : ℕ) (m : Message) → IsBytewise (net.exchange w i m).0) where
    -- When `open` returns, all that it recovered is committed and the tail is not poisoned.
    pub finish_open-committed :
        (addrs : ℕ) (minted : String) (w : net.World) (o o' : Opened) (wakes : List Wake)
        → max_greeted (query_all net everyone w).0 < 2 ^ 64 - 1
        → o.shared.log.head < 2 ^ 64
        → (open_election net c is_utf8 chunk addrs minted w).0 ≡ ok o
        → finish_open wakes o ≡ ok o'
        → (o.shared.log.head ≤ o'.shared.commit)
          × (o'.shared.poison ≡ none)
          × (o'.recovered ≡ o.recovered)
    unfolding finish_open
    finish_open-committed addrs minted w o o' wakes room below h done =
        let elected =
          open_election-IsElected c is_utf8 net chunk bytewise addrs minted w o room below h in
        let start = o.shared.election.term_start_lsn in
        let (reached, clean, same) =
          on_waited-ok start o o' (wait_commit start false o.shared wakes)
            (wait_commit-Justified start false o.shared wakes) done in
        (omega (arith, reached, elected.starts, elected.ends.1), clean, same)
