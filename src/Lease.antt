-- ===== src/Lease.antt =====
-- icegres/src/lease.rs: the leader lease of the daemon, decided by watching a log of its own on three
-- acceptors. Instants and durations are in nanoseconds.
pub mod Expiry
pub mod Lapse
pub mod Takeover
pub mod Addresses
use icegres.Prelude.{
  ℕ, zero, suc, ◌+◌, ◌-◌, ◌*◌, ◌/◌, Option, none, some, List, [], ◌∷◌, Bool, true, false, not, ◌&&◌,
  ◌||◌, map, length, leb, ◌==◌, if◌then◌else◌, max, min,
}
use icegres.Prelude.Bytes.{Bytes}
use icegres.Quorum.Message.{Message, greeting_resp}
use icegres.Quorum.Proposer.{quorum}
use icegres.Quorum.Election.{Reply, answered}

abbrev pub ms : ℕ → ℕ
ms n = n * 1000000

pub record LeaseConfig : Type 0 where
  pub addrs : List Bytes
  pub ttl : ℕ
  pub holder_id : Bytes

-- The fields of the proposer's configuration that the lease sets.
pub record QuorumConfig : Type 0 where
  pub addrs : List Bytes
  pub append_timeout : ℕ
  pub connect_timeout : ℕ
  pub call_timeout : ℕ

abbrev pub renew_interval : LeaseConfig → ℕ
renew_interval cfg = max (cfg.ttl / 3) (ms 100)

-- `clamp` to 250 milliseconds and 2 seconds.
abbrev pub probe_timeout : LeaseConfig → ℕ
probe_timeout cfg = min (max (cfg.ttl / 6) (ms 250)) (ms 2000)

abbrev pub quorum_config : LeaseConfig → QuorumConfig
quorum_config cfg = record {
  addrs = cfg.addrs;
  append_timeout = max cfg.ttl (ms 1000);
  connect_timeout = probe_timeout cfg;
  call_timeout = max (probe_timeout cfg) (ms 1000);
}

pub record Observed : Type 0 where
  pub term : ℕ
  pub flush : ℕ
  pub since : ℕ
  pub reachable : Bool

pub record ExpiryTracker : Type 0 where
  pub ttl : ℕ
  pub seen : List (Option Observed)

abbrev pub unseen : ℕ → List (Option Observed)
unseen zero = []
unseen (suc n) = none ∷ unseen n

abbrev pub new : ℕ → ℕ → ExpiryTracker
new n ttl = record { ttl = ttl; seen = unseen n }

-- `self.seen[idx]`, changed in place. The callers stay within the vector.
abbrev pub update_at {ℓ} : {A : Type ℓ} → ℕ → (A → A) → List A → List A
update_at i f [] = []
update_at zero f (x ∷ xs) = f x ∷ xs
update_at (suc i) f (x ∷ xs) = x ∷ update_at i f xs

abbrev pub observe_slot : ℕ → ℕ → ℕ → Option Observed → Option Observed
observe_slot term flush now none =
    some (record { term = term; flush = flush; since = now; reachable = true })
observe_slot term flush now (some o) =
    if (o.term == term) && (o.flush == flush)
    then some (record o { reachable = true })
    else some (record { term = term; flush = flush; since = now; reachable = true })

abbrev pub observe : ExpiryTracker → ℕ → ℕ → ℕ → ℕ → ExpiryTracker
observe t idx term flush now = record t {
  seen = update_at idx (observe_slot term flush now) t.seen;
}

abbrev pub unreachable_slot : Option Observed → Option Observed
unreachable_slot none = none
unreachable_slot (some o) = some (record o { reachable = false })

abbrev pub observe_unreachable : ExpiryTracker → ℕ → ExpiryTracker
observe_unreachable t idx = record t { seen = update_at idx unreachable_slot t.seen }

-- `.iter().flatten().filter(p).count()`.
abbrev pub count_seen : (Observed → Bool) → List (Option Observed) → ℕ
count_seen p [] = 0
count_seen p (none ∷ os) = count_seen p os
count_seen p (some o ∷ os) = let rest = count_seen p os in if p o then suc rest else rest

abbrev pub is_frozen : ℕ → ℕ → Observed → Bool
is_frozen ttl now o = o.reachable && leb ttl (now - o.since)

abbrev pub is_virgin : Observed → Bool
is_virgin o = o.reachable && (o.term == 0) && (o.flush == 0)

unfoldable pub expired : ExpiryTracker → ℕ → Bool
expired t now = leb quorum (count_seen (is_frozen t.ttl now) t.seen)

unfoldable pub virgin : ExpiryTracker → Bool
virgin t = leb quorum (count_seen is_virgin t.seen)

abbrev pub reset : ExpiryTracker → ExpiryTracker
reset t = record t { seen = map (λ _. none) t.seen }

-- The position that an acceptor answers a greeting with.
abbrev pub probed : Reply → Option (ℕ × ℕ)
probed (answered (greeting_resp tail_id term flush_lsn)) = some (term, flush_lsn)
probed _ = none

-- The loop over the results of a round of probes, from the acceptor `idx` on.
unfoldable pub feed : ExpiryTracker → ℕ → List (Option (ℕ × ℕ)) → ℕ → ExpiryTracker
feed t idx [] now = t
feed t idx (none ∷ rs) now = feed (observe_unreachable t idx) (suc idx) rs now
feed t idx (some (term, flush) ∷ rs) now = feed (observe t idx term flush now) (suc idx) rs now

-- A round that ended at `now`; the answers are those of the network.
abbrev pub poll_acceptors : ExpiryTracker → List (Option (ℕ × ℕ)) → ℕ → ExpiryTracker
poll_acceptors t results now = feed t 0 results now

pub data Phase : Type 0 where
  standby : Phase
  acquiring : Phase
  leading : Phase
  stopped : Phase

-- What `lease_loop` keeps, and the value that `leader_tx` holds.
pub record Loop : Type 0 where
  pub phase : Phase
  pub leader : Bool
  pub tracker : ExpiryTracker

-- What one turn of the loop finds: the shutdown flag, the answers of the round and when it ended,
-- when the tracker is asked, and whether the acquisition or the renewal succeeds.
pub record Turn : Type 0 where
  pub shutdown : Bool
  pub results : List (Option (ℕ × ℕ))
  pub polled_at : ℕ
  pub asked_at : ℕ
  pub succeeds : Bool

abbrev pub standby_turn : Loop → Turn → Loop
standby_turn l t =
    let tracker = poll_acceptors l.tracker t.results t.polled_at in
    if t.shutdown
    then record l { phase = stopped }
    else if virgin tracker || expired tracker t.asked_at
    then record l { phase = acquiring; tracker = tracker }
    else record l { tracker = tracker }

abbrev pub acquire_turn : Loop → Turn → Loop
acquire_turn l t =
    if t.shutdown
    then record l { phase = stopped }
    else if t.succeeds
    then record l { phase = leading; leader = true }
    else record l { phase = standby; tracker = reset l.tracker }

abbrev pub leader_turn : Loop → Turn → Loop
leader_turn l t =
    if t.shutdown
    then record l { phase = stopped; leader = false }
    else if t.succeeds
    then l
    else record { phase = standby; leader = false; tracker = reset l.tracker }

unfoldable pub lease_turn : Loop → Turn → Loop
unfolding virgin expired feed
lease_turn l t = elim l.phase [
  | standby ↦ standby_turn l t
  | acquiring ↦ acquire_turn l t
  | leading ↦ leader_turn l t
  | stopped ↦ l
]

abbrev pub start_loop : LeaseConfig → Loop
start_loop cfg = record {
  phase = standby;
  leader = false;
  tracker = new (length cfg.addrs) cfg.ttl;
}

-- The loop after so many turns, the last first.
unfoldable pub lease_loop : LeaseConfig → List Turn → Loop
unfolding lease_turn
lease_loop cfg [] = start_loop cfg
lease_loop cfg (t ∷ ts) = lease_turn (lease_loop cfg ts) t
