-- ===== src/Quorum/RunPeer/Stream.antt =====
-- What the task of `run_peer` in icegres/src/quorum/proposer.rs sends on its connections, against a
-- protocol that knows of the task only what it did.
use Prim.Native.String.{String}
use icegres.Prelude.{
  ℕ, ◌≤◌, ◌<◌, ◌≡◌, ◌⊎◌, refl, Option, none, some, List, [], ◌∷◌, true, arith, length,
}
use icegres.Prelude.Bytes.{Bytes}
use icegres.Quorum.Message.{Message}
use icegres.Quorum.Proposer.{
  Shared, Batch, batch, up_to_date, behind, next_batch, store_ack, recompute_commit_at,
}
use icegres.Prelude.Results.{ok}
use icegres.Quorum.Election.{Network, answered}
use icegres.Quorum.RunPeer.{
  Phase, sleeping, shaken, inner, checked, positioned, waiting, appended, Task, Effect, quiet,
  opened, compared, sent, acked, Turn, own, others, KeepsPeer, nth_flush, on_shaken, on_appended,
  on_sleeping, on_batch, resume, step, run_peer,
}
use icegres.Quorum.RunPeer.Peers.{length-set_flush, length-set_failed, nth_flush-set_flush}
use icegres.Quorum.RunPeer.Stops.{AllKeep}

-- A connection: the term of its handshake, the position that the acceptor acked last, and whether the
-- terms have been compared for the next append, or that append is on its way.
pub data Link : Type 0 where
  closed : Link
  idle : (term pos : ℕ) → Link
  ready : (term pos : ℕ) → Link
  awaiting : (term pos : ℕ) → Link

abbrev pub after : Effect → Link → Link
after quiet l = l
after (opened term start) l = idle term start
after compared (idle term pos) = ready term pos
after (sent m) (ready term pos) = awaiting term pos
after (acked flush) (awaiting term pos) = idle term flush
after _ l = l

-- An append of the connection's term: what `next_batch` takes of the log, with the commit position
-- and the horizon of the state; from the position acked last, unless a new term has come since the
-- terms were compared.
pub record IsAppend (s : Shared) (term pos : ℕ) (m : Message) : Type 0 where
  pub from : ℕ
  pub begin : ℕ
  pub end : ℕ
  pub bytes : Bytes
  pub taken : next_batch s.log from ≡ batch begin end bytes
  pub message : m ≡ Message.append term begin end s.commit s.horizon bytes
  pub position : (term < s.election.term) ⊎ ((term ≡ s.election.term) × (from ≡ pos))

abbrev pub Permitted : Link → Shared → Effect → Type 0
Permitted l s quiet = Unit {0}
Permitted l s (opened term start) = term ≡ s.election.term
Permitted (idle term pos) s compared = term ≡ s.election.term
Permitted (ready term pos) s compared = term ≡ s.election.term
Permitted l s compared = ⊥
Permitted (ready term pos) s (sent m) = IsAppend s term pos m
Permitted l s (sent m) = ⊥
Permitted (awaiting term pos) s (acked flush) = term ≡ s.election.term
Permitted l s (acked flush) = ⊥

-- A trace that keeps to the protocol.
abbrev pub IsProtocol : Link → List (Shared × Effect) → Type 0
IsProtocol l [] = Unit {0}
IsProtocol l ((s, e) ∷ trace) = Permitted l s e × IsProtocol (after e l) trace

module _ (idx : ℕ) where
  -- While the term stays, the peer's position is the one that was acked last.
  abbrev IsCurrent : ℕ → ℕ → Shared → Type 0
  IsCurrent term pos s =
      (term < s.election.term) ⊎ ((term ≡ s.election.term) × (nth_flush idx s.peers ≡ pos))

  abbrev IsIdle : ℕ → Link → Shared → Type 0
  IsIdle term (idle t pos) s = (t ≡ term) × IsCurrent term pos s
  IsIdle term (ready t pos) s = (t ≡ term) × IsCurrent term pos s
  IsIdle term _ s = ⊥

  abbrev IsCompared : ℕ → Link → Shared → Type 0
  IsCompared term (ready t pos) s = (t ≡ term) × IsCurrent term pos s
  IsCompared term _ s = ⊥

  abbrev IsAwaiting : ℕ → Link → Shared → Type 0
  IsAwaiting term (awaiting t pos) s = (t ≡ term) × (term ≤ s.election.term)
  IsAwaiting term _ s = ⊥

  abbrev Holds : Option ℕ → Link → Shared → Type 0
  Holds none l s = Unit {0}
  Holds (some term) l s = IsIdle term l s

  abbrev IsLoaded : ℕ → ℕ → Link → Shared → Type 0
  IsLoaded term from (ready t pos) s =
      (t ≡ term) × IsCurrent term pos s × ((term < s.election.term) ⊎ (from ≡ pos))
  IsLoaded term from _ s = ⊥

  -- What the task keeps of its connection.
  abbrev InPhase : Phase → Option ℕ → Link → Shared → Type 0
  InPhase (sleeping ms) initial l s = initial ≡ none
  InPhase (shaken term r) initial l s = (initial ≡ none) × (term ≤ s.election.term)
  InPhase (inner term) initial l s = (initial ≡ none) × IsIdle term l s
  InPhase (checked term) initial l s = (initial ≡ none) × IsCompared term l s
  InPhase (waiting term) initial l s = (initial ≡ none) × IsIdle term l s
  InPhase (positioned term from) initial l s = (initial ≡ none) × IsLoaded term from l s
  InPhase (appended term r) initial l s = (initial ≡ none) × IsAwaiting term l s
  InPhase _ initial l s = Holds initial l s

  abbrev pub Linked : Link → Task → Shared → Type 0
  Linked l t s = (idx < length s.peers) × InPhase t.phase t.initial l s

  others-Linked :
      (l : Link) (t : Task) (s s' : Shared) → KeepsPeer idx s s' → Linked l t s → Linked l t s'
  others-Linked l t s s' keep (within, h) = (omega (arith, keep.0), ground arith)

  module _ (net : Network) (tail_id : String) where
    abbrev Kept : Link → Shared → Effect × Task × Shared × net.World → Type 0
    Kept l s (e, t', s', w') = Permitted l s e × Linked (after e l) t' s'

    on_batch-Kept :
        (term from : ℕ) (b : Batch) (l : Link) (t : Task) (s : Shared) (w : net.World)
        → next_batch s.log from ≡ b
        → t.phase ≡ positioned term from
        → Linked l t s
        → Kept l s (on_batch idx net tail_id term b t s w)
    unfolding on_batch
    on_batch-Kept term from up_to_date l t s w taken at h = ground arith
    on_batch-Kept term from behind l t s w taken at h =
        ground (arith, length-set_failed idx s.peers)
    on_batch-Kept term from (batch b e bytes) (ready held pos) t s w taken at h =
        let loaded : IsLoaded term from (ready held pos) s = ground (arith, h) in
        (
          record {
            from = from;
            begin = b;
            end = e;
            bytes = bytes;
            taken = taken;
            message = rw loaded.0 refl;
            position = ground (arith, loaded);
          },
          ground (arith, h),
        )
    on_batch-Kept term from (batch b e bytes) l t s w taken at h = absurd (ground (arith, h))

    resume-Kept :
        (p : Phase) (l : Link) (t : Task) (s : Shared) (w : net.World)
        → t.phase ≡ p
        → Linked l t s
        → Kept l s (resume idx net tail_id p t s w)
    unfolding resume on_shaken on_appended on_sleeping store_ack recompute_commit_at
    resume-Kept (positioned term from) l t s w at h =
        on_batch-Kept term from (next_batch s.log from) l t s w refl at h
    resume-Kept (shaken term (ok start)) l t s w at h =
        ground
          (arith, nth_flush-set_flush idx start s.peers h.0, length-set_flush idx start s.peers)
    resume-Kept (appended term (answered (Message.append_resp other true flush c))) l t s w at h =
        ground
          (arith, nth_flush-set_flush idx flush s.peers h.0, length-set_flush idx flush s.peers)
    resume-Kept _ l t s w at h = ground (arith, length-set_failed idx s.peers)

    -- The task keeps to the protocol. Whatever the acceptor answers, and whatever other tasks do to
    -- the shared state in between within `KeepsPeer`: it appends only on a connection whose
    -- handshake's position was taken over in the term of that handshake, one append at a time, in
    -- that term, and behind a comparison of its own that found the proposer in that term; it begins at
    -- the position that was acked last in it, unless the proposer's term is higher by then; an ack counts only in that term and
    -- for the append that is on its way; and after an append that was refused or failed nothing is
    -- sent before a new handshake.
    pub run_peer-IsProtocol :
        (turns : List Turn) (l : Link) (t : Task) (s : Shared) (w : net.World)
        → AllKeep idx net tail_id turns t s w
        → Linked l t s
        → IsProtocol l (run_peer idx net tail_id turns t s w).0
    unfolding run_peer AllKeep step
    run_peer-IsProtocol [] l t s w keep h = tt
    run_peer-IsProtocol (others s' ∷ turns) l t s w (keep, rest) h =
        run_peer-IsProtocol turns l t s' w rest (others-Linked l t s s' keep h)
    run_peer-IsProtocol (own ∷ turns) l t s w keep h =
        let (e, t', s', w') = step idx net tail_id t s w in
        let (permitted, linked) = resume-Kept t.phase l t s w refl h in
        (permitted, run_peer-IsProtocol turns (after e l) t' s' w' keep linked)
