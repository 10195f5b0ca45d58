-- ===== src/Quorum/RunPeer.antt =====
-- `run_peer` of icegres/src/quorum/proposer.rs with `park_until_term_change`: the task that streams the
-- log to one acceptor. A phase is a place in the body at which other tasks of the proposer may run
-- before it goes on: an await, or a read of the shared state that must not be torn apart from the
-- one before it. `step` runs the task from its phase to the next one.
pub mod Peers
pub mod Stops
pub mod Race
pub mod Stream
pub mod Guarantee
use Prim.Native.String.{String}
use icegres.Prelude.{
  ℕ, zero, suc, ◌*◌, ◌<◌, ◌≡◌, ◌⊎◌, Option, none, some, List, [], ◌∷◌, ◌++◌, Bool, true, false,
  length, ltb, ◌==◌, min, if◌then◌else◌,
}
use icegres.Prelude.Results.{Result, ok, err}
use icegres.Quorum.Message.{Message}
use icegres.Quorum.Proposer.{
  Peer, Shared, Batch, batch, up_to_date, behind, next_batch, store_ack, fenced,
}
use icegres.Quorum.Election.{Network, Reply, answered, reply}
use icegres.Quorum.Election.Connect.{
  HsError, hs_fenced, hs_behind, hs_wrong_cluster, hs_transient, handshake,
}
use icegres.Quorum.Election.Supervisor.{if_poisoned}

abbrev first_backoff_ms : ℕ
first_backoff_ms = 200

abbrev max_backoff_ms : ℕ
max_backoff_ms = 2000

pub data Phase : Type 0 where
  outer : Phase  -- the head of 'outer
  seen_term : ℕ → Phase  -- the term is read, the flag not yet
  parked_failed : (seen : ℕ) → Phase
  parked_fenced : (seen : ℕ) → Phase
  sleeping : (ms : ℕ) → Phase
  shaken : (term : ℕ) → Result HsError ℕ → Phase  -- the outcome of the handshake
  inner : (conn_term : ℕ) → Phase  -- the head of the streaming loop
  checked : (conn_term : ℕ) → Phase  -- the term is compared, the position not read yet
  positioned : (conn_term pos : ℕ) → Phase
  waiting : (conn_term : ℕ) → Phase  -- for `notify`
  appended : (conn_term : ℕ) → Reply → Phase
  returned : Phase

-- `initial` is the term of the connection that it holds.
pub record Task : Type 0 where
  pub phase : Phase
  pub initial : Option ℕ
  pub backoff : ℕ

-- What a step does on the connection; `compared` is the comparison of the terms before an append that
-- finds them equal.
pub data Effect : Type 0 where
  quiet : Effect
  compared : Effect
  opened : (term start : ℕ) → Effect
  sent : Message → Effect
  acked : (flush : ℕ) → Effect

abbrev pub nth_flush : ℕ → List Peer → ℕ
nth_flush idx [] = 0
nth_flush zero (p ∷ ps) = p.flush
nth_flush (suc idx) (p ∷ ps) = nth_flush idx ps

abbrev pub nth_failed : ℕ → List Peer → Bool
nth_failed idx [] = false
nth_failed zero (p ∷ ps) = p.failed
nth_failed (suc idx) (p ∷ ps) = nth_failed idx ps

-- `failed.store(true)`.
unfoldable pub set_failed : ℕ → List Peer → List Peer
set_failed idx [] = []
set_failed zero (p ∷ ps) = record p { failed = true } ∷ ps
set_failed (suc idx) (p ∷ ps) = p ∷ set_failed idx ps

abbrev pub at : Phase → Task → Task
at p t = record t { phase = p }

-- The task of a peer with the connection that the election left, if it left one.
abbrev pub new_task : Option ℕ → Task
new_task initial = record { phase = outer; initial = initial; backoff = first_backoff_ms }

abbrev pub on_outer : Task → Shared → Task
on_outer t s = if_poisoned s.poison (λ _. at returned t) (at (seen_term s.election.term) t)

abbrev pub take_connection : Option ℕ → Task → Task
take_connection (some conn_term) t = record t { phase = inner conn_term; initial = none }
take_connection none t = record t {
  phase = sleeping t.backoff;
  backoff = min (t.backoff * 2) max_backoff_ms;
}

-- `park_until_term_change`, one round of its loop: whether the wait is over. The watch wakes the task
-- for the next round at every send, which is where the term is set and where the tail is poisoned; a
-- round at any other time finds what the one before it found.
abbrev pub is_over : ℕ → Shared → Bool
is_over seen s = if_poisoned s.poison (λ _. true) (ltb seen s.term_tx)

-- A higher term asks for a re-election and parks the task until it is resolved.
abbrev pub fence : ℕ → Task → Shared → Task × Shared
fence term t s =
    if ltb s.election.term term
    then (
      at (parked_fenced s.election.term) t,
      record s { events = s.events ++ (fenced term ∷ []) },
    )
    else (at outer t, s)

abbrev pub quietly : Task × Shared → Effect × Task × Shared
quietly (t, s) = (quiet, t, s)

module _ (idx : ℕ) where
  abbrev pub expel : Task → Shared → Task × Shared
  expel t s = (at outer t, record s { peers = set_failed idx s.peers })

  unfoldable pub on_shaken : ℕ → Result HsError ℕ → Task → Shared → Effect × Task × Shared
  unfolding set_failed
  on_shaken term (ok start) t s =
      let (accepted, s') = store_ack idx term start s in
      if accepted
      then (opened term start, record t { phase = inner term; backoff = first_backoff_ms }, s')
      else (quiet, at outer t, s')
  on_shaken term (err (hs_fenced other)) t s = quietly (fence other t s)
  on_shaken term (err hs_behind) t s = quietly (expel t s)
  on_shaken term (err hs_wrong_cluster) t s = quietly (expel t s)
  on_shaken term (err hs_transient) t s = (quiet, at outer t, s)

  unfoldable pub on_appended : ℕ → Reply → Task → Shared → Effect × Task × Shared
  on_appended conn_term (answered (Message.append_resp _ true flush _)) t s =
      let (accepted, s') = store_ack idx conn_term flush s in
      if accepted then (acked flush, at (inner conn_term) t, s') else (quiet, at outer t, s')
  on_appended conn_term (answered (Message.append_resp term false _ _)) t s =
      quietly (fence term t s)
  on_appended conn_term _ t s = (quiet, at outer t, s)

  abbrev pub on_inner : ℕ → Task → Shared → Effect × Task
  on_inner conn_term t s =
      if_poisoned s.poison (λ _. (quiet, at returned t))
        (if s.election.term == conn_term
          then (compared, at (checked conn_term) t)
          else (quiet, at outer t))

  module _ (net : Network) (tail_id : String) where
    unfoldable pub on_sleeping : Task → Shared → net.World → Task × net.World
    unfolding handshake
    on_sleeping t s w =
        let (r, w') = handshake net tail_id s w idx in
        if_poisoned s.poison (λ _. (at returned t, w))
          (if nth_failed idx s.peers
            then (at outer t, w)
            else (at (shaken s.election.term r) t, w'))

    unfoldable pub on_batch :
        ℕ → Batch → Task → Shared → net.World → Effect × Task × Shared × net.World
    unfolding reply set_failed
    on_batch conn_term up_to_date t s w = (quiet, at (waiting conn_term) t, s, w)
    on_batch conn_term behind t s w = (let (t', s') = expel t s in (quiet, t', s', w))
    on_batch conn_term (batch b e bytes) t s w =
        let message = Message.append conn_term b e s.commit s.horizon bytes in
        let (answer, w') = net.exchange w idx message in
        (sent message, at (appended conn_term (reply answer)) t, s, w')

    unfoldable pub resume : Phase → Task → Shared → net.World → Effect × Task × Shared × net.World
    unfolding on_shaken on_appended on_sleeping on_batch
    resume outer t s w = (quiet, on_outer t s, s, w)
    resume (seen_term seen) t s w =
        let t' =
          if nth_failed idx s.peers
          then at (parked_failed seen) t
          else take_connection t.initial t in
        (quiet, t', s, w)
    resume (parked_failed seen) t s w = (quiet, if is_over seen s then at outer t else t, s, w)
    resume (parked_fenced seen) t s w = (quiet, if is_over seen s then at outer t else t, s, w)
    resume (sleeping ms) t s w = (let (t', w') = on_sleeping t s w in (quiet, t', s, w'))
    resume (shaken term r) t s w = (let (e, t', s') = on_shaken term r t s in (e, t', s', w))
    resume (inner conn_term) t s w = (let (e, t') = on_inner conn_term t s in (e, t', s, w))
    resume (checked conn_term) t s w =
        (quiet, at (positioned conn_term (nth_flush idx s.peers)) t, s, w)
    resume (positioned conn_term pos) t s w = on_batch conn_term (next_batch s.log pos) t s w
    resume (waiting conn_term) t s w =
        (quiet, record t { phase = outer; initial = some conn_term }, s, w)
    resume (appended conn_term r) t s w =
        (let (e, t', s') = on_appended conn_term r t s in (e, t', s', w))
    resume returned t s w = (quiet, t, s, w)

    unfoldable pub step : Task → Shared → net.World → Effect × Task × Shared × net.World
    unfolding resume
    step t s w = resume t.phase t s w

-- Who runs next: the task, or other tasks of the proposer, which leave the state that they name.
pub data Turn : Type 0 where
  own : Turn
  others : Shared → Turn

module _ (idx : ℕ) (net : Network) (tail_id : String) where
  -- The effects, each with the state that the step found, and what the turns lead to.
  unfoldable pub run_peer :
      List Turn → Task → Shared → net.World → List (Shared × Effect) × Task × Shared × net.World
  unfolding step
  run_peer [] t s w = ([], t, s, w)
  run_peer (others s' ∷ turns) t s w = run_peer turns t s' w
  run_peer (own ∷ turns) t s w =
      let (e, t', s', w') = step idx net tail_id t s w in
      let (trace, t'', s'', w'') = run_peer turns t' s' w' in ((s, e) ∷ trace, t'', s'', w'')

-- What other tasks leave to the task of peer `idx`: as many peers, the poison, a term that does not
-- go down; and only a new term moves the peer's position or clears its flag.
abbrev pub KeepsPeer : ℕ → Shared → Shared → Type 0
KeepsPeer idx s s' =
    (length s'.peers ≡ length s.peers)
    × ((s.poison ≡ none) ⊎ (s'.poison ≡ s.poison))
    × ((s.election.term < s'.election.term)
        ⊎ ((s'.election.term ≡ s.election.term)
            × (nth_flush idx s'.peers ≡ nth_flush idx s.peers)
            × ((nth_failed idx s.peers ≡ false) ⊎ (nth_failed idx s'.peers ≡ true))))
