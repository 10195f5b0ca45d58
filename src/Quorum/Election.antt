-- ===== src/Quorum/Election.antt =====
-- icegres/src/quorum/proposer.rs: what the proposer does over its connections. `handshake`,
-- `reelect`, `run_supervisor`, `wait_commit` and the download of `open`. The network is a parameter,
-- and with it the acceptors behind it. `reelect` and `handshake` are each one step on `Shared`.
pub mod Polled
pub mod Reelect
pub mod Supervisor
pub mod Connect
use Prim.Native.String.{String}
use icegres.Prelude.{
  ℕ, zero, suc, ◌+◌, ◌-◌, Option, none, some, List, [], ◌∷◌, ◌++◌, Bool, true, false, not, ◌&&◌,
  ◌||◌, length, map, ltb, leb, ◌==◌, min, max, if◌then◌else◌,
}
use icegres.Prelude.Bytes.{Bytes, add_u64}
use icegres.Prelude.Results.{Result, ok, err}
use icegres.Quorum.TermHistory.{TermLsn, TermHistory, HistoryError, up_to, compute_start}
use icegres.Quorum.Message.{Message, Refusal}
use icegres.Quorum.Proposer.{
  Candidate, Election, LogBuf, Peer, Poison, ReelectReason, Shared, quorum, pick_donor, superseded,
  reelections_failed, timed_out, fenced, stalled,
}

-- What comes back on a connection before the deadline.
pub data Wire : Type 0 where
  delivered : Message → Wire
  no_answer : Wire
  lost : Wire

-- Connections to the acceptors, each known by its index.
pub record Network : Type 1 where
  pub World : Type 0
  pub connect : World → ℕ → Bool × World
  pub exchange : World → ℕ → Message → Wire × World

-- `Conn::call_timeout`: an error message of the peer is an error here, and the text of a wrong
-- cluster is recognized.
pub data Reply : Type 0 where
  answered : Message → Reply
  other_cluster : Reply
  call_timed_out : Reply
  call_failed : Reply

unfoldable pub reply : Wire → Reply
reply (delivered (Message.error (Refusal.wrong_cluster _ _))) = other_cluster
reply (delivered (Message.error _)) = call_failed
reply (delivered m) = answered m
reply no_answer = call_timed_out
reply lost = call_failed

-- One granted vote.
pub record Vote : Type 0 where
  pub index : ℕ
  pub flush : ℕ
  pub last_log_term : ℕ
  pub history : TermHistory

abbrev pub candidate : Vote → Candidate
candidate v = record { index = v.index; last_log_term = v.last_log_term; flush = v.flush }

abbrev pub find_vote : ℕ → List Vote → Option Vote
find_vote i [] = none
find_vote i (v ∷ vs) = let rest = find_vote i vs in if v.index == i then some v else rest

abbrev pub same_history : TermHistory → TermHistory → Bool
same_history [] [] = true
same_history (a ∷ h) (b ∷ k) =
    let rest = same_history h k in a.term == b.term && a.lsn == b.lsn && rest
same_history _ _ = false

pub data ReelectError : Type 0 where
  superseded_by : ℕ → ReelectError
  failed : ReelectError

abbrev pub greeted_term : Reply → Option ℕ
greeted_term (answered (Message.greeting_resp _ term _)) = some term
greeted_term _ = none

abbrev pub clear_peer : Peer → Peer
clear_peer p = record { flush = 0; failed = false }

abbrev pub donor_of : Option ℕ → List Vote → Option Vote
donor_of none vs = none
donor_of (some i) vs = find_vote i vs

-- `reelect` from the votes on: the outcome, and the state after it.
unfoldable pub adopt_term : ℕ → ℕ → List Vote → Shared → Result ReelectError ℕ × Shared
adopt_term max_term term votes s =
    if ltb (length votes) quorum
    then (err failed, s)
    else elim (donor_of (pick_donor (map candidate votes)) votes) [
      | none ↦ (err failed, s)
      | some donor ↦
          if not (same_history donor.history (up_to s.election.history donor.flush))
          then (err (superseded_by (max donor.last_log_term max_term)), s)
          else if ltb donor.flush s.log.base || ltb s.log.head donor.flush
          then (err failed, s)
          else (
            ok term,
            record s {
              peers = map clear_peer s.peers;
              term_tx = term;
              election = record {
                term = term;
                term_start_lsn = donor.flush;
                history = s.election.history ++ (record { term = term; lsn = donor.flush } ∷ []);
              };
            },
          )
    ]

abbrev pub finish_reelect : ℕ → ℕ → Result ℕ (List Vote) → Shared → Result ReelectError ℕ × Shared
finish_reelect max_term term (err t) s = (err (superseded_by t), s)
finish_reelect max_term term (ok votes) s = adopt_term max_term term votes s

module _ (net : Network) (tail_id : String) where
  -- Connect and greet: the term that the acceptor reports.
  unfoldable pub greet : net.World → ℕ → Option ℕ × net.World
  unfolding reply
  greet w i =
      let (up, w1) = net.connect w i in
      let (r, w2) = net.exchange w1 i (Message.greeting (some tail_id)) in
      if up then (greeted_term (reply r), w2) else (none, w1)

  -- The acceptors that answered, and the highest term seen.
  unfoldable pub greet_all : net.World → ℕ → List ℕ → List ℕ × ℕ × net.World
  unfolding greet
  greet_all w max_term [] = ([], max_term, w)
  greet_all w max_term (i ∷ is) =
      let (seen, w1) = greet w i in
      elim seen [
        | none ↦ greet_all w1 max_term is
        | some term ↦
            let (conns, top, w2) = greet_all w1 (max max_term term) is in (i ∷ conns, top, w2)
      ]

  abbrev pub push_vote : Vote → Result ℕ (List Vote) → Result ℕ (List Vote)
  push_vote v (err t) = err t
  push_vote v (ok votes) = ok (v ∷ votes)

  -- The answer of acceptor `i`, with the network behind it and the rest of the loop.
  abbrev pub on_vote :
      ℕ
      → ℕ
      → Reply
      → net.World
      → Result ℕ (List Vote) × net.World
      → Result ℕ (List Vote) × net.World
  on_vote term i (answered (Message.vote_response resp_term granted flush llt history _ _)) w rest =
      if ltb term resp_term || not granted then (err resp_term, w) else (
        push_vote (record { index = i; flush = flush; last_log_term = llt; history = history })
            rest.0,
        rest.1,
      )
  on_vote term i _ w rest = rest

  -- The granted votes, or the term of the acceptor that outbid the campaign.
  unfoldable pub vote_all : ℕ → net.World → List ℕ → Result ℕ (List Vote) × net.World
  unfolding reply
  vote_all term w [] = (ok [], w)
  vote_all term w (i ∷ is) =
      let (r, w1) = net.exchange w i (Message.vote_request term) in
      on_vote term i (reply r) w1 (vote_all term w1 is)

  unfoldable pub reelect : Shared → net.World → Result ReelectError ℕ × Shared × net.World
  unfolding greet_all vote_all adopt_term
  reelect s w =
      let (conns, max_term, w1) = greet_all w s.election.term (0 ∷ 1 ∷ 2 ∷ []) in
      let term = add_u64 max_term 1 in
      let (votes, w2) = vote_all term w1 conns in
      if ltb (length conns) quorum
      then (err failed, s, w1)
      else (let (r, s') = finish_reelect max_term term votes s in (r, s', w2))
