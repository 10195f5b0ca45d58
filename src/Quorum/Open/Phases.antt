-- ===== src/Quorum/Open/Phases.antt =====
-- The phases of `Quorum::open` in icegres/src/quorum/proposer.rs that talk to the acceptors, and the
-- opening as a whole up to the start of the tasks.
use Prim.Native.String.{String}
use icegres.Prelude.{ℕ, Option, none, some, List, [], ◌∷◌, Bool, not, map, ltb, if◌then◌else◌}
use icegres.Prelude.Bytes.{Bytes, add_u64}
use icegres.Prelude.Results.{ok}
use icegres.Prelude.Exec.{Exec, pure, raise, lift, ◌>>=◌, ◌>>◌}
use icegres.Segment.{Crc}
use icegres.Quorum.TermHistory.{compute_start}
use icegres.Quorum.Record.{Record, decode_records, map_err}
use icegres.Quorum.Message.{Message}
use icegres.Quorum.Proposer.{Shared, pick_donor, recompute_commit_at}
use icegres.Quorum.Election.{
  Network, Reply, answered, call_timed_out, reply, Vote, candidate, donor_of, find_vote,
}
use icegres.Quorum.Election.Connect.{download_suffix}
use icegres.Quorum.RunPeer.{set_failed}
use icegres.Quorum.Open.{
  Greet, OpenError, OpenVote, Opened, agree, ballots, check_addrs, check_horizon, check_length,
  check_live, check_won, everyone, identity_refused, if_start, known_ids, max_greeted, max_horizon,
  not_decoded, not_downloaded, on_elected, seed, some_donor, superseded_by, unexpected_answer,
  vote_refused,
}

module _ (net : Network) where
  abbrev pub Open : Type 0 → Type 0
  Open A = Exec OpenError net.World A

  -- `call_timeout`.
  abbrev pub call : ℕ → Message → Open Reply
  call i m w = let (answer, w') = net.exchange w i m in (ok (reply answer), w')

  abbrev pub greet_of : ℕ → Reply → List Greet → List Greet
  greet_of i (answered (Message.greeting_resp id term _)) greets =
      record { index = i; tail_id = id; term = term } ∷ greets
  greet_of i _ greets = greets

  -- Phase 1: who answers a greeting that asks for nothing.
  unfoldable pub query_all : List ℕ → net.World → List Greet × net.World
  unfolding reply
  query_all [] w = ([], w)
  query_all (i ∷ is) w =
      let (up, w1) = net.connect w i in
      let (answer, w2) = net.exchange w1 i (Message.greeting none) in
      let r : Reply = reply answer in
      let (greets, w3) = query_all is (if up then w2 else w1) in
      (if up then greet_of i r greets else greets, w3)

  -- The answer of acceptor `i` to the identity, and the rest of the phase.
  abbrev pub on_adopted : ℕ → Reply → Open (List ℕ) → Open (List ℕ)
  on_adopted i (answered (Message.greeting_resp _ _ _)) rest = do live ← rest; pure (i ∷ live)
  on_adopted i (answered _) rest = raise (unexpected_answer i)
  on_adopted i call_timed_out rest = rest
  on_adopted i _ rest = raise (identity_refused i)

  -- Phase 2: a silent acceptor is left out, a refusal ends the opening.
  unfoldable pub adopt_all : String → List Greet → Open (List ℕ)
  unfolding reply
  adopt_all id [] = pure []
  adopt_all id (g ∷ greets) = do
    r ← call g.index (Message.greeting (some id))
    on_adopted g.index r (adopt_all id greets)

  -- The answer of acceptor `i`, and the rest of the campaign.
  abbrev pub on_ballot : ℕ → ℕ → Reply → Open (List OpenVote) → Open (List OpenVote)
  on_ballot term i (answered (Message.vote_response resp_term granted flush llt history horizon _))
        rest =
      if ltb term resp_term
      then raise (superseded_by resp_term)
      else if not granted
      then raise (vote_refused i)
      else (do
        votes ← rest
        pure (
            record {
              vote = record { index = i; flush = flush; last_log_term = llt; history = history };
              horizon = horizon;
            }
            ∷ votes))
  on_ballot term i (answered _) rest = raise (unexpected_answer i)
  on_ballot term i _ rest = rest

  -- Phase 3: a vote that is refused ends the opening, one that does not come is left out.
  unfoldable pub campaign : ℕ → List ℕ → Open (List OpenVote)
  unfolding reply
  campaign term [] = pure []
  campaign term (i ∷ live) = do
    r ← call i (Message.vote_request term)
    on_ballot term i r (campaign term live)

  -- Phase 8: the handshake with one acceptor, if it voted. The term of its connection, if it has one.
  unfoldable pub elect_one : ℕ → ℕ → Option Vote → Shared → Open (Option ℕ × Shared)
  unfolding reply on_elected set_failed compute_start
  elect_one truncate i none s = pure (none, s)
  elect_one truncate i (some v) s = do
    let el = s.election
    start ← lift (if_start (compute_start el.history v.history v.flush el.term truncate))
    if ltb start truncate
        then pure (none, record s { peers = set_failed i s.peers })
        else (call i (Message.elected el.term start el.history) >>= λ r.
            lift (on_elected i start r s))

  unfoldable pub elect_all : ℕ → List OpenVote → List ℕ → Shared → Open (List (Option ℕ) × Shared)
  unfolding elect_one
  elect_all truncate votes [] s = pure ([], s)
  elect_all truncate votes (i ∷ is) s = do
    (conn, s') ← elect_one truncate i (find_vote i (ballots votes)) s
    (conns, s'') ← elect_all truncate votes is s'
    pure (conn ∷ conns, s'')

  module _ (c : Crc) (is_utf8 : Bytes → Bool) (chunk : ℕ) where
    -- Phase 5: the donor's records behind the horizon.
    unfoldable pub read_back : Vote → ℕ → Open (List Record)
    unfolding download_suffix decode_records
    read_back donor truncate = do
      bytes ← λ w.
          (let (r, w') = download_suffix net donor.index chunk donor.flush truncate w in
            (map_err not_downloaded r, w'))
      lift (check_length truncate bytes donor.flush)
      lift (map_err not_decoded (decode_records c is_utf8 bytes truncate))

    -- Phases 4 and 5: the donor, the horizon and the recovered records.
    unfoldable pub recover : List OpenVote → Open (Vote × ℕ × List Record)
    unfolding max_horizon read_back
    recover votes = do
      donor ←
          lift (some_donor (donor_of (pick_donor (map candidate (ballots votes))) (ballots votes)))
      let truncate = max_horizon votes
      lift (check_horizon truncate donor.flush)
      recovered ← read_back donor truncate
      pure (donor, truncate, recovered)

    -- Phases 4 to 8, on the votes of term `term`.
    unfoldable pub assemble : ℕ → List OpenVote → Open Opened
    unfolding recover seed elect_all recompute_commit_at
    assemble term votes = do
      (donor, truncate, recovered) ← recover votes
      s ← lift (seed c is_utf8 term donor truncate recovered)
      (initial, s') ← elect_all truncate votes everyone s
      pure (record {
        shared = recompute_commit_at donor.flush s';
        initial = initial;
        recovered = recovered;
      })

    -- Phases 2 to 8, with the acceptors that answered.
    unfoldable pub contest : String → List Greet → Open Opened
    unfolding agree max_greeted adopt_all campaign assemble
    contest minted greets = do
      lift (check_live greets)
      tail_id ← lift (agree minted (known_ids greets))
      live ← adopt_all tail_id greets
      let term = add_u64 (max_greeted greets) 1
      votes ← campaign term live
      lift (check_won votes)
      assemble term votes

    -- Up to the start of the tasks.
    unfoldable pub open_election : ℕ → String → Open Opened
    unfolding query_all contest
    open_election addrs minted = do
      lift (check_addrs addrs)
      greets ← λ w. (let (greets, w') = query_all everyone w in (ok greets, w'))
      contest minted greets
