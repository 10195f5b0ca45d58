-- ===== src/Quorum/Open/Elected.antt =====
-- What `Quorum::open` of icegres/src/quorum/proposer.rs has established when it returns: its term, its
-- donor and the log that it starts from.
use Prim.Native.String.{String}
use mathlib.Core.Path.{subst}
use icegres.Prelude.{
  ℕ, ◌-◌, ◌≤◌, ◌<◌, ◌^◌, ◌≡◌, sym, ap, ◌∙◌, Option, some, List, [], ◌∷◌, ◌++◌, Bool, arith, length,
  map, All,
}
use icegres.Prelude.Bytes.{Bytes, add_u64}
use icegres.Prelude.Results.{ok, ok_injective}
use icegres.Prelude.Exec.{Exec, lift, >>=-ok, >>=-cases}
use icegres.Segment.{Crc}
use icegres.Quorum.Record.{Record}
use icegres.Quorum.Message.{Message}
use icegres.Quorum.Proposer.{
  Candidate, Election, LogBuf, Shared, quorum, quorum_size, pick_donor, recompute_commit_at,
}
use icegres.Quorum.Proposer.Donor.{IsUpToDate}
use icegres.Quorum.Election.{Network, Vote, candidate, donor_of}
use icegres.Quorum.Election.Reelect.{picked-greatest}
use icegres.Quorum.Open.{
  Greet, OpenError, OpenVote, Opened, ballots, max_greeted, seed, everyone, check_addrs, check_live,
  check_won, agree, known_ids,
}
use icegres.Quorum.Open.Phases.{
  query_all, adopt_all, campaign, recover, elect_all, contest, assemble, open_election,
}
use icegres.Quorum.Election.Polled.{Ascends, Polled}
use icegres.Quorum.Open.Ballots.{
  vote_of, HasHorizon, indexes, campaign-Polled, adopt_all-Ascends, query_all-Ascends,
}
use icegres.Quorum.Open.Seeded.{IsSeeded, IsBytewise}
use icegres.Quorum.Open.Recovered.{
  last_term, IsReadBack, IsRecovered, IsSeed, seed-head, All-max_greeted, recover-IsRecovered,
  seed-IsSeed,
}
use icegres.Quorum.Open.Handshakes.{
  SameLog, trans, IsOfTerm, elect_all-IsOfTerm, recompute-SameLog, elect_all-SameLog,
}

check_won-ok :
    (votes : List OpenVote) {u : Unit {0}} → check_won votes ≡ ok u → quorum ≤ length votes
check_won-ok votes h = ground arith

All-below :
    (greets : List Greet) (top term : ℕ)
    → All (λ g. g.term ≤ top) greets
    → top < term
    → All (λ g. g.term < term) greets
All-below [] top term h k = tt
All-below (g ∷ greets) top term (le, h) k = (omega arith, All-below greets top term h k)

module _ (c : Crc) (is_utf8 : Bytes → Bool) (net : Network) (chunk : ℕ) where
  -- What the opening has established in the state that the tasks start from.
  pub record IsElected (greets : List Greet) (o : Opened) : Type 0 where
    pub votes : List OpenVote
    pub asked : List ℕ
    pub before : net.World
    pub distinct : Ascends 0 asked
    pub polled : Polled net o.shared.election.term vote_of HasHorizon before asked votes
    pub donor : Vote
    pub best : Candidate
    pub won : quorum ≤ length votes
    pub picked : donor_of (pick_donor (map candidate (ballots votes))) (ballots votes) ≡ some donor
    pub is_donor : best.index ≡ donor.index
    pub greatest : All (IsUpToDate best) (map candidate (ballots votes))
    pub above : All (λ g. g.term < o.shared.election.term) greets
    pub starts : o.shared.election.term_start_lsn ≡ donor.flush
    pub history :
        o.shared.election.history
        ≡ donor.history ++ (record { term = o.shared.election.term; lsn = donor.flush } ∷ [])
    pub newest : last_term donor.history < o.shared.election.term
    pub horizons : All (λ v. v.horizon ≤ o.shared.log.base) votes
    pub ends : (o.shared.log.base ≤ donor.flush) × (o.shared.log.head ≡ donor.flush)
    pub read : IsReadBack c is_utf8 net chunk donor o.shared.log.base o.recovered
    pub seeded :
        IsSeeded c is_utf8 o.shared.log.base o.shared.log.records o.recovered o.shared.log.head
    pub peers : length o.shared.peers ≡ quorum_size
    pub connected : All (IsOfTerm o.shared.election.term) o.initial

  module _ (greets : List Greet) (votes : List OpenVote) (term : ℕ) (asked : List ℕ)
      (before : net.World) where
    IsSeed-IsElected :
        (donor : Vote) (truncate : ℕ) (recs : List Record) (s s' : Shared)
        (initial : List (Option ℕ))
        → All (λ g. g.term < term) greets
        → quorum ≤ length votes
        → Ascends 0 asked
        → Polled net term vote_of HasHorizon before asked votes
        → IsRecovered c is_utf8 net chunk votes donor truncate recs
        → IsSeed c is_utf8 net chunk term donor truncate recs s
        → SameLog s s'
        → All (IsOfTerm s.election.term) initial
        → IsElected greets (record { shared = s'; initial = initial; recovered = recs })
    IsSeed-IsElected donor truncate recs s s' initial above won distinct polled rec start same
          conns =
        let (best, is_donor, greatest) = picked-greatest (ballots votes) donor rec.picked in
        let own_term = ap (λ (e : Election). e.term) same.election ∙ start.own_term in
        let base = ap (λ (l : LogBuf). l.base) same.log ∙ start.base in
        let head = ap (λ (l : LogBuf). l.head) same.log ∙ start.head in
        record {
          votes = votes;
          asked = asked;
          before = before;
          distinct = distinct;
          polled = rw own_term polled;
          picked = rec.picked;
          donor = donor;
          best = best;
          won = won;
          is_donor = is_donor;
          greatest = greatest;
          above = rw own_term above;
          starts = ap (λ (e : Election). e.term_start_lsn) same.election ∙ start.starts;
          history = rw (same.election, start.own_term) start.history;
          newest = rw own_term start.newest;
          horizons = rw base rec.horizons;
          ends = (rw base rec.inside, head);
          read = rw base rec.read;
          seeded = rw (base, head, same.log) start.seeded;
          peers = same.long ∙ start.long;
          connected = rw same.election conns;
        }

  module _
      (bytewise : (w : net.World) (i : ℕ) (m : Message) → IsBytewise (net.exchange w i m).0) where
    assemble-IsElected :
        (greets : List Greet) (votes : List OpenVote) (asked : List ℕ) (before w : net.World)
        (o : Opened)
        → max_greeted greets < 2 ^ 64 - 1
        → o.shared.log.head < 2 ^ 64
        → quorum ≤ length votes
        → Ascends 0 asked
        → Polled net (add_u64 (max_greeted greets) 1) vote_of HasHorizon before asked votes
        → (assemble net c is_utf8 chunk (add_u64 (max_greeted greets) 1) votes w).0 ≡ ok o
        → IsElected greets o
    unfolding assemble
    assemble-IsElected greets votes asked before w o room below won distinct polled h =
        let term = add_u64 (max_greeted greets) 1 in
        >>=-cases (recover net c is_utf8 chunk votes) _ w h λ (donor, truncate, recs) w1 h1 r1.
          >>=-cases (lift (seed c is_utf8 term donor truncate recs)) _ w1 r1 λ s w2 h2 r2.
            >>=-cases (elect_all net truncate votes everyone s) _ w2 r2 λ (initial, s') w3 h3 r3.
              let recovered = recover-IsRecovered c is_utf8 net chunk bytewise votes w h1 in
              let handshaken = elect_all-SameLog net truncate votes everyone s w2 h3 in
              let commit : SameLog s' (recompute_commit_at donor.flush s') =
                recompute-SameLog donor.flush s' in
              let same = trans handshaken commit in
              let head = seed-head c is_utf8 net chunk term donor truncate recs h2 in
              let wide = ap (λ (t : Opened). t.shared.log.head) (sym (ok_injective r3)) in
              let start =
                seed-IsSeed c is_utf8 net chunk term donor truncate recs h2 (omega arith)
                  (rw (← head, ← ap (λ (l : LogBuf). l.head) same.log, ← wide) below)
                  recovered.read in
              subst (IsElected greets) (ok_injective r3) (
                IsSeed-IsElected greets votes term asked before donor truncate recs s
                  (recompute_commit_at donor.flush s') initial
                  (All-below greets (max_greeted greets) term (All-max_greeted greets)
                    (omega arith))
                  won distinct polled recovered start same
                  (elect_all-IsOfTerm net truncate votes everyone s w2 h3))

    contest-IsElected :
        (minted : String) (greets : List Greet) (w : net.World) (o : Opened)
        → max_greeted greets < 2 ^ 64 - 1
        → o.shared.log.head < 2 ^ 64
        → Ascends 0 (indexes greets)
        → (contest net c is_utf8 chunk minted greets w).0 ≡ ok o
        → IsElected greets o
    unfolding contest
    contest-IsElected minted greets w o room below ascends h =
        >>=-cases (lift (check_live greets)) _ w h λ _ w3 h3 r3.
          >>=-cases (lift (agree minted (known_ids greets))) _ w3 r3 λ id w4 h4 r4.
            >>=-cases (adopt_all net id greets) _ w4 r4 λ live w5 h5 r5.
              >>=-cases (campaign net (add_u64 (max_greeted greets) 1) live) _ w5 r5
                λ votes w6 h6 r6. >>=-cases (lift (check_won votes)) _ w6 r6 λ _ w7 h7 r7.
                  assemble-IsElected greets votes live w5 w7 o room below (check_won-ok votes h7)
                    (adopt_all-Ascends net id w4 0 greets live ascends h5)
                    (campaign-Polled net (add_u64 (max_greeted greets) 1) w5 live votes h6) r7

    -- What an opening that succeeds has established. The acceptors' answers are taken to be bytes, the
    -- terms that they report to lie below the last of a `u64`, and the head of the log to be a `u64`.
    -- The new term is above every term that a live acceptor reported; a quorum has voted in it: each
    -- vote is the answer of a different acceptor, asked in turn, which grants it in no higher term. The
    -- donor, one of them, whose log no voter's log is more up to date than, gives the start of the term, and its
    -- history, all of lower terms, is the new one before the entry of the term. The log reaches from
    -- a base at or above every voter's horizon to that start, and holds, each at the position that
    -- it claims and with its encoding, the records that the bytes of that range decode to which the donor gives when asked,
    -- which are the ones that are returned.
    pub open_election-IsElected :
        (addrs : ℕ) (minted : String) (w : net.World) (o : Opened)
        → max_greeted (query_all net everyone w).0 < 2 ^ 64 - 1
        → o.shared.log.head < 2 ^ 64
        → (open_election net c is_utf8 chunk addrs minted w).0 ≡ ok o
        → IsElected (query_all net everyone w).0 o
    unfolding open_election
    open_election-IsElected addrs minted w o room below h =
        let (_, _, r1) = >>=-ok (lift (check_addrs addrs)) _ w h in
        let query : Exec OpenError net.World (List Greet) =
          λ v. let (greets, v') = query_all net everyone v in (ok greets, v') in
        >>=-cases query (contest net c is_utf8 chunk minted) w r1 λ greets w2 h2 r2.
          let same = ok_injective h2 in
          subst (λ gs. IsElected gs o) (sym same)
            (contest-IsElected minted greets w2 o
              (subst (λ gs. max_greeted gs < 2 ^ 64 - 1) same room) below
              (subst (λ gs. Ascends 0 (indexes gs)) same
                (query_all-Ascends net w 0 everyone (omega arith)))
              r2)
