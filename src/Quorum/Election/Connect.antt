-- ===== src/Quorum/Election/Connect.antt =====
-- `handshake` of icegres/src/quorum/proposer.rs, and the download of the unfinished suffix from the
-- donor that `open` makes, chunk by chunk.
use Prim.Native.String.{String}
use mathlib.Core.Path.{subst}
use icegres.Prelude.{
  ℕ, zero, suc, ◌+◌, ◌-◌, ◌^◌, ◌≤◌, ◌<◌, ◌≡◌, ◌≢◌, ap, ◌∙◌, inl, inr, some, [], ◌∷◌, ◌++◌, true,
  false, not, arith, length, ltb, leb, ◌==◌, min, max, if◌then◌else◌, if_cases, length-append,
  le→leb, refl, ap₂, Bool, Bool-cases,
}
use icegres.Prelude.Bytes.{Bytes}
use icegres.Prelude.Results.{Result, ok, err, ◌>>=◌, ◌>>◌, Result-cases, >>=-eq-ok, ok_injective}
use icegres.Quorum.TermHistory.{TermHistory, compute_start, is_nil}
use icegres.Quorum.Record.{map_err}
use icegres.Quorum.Message.{Message}
use icegres.Quorum.Proposer.{Shared}
use icegres.Quorum.Election.{Network, Reply, reply, answered, other_cluster}

pub data HsError : Type 0 where
  hs_fenced : ℕ → HsError
  hs_behind : HsError
  hs_wrong_cluster : HsError
  hs_transient : HsError

abbrev pub check_greeting : ℕ → Reply → Result HsError (Unit {0})
check_greeting own (answered (Message.greeting_resp _ term _)) =
    if ltb own term then err (hs_fenced term) else ok tt
check_greeting own other_cluster = err hs_wrong_cluster
check_greeting own _ = err hs_transient

-- The positions of the vote; a refusal at the own term does not matter here.
abbrev pub check_vote : ℕ → Reply → Result HsError (ℕ × TermHistory)
check_vote own (answered (Message.vote_response term _ flush _ history _ _)) =
    if ltb own term then err (hs_fenced term) else ok (flush, history)
check_vote own _ = err hs_transient

abbrev pub check_base : ℕ → ℕ → Result HsError ℕ
check_base base start = if ltb start base then err hs_behind else ok start

unfoldable pub start_position : Shared → ℕ × TermHistory → Result HsError ℕ
unfolding compute_start
start_position s (flush, history) = do
  start ←
      map_err (λ _. hs_transient)
        (compute_start s.election.history history flush s.election.term s.log.base)
  check_base s.log.base start

abbrev pub check_elected : Reply → Result HsError (Unit {0})
check_elected (answered (Message.elected_resp _ true)) = ok tt
check_elected (answered (Message.elected_resp term false)) = err (hs_fenced term)
check_elected _ = err hs_transient

module _ (net : Network) (tail_id : String) where
  -- The start position at which the connection can stream.
  unfoldable pub handshake : Shared → net.World → ℕ → Result HsError ℕ × net.World
  unfolding reply start_position
  handshake s w i =
      let (up, w1) = net.connect w i in
      let (greeted, w2) = net.exchange w1 i (Message.greeting (some tail_id)) in
      let (voted, w3) = net.exchange w2 i (Message.vote_request s.election.term) in
      let start = check_vote s.election.term (reply voted) >>= start_position s in
      if not up
      then (err hs_transient, w1)
      else elim (check_greeting s.election.term (reply greeted)) [
        | err e ↦ (err e, w2)
        | ok _ ↦ elim start [
          | err e ↦ (err e, w3)
          | ok start_lsn ↦
              let (elected, w4) =
                net.exchange w3 i (Message.elected s.election.term start_lsn s.election.history) in
              (check_elected (reply elected) >> ok start_lsn, w4)
        ]
      ]

pub data DownloadError : Type 0 where
  no_read_answer : DownloadError
  wrong_start : ℕ → DownloadError
  empty_chunk : ℕ → DownloadError
  overrun : ℕ → DownloadError
  cut_off : DownloadError

-- `read_pos.saturating_add(chunk)`.
abbrev pub saturating_add : ℕ → ℕ → ℕ
saturating_add a b = min (a + b) (2 ^ 64 - 1)

abbrev pub check_chunk : ℕ → ℕ → Reply → Result DownloadError Bytes
check_chunk read_pos to_lsn (answered (Message.read_resp from_lsn records)) =
    if not (from_lsn == read_pos)
    then err (wrong_start from_lsn)
    else if is_nil records
    then err (empty_chunk read_pos)
    else if ltb to_lsn (read_pos + length records)
    then err (overrun to_lsn)
    else ok records
check_chunk read_pos to_lsn _ = err no_read_answer

module _ (net : Network) (donor chunk term_start : ℕ) where
  -- `while read_pos < term_start_lsn`; `cut_off` is a loop that ran out of rounds.
  unfoldable pub download : ℕ → ℕ → Bytes → net.World → Result DownloadError Bytes × net.World
  unfolding reply
  download zero read_pos rec_bytes w =
      (if leb term_start read_pos then ok rec_bytes else err cut_off, w)
  download (suc fuel) read_pos rec_bytes w =
      let to_lsn = min term_start (saturating_add read_pos (max chunk 1)) in
      let (answer, w') = net.exchange w donor (Message.read read_pos to_lsn) in
      if leb term_start read_pos
      then (ok rec_bytes, w)
      else elim (check_chunk read_pos to_lsn (reply answer)) [
        | err e ↦ (err e, w')
        | ok records ↦ download fuel (read_pos + length records) (rec_bytes ++ records) w'
      ]

  -- Each round reads one byte at least.
  unfoldable pub download_suffix : ℕ → net.World → Result DownloadError Bytes × net.World
  unfolding download
  download_suffix truncate_lsn w = download (term_start - truncate_lsn) truncate_lsn [] w

  -- What has been read is not lost, and the loop ends at the term start.
  abbrev pub Filled : ℕ → Result DownloadError Bytes → Type 0
  Filled n (ok bytes) = length bytes ≡ n
  Filled n (err e) = e ≢ cut_off

  check_chunk-ok :
      (pos to : ℕ) (r : Reply) (records : Bytes)
      → check_chunk pos to r ≡ ok records
      → (0 < length records) × (pos + length records ≤ to)
  check_chunk-ok pos to (answered (Message.read_resp from [])) records h = absurd (ground arith)
  check_chunk-ok pos to (answered (Message.read_resp from (b ∷ bs))) records h =
      (ground arith, ground arith)
  check_chunk-ok pos to _ records h = absurd (ground arith)

  check_chunk-err :
      (pos to : ℕ) (r : Reply) (e : DownloadError) → check_chunk pos to r ≡ err e → e ≢ cut_off
  check_chunk-err pos to (answered (Message.read_resp from [])) e h k = ground arith
  check_chunk-err pos to (answered (Message.read_resp from (b ∷ bs))) e h k = ground arith
  check_chunk-err pos to _ e h k = ground arith

  download-Filled :
      (fuel pos : ℕ) (acc : Bytes) (w : net.World)
      → pos ≤ term_start
      → term_start ≤ pos + fuel
      → Filled (length acc + (term_start - pos)) (download fuel pos acc w).0
  unfolding download
  download-Filled zero pos acc w h k = rw (le→leb term_start pos (omega arith)) (omega arith)
  download-Filled (suc fuel) pos acc w h k =
      let to_lsn = min term_start (saturating_add pos (max chunk 1)) in
      let (answer, w') = net.exchange w donor (Message.read pos to_lsn) in
      if_cases
        (λ (o : Result DownloadError Bytes × net.World).
          Filled (length acc + (term_start - pos)) o.0)
        (leb term_start pos) _ _ (λ complete. (ground arith))
        (λ more. elim (Result-cases (check_chunk pos to_lsn (reply answer))) [
          | inl (records, read) ↦
              let (some_bytes, inside) = check_chunk-ok pos to_lsn (reply answer) records read in
              let rest =
                download-Filled fuel (pos + length records) (acc ++ records) w' (omega arith)
                  (omega arith) in
              rw read (
                subst (λ n. Filled n (download fuel (pos + length records) (acc ++ records) w').0)
                  (omega (arith, length-append acc records)) rest)
          | inr (e, bad) ↦ rw bad (check_chunk-err pos to_lsn (reply answer) e bad)
        ])

  -- The download ends, whatever the donor answers: with an error of the donor's answers, or with as
  -- many bytes as lie between the horizon and the start of the term.
  download_suffix-Filled :
      (truncate_lsn : ℕ) (w : net.World)
      → truncate_lsn ≤ term_start
      → Filled (term_start - truncate_lsn) (download_suffix truncate_lsn w).0
  unfolding download_suffix
  download_suffix-Filled truncate_lsn w h =
      subst (λ n. Filled n (download (term_start - truncate_lsn) truncate_lsn [] w).0) (omega arith)
        (download-Filled (term_start - truncate_lsn) truncate_lsn [] w h (omega arith))

module _ (net : Network) (tail_id : String) (s : Shared) (w : net.World) (i start : ℕ) where
  -- The network behind the connection, the greeting and the request for a vote.
  abbrev pub greeted_world : net.World
  greeted_world = (net.exchange (net.connect w i).1 i (Message.greeting (some tail_id))).1

  abbrev pub voted_world : net.World
  voted_world = (net.exchange greeted_world i (Message.vote_request s.election.term)).1

  -- The acceptor's vote: an answer to the request for one in a term that is not above the proposer's.
  pub record IsVote (flush : ℕ) (history : TermHistory) : Type 0 where
    pub term : ℕ
    pub granted : Bool
    pub last_log_term : ℕ
    pub horizon : ℕ
    pub commit : ℕ
    pub answer :
        reply (net.exchange greeted_world i (Message.vote_request s.election.term)).0
        ≡ answered (Message.vote_response term granted flush last_log_term history horizon commit)
    pub not_above : term ≤ s.election.term

  -- What a connection that can stream has established.
  pub record IsReady : Type 0 where
    pub connected : (net.connect w i).0 ≡ true
    pub greeting :
        check_greeting s.election.term
          (reply (net.exchange (net.connect w i).1 i (Message.greeting (some tail_id))).0)
        ≡ ok tt
    pub flush : ℕ
    pub history : TermHistory
    pub vote : IsVote flush history
    pub computed :
        map_err
          (λ _. hs_transient)
          (compute_start s.election.history history flush s.election.term s.log.base)
        ≡ ok start
    pub retained : s.log.base ≤ start
    pub own_term : ℕ
    pub accepted :
        reply
          (net.exchange voted_world i (Message.elected s.election.term start s.election.history)).0
        ≡ answered (Message.elected_resp own_term true)

  check_vote-IsVote :
      (r : Reply) (flush : ℕ) (history : TermHistory)
      → reply (net.exchange greeted_world i (Message.vote_request s.election.term)).0 ≡ r
      → check_vote s.election.term r ≡ ok (flush, history)
      → IsVote flush history
  check_vote-IsVote (answered (Message.vote_response t g f llt h hz cm)) flush history at e =
      let same : (f ≡ flush) × (h ≡ history) = ground arith in
      record {
        term = t;
        granted = g;
        last_log_term = llt;
        horizon = hz;
        commit = cm;
        answer = at ∙ ap₂ (λ x y. answered (Message.vote_response t g x llt y hz cm)) same.0 same.1;
        not_above = ground arith;
      }
  check_vote-IsVote _ flush history at e = absurd (ground arith)

  check_elected-accepted :
      (r : Reply) {u : Unit {0}}
      → check_elected r ≡ ok u
      → (t : ℕ) × (r ≡ answered (Message.elected_resp t true))
  check_elected-accepted (answered (Message.elected_resp t true)) e = (t, refl)
  check_elected-accepted _ e = absurd (ground arith)

  -- A handshake that succeeds gives the start that `compute_start` finds for the positions of the
  -- acceptor's own vote, which is not of a higher term; the log is retained from there on; and the
  -- acceptor, asked next, has accepted the proposer's term, that start and the whole history.
  pub handshake-IsReady : (handshake net tail_id s w i).0 ≡ ok start → IsReady
  handshake-IsReady h =
      let (greeted, w2) = net.exchange (net.connect w i).1 i (Message.greeting (some tail_id)) in
      let (voted, w3) = net.exchange greeted_world i (Message.vote_request s.election.term) in
      let own = s.election.term in
      elim (Bool-cases (net.connect w i).0) [
        | inr down ↦ absurd (unfold handshake in ground (arith, down))
        | inl up ↦ elim (Result-cases (check_greeting own (reply greeted))) [
          | inr (e, bad) ↦ absurd (unfold handshake in ground (arith, up, bad))
          | inl (_, known) ↦
              elim (Result-cases (check_vote own (reply voted) >>= start_position s)) [
                | inr (e, bad) ↦ absurd (unfold handshake in ground (arith, up, known, bad))
                | inl (start', found) ↦
                    let message = Message.elected own start' s.election.history in
                    let finish : (check_elected (reply (net.exchange w3 i message).0) >> ok start')
                        ≡ ok start =
                      unfold handshake in ground (arith, up, known, found) in
                    let (_, elected, finished) =
                      >>=-eq-ok (check_elected (reply (net.exchange w3 i message).0))
                        (λ _. ok start') finish in
                    ready start' (ok_injective finished) up known elected found
              ]
        ]
      ]
    where
      ready :
          (start' : ℕ)
          → start' ≡ start
          → (net.connect w i).0 ≡ true
          → check_greeting s.election.term
              (reply (net.exchange (net.connect w i).1 i (Message.greeting (some tail_id))).0)
            ≡ ok tt
          → check_elected (
              reply
                (net.exchange voted_world i
                  (Message.elected s.election.term start' s.election.history)).0)
            ≡ ok tt
          → (check_vote s.election.term
                (reply (net.exchange greeted_world i (Message.vote_request s.election.term)).0)
              >>= start_position s)
            ≡ ok start'
          → IsReady
      ready start' same up known elected found =
          let ((flush, history), voted, positioned) =
            >>=-eq-ok (check_vote s.election.term _) (start_position s) found in
          let computation : Result HsError ℕ =
            map_err (λ _. hs_transient)
              (compute_start s.election.history history flush s.election.term s.log.base) in
          let opened : (computation >>= check_base s.log.base) ≡ ok start' =
            unfold start_position in positioned in
          let (a, computed, checked) = >>=-eq-ok computation (check_base s.log.base) opened in
          let at : a ≡ start = ground (arith, checked, same) in
          let (own_term, accepted) = check_elected-accepted _ elected in
          record {
            connected = up;
            greeting = known;
            flush = flush;
            history = history;
            vote = check_vote-IsVote _ flush history refl voted;
            computed = computed ∙ ap ok at;
            retained = ground (arith, checked, same);
            own_term = own_term;
            accepted =
                subst
                  (λ n.
                    reply
                      (net.exchange voted_world i
                        (Message.elected s.election.term n s.election.history)).0
                    ≡ answered (Message.elected_resp own_term true))
                  same accepted;
          }
