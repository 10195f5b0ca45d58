-- ===== src/Quorum/Open.antt =====
-- `Quorum::open` of icegres/src/quorum/proposer.rs: the election, the recovery of the unfinished suffix
-- from the donor, and the handshakes with the voters. It is a method on the network behind the
-- connections, which may fail; the number of the addresses, the identity that would be minted and
-- the size of a chunk are its arguments. The `expect` on the donor is the error `no_donor`.
pub mod Phases
pub mod Ballots
pub mod Seeded
pub mod Handshakes
pub mod Recovered
pub mod Elected
pub mod Started
use Prim.Native.String.{String}
use text.Mathlib.Text.{◌==◌ as str_eq}
use icegres.Prelude.{
  ℕ, zero, suc, ◌+◌, ◌&&◌, Option, none, some, List, [], ◌∷◌, ◌++◌, Bool, true, false, not, length,
  map, ltb, leb, ◌==◌, max, if◌then◌else◌,
}
use icegres.Prelude.Bytes.{Bytes, add_u64}
use icegres.Prelude.Results.{Result, ok, err}
use icegres.Prelude.Results as Results
use icegres.Prelude.Exec.{Exec, pure, raise, lift, ◌>>=◌, ◌>>◌}
use icegres.Segment.{Crc}
use icegres.Quorum.TermHistory.{TermLsn, TermHistory, HistoryError, compute_start}
use icegres.Quorum.Record.{Record, RecordError, encode, decode_records, map_err, record_watermark}
use icegres.Quorum.Message.{Message}
use icegres.Quorum.Proposer.{
  Candidate, Election, LogBuf, Peer, RecordMeta, Shared, Table, Watermark, quorum, quorum_size,
  pick_donor, recompute_commit_at, store_ack,
}
use icegres.Quorum.Election.{
  Network, Reply, answered, call_timed_out, reply, Vote, candidate, donor_of, find_vote,
}
use icegres.Quorum.Election.Connect.{DownloadError, download_suffix}
use icegres.Quorum.Election.Supervisor.{Wake, Waited, committed, wait_commit}
use icegres.Quorum.RunPeer.{set_failed}

pub data OpenError : Type 0 where
  wrong_count : ℕ → OpenError
  unreachable : ℕ → OpenError
  identities_differ : OpenError
  identity_refused : ℕ → OpenError
  unexpected_answer : ℕ → OpenError
  superseded_by : ℕ → OpenError
  vote_refused : ℕ → OpenError
  few_votes : ℕ → OpenError
  no_donor : OpenError
  horizon_beyond : ℕ → ℕ → OpenError
  not_downloaded : DownloadError → OpenError
  short_read : ℕ → OpenError
  not_decoded : RecordError → OpenError
  donor_term : ℕ → OpenError
  not_encoded : RecordError → OpenError
  no_start : HistoryError → OpenError
  not_durable : Waited → OpenError

-- The answer of one live acceptor to the first greeting.
pub record Greet : Type 0 where
  pub index : ℕ
  pub tail_id : Option String
  pub term : ℕ

pub record OpenVote : Type 0 where
  pub vote : Vote
  pub horizon : ℕ

-- The proposer with its recovered records, and for each acceptor the term of its connection.
pub record Opened : Type 0 where
  pub shared : Shared
  pub initial : List (Option ℕ)
  pub recovered : List Record

-- The indexes of the acceptors.
abbrev pub everyone : List ℕ
everyone = 0 ∷ 1 ∷ 2 ∷ []

abbrev pub check_addrs : ℕ → Result OpenError (Unit {0})
check_addrs n = if n == quorum_size then ok tt else err (wrong_count n)

abbrev pub check_live : List Greet → Result OpenError (Unit {0})
check_live greets = if ltb (length greets) quorum then err (unreachable (length greets)) else ok tt

-- The identities that the acceptors know: `known`.
abbrev pub known_ids : List Greet → List String
known_ids [] = []
known_ids (g ∷ greets) =
    let rest = known_ids greets in elim g.tail_id [ none ↦ rest | some id ↦ id ∷ rest ]

abbrev pub all_same : String → List String → Bool
all_same id [] = true
all_same id (x ∷ xs) = let rest = all_same id xs in str_eq id x && rest

-- One identity at most, else the minted one.
unfoldable pub agree : String → List String → Result OpenError String
agree minted [] = ok minted
agree minted (id ∷ ids) = if all_same id ids then ok id else err identities_differ

unfoldable pub max_greeted : List Greet → ℕ
max_greeted [] = 0
max_greeted (g ∷ greets) = max g.term (max_greeted greets)

abbrev pub check_won : List OpenVote → Result OpenError (Unit {0})
check_won votes = if ltb (length votes) quorum then err (few_votes (length votes)) else ok tt

abbrev pub ballots : List OpenVote → List Vote
ballots votes = map (λ v. v.vote) votes

abbrev pub some_donor : Option Vote → Result OpenError Vote
some_donor none = err no_donor
some_donor (some v) = ok v

unfoldable pub max_horizon : List OpenVote → ℕ
max_horizon [] = 0
max_horizon (v ∷ votes) = max v.horizon (max_horizon votes)

abbrev pub check_horizon : ℕ → ℕ → Result OpenError (Unit {0})
check_horizon truncate term_start =
    if ltb term_start truncate then err (horizon_beyond truncate term_start) else ok tt

abbrev pub check_length : ℕ → Bytes → ℕ → Result OpenError (Unit {0})
check_length truncate bytes term_start =
    if truncate + length bytes == term_start then ok tt else err (short_read (length bytes))

-- `history.0.last()`.
abbrev pub last_entry : TermHistory → Option TermLsn
last_entry [] = none
last_entry (e ∷ []) = some e
last_entry (e ∷ f ∷ h) = last_entry (f ∷ h)

abbrev pub check_below : ℕ → Option TermLsn → Result OpenError (Unit {0})
check_below term none = ok tt
check_below term (some last) = if leb term last.term then err (donor_term last.term) else ok tt

abbrev pub next_wm : Record → Table Watermark → Table Watermark
next_wm r last_wm =
    if r.kind == record_watermark
    then (r.table_key, record { start = r.lsn; seq = r.seq }) ∷ last_wm
    else last_wm

module _ (c : Crc) (is_utf8 : Bytes → Bool) where
  -- The loop that fills the log: the records with their frames, and the last watermarks.
  unfoldable pub seed_loop :
      ℕ → Table Watermark → List Record → Result OpenError (List RecordMeta × Table Watermark)
  unfolding encode
  seed_loop pos last_wm [] = ok ([], last_wm)
  seed_loop pos last_wm (r ∷ recs) =
      Results.◌>>=◌ (map_err not_encoded (encode c is_utf8 r)) λ frame.
        let end = pos + length frame in
        let meta : RecordMeta = record {
          start = pos;
          end = end;
          kind = r.kind;
          table_key = r.table_key;
          seq = r.seq;
          frame = frame;
        } in
        Results.◌>>=◌ (seed_loop end (next_wm r last_wm) recs) λ rest. ok (meta ∷ rest.0, rest.1)

abbrev pub new_peers : List Peer
new_peers =
    record { flush = 0; failed = false }
    ∷ record { flush = 0; failed = false }
    ∷ record { flush = 0; failed = false }
    ∷ []

abbrev pub new_shared : Election → LogBuf → Shared
new_shared election log = record {
  election = election;
  log = log;
  peers = new_peers;
  commit = 0;
  horizon = log.base;
  term_tx = election.term;
  poison = none;
  events = [];
}

abbrev pub if_start : Result HistoryError ℕ → Result OpenError ℕ
if_start (ok start) = ok start
if_start (err e) = err (no_start e)

module _ (c : Crc) (is_utf8 : Bytes → Bool) where
  -- Phases 6 and 7: the state that the donor's log seeds.
  unfoldable pub seed : ℕ → Vote → ℕ → List Record → Result OpenError Shared
  unfolding seed_loop
  seed term donor truncate recovered = Results.◌>>◌ (check_below term (last_entry donor.history)) (
      Results.◌>>=◌ (seed_loop c is_utf8 truncate [] recovered) λ seeded. ok (
        new_shared
          (record {
            term = term;
            term_start_lsn = donor.flush;
            history = donor.history ++ (record { term = term; lsn = donor.flush } ∷ []);
          })
          (record {
            base = truncate;
            head = donor.flush;
            records = seeded.0;
            covered = [];
            last_wm = seeded.1;
          })))

-- The answer of acceptor `i` to `elected`.
unfoldable pub on_elected : ℕ → ℕ → Reply → Shared → Result OpenError (Option ℕ × Shared)
unfolding store_ack
on_elected i start (answered (Message.elected_resp _ true)) s =
    ok (some s.election.term, (store_ack i s.election.term start s).1)
on_elected i start (answered (Message.elected_resp t false)) s = err (superseded_by t)
on_elected i start (answered _) s = err (unexpected_answer i)
on_elected i start _ s = ok (none, s)

-- How `open` takes the end of the wait.
abbrev pub on_waited : Opened → Waited × Shared → Result OpenError Opened
on_waited o (committed, s) = ok (record o { shared = s })
on_waited o (waited, s) = err (not_durable waited)

-- Phase 9: `wait_commit` on the start of the term, while the tasks run.
unfoldable pub finish_open : List Wake → Opened → Result OpenError Opened
unfolding wait_commit
finish_open wakes o =
    on_waited o (wait_commit o.shared.election.term_start_lsn false o.shared wakes)
