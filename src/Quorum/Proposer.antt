-- ===== src/Quorum/Proposer.antt =====
-- icegres/src/quorum/proposer.rs: the state of the proposer and its pure rules. The election-scoped
-- state, the retained log and the peers are the fields of `Shared`; the mutexes and atomics that
-- guard them in the source make each function below one step. A `HashMap` is a list of pairs in
-- which the first pair of a key counts.
pub mod CommitRule
pub mod Donor
pub mod Log
pub mod Submit
pub mod Coverage
pub mod Horizon
use icegres.Prelude.{
  ℕ, zero, suc, ◌+◌, ◌-◌, ◌^◌, Option, none, some, List, [], ◌∷◌, ◌++◌, Bool, true, false, not,
  ◌&&◌, ◌||◌, length, map, ltb, leb, ◌==◌, min, max, if◌then◌else◌,
}
use icegres.Prelude.Bytes.{Bytes}
use icegres.Prelude.Results.{Result, ok, err, ◌>>=◌, ◌>>◌}
use icegres.Segment.{Crc}
use icegres.Quorum.TermHistory.{TermHistory}
use icegres.Quorum.Record.{Record, RecordError, encode, map_err, record_frame, record_watermark}

abbrev pub quorum_size : ℕ
quorum_size = 3

abbrev pub quorum : ℕ
quorum = 2

abbrev pub max_append_batch_bytes : ℕ
max_append_batch_bytes = 2 ^ 20

-- proto.rs: `MAX_MESSAGE_BYTES`.
abbrev pub max_message_bytes : ℕ
max_message_bytes = 2 ^ 28

abbrev pub append_message_headroom : ℕ
append_message_headroom = 4096

abbrev pub watermark_refresh_slack : ℕ
watermark_refresh_slack = 2 ^ 20

abbrev pub max_peer_lag_bytes : ℕ
max_peer_lag_bytes = 2 ^ 28

pub record RecordMeta : Type 0 where
  pub start : ℕ
  pub end : ℕ
  pub kind : ℕ
  pub table_key : Bytes
  pub seq : ℕ
  pub frame : Bytes

-- A value of `last_wm`.
pub record Watermark : Type 0 where
  pub start : ℕ
  pub seq : ℕ

abbrev pub Table : Type 0 → Type 0
Table A = List (Bytes × A)

pub record LogBuf : Type 0 where
  pub base : ℕ
  pub head : ℕ
  pub records : List RecordMeta
  pub covered : Table ℕ
  pub last_wm : Table Watermark

pub record Peer : Type 0 where
  pub flush : ℕ
  pub failed : Bool

pub record Election : Type 0 where
  pub term : ℕ
  pub term_start_lsn : ℕ
  pub history : TermHistory

pub data Poison : Type 0 where
  superseded : ℕ → Poison
  reelections_failed : Poison
  timed_out : Poison

pub data ReelectReason : Type 0 where
  fenced : ℕ → ReelectReason
  stalled : ℕ → ReelectReason

-- `term_tx` is the value that the watch of that name holds, and `events` the queue behind
-- `reelect_tx`, its oldest event first.
pub record Shared : Type 0 where
  pub election : Election
  pub log : LogBuf
  pub peers : List Peer
  pub commit : ℕ
  pub horizon : ℕ
  pub term_tx : ℕ
  pub poison : Option Poison
  pub events : List ReelectReason

abbrev pub same_key : Bytes → Bytes → Bool
same_key [] [] = true
same_key (x ∷ xs) (y ∷ ys) = let rest = same_key xs ys in x == y && rest
same_key _ _ = false

abbrev pub lookup : {A : Type 0} → Bytes → Table A → Option A
lookup k [] = none
lookup k ((j, a) ∷ t) = let rest = lookup k t in if same_key k j then some a else rest

abbrev pub unwrap_or : ℕ → Option ℕ → ℕ
unwrap_or d none = d
unwrap_or d (some n) = n

-- `sort_unstable_by(|a, b| b.cmp(a))`.
unfoldable pub insert_desc : ℕ → List ℕ → List ℕ
insert_desc a [] = a ∷ []
insert_desc a (b ∷ bs) = let rest = insert_desc a bs in if leb b a then a ∷ b ∷ bs else b ∷ rest

unfoldable pub sort_desc : List ℕ → List ℕ
sort_desc [] = []
sort_desc (x ∷ xs) = insert_desc x (sort_desc xs)

-- `vals[QUORUM - 1]`; `none` is the panic of an index out of range.
abbrev pub second : List ℕ → Option ℕ
second (_ ∷ b ∷ _) = some b
second _ = none

abbrev pub in_term : ℕ → ℕ → ℕ
in_term term_start_lsn f = if ltb f term_start_lsn then 0 else f

unfoldable pub quorum_commit : List ℕ → ℕ → Option ℕ
unfolding sort_desc
quorum_commit flushes term_start_lsn = second (sort_desc (map (in_term term_start_lsn) flushes))

abbrev pub raise_commit : Option ℕ → ℕ → ℕ → ℕ
raise_commit none term_start_lsn commit = commit
raise_commit (some cand) term_start_lsn commit =
    if leb term_start_lsn cand && ltb commit cand then cand else commit

unfoldable pub recompute_commit_at : ℕ → Shared → Shared
unfolding quorum_commit
recompute_commit_at term_start_lsn s = record s {
  commit =
      raise_commit (quorum_commit (map (λ p. p.flush) s.peers) term_start_lsn) term_start_lsn
        s.commit;
}

unfoldable pub set_flush : ℕ → ℕ → List Peer → List Peer
set_flush idx flush [] = []
set_flush zero flush (p ∷ ps) = record p { flush = flush } ∷ ps
set_flush (suc idx) flush (p ∷ ps) = p ∷ set_flush idx flush ps

-- Whether the ack was accepted, and the state after it.
unfoldable pub store_ack : ℕ → ℕ → ℕ → Shared → Bool × Shared
unfolding recompute_commit_at
store_ack idx conn_term flush s =
    if s.election.term == conn_term
    then (
      true,
      recompute_commit_at s.election.term_start_lsn
          (record s { peers = set_flush idx flush s.peers }),
    )
    else (false, s)

pub data Batch : Type 0 where
  batch : (begin end : ℕ) (bytes : Bytes) → Batch
  up_to_date : Batch
  behind : Batch

abbrev pub finish_batch : Option ℕ → ℕ → Bytes → Batch
finish_batch none end bytes = up_to_date
finish_batch (some b) end bytes = batch b end bytes

-- `for rec in &log.records`.
unfoldable pub batch_loop : ℕ → Option ℕ → ℕ → Bytes → List RecordMeta → Batch
batch_loop from begin end bytes [] = finish_batch begin end bytes
batch_loop from begin end bytes (r ∷ rs) =
    let skip = batch_loop from begin end bytes rs in
    let first = batch_loop from (some r.start) r.end (bytes ++ r.frame) rs in
    let next = batch_loop from begin r.end (bytes ++ r.frame) rs in
    let full = leb max_append_batch_bytes (length (bytes ++ r.frame)) in
    if leb r.end from then skip else elim begin [
      | none ↦ if full then batch r.start r.end (bytes ++ r.frame) else first
      | some b ↦
          if ltb max_message_bytes (length bytes + length r.frame + append_message_headroom)
          then batch b end bytes
          else if full
          then batch b r.end (bytes ++ r.frame)
          else next
    ]

unfoldable pub next_batch : LogBuf → ℕ → Batch
unfolding batch_loop
next_batch log from =
    if leb log.head from
    then up_to_date
    else if ltb from log.base
    then behind
    else batch_loop from none from [] log.records

-- One granted vote: `(index, last_log_term, flush_lsn)`.
pub record Candidate : Type 0 where
  pub index : ℕ
  pub last_log_term : ℕ
  pub flush : ℕ

-- The order of the keys `(last_log_term, flush)`.
abbrev pub key_le : Candidate → Candidate → Bool
key_le a b =
    ltb a.last_log_term b.last_log_term
    || (a.last_log_term == b.last_log_term && leb a.flush b.flush)

-- `max_by_key` returns the last of the greatest elements.
unfoldable pub max_candidate : Candidate → List Candidate → Candidate
max_candidate best [] = best
max_candidate best (x ∷ xs) = max_candidate (if key_le best x then x else best) xs

unfoldable pub pick_donor : List Candidate → Option ℕ
unfolding max_candidate
pick_donor [] = none
pick_donor (x ∷ xs) = some (max_candidate x xs).index

pub data SubmitError : Type 0 where
  poisoned : Poison → SubmitError
  not_encoded : RecordError → SubmitError
  too_large : ℕ → SubmitError

abbrev pub check_record_frame_len : ℕ → Result SubmitError (Unit {0})
check_record_frame_len frame_len =
    if ltb max_message_bytes (frame_len + append_message_headroom)
    then err (too_large frame_len)
    else ok tt

-- `push_back` with the bookkeeping around it.
unfoldable pub push_record : Record → Bytes → LogBuf → LogBuf
push_record r frame log =
    let end = log.head + length frame in
    let meta : RecordMeta = record {
      start = log.head;
      end = end;
      kind = r.kind;
      table_key = r.table_key;
      seq = r.seq;
      frame = frame;
    } in
    record log {
      last_wm =
          if r.kind == record_watermark
          then (r.table_key, record { start = log.head; seq = r.seq }) ∷ log.last_wm
          else log.last_wm;
      records = log.records ++ (meta ∷ []);
      head = end;
    }

abbrev pub check_poison : Option Poison → Result SubmitError (Unit {0})
check_poison none = ok tt
check_poison (some why) = err (poisoned why)

-- The position that a quorum has to ack, and the log after it; on an error the log stays as it was.
unfoldable pub submit :
    (c : Crc) (is_utf8 : Bytes → Bool)
    → ℕ
    → Bytes
    → ℕ
    → Bytes
    → Shared
    → Result SubmitError (ℕ × Shared)
unfolding push_record encode
submit c is_utf8 kind table_key seq body s =
    let r : Record = record {
      lsn = s.log.head;
      kind = kind;
      table_key = table_key;
      seq = seq;
      body = body;
    } in
    do
      check_poison s.poison
      frame ← map_err not_encoded (encode c is_utf8 r)
      check_record_frame_len (length frame)
      ok (s.log.head + length frame, record s { log = push_record r frame s.log })
