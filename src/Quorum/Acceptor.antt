-- ===== src/Quorum/Acceptor.antt =====
-- icegres/src/quorum/acceptor.rs: the acceptor's state machine over its two stores, the control
-- file and the record log. Each handler is a method that may fail and keeps what it wrote before.
pub mod Process
pub mod Terms
pub mod Durable
pub mod Answers
pub mod Commit
pub mod Votes
use Prim.Native.String.{String}
use text.Mathlib.Text.{◌==◌ as str_eq}
use icegres.Prelude.{
  ℕ, Option, none, some, [], Bool, true, false, not, length, ltb, leb, ◌==◌, min, max,
  if◌then◌else◌,
}
use icegres.Prelude.Bytes.{Bytes, add_u64}
use icegres.Prelude.Results.{Result, ok, err}
use icegres.Prelude.Exec.{Exec, pure, raise, gets, lift, modify, ◌>>=◌, ◌>>◌}
use icegres.Segment.{Crc}
use icegres.Quorum.TermHistory.{TermHistory, up_to, last_log_term, expected_start, is_nil}
use icegres.Quorum.Record.{map_err, decode_records}
use icegres.Quorum.Stores.{PersistentState, ControlStore, WalStore}
use icegres.Quorum.Message.{
  Message, Refusal, WalError, is_wedged, unexpected_message, persist_failed, wrong_cluster, history,
  start_mismatch, below_committed, before_elected, empty_append, bad_records, end_mismatch,
  non_consecutive, storage,
}

pub record Acceptor (C W : Type 0) : Type 0 where
  pub state : PersistentState
  pub ctrl : C
  pub wal : W
  pub wedged : Bool

-- `drop(recs)`: only whether the records decode matters.
abbrev pub checked {ℓ} : {E A : Type ℓ} → Result E A → Result E (Unit {0})
checked (ok _) = ok tt
checked (err e) = err e

module _ (c : Crc) (is_utf8 : Bytes → Bool) (cs : ControlStore) (ws : WalStore) where
  abbrev pub Node : Type 0
  Node = Acceptor cs.Store ws.Wal

  abbrev pub Handler : Type 0 → Type 0
  Handler A = Exec Refusal Node A

  -- `Acceptor::new`.
  unfoldable pub new : PersistentState → cs.Store → ws.Wal → Node
  new state ctrl wal = record {
    state = record state { commit_lsn = min state.commit_lsn (ws.flush_lsn wal) };
    ctrl = ctrl;
    wal = wal;
    wedged = false;
  }

  unfoldable pub persist : PersistentState → Handler (Unit {0})
  persist next a =
      let (durable, ctrl') = cs.persist a.ctrl next in
      if durable
      then (ok tt, record a { state = next; ctrl = ctrl' })
      else (err persist_failed, record a { ctrl = ctrl'; wedged = true })

  -- A storage operation that mutates the log.
  abbrev pub on_wal : (ws.Wal → Result WalError (Unit {0}) × ws.Wal) → Handler (Unit {0})
  on_wal op a = let (r, wal') = op a.wal in (map_err storage r, record a { wal = wal' })

  unfoldable pub adopt_id : Option String → Handler (Unit {0})
  unfolding persist
  adopt_id none = pure tt
  adopt_id (some id) = do
    st ← gets (λ a. a.state)
    elim st.tail_id [
      | none ↦ persist (record st { tail_id = some id })
      | some mine ↦ if str_eq mine id then pure tt else raise (wrong_cluster mine id)
    ]

  unfoldable pub handle_greeting : Option String → Handler Message
  unfolding adopt_id
  handle_greeting tail_id = do
    adopt_id tail_id
    gets (λ a. Message.greeting_resp a.state.tail_id a.state.term (ws.flush_lsn a.wal))

  -- `if self.state.term < term { persist the new term }`: whether the term was raised.
  unfoldable pub raise_term : ℕ → Handler Bool
  unfolding persist
  raise_term term = do
    st ← gets (λ a. a.state)
    if ltb st.term term then (do persist (record st { term = term }); pure true) else pure false

  unfoldable pub handle_vote : ℕ → Handler Message
  unfolding raise_term
  handle_vote term = do
    flush ← gets (λ a. ws.flush_lsn a.wal)
    granted ← raise_term term
    gets (λ a.
        Message.vote_response a.state.term granted flush (last_log_term a.state.term_history flush)
          (up_to a.state.term_history flush) (max a.state.horizon_lsn (ws.retained_start a.wal))
          a.state.commit_lsn)

  -- The part of `handle_elected` behind the two term tests.
  unfoldable pub adopt_history : ℕ → ℕ → TermHistory → Handler Message
  unfolding persist
  adopt_history term start_lsn term_history = do
    a ← gets (λ a. a)
    expected ← lift (
        map_err history (
          expected_start term_history (up_to a.state.term_history (ws.flush_lsn a.wal))
            (ws.flush_lsn a.wal) (ws.is_empty a.wal) start_lsn))
    if not (expected == start_lsn)
        then raise (start_mismatch start_lsn expected)
        else if ltb start_lsn a.state.commit_lsn
        then raise (below_committed start_lsn a.state.commit_lsn)
        else do
          on_wal (λ w. ws.truncate_from w start_lsn)
          b ← gets (λ b. b)
          persist (record b.state {
            term_history = term_history;
            commit_lsn = min b.state.commit_lsn (ws.flush_lsn b.wal);
          })
          gets (λ b. Message.elected_resp b.state.term true)

  unfoldable pub handle_elected : ℕ → ℕ → TermHistory → Handler Message
  unfolding raise_term adopt_history
  handle_elected term start_lsn term_history = do
    raised ← raise_term term
    st ← gets (λ a. a.state)
    if ltb term st.term
        then pure (Message.elected_resp st.term false)
        else adopt_history term start_lsn term_history

  -- Behind a successful write: the commit position, and the horizon before anything is deleted.
  unfoldable pub advance : ℕ → ℕ → Handler (Unit {0})
  unfolding persist
  advance commit_lsn horizon_lsn = do
    modify (λ a. record a {
      state = record a.state {
        commit_lsn = min (max commit_lsn a.state.commit_lsn) (ws.flush_lsn a.wal);
      };
    })
    st ← gets (λ a. a.state)
    let new_horizon = max st.horizon_lsn (min horizon_lsn st.commit_lsn)
    if ltb st.horizon_lsn new_horizon
        then (do
          persist (record st { horizon_lsn = new_horizon })
          modify (λ a. record a { wal = ws.drop_below a.wal new_horizon }))
        else pure tt

  -- The part of `handle_append` behind the two term tests.
  unfoldable pub write_records : ℕ → ℕ → ℕ → ℕ → Bytes → Handler Message
  unfolding advance
  write_records begin_lsn end_lsn commit_lsn horizon_lsn records = do
    lift (map_err bad_records (checked (decode_records c is_utf8 records begin_lsn)))
    a ← gets (λ a. a)
    let pos = if ws.is_empty a.wal then begin_lsn else ws.flush_lsn a.wal
    if not (add_u64 begin_lsn (length records) == end_lsn)
        then raise (end_mismatch end_lsn begin_lsn (length records))
        else if not (begin_lsn == pos)
        then raise (non_consecutive pos begin_lsn)
        else do
          on_wal (λ w. ws.append w begin_lsn records)
          flush ← gets (λ b. ws.flush_lsn b.wal)
          advance commit_lsn horizon_lsn
          gets (λ b. Message.append_resp b.state.term true flush b.state.commit_lsn)

  unfoldable pub handle_append : ℕ → ℕ → ℕ → ℕ → ℕ → Bytes → Handler Message
  unfolding write_records
  handle_append term begin_lsn end_lsn commit_lsn horizon_lsn records = do
    st ← gets (λ a. a.state)
    if ltb st.term term
        then raise (before_elected term st.term)
        else if ltb term st.term
        then pure (Message.append_resp st.term false 0 0)
        else if is_nil records
        then raise empty_append
        else write_records begin_lsn end_lsn commit_lsn horizon_lsn records

  unfoldable pub handle_read : ℕ → ℕ → Handler Message
  handle_read from_lsn to_lsn = do
    w ← gets (λ a. a.wal)
    let to = min to_lsn (ws.flush_lsn w)
    records ← lift (if leb to from_lsn then ok [] else map_err storage (ws.read w from_lsn to))
    pure (Message.read_resp from_lsn records)

  unfoldable pub handle : Message → Handler Message
  unfolding handle_greeting handle_vote handle_elected handle_append handle_read
  handle (Message.greeting tail_id) = handle_greeting tail_id
  handle (Message.vote_request term) = handle_vote term
  handle (Message.elected term start_lsn term_history) = handle_elected term start_lsn term_history
  handle (Message.append term begin_lsn end_lsn commit_lsn horizon_lsn records) =
      handle_append term begin_lsn end_lsn commit_lsn horizon_lsn records
  handle (Message.read from_lsn to_lsn) = handle_read from_lsn to_lsn
  handle _ = raise unexpected_message

  abbrev pub response : Result Refusal Message → Message
  response (ok m) = m
  response (err e) = Message.error e

  -- `Acceptor::process`: a failure becomes an error response.
  unfoldable pub process : Message → Node → Message × Node
  unfolding handle
  process msg a =
      if a.wedged
      then (Message.error is_wedged, a)
      else (let (r, a') = handle msg a in (response r, a'))
