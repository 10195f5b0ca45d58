-- ===== src/Quorum/Message.antt =====
-- icegres/src/quorum/proto.rs: the messages between proposer and acceptor. A refusal crosses the
-- wire as its text; here it is a value of `Refusal`, one constructor for each place that refuses.
use Prim.Native.String.{String}
use icegres.Prelude.{ℕ, Option, Bool}
use icegres.Prelude.Bytes.{Bytes}
use icegres.Quorum.TermHistory.{TermHistory, HistoryError}
use icegres.Quorum.Record.{RecordError}

-- What the storage below an acceptor can fail with.
pub data WalError : Type 0 where
  wedged_wal : WalError
  write_position : ℕ → ℕ → WalError
  io_failed : WalError
  not_retained : ℕ → ℕ → WalError
  shorter_on_disk : WalError

pub data Refusal : Type 0 where
  is_wedged : Refusal
  unexpected_message : Refusal
  persist_failed : Refusal
  wrong_cluster : String → String → Refusal
  history : HistoryError → Refusal
  start_mismatch : ℕ → ℕ → Refusal
  below_committed : ℕ → ℕ → Refusal
  before_elected : ℕ → ℕ → Refusal
  empty_append : Refusal
  bad_records : RecordError → Refusal
  end_mismatch : ℕ → ℕ → ℕ → Refusal
  non_consecutive : ℕ → ℕ → Refusal
  storage : WalError → Refusal

pub data Message : Type 0 where
  greeting : (tail_id : Option String) → Message
  greeting_resp : (tail_id : Option String) (term flush_lsn : ℕ) → Message
  vote_request : (term : ℕ) → Message
  vote_response :
      (term : ℕ) (granted : Bool) (flush_lsn last_log_term : ℕ) (term_history : TermHistory)
      (horizon_lsn commit_lsn : ℕ)
      → Message
  elected : (term start_lsn : ℕ) (term_history : TermHistory) → Message
  elected_resp : (term : ℕ) (accepted : Bool) → Message
  append : (term begin_lsn end_lsn commit_lsn horizon_lsn : ℕ) (records : Bytes) → Message
  append_resp : (term : ℕ) (accepted : Bool) (flush_lsn commit_lsn : ℕ) → Message
  read : (from_lsn to_lsn : ℕ) → Message
  read_resp : (from_lsn : ℕ) (records : Bytes) → Message
  error : Refusal → Message
