-- ===== src/Quorum/Acceptor/Terms.antt =====
-- The term of an acceptor never goes down, and a vote that is granted raises it to its own term.
use Prim.Native.String.{String}
use icegres.Prelude.{ℕ, ◌≤◌, ◌≡◌, Option, none, some, Bool, arith, if◌then◌else◌}
use icegres.Prelude.Bytes.{Bytes}
use icegres.Segment.{Crc}
use icegres.Quorum.TermHistory.{TermHistory}
use icegres.Quorum.Message.{Message}
use icegres.Quorum.Stores.{ControlStore, WalStore}
use icegres.Quorum.Acceptor.{
  Node, adopt_history, write_records, handle_greeting, handle_vote, handle_elected, handle_append,
  handle_read, process,
}

-- The term of a response that grants a vote.
abbrev pub vote_of : Message → Option ℕ
vote_of (Message.vote_response term granted _ _ _ _ _) = if granted then some term else none
vote_of _ = none

module _ (c : Crc) (is_utf8 : Bytes → Bool) (cs : ControlStore) (ws : WalStore) where
  module _ (a : Node c is_utf8 cs ws) where
    greeting_term :
        (id : Option String) → (handle_greeting c is_utf8 cs ws id a).1.state.term ≡ a.state.term
    unfolding handle_greeting
    greeting_term id = ground arith

    vote_term : (t : ℕ) → a.state.term ≤ (handle_vote c is_utf8 cs ws t a).1.state.term
    unfolding handle_vote
    vote_term t = ground arith

    adopt_history_term :
        (t start : ℕ) (h : TermHistory)
        → (adopt_history c is_utf8 cs ws t start h a).1.state.term ≡ a.state.term
    unfolding adopt_history
    adopt_history_term t start h = ground arith

    write_records_term :
        (b e co ho : ℕ) (r : Bytes)
        → (write_records c is_utf8 cs ws b e co ho r a).1.state.term ≡ a.state.term
    unfolding write_records
    write_records_term b e co ho r = ground arith

    append_term :
        (t b e co ho : ℕ) (r : Bytes)
        → (handle_append c is_utf8 cs ws t b e co ho r a).1.state.term ≡ a.state.term
    append_term t b e co ho r =
        let shut = write_records_term b e co ho r in unfold handle_append in ground (arith, shut)

    read_term : (from to : ℕ) → (handle_read c is_utf8 cs ws from to a).1.state.term ≡ a.state.term
    unfolding handle_read
    read_term from to = ground arith

  elected_term :
      (a : Node c is_utf8 cs ws) (t start : ℕ) (h : TermHistory)
      → a.state.term ≤ (handle_elected c is_utf8 cs ws t start h a).1.state.term
  unfolding handle_elected
  elected_term a t start h = ground arith

  -- No request, answered or refused, lowers the acceptor's term.
  process_term :
      (m : Message) (a : Node c is_utf8 cs ws)
      → a.state.term ≤ (process c is_utf8 cs ws m a).1.state.term
  unfolding process
  process_term (Message.greeting id) a = ground (arith, greeting_term a id)
  process_term (Message.vote_request t) a = ground (arith, vote_term a t)
  process_term (Message.elected t start h) a = ground (arith, elected_term a t start h)
  process_term (Message.append t b e co ho r) a = ground (arith, append_term a t b e co ho r)
  process_term (Message.read from to) a = ground (arith, read_term a from to)
  process_term _ a = ground arith
