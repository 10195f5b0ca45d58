-- ===== src/Quorum/Acceptor/Answers.antt =====
-- What an acceptor's answer says: the fence, the acknowledged append, the accepted handshake.
use icegres.Prelude.{
  ℕ, ◌≤◌, ◌≡◌, List, Bool, true, false, arith, length, min, ◌==◌, if◌then◌else◌, inl, inr,
}
use icegres.Prelude.Bytes.{Bytes, add_u64}
use icegres.Prelude.Results.{ok, Result-cases}
use icegres.Segment.{Crc}
use icegres.Quorum.TermHistory.{TermHistory, up_to, compute_start, expected_start}
use icegres.Quorum.TermHistory.Handshake.{EndsAt, expected_start-compute_start}
use icegres.Quorum.Record.{Record, decode_records}
use icegres.Quorum.Message.{Message}
use icegres.Quorum.Stores.{ControlStore, WalStore, PersistentState}
use icegres.Quorum.Acceptor.{Node, adopt_history, write_records, handle_append, process}

module _ (c : Crc) (is_utf8 : Bytes → Bool) (cs : ControlStore) (ws : WalStore) where
  module _ (a : Node c is_utf8 cs ws) (t b e co ho : ℕ) (r : Bytes) where
    write_acked :
        {u f k : ℕ}
        → (write_records c is_utf8 cs ws b e co ho r a).0 ≡ ok (Message.append_resp u true f k)
        → ((ws.append a.wal b r).0 ≡ ok tt)
          × (f ≡ ws.flush_lsn (ws.append a.wal b r).1)
          × (b ≡ (if ws.is_empty a.wal then b else ws.flush_lsn a.wal))
          × (add_u64 b (length r) ≡ e)
    write_acked h = unfold write_records in (ground arith, ground arith, ground arith, ground arith)

    write_decodes :
        {u f k : ℕ}
        → (write_records c is_utf8 cs ws b e co ho r a).0 ≡ ok (Message.append_resp u true f k)
        → (recs : List Record) × (decode_records c is_utf8 r b ≡ ok recs)
    write_decodes h = elim (Result-cases (decode_records c is_utf8 r b)) [
      | inl found ↦ found
      | inr (x, bad) ↦ absurd (unfold write_records in ground arith)
    ]

  -- What an acknowledged append has done.
  pub record Acked (a : Node c is_utf8 cs ws) (t b e : ℕ) (r : Bytes) (f : ℕ) : Type 0 where
    pub own_term : a.state.term ≡ t
    pub decoded : (recs : List Record) × (decode_records c is_utf8 r b ≡ ok recs)
    pub ends : add_u64 b (length r) ≡ e
    pub at_end : b ≡ (if ws.is_empty a.wal then b else ws.flush_lsn a.wal)
    pub written : (ws.append a.wal b r).0 ≡ ok tt
    pub reported : f ≡ ws.flush_lsn (ws.append a.wal b r).1

  append_acked :
      (a : Node c is_utf8 cs ws) (t b e co ho : ℕ) (r : Bytes) {u f k : ℕ}
      → (handle_append c is_utf8 cs ws t b e co ho r a).0 ≡ ok (Message.append_resp u true f k)
      → (a.state.term ≡ t)
        × ((write_records c is_utf8 cs ws b e co ho r a).0 ≡ ok (Message.append_resp u true f k))
  append_acked a t b e co ho r h = unfold handle_append in (ground arith, ground arith)

  -- An append that is acknowledged was sent in the acceptor's own term; its bytes decode as records
  -- from `b` on and end at `e`; it began at the write position (any position, on an empty log); the
  -- write reported success; and the flush position in the answer is the log's after that write.
  pub process_acks :
      (a : Node c is_utf8 cs ws) (t b e co ho : ℕ) (r : Bytes) (u f k : ℕ)
      → (process c is_utf8 cs ws (Message.append t b e co ho r) a).0
        ≡ Message.append_resp u true f k
      → Acked a t b e r f
  process_acks a t b e co ho r u f k h =
      let answered : (handle_append c is_utf8 cs ws t b e co ho r a).0
          ≡ ok (Message.append_resp u true f k) =
        unfold process in ground arith in
      let (own, w) = append_acked a t b e co ho r answered in
      let (written, reported, at_end, ends) = write_acked a t b e co ho r w in
      record {
        own_term = own;
        decoded = write_decodes a t b e co ho r w;
        ends = ends;
        at_end = at_end;
        written = written;
        reported = reported;
      }

  module _ (works : (s : cs.Store) (p : PersistentState) → (cs.persist s p).0 ≡ true) where
    adopt_history_accepts :
        (a : Node c is_utf8 cs ws) (t start : ℕ) (prop : TermHistory)
        → expected_start prop
            (up_to a.state.term_history (ws.flush_lsn a.wal))
            (ws.flush_lsn a.wal)
            (ws.is_empty a.wal)
            start
          ≡ ok start
        → a.state.commit_lsn ≤ start
        → (ws.truncate_from a.wal start).0 ≡ ok tt
        → ((adopt_history c is_utf8 cs ws t start prop a).0
            ≡ ok (Message.elected_resp a.state.term true))
          × ((adopt_history c is_utf8 cs ws t start prop a).1.state.term_history ≡ prop)
    adopt_history_accepts a t start prop found above cut =
        let next : PersistentState = record a.state {
          term_history = prop;
          commit_lsn = min a.state.commit_lsn (ws.flush_lsn (ws.truncate_from a.wal start).1);
        } in
        unfold adopt_history in
        (ground (arith, works a.ctrl next), ground (arith, works a.ctrl next))

    -- The handshake succeeds: where the start is the one that the proposer of term `t` computes from
    -- the positions of the acceptor's vote, the acceptor's term is not above `t`, its log is empty
    -- exactly when its flush position is 0, its commit position is not above the start, and its
    -- storage works, the acceptor accepts in term `t` and adopts the whole history.
    pub process_accepts :
        (a : Node c is_utf8 cs ws) (t base start : ℕ) (prop : TermHistory)
        → a.wedged ≡ false
        → a.state.term ≤ t
        → EndsAt t prop
        → ws.is_empty a.wal ≡ (ws.flush_lsn a.wal == 0)
        → compute_start prop
            (up_to a.state.term_history (ws.flush_lsn a.wal))
            (ws.flush_lsn a.wal)
            t
            base
          ≡ ok start
        → a.state.commit_lsn ≤ start
        → (ws.truncate_from a.wal start).0 ≡ ok tt
        → ((process c is_utf8 cs ws (Message.elected t start prop) a).0
            ≡ Message.elected_resp t true)
          × ((process c is_utf8 cs ws (Message.elected t start prop) a).1.state.term_history ≡ prop)
    process_accepts a t base start prop w le ends fresh computed above cut =
        let next : PersistentState = record a.state { term = t } in
        let b : Node c is_utf8 cs ws = record a {
          state = next;
          ctrl = (cs.persist a.ctrl next).1;
        } in
        let found =
          expected_start-compute_start prop a.state.term_history (ws.flush_lsn a.wal) t base start
            (ws.is_empty a.wal) ends fresh computed in
        let here = adopt_history_accepts a t start prop found above cut in
        let there = adopt_history_accepts b t start prop found above cut in
        unfold process in
        (
          ground (arith, here, there, works a.ctrl next),
          ground (arith, here, there, works a.ctrl next),
        )
