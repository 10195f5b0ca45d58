-- ===== src/Quorum/Acceptor/Durable.antt =====
-- Persist before respond: what the control file holds when a response leaves.
use Prim.Native.String.{String}
use mathlib.Core.Path.{sym, subst}
use icegres.Prelude.{
  ℕ, ◌≤◌, ◌≡◌, Option, none, some, Bool, false, min, max, ltb, Bool-cases, inl, inr, arith,
}
use icegres.Prelude.Bytes.{Bytes}
use icegres.Segment.{Crc}
use icegres.Quorum.TermHistory.{TermHistory}
use icegres.Quorum.Message.{Message}
use icegres.Quorum.Stores.{ControlStore, ControlLaws, WalStore, PersistentState}
use icegres.Quorum.Acceptor.{
  Node, persist, raise_term, advance, adopt_history, write_records, handle_greeting, handle_vote,
  handle_elected, handle_append, handle_read, handle, process,
}
use icegres.Quorum.Acceptor.Process.{process-live, process-wedged}

module _ (c : Crc) (is_utf8 : Bytes → Bool) (cs : ControlStore) (cl : ControlLaws cs)
    (ws : WalStore) where
  abbrev pub durable_term : Node c is_utf8 cs ws → ℕ
  durable_term a = (cl.durable a.ctrl).term

  -- Unless the acceptor is wedged, the control file holds its term.
  abbrev pub IsDurable : Node c is_utf8 cs ws → Type 0
  IsDurable a = a.wedged ≡ false → durable_term a ≡ a.state.term

  -- From a node whose term is durable to one whose term is.
  pub record Durably (a b : Node c is_utf8 cs ws) : Type 0 where
    pub kept : IsDurable b
    pub grows : durable_term a ≤ durable_term b

  module _ (a : Node c is_utf8 cs ws) (d : IsDurable a) (w : a.wedged ≡ false) where
    persist-Durably :
        (next : PersistentState)
        → a.state.term ≤ next.term
        → Durably a (persist c is_utf8 cs ws next a).1
    unfolding persist
    persist-Durably next h = record {
      kept = ground (arith, cl.persist_ok a.ctrl next);
      grows = ground (arith, cl.persist_ok a.ctrl next, cl.persist_err a.ctrl next);
    }

    greeting-Durably : (id : Option String) → Durably a (handle_greeting c is_utf8 cs ws id a).1
    unfolding handle_greeting
    greeting-Durably none = record { kept = ground arith; grows = ground arith }
    greeting-Durably (some id) =
        let keep = persist-Durably (record a.state { tail_id = some id }) (omega arith) in
        record { kept = ground (arith, keep.kept); grows = ground (arith, keep.grows) }

    raise-Durably : (t : ℕ) → Durably a (raise_term c is_utf8 cs ws t a).1
    unfolding raise_term
    raise-Durably t = record {
      kept = ground (arith, cl.persist_ok a.ctrl (record a.state { term = t }));
      grows = ground (
        arith,
        cl.persist_ok a.ctrl (record a.state { term = t }),
        cl.persist_err a.ctrl (record a.state { term = t }),
      );
    }

    adopt_history-Durably :
        (t start : ℕ) (h : TermHistory) → Durably a (adopt_history c is_utf8 cs ws t start h a).1
    unfolding adopt_history
    adopt_history-Durably t start h =
        let wal' = (ws.truncate_from a.wal start).1 in
        let next : PersistentState = record a.state {
          term_history = h;
          commit_lsn = min a.state.commit_lsn (ws.flush_lsn wal');
        } in
        record {
          kept = ground (arith, cl.persist_ok a.ctrl next);
          grows = ground (arith, cl.persist_ok a.ctrl next, cl.persist_err a.ctrl next);
        }

    advance-Durably : (co ho : ℕ) → Durably a (advance c is_utf8 cs ws co ho a).1
    unfolding advance
    advance-Durably co ho =
        let co' = min (max co a.state.commit_lsn) (ws.flush_lsn a.wal) in
        let next : PersistentState = record a.state {
          commit_lsn = co';
          horizon_lsn = max a.state.horizon_lsn (min ho co');
        } in
        record {
          kept = ground (arith, cl.persist_ok a.ctrl next);
          grows = ground (arith, cl.persist_ok a.ctrl next, cl.persist_err a.ctrl next);
        }

  module _ (a : Node c is_utf8 cs ws) (d : IsDurable a) (w : a.wedged ≡ false) where
    write_records-Durably :
        (b e co ho : ℕ) (r : Bytes) → Durably a (write_records c is_utf8 cs ws b e co ho r a).1
    write_records-Durably b e co ho r =
        let a' : Node c is_utf8 cs ws = record a { wal = (ws.append a.wal b r).1 } in
        let step = advance-Durably a' d w co ho in
        record {
          kept = unfold write_records in ground (arith, step.kept);
          grows = unfold write_records in ground (arith, step.grows);
        }

    append-Durably :
        (t b e co ho : ℕ) (r : Bytes) → Durably a (handle_append c is_utf8 cs ws t b e co ho r a).1
    append-Durably t b e co ho r =
        let step = write_records-Durably b e co ho r in
        record {
          kept = unfold handle_append in ground (arith, step.kept);
          grows = unfold handle_append in ground (arith, step.grows);
        }

    read-Durably : (from to : ℕ) → Durably a (handle_read c is_utf8 cs ws from to a).1
    unfolding handle_read
    read-Durably from to = record { kept = ground arith; grows = ground arith }

    vote-Durably : (t : ℕ) → Durably a (handle_vote c is_utf8 cs ws t a).1
    unfolding handle_vote
    vote-Durably t =
        let step = raise-Durably a d w t in
        record { kept = ground (arith, step.kept); grows = ground (arith, step.grows) }

    elected-Durably :
        (t start : ℕ) (h : TermHistory) → Durably a (handle_elected c is_utf8 cs ws t start h a).1
    elected-Durably t start h =
        let next : PersistentState = record a.state { term = t } in
        let b : Node c is_utf8 cs ws = record a {
          state = next;
          ctrl = (cs.persist a.ctrl next).1;
        } in
        let same = adopt_history-Durably a d w t start h in
        elim (Bool-cases (ltb a.state.term t)) [
          | inl lower ↦ elim (Bool-cases ((cs.persist a.ctrl next).0)) [
            | inl kept ↦
                let step =
                  adopt_history-Durably b (λ _. ground (arith, cl.persist_ok a.ctrl next)) w t start
                    h in
                let up = persist-Durably a d w next (ground arith) in
                record {
                  kept = unfold handle_elected in ground (arith, step.kept);
                  grows =
                      unfold handle_elected in
                      ground (arith, step.grows, cl.persist_ok a.ctrl next);
                }
            | inr lost ↦ record {
              kept = unfold handle_elected in ground arith;
              grows = unfold handle_elected in ground (arith, cl.persist_err a.ctrl next);
            }
          ]
          | inr same_term ↦ record {
            kept = unfold handle_elected in ground (arith, same.kept);
            grows = unfold handle_elected in ground (arith, same.grows);
          }
        ]

  handle-Durably :
      (m : Message) (a : Node c is_utf8 cs ws)
      → IsDurable a
      → a.wedged ≡ false
      → Durably a (handle c is_utf8 cs ws m a).1
  unfolding handle
  handle-Durably (Message.greeting id) a d w = greeting-Durably a d w id
  handle-Durably (Message.vote_request t) a d w = vote-Durably a d w t
  handle-Durably (Message.elected t start h) a d w = elected-Durably a d w t start h
  handle-Durably (Message.append t b e co ho r) a d w = append-Durably a d w t b e co ho r
  handle-Durably (Message.read from to) a d w = read-Durably a d w from to
  handle-Durably _ a d w = record { kept = d; grows = omega arith }

  -- Whatever the request, and whether or not a write to the control file fails: unless the acceptor
  -- is then wedged, its control file holds its term when the response leaves, and the term in the
  -- control file has not gone down.
  pub process-Durably :
      (m : Message) (a : Node c is_utf8 cs ws)
      → IsDurable a
      → Durably a (process c is_utf8 cs ws m a).1
  process-Durably m a d = elim (Bool-cases a.wedged) [
    | inl stuck ↦
        subst (λ r. Durably a r.1) (sym (process-wedged c is_utf8 cs ws m a stuck))
          (record { kept = d; grows = omega arith })
    | inr w ↦
        subst (λ r. Durably a r.1) (sym (process-live c is_utf8 cs ws m a w))
          (handle-Durably m a d w)
  ]
