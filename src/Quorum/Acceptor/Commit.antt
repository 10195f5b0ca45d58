-- ===== src/Quorum/Acceptor/Commit.antt =====
-- The committed part of the log: never beyond what the log holds, never rewound, never rewritten.
use mathlib.Core.Path.{sym, subst}
use Prim.Native.String.{String}
use icegres.Prelude.{
  ℕ, ◌+◌, ◌^◌, ◌≤◌, ◌<◌, ◌≡◌, refl, Option, Bool, true, false, arith, length, min, max, Bool-cases,
  inl, inr,
}
use icegres.Prelude.Bytes.{Bytes}
use icegres.Prelude.Results.{ok, Result-cases}
use icegres.Segment.{Crc}
use icegres.Quorum.TermHistory.{TermHistory}
use icegres.Quorum.Message.{Message}
use icegres.Quorum.Stores.{ControlStore, WalStore, WalLaws, PersistentState}
use icegres.Quorum.Acceptor.{
  Node, advance, adopt_history, write_records, handle_greeting, handle_vote, handle_elected,
  handle_append, handle_read, handle, process,
}
use icegres.Quorum.Acceptor.Process.{process-live, process-wedged}

-- What an append carries ends in the lower half of `u64`.
abbrev pub InRange : Message → Type 0
InRange (Message.append _ begin_lsn _ _ _ records) = begin_lsn + length records < 2 ^ 63
InRange _ = Unit {0}

module _ (c : Crc) (is_utf8 : Bytes → Bool) (cs : ControlStore) (ws : WalStore)
    (wl : WalLaws ws) where
  pub record IsSound (a : Node c is_utf8 cs ws) : Type 0 where
    pub held : a.state.commit_lsn ≤ ws.flush_lsn a.wal
    pub fresh : ws.is_empty a.wal ≡ true → a.state.commit_lsn ≡ 0
    pub wf : wl.IsWf a.wal

  -- What a step from `a` to `b` keeps of the committed log.
  pub record KeepsCommitted (a b : Node c is_utf8 cs ws) : Type 0 where
    pub sound : IsSound b
    pub grows : a.state.commit_lsn ≤ b.state.commit_lsn
    pub bytes :
        (p : ℕ)
        → b.state.horizon_lsn ≤ p
        → p < a.state.commit_lsn
        → wl.byte b.wal p ≡ wl.byte a.wal p

  truncate_least :
      (w : ws.Wal) (l : ℕ) → min (ws.flush_lsn w) l ≤ ws.flush_lsn (ws.truncate_from w l).1
  truncate_least w l = elim (Result-cases (ws.truncate_from w l).0) [
    | inl (u, done) ↦ omega (arith, wl.truncate_ok w l done)
    | inr (e, failed) ↦ omega (arith, wl.truncate_err w l e failed)
  ]

  module _ (a : Node c is_utf8 cs ws) (s : IsSound a) where
    greeting_keeps :
        (id : Option String) → KeepsCommitted a (handle_greeting c is_utf8 cs ws id a).1
    unfolding handle_greeting
    greeting_keeps id = record {
      sound = record {
        held = ground (arith, s.held);
        fresh = ground (arith, s.fresh);
        wf = ground (arith, s.wf);
      };
      grows = ground arith;
      bytes = λ p h k. ground arith;
    }

    vote_keeps : (t : ℕ) → KeepsCommitted a (handle_vote c is_utf8 cs ws t a).1
    unfolding handle_vote
    vote_keeps t = record {
      sound = record {
        held = ground (arith, s.held);
        fresh = ground (arith, s.fresh);
        wf = ground (arith, s.wf);
      };
      grows = ground arith;
      bytes = λ p h k. ground arith;
    }

    read_keeps : (from to : ℕ) → KeepsCommitted a (handle_read c is_utf8 cs ws from to a).1
    unfolding handle_read
    read_keeps from to = record {
      sound = record {
        held = ground (arith, s.held);
        fresh = ground (arith, s.fresh);
        wf = ground (arith, s.wf);
      };
      grows = ground arith;
      bytes = λ p h k. ground arith;
    }

    advance_keeps :
        (co ho : ℕ)
        → ws.is_empty a.wal ≡ false
        → KeepsCommitted a (advance c is_utf8 cs ws co ho a).1
    unfolding advance
    advance_keeps co ho full =
        let co' = min (max co a.state.commit_lsn) (ws.flush_lsn a.wal) in
        let h' = max a.state.horizon_lsn (min ho co') in
        record {
          sound = record {
            held = ground (arith, s.held, wl.drop_flush a.wal h');
            fresh = ground (arith, wl.drop_empty a.wal h');
            wf = ground (arith, s.wf, wl.drop_wf a.wal h');
          };
          grows = ground (arith, s.held);
          bytes = λ p h k. ground (arith, wl.drop_byte a.wal h' p s.wf);
        }

    adopt_history_keeps :
        (t start : ℕ) (h : TermHistory)
        → KeepsCommitted a (adopt_history c is_utf8 cs ws t start h a).1
    unfolding adopt_history
    adopt_history_keeps t start h =
        let least = truncate_least a.wal start in
        let same = wl.truncate_empty a.wal start in
        record {
          sound = record {
            held = ground (arith, s.held, least);
            fresh = ground (arith, s.fresh, same);
            wf = ground (arith, s.wf, wl.truncate_wf a.wal start);
          };
          grows = ground (arith, s.held, least);
          bytes = λ p lo hi. ground (arith, wl.truncate_byte a.wal start p s.wf);
        }

  module _ (a : Node c is_utf8 cs ws) (s : IsSound a) where
    append_held :
        (b : ℕ) (r : Bytes)
        → b + length r < 2 ^ 63
        → (ws.append a.wal b r).0 ≡ ok tt
        → a.state.commit_lsn ≤ ws.flush_lsn (ws.append a.wal b r).1
    append_held b r fits done = elim (Bool-cases (ws.is_empty a.wal)) [
      | inl empty ↦ omega (arith, s.fresh empty)
      | inr full ↦ omega (arith, s.held, wl.append_flush a.wal b r fits s.wf full done)
    ]

    append_bytes :
        (b : ℕ) (r : Bytes) (p : ℕ)
        → b + length r < 2 ^ 63
        → p < a.state.commit_lsn
        → wl.byte (ws.append a.wal b r).1 p ≡ wl.byte a.wal p
    append_bytes b r p fits h = elim (Bool-cases (ws.is_empty a.wal)) [
      | inl empty ↦ absurd (omega (arith, s.fresh empty))
      | inr full ↦ wl.append_byte a.wal b r p fits s.wf full (omega (arith, s.held))
    ]

    write_records_keeps :
        (b e co ho : ℕ) (r : Bytes)
        → b + length r < 2 ^ 63
        → KeepsCommitted a (write_records c is_utf8 cs ws b e co ho r a).1
    write_records_keeps b e co ho r fits =
        let w' = (ws.append a.wal b r).1 in
        let after : Node c is_utf8 cs ws = record a { wal = w' } in
        elim (Result-cases (ws.append a.wal b r).0) [
          | inl (u, done) ↦
              let nonempty = wl.append_ok a.wal b r done in
              let held = append_held b r fits done in
              let step =
                advance_keeps after
                  (record { held = held; fresh = λ f. cc; wf = wl.append_wf a.wal b r fits s.wf })
                  co ho nonempty in
              record {
                sound = record {
                  held = unfold write_records in ground (arith, s.held, step.sound.held);
                  fresh = unfold write_records in ground (arith, s.fresh, step.sound.fresh);
                  wf = unfold write_records in ground (arith, s.wf, step.sound.wf);
                };
                grows = unfold write_records in ground (arith, step.grows);
                bytes = λ p lo hi.
                    unfold write_records in
                    ground (arith, append_bytes b r p fits hi, step.bytes p);
              }
          | inr (x, failed) ↦
              let same = wl.append_err a.wal b r x failed in
              let sound_wf = wl.append_wf a.wal b r fits s.wf in
              record {
                sound = record {
                  held = unfold write_records in ground (arith, s.held, s.fresh, same);
                  fresh = unfold write_records in ground (arith, s.fresh, same);
                  wf = unfold write_records in ground (arith, s.wf, sound_wf);
                };
                grows = unfold write_records in ground arith;
                bytes =
                    λ p lo hi. unfold write_records in ground (arith, append_bytes b r p fits hi);
              }
        ]

    append_keeps :
        (t b e co ho : ℕ) (r : Bytes)
        → b + length r < 2 ^ 63
        → KeepsCommitted a (handle_append c is_utf8 cs ws t b e co ho r a).1
    append_keeps t b e co ho r fits =
        let step = write_records_keeps b e co ho r fits in
        record {
          sound = record {
            held = unfold handle_append in ground (arith, s.held, step.sound.held);
            fresh = unfold handle_append in ground (arith, s.fresh, step.sound.fresh);
            wf = unfold handle_append in ground (arith, s.wf, step.sound.wf);
          };
          grows = unfold handle_append in ground (arith, step.grows);
          bytes = λ p lo hi. unfold handle_append in ground (arith, step.bytes p);
        }

    elected_keeps :
        (t start : ℕ) (h : TermHistory)
        → KeepsCommitted a (handle_elected c is_utf8 cs ws t start h a).1
    elected_keeps t start h =
        let next : PersistentState = record a.state { term = t } in
        let b : Node c is_utf8 cs ws = record a {
          state = next;
          ctrl = (cs.persist a.ctrl next).1;
        } in
        let here = adopt_history_keeps a s t start h in
        let there =
          adopt_history_keeps b (record { held = s.held; fresh = s.fresh; wf = s.wf }) t start h in
        record {
          sound = record {
            held =
                unfold handle_elected in ground (arith, s.held, here.sound.held, there.sound.held);
            fresh =
                unfold handle_elected in
                ground (arith, s.fresh, here.sound.fresh, there.sound.fresh);
            wf = unfold handle_elected in ground (arith, s.wf, here.sound.wf, there.sound.wf);
          };
          grows = unfold handle_elected in ground (arith, here.grows, there.grows);
          bytes = λ p lo hi. unfold handle_elected in ground (arith, here.bytes p, there.bytes p);
        }

  handle_keeps :
      (m : Message) (a : Node c is_utf8 cs ws)
      → InRange m
      → IsSound a
      → KeepsCommitted a (handle c is_utf8 cs ws m a).1
  unfolding handle
  handle_keeps (Message.greeting id) a r s = greeting_keeps a s id
  handle_keeps (Message.vote_request t) a r s = vote_keeps a s t
  handle_keeps (Message.elected t start h) a r s = elected_keeps a s t start h
  handle_keeps (Message.append t b e co ho f) a r s = append_keeps a s t b e co ho f r
  handle_keeps (Message.read from to) a r s = read_keeps a s from to
  handle_keeps _ a r s = record { sound = s; grows = omega arith; bytes = λ p lo hi. refl }

  -- Whatever the request, answered or refused, and whichever storage operations fail: the commit
  -- position stays within the log and does not go down, and every byte below the commit position
  -- that had been reached and at or above the new horizon stays as it was. The end of an append is
  -- taken to lie in the lower half of `u64`.
  pub process_keeps :
      (m : Message) (a : Node c is_utf8 cs ws)
      → InRange m
      → IsSound a
      → KeepsCommitted a (process c is_utf8 cs ws m a).1
  process_keeps m a r s = elim (Bool-cases a.wedged) [
    | inl stuck ↦
        subst (λ x. KeepsCommitted a x.1) (sym (process-wedged c is_utf8 cs ws m a stuck))
          (record { sound = s; grows = omega arith; bytes = λ p lo hi. refl })
    | inr w ↦
        subst (λ x. KeepsCommitted a x.1) (sym (process-live c is_utf8 cs ws m a w))
          (handle_keeps m a r s)
  ]
