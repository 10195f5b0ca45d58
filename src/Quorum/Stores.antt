-- ===== src/Quorum/Stores.antt =====
-- icegres/src/quorum/acceptor.rs: what an acceptor persists, and the two traits through which it
-- does, `ControlStore` and `WalStore`, each with the laws that a client of it relies on.
use Prim.Native.String.{String}
use icegres.Prelude.{
  ℕ, ◌+◌, ◌^◌, ◌≤◌, ◌<◌, ◌≡◌, ◌⊎◌, Option, none, [], Bool, true, false, length, min,
}
use icegres.Prelude.Bytes.{Bytes}
use icegres.Prelude.Results.{Result, ok, err}
use icegres.Quorum.TermHistory.{TermHistory}
use icegres.Quorum.Message.{WalError}

pub record PersistentState : Type 0 where
  pub tail_id : Option String
  pub node_id : ℕ
  pub term : ℕ
  pub term_history : TermHistory
  pub commit_lsn : ℕ
  pub horizon_lsn : ℕ

-- `PersistentState::new`.
unfoldable pub new_state : ℕ → PersistentState
new_state node_id = record {
  tail_id = none;
  node_id = node_id;
  term = 0;
  term_history = [];
  commit_lsn = 0;
  horizon_lsn = 0;
}

-- The trait `ControlStore`: `persist` says whether it succeeded, and returns the store after it.
pub record ControlStore : Type 1 where
  pub Store : Type 0
  pub persist : Store → PersistentState → Bool × Store

-- The trait `WalStore`.
pub record WalStore : Type 1 where
  pub Wal : Type 0
  pub flush_lsn : Wal → ℕ
  pub is_empty : Wal → Bool
  pub append : Wal → ℕ → Bytes → Result WalError (Unit {0}) × Wal
  pub truncate_from : Wal → ℕ → Result WalError (Unit {0}) × Wal
  pub drop_below : Wal → ℕ → Wal
  pub retained_start : Wal → ℕ
  pub read : Wal → ℕ → ℕ → Result WalError Bytes

-- A successful `persist` is durable; a failed one leaves the old document or the new one.
pub record ControlLaws (cs : ControlStore) : Type 1 where
  pub durable : cs.Store → PersistentState
  pub persist_ok :
      (s : cs.Store) (p : PersistentState)
      → (cs.persist s p).0 ≡ true
      → durable (cs.persist s p).1 ≡ p
  pub persist_err :
      (s : cs.Store) (p : PersistentState)
      → (cs.persist s p).0 ≡ false
      → (durable (cs.persist s p).1 ≡ p) ⊎ (durable (cs.persist s p).1 ≡ durable s)

-- The log as a client sees it: `byte w p` is the byte at position `p`, where it is retained.
pub record WalLaws (ws : WalStore) : Type 1 where
  pub IsWf : ws.Wal → Type 0
  pub byte : ws.Wal → ℕ → Option ℕ
  pub append_wf :
      (w : ws.Wal) (b : ℕ) (f : Bytes) → b + length f < 2 ^ 63 → IsWf w → IsWf (ws.append w b f).1
  pub append_ok :
      (w : ws.Wal) (b : ℕ) (f : Bytes)
      → (ws.append w b f).0 ≡ ok tt
      → ws.is_empty (ws.append w b f).1 ≡ false
  pub append_flush :
      (w : ws.Wal) (b : ℕ) (f : Bytes)
      → b + length f < 2 ^ 63
      → IsWf w
      → ws.is_empty w ≡ false
      → (ws.append w b f).0 ≡ ok tt
      → (b ≡ ws.flush_lsn w) × (ws.flush_lsn (ws.append w b f).1 ≡ b + length f)
  pub append_err :
      (w : ws.Wal) (b : ℕ) (f : Bytes) (e : WalError)
      → (ws.append w b f).0 ≡ err e
      → (ws.is_empty (ws.append w b f).1 ≡ ws.is_empty w)
        × ((ws.is_empty w ≡ false) → ws.flush_lsn (ws.append w b f).1 ≡ ws.flush_lsn w)
  pub append_byte :
      (w : ws.Wal) (b : ℕ) (f : Bytes) (p : ℕ)
      → b + length f < 2 ^ 63
      → IsWf w
      → ws.is_empty w ≡ false
      → p < ws.flush_lsn w
      → byte (ws.append w b f).1 p ≡ byte w p
  pub truncate_wf : (w : ws.Wal) (l : ℕ) → IsWf w → IsWf (ws.truncate_from w l).1
  pub truncate_empty : (w : ws.Wal) (l : ℕ) → ws.is_empty (ws.truncate_from w l).1 ≡ ws.is_empty w
  pub truncate_ok :
      (w : ws.Wal) (l : ℕ)
      → (ws.truncate_from w l).0 ≡ ok tt
      → ws.flush_lsn (ws.truncate_from w l).1 ≡ min (ws.flush_lsn w) l
  pub truncate_err :
      (w : ws.Wal) (l : ℕ) (e : WalError)
      → (ws.truncate_from w l).0 ≡ err e
      → ws.flush_lsn (ws.truncate_from w l).1 ≡ ws.flush_lsn w
  pub truncate_byte :
      (w : ws.Wal) (l p : ℕ) → IsWf w → p < l → byte (ws.truncate_from w l).1 p ≡ byte w p
  pub drop_wf : (w : ws.Wal) (h : ℕ) → IsWf w → IsWf (ws.drop_below w h)
  pub drop_flush : (w : ws.Wal) (h : ℕ) → ws.flush_lsn (ws.drop_below w h) ≡ ws.flush_lsn w
  pub drop_empty : (w : ws.Wal) (h : ℕ) → ws.is_empty (ws.drop_below w h) ≡ ws.is_empty w
  pub drop_byte : (w : ws.Wal) (h p : ℕ) → IsWf w → h ≤ p → byte (ws.drop_below w h) p ≡ byte w p
