-- ===== src/Examples/Setting.antt =====
-- Concrete values for the parameters of the development.
use icegres.Prelude.{
  ℕ, ◌+◌, ◌%◌, ◌^◌, ◌≡◌, ◌⊎◌, inr, refl, none, some, List, [], ◌∷◌, Bool, true, false, arith,
}
use icegres.Prelude.Bytes.{Bytes}
use icegres.Segment.{Crc}
use icegres.Quorum.Record.{Record, record_frame}
use icegres.Quorum.Stores.{PersistentState, ControlStore, ControlLaws}
use icegres.Quorum.SegmentWal.{SegmentWal, segment_wal}
use icegres.Quorum.Acceptor.{Node}

abbrev pub total : Bytes → ℕ
total [] = 0
total (b ∷ bs) = b + total bs

-- The sum of the bytes in place of the library's CRC-32.
abbrev pub crc : Crc
crc = record { hash = λ bs. total bs % 2 ^ 32; hash_u32 = λ bs. omega arith }

abbrev pub any_utf8 : Bytes → Bool
any_utf8 _ = true

abbrev pub memory_persist :
    PersistentState × List Bool → PersistentState → Bool × (PersistentState × List Bool)
memory_persist (old, []) p = (true, (p, []))
memory_persist (old, true ∷ outcomes) p = (true, (p, outcomes))
memory_persist (old, false ∷ outcomes) p = (false, (old, outcomes))

abbrev pub memory_store : ControlStore
memory_store = record { Store = PersistentState × List Bool; persist = memory_persist }

pub memory_persist_ok :
    (s : PersistentState × List Bool) (p : PersistentState)
    → (memory_persist s p).0 ≡ true
    → (memory_persist s p).1.0 ≡ p
memory_persist_ok (old, []) p h = refl
memory_persist_ok (old, true ∷ outcomes) p h = refl
memory_persist_ok (old, false ∷ outcomes) p h = cc

pub memory_persist_err :
    (s : PersistentState × List Bool) (p : PersistentState)
    → (memory_persist s p).0 ≡ false
    → ((memory_persist s p).1.0 ≡ p) ⊎ ((memory_persist s p).1.0 ≡ s.0)
memory_persist_err (old, []) p h = cc
memory_persist_err (old, true ∷ outcomes) p h = cc
memory_persist_err (old, false ∷ outcomes) p h = inr refl

abbrev pub memory_laws : ControlLaws memory_store
memory_laws = record {
  durable = λ s. s.0;
  persist_ok = memory_persist_ok;
  persist_err = memory_persist_err;
}

-- A control file whose writes always succeed.
abbrev pub steady_store : ControlStore
steady_store = record { Store = PersistentState; persist = λ old p. (true, p) }

-- An acceptor of term 2 with three bytes in its log, two of them committed.
abbrev pub held_state : PersistentState
held_state = record {
  tail_id = none;
  node_id = 1;
  term = 2;
  term_history = record { term = 2; lsn = 0 } ∷ [];
  commit_lsn = 2;
  horizon_lsn = 0;
}

abbrev pub held_wal : SegmentWal
held_wal = record {
  sealed = [];
  active = some (record { start = 0; end = 3; bytes = 7 ∷ 8 ∷ 9 ∷ [] });
  flush = 3;
  empty = false;
  rotate_bytes = 100;
  wedged = false;
  io = [];
}

abbrev pub holder : Node crc any_utf8 memory_store segment_wal
holder = record { state = held_state; ctrl = (held_state, []); wal = held_wal; wedged = false }

abbrev pub greeting_record : Record
greeting_record = record {
  lsn = 3;
  kind = record_frame;
  table_key = 116 ∷ [];
  seq = 5;
  body = 1 ∷ 2 ∷ [];
}

abbrev pub steady_holder : Node crc any_utf8 steady_store segment_wal
steady_holder = record { state = held_state; ctrl = held_state; wal = held_wal; wedged = false }
