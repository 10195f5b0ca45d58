-- ===== src/Tail.antt =====
-- icegres/src/tail.rs, `LocalWal`: one segment of a table's tail, its appenders and the fsync that they
-- share. Each event is what one task does between two moments at which another may run; the tables
-- lock and the lock of the segment make it indivisible in the source.
pub mod Safe
pub mod Writes
pub mod Syncs
pub mod GroupSync
pub mod Names
pub mod Watermark
pub mod Replay
use icegres.Prelude.{
  ℕ, zero, suc, ◌+◌, ◌-◌, ◌≤◌, Option, none, some, List, [], ◌∷◌, Bool, true, false, not, ◌&&◌,
  ◌||◌, leb, ltb, ◌==◌, if◌then◌else◌, max, min, nth?,
}
use icegres.Prelude.Bytes.{add_u64}

pub record SegSyncState : Type 0 where
  pub written_len : ℕ
  pub written_seq : ℕ
  pub synced_len : ℕ
  pub synced_seq : ℕ
  pub syncing : Bool
  pub failed : Bool
  pub cleaned : Bool

abbrev pub new : ℕ → SegSyncState
new base_seq = record {
  written_len = 0;
  written_seq = base_seq;
  synced_len = 0;
  synced_seq = base_seq;
  syncing = false;
  failed = false;
  cleaned = false;
}

-- What a round of `wait_group_sync` comes to: the failure, success, a sync to lead that will cover
-- what is written now, or to wait for the leader.
pub data Round : Type 0 where
  fails : Round
  satisfied : Round
  leads : (target_len target_seq : ℕ) → Round
  waits : Round

abbrev pub wait_round : SegSyncState → ℕ → Round
wait_round st my_end =
    if st.failed
    then fails
    else if leb my_end st.synced_len
    then satisfied
    else if not st.syncing
    then leads st.written_len st.written_seq
    else waits

-- The leader is back from `sync_data`.
abbrev pub end_sync : SegSyncState → ℕ × ℕ → Bool → SegSyncState
end_sync st (target_len, target_seq) false = record st { syncing = false; failed = true }
end_sync st (target_len, target_seq) true =
    if not st.failed && not st.cleaned
    then record st {
      syncing = false;
      synced_len = max st.synced_len target_len;
      synced_seq = max st.synced_seq target_seq;
    }
    else record st { syncing = false }

-- The segment with its entry of the table: `active`, `good_len`, `max_seq` and `next_seq` are the
-- entry's, `leader` what the leading waiter snapshot, `sealed_seq` what the segment was sealed with.
-- `file_len` is the length of the file and `clamp` its poison marker; of the file, `stable_len` bytes
-- have been covered by a completed sync. `staged` and `acked` list the frames that were written and
-- those whose waiters returned success, with their sequences and ends, the last first.
pub record TailSegment : Type 0 where
  pub sync : SegSyncState
  pub leader : Option (ℕ × ℕ)
  pub active : Bool
  pub good_len : ℕ
  pub max_seq : ℕ
  pub next_seq : ℕ
  pub sealed_seq : Option ℕ
  pub file_len : ℕ
  pub clamp : Option ℕ
  pub stable_len : ℕ
  pub staged : List (ℕ × ℕ)
  pub acked : List (ℕ × ℕ)

-- A segment that `append_staged` has just created.
abbrev pub create : ℕ → TailSegment
create next_seq = record {
  sync = new (next_seq - 1);
  leader = none;
  active = true;
  good_len = 0;
  max_seq = 0;
  next_seq = next_seq;
  sealed_seq = none;
  file_len = 0;
  clamp = none;
  stable_len = 0;
  staged = [];
  acked = [];
}

pub data Event : Type 0 where
  -- A frame of so many bytes was written.
  wrote : ℕ → Event
  -- A write failed with so many bytes in the file, and its roll back succeeded or failed.
  write_failed : ℕ → Bool → Event
  -- The waiter of the staged frame of that number goes round its loop.
  waited : ℕ → Event
  -- `sync_data` returned to the leader.
  synced : Bool → Event
  -- `cleanup_failed_segment_locked`, whose roll back of the file succeeded or failed.
  cleanup : Bool → Event
  rotate : Event
  ensure_seq_floor : ℕ → Event

abbrev pub stage : TailSegment → ℕ → TailSegment
stage s n =
    let end = s.good_len + suc n in
    if s.active
    then record s {
      good_len = end;
      file_len = end;
      max_seq = s.next_seq;
      next_seq = s.next_seq + 1;
      sync = record (s.sync) { written_len = end; written_seq = s.next_seq };
      staged = (s.next_seq, end) ∷ s.staged;
    }
    else s

abbrev pub fail_write : TailSegment → ℕ → Bool → TailSegment
fail_write s n true = if s.active then record s { file_len = s.good_len } else s
fail_write s n false =
    if s.active
    then record s { file_len = s.good_len + n; sync = record (s.sync) { failed = true } }
    else s

abbrev pub after_round : TailSegment → ℕ × ℕ → Round → TailSegment
after_round s frame fails = s
after_round s frame satisfied = record s { acked = frame ∷ s.acked }
after_round s frame (leads target_len target_seq) = record s {
  sync = record (s.sync) { syncing = true };
  leader = some (target_len, target_seq);
}
after_round s frame waits = s

abbrev pub wait_frame : TailSegment → Option (ℕ × ℕ) → TailSegment
wait_frame s none = s
wait_frame s (some (seq, end)) = after_round s (seq, end) (wait_round s.sync end)

-- A sync that succeeds covers the bytes that were in the file when it began.
abbrev pub finish_sync : TailSegment → Option (ℕ × ℕ) → Bool → TailSegment
finish_sync s none ok = s
finish_sync s (some (len, seq)) ok = record s {
  sync = end_sync s.sync (len, seq) ok;
  leader = none;
  stable_len = if ok then max s.stable_len len else s.stable_len;
}

abbrev pub seal_at : TailSegment → Bool → TailSegment
seal_at s undone =
    let st = s.sync in
    let len = if undone then st.synced_len else s.file_len in
    let marker = if undone then none else some st.synced_len in
    let seal = if ltb 0 st.synced_len then some st.synced_seq else none in
    if s.active
    then record s {
      sync = record st { cleaned = true };
      active = false;
      file_len = len;
      clamp = marker;
      sealed_seq = seal;
    }
    else record s { sync = record st { cleaned = true } }

-- The cleanup runs once, for a failure, and waits until no sync is in flight.
abbrev pub clean_up : TailSegment → Bool → TailSegment
clean_up s undone =
    if s.sync.cleaned || not s.sync.failed || s.sync.syncing then s else seal_at s undone

-- A rotation seals the segment where a sync has covered all that was written.
abbrev pub rotate_synced : TailSegment → Round → TailSegment
rotate_synced s satisfied = record s { active = false; sealed_seq = some s.max_seq }
rotate_synced s _ = s

abbrev pub rotate_segment : TailSegment → TailSegment
rotate_segment s =
    if not s.active
    then s
    else if s.max_seq == 0
    then record s { active = false }
    else rotate_synced s (wait_round s.sync s.sync.written_len)

unfoldable pub after_event : TailSegment → Event → TailSegment
after_event s (wrote n) = stage s n
after_event s (write_failed n undone) = fail_write s n undone
after_event s (waited i) = wait_frame s (nth? s.staged i)
after_event s (synced ok) = finish_sync s s.leader ok
after_event s (cleanup undone) = clean_up s undone
after_event s rotate = rotate_segment s
after_event s (ensure_seq_floor floor) = record s { next_seq = max s.next_seq floor }

unfoldable pub after_events : TailSegment → List Event → TailSegment
unfolding after_event
after_events s [] = s
after_events s (e ∷ es) = after_events (after_event s e) es

-- What a replay reads of the file, of the bytes that a crash cannot take.
abbrev pub replayable : TailSegment → ℕ
replayable s = min s.stable_len (elim s.clamp [ none ↦ s.file_len | some k ↦ min k s.file_len ])
