-- ===== src/Quorum/SegmentWal.antt =====
-- icegres/src/quorum/acceptor.rs, `SegmentWal`: the record log in segment files. A segment carries
-- the bytes of its file. Whether a file operation succeeds is read off `io`, one outcome for each
-- operation in the order in which the code makes them; when it is used up they all succeed.
pub mod Chain
pub mod Wf
pub mod Write
pub mod Cut
pub mod Laws
pub mod Boot
use icegres.Prelude.{
  ℕ, zero, suc, ◌+◌, ◌-◌, ◌≤◌, ◌<◌, Option, none, some, List, [], ◌∷◌, ◌++◌, Bool, true, false, not,
  ◌&&◌, ◌||◌, length, take, drop, ltb, leb, ◌==◌, min, max, if◌then◌else◌,
}
use icegres.Prelude.Bytes.{Bytes, add_u64}
use icegres.Prelude.Results.{Result, ok, err}
use icegres.Quorum.Message.{
  WalError, wedged_wal, write_position, io_failed, not_retained, shorter_on_disk,
}
use icegres.Quorum.Stores.{WalStore}
use icegres.Quorum.TermHistory.{is_nil}

-- The outcome of a file operation. Of a write that failed, so many bytes reached the file. A cut of a
-- file, which opens it, sets its length and syncs it, fails with 0 before the length is set and with
-- another number behind that.
pub data Io : Type 0 where
  done : Io
  failed : ℕ → Io

pub record Seg : Type 0 where
  pub start : ℕ
  pub end : ℕ
  pub bytes : Bytes

-- `sealed` lists the vector from its last element to its first.
pub record SegmentWal : Type 0 where
  pub sealed : List Seg
  pub active : Option Seg
  pub flush : ℕ
  pub empty : Bool
  pub rotate_bytes : ℕ
  pub wedged : Bool
  pub io : List Io

abbrev pub next_io : List Io → Io
next_io [] = done
next_io (o ∷ _) = o

abbrev pub rest_io : List Io → List Io
rest_io [] = []
rest_io (_ ∷ os) = os

abbrev pub Outcome : Type 0
Outcome = Result WalError (Unit {0}) × SegmentWal

abbrev pub push_seg : Option Seg → List Seg → List Seg
push_seg none segs = segs
push_seg (some s) segs = if ltb s.start s.end then s ∷ segs else segs

unfoldable pub seal_active : SegmentWal → SegmentWal
seal_active w = record w { sealed = push_seg w.active w.sealed; active = none }

-- `sort_by_key(|s| s.start)`, on the list from the last element to the first.
abbrev pub insert_seg : Seg → List Seg → List Seg
insert_seg s [] = s ∷ []
insert_seg s (x ∷ xs) =
    let rest = insert_seg s xs in if leb x.start s.start then s ∷ x ∷ xs else x ∷ rest

unfoldable pub sort_segs : List Seg → List Seg
sort_segs [] = []
sort_segs (s ∷ ss) = insert_seg s (sort_segs ss)

-- `active.file.write_all(frames)`, its sync, and the roll back of a failed write.
abbrev pub write_active : SegmentWal → Seg → Bytes → Io → List Io → Outcome
write_active w s frames done os =
    let s' : Seg = record s { end = add_u64 s.end (length frames); bytes = s.bytes ++ frames } in
    let w' : SegmentWal = record w { active = some s'; flush = s'.end; empty = false; io = os } in
    if leb w.rotate_bytes (s'.end - s'.start) then (ok tt, seal_active w') else (ok tt, w')
write_active w s frames (failed n) os = elim (next_io os) [
  | done ↦ (
    err io_failed,
    record w {
      active = some (record s { bytes = take (s.end - s.start) s.bytes });
      io = rest_io os;
    },
  )
  | failed _ ↦ (
    err io_failed,
    record w {
      active = some (record s { bytes = s.bytes ++ take n frames });
      wedged = true;
      io = rest_io os;
    },
  )
]

-- The active segment, created and its directory synced where there is none.
abbrev pub with_active : SegmentWal → Option Seg → ℕ → Bytes → Outcome
with_active w (some s) begin_lsn frames = write_active w s frames (next_io w.io) (rest_io w.io)
with_active w none begin_lsn frames =
    let os = rest_io w.io in
    let s : Seg = record { start = begin_lsn; end = begin_lsn; bytes = [] } in
    elim (next_io w.io) [
      | failed _ ↦ (err io_failed, record w { io = os })
      | done ↦ elim (next_io os) [
        | failed _ ↦ (err io_failed, record w { io = rest_io os })
        | done ↦
            let os' = rest_io os in
            write_active (record w { active = some s }) s frames (next_io os') (rest_io os')
      ]
    ]

unfoldable pub append : SegmentWal → ℕ → Bytes → Outcome
unfolding seal_active
append w begin_lsn frames =
    let w' : SegmentWal = record w { flush = if w.empty then begin_lsn else w.flush } in
    if w.wedged
    then (err wedged_wal, w)
    else if not (begin_lsn == w'.flush)
    then (err (write_position begin_lsn w'.flush), w')
    else with_active w' w'.active begin_lsn frames

-- `while let Some(seg) = self.sealed.last()`: delete the segments that begin at or behind `lsn`,
-- from the last, until one cannot be deleted.
unfoldable pub delete_from : ℕ → List Seg → List Io → Bool × List Seg × List Io
delete_from lsn [] os = (true, [], os)
delete_from lsn (s ∷ older) os =
    let rest = delete_from lsn older (rest_io os) in
    if ltb s.start lsn
    then (true, s ∷ older, os)
    else elim (next_io os) [ done ↦ rest | failed _ ↦ (false, s ∷ older, rest_io os) ]

-- The boundary segment, cut at `lsn`.
abbrev pub cut_last : ℕ → List Seg → List Io → Bool × List Seg × List Io
cut_last lsn [] os = (true, [], os)
cut_last lsn (s ∷ older) os =
    let s' : Seg = record s { end = lsn; bytes = take (lsn - s.start) s.bytes } in
    if ltb lsn s.end
    then elim (next_io os) [
      | failed zero ↦ (false, s ∷ older, rest_io os)
      | failed (suc _) ↦ (false, record s { bytes = s'.bytes } ∷ older, rest_io os)
      | done ↦ (true, (if s'.end == s'.start then older else s' ∷ older), rest_io os)
    ]
    else (true, s ∷ older, os)

-- The directory sync and the new flush position.
abbrev pub finish_cut : SegmentWal → ℕ → Bool × List Seg × List Io → Outcome
finish_cut w lsn (false, segs, os) = (err io_failed, record w { sealed = segs; io = os })
finish_cut w lsn (true, segs, os) = elim (next_io os) [
  | failed _ ↦ (err io_failed, record w { sealed = segs; io = rest_io os })
  | done ↦ (ok tt, record w { sealed = segs; flush = lsn; io = rest_io os })
]

abbrev pub cut_after : SegmentWal → ℕ → Bool × List Seg × List Io → Outcome
cut_after w lsn (false, segs, os) = (err io_failed, record w { sealed = segs; io = os })
cut_after w lsn (true, segs, os) = finish_cut w lsn (cut_last lsn segs os)

unfoldable pub truncate_from : SegmentWal → ℕ → Outcome
unfolding seal_active
truncate_from w lsn =
    let w' = seal_active w in
    if w.wedged
    then (err wedged_wal, w)
    else if leb w.flush lsn
    then (ok tt, w)
    else cut_after w' lsn (delete_from lsn (sort_segs w'.sealed) w'.io)

-- The loop's body on one segment, where it has got there.
abbrev pub collect_one : ℕ → Seg → List Seg × Bool × List Io → List Seg × Bool × List Io
collect_one horizon s (kept, false, os) = (s ∷ kept, false, os)
collect_one horizon s (kept, true, os) =
    if ltb horizon s.end then (s ∷ kept, false, os) else elim (next_io os) [
      | done ↦ (kept, true, rest_io os)
      | failed _ ↦ (s ∷ kept, false, rest_io os)
    ]

-- `for seg in self.sealed.iter().take(deletable)`, oldest first: the segments that are kept, whether
-- the loop goes on, and the outcomes left.
unfoldable pub collect_below : ℕ → List Seg → List Io → List Seg × Bool × List Io
collect_below horizon [] os = ([], true, os)
collect_below horizon (s ∷ older) os = collect_one horizon s (collect_below horizon older os)

-- The last sealed segment is spared where no segment is active.
abbrev pub collect : Option Seg → ℕ → List Seg → List Io → List Seg × Bool × List Io
collect (some _) horizon segs os = collect_below horizon segs os
collect none horizon [] os = ([], true, os)
collect none horizon (s ∷ older) os =
    let (kept, going, os') = collect_below horizon older os in (s ∷ kept, going, os')

unfoldable pub drop_below : SegmentWal → ℕ → SegmentWal
drop_below w horizon =
    let (kept, _, os) = collect w.active horizon (sort_segs w.sealed) w.io in
    record w { sealed = kept; io = os }

-- All segments, the last first.
abbrev pub segments : SegmentWal → List Seg
segments w = elim w.active [ none ↦ w.sealed | some s ↦ s ∷ w.sealed ]

abbrev pub least_start : Seg → List Seg → ℕ
least_start s [] = s.start
least_start s (x ∷ xs) = min s.start (least_start x xs)

unfoldable pub retained_start : SegmentWal → ℕ
retained_start w = elim (segments w) [ [] ↦ w.flush | s ∷ ss ↦ least_start s ss ]

-- The part of `[from, to)` that stands in the segments, from the oldest on.
unfoldable pub read_segs : ℕ → ℕ → List Seg → Result WalError Bytes
read_segs from to [] = ok []
read_segs from to (s ∷ older) =
    let lo = max from s.start - s.start in
    let hi = min to s.end - s.start in
    elim (read_segs from to older) [
      | err e ↦ err e
      | ok out ↦
          if leb s.end from || leb to s.start
          then ok out
          else if ltb (length s.bytes) hi
          then err shorter_on_disk
          else ok (out ++ take (hi - lo) (drop lo s.bytes))
    ]

unfoldable pub read : SegmentWal → ℕ → ℕ → Result WalError Bytes
unfolding read_segs sort_segs
read w from to = elim (read_segs from to (sort_segs (segments w))) [
  | err e ↦ err e
  | ok out ↦ if length out == to - from then ok out else err (not_retained from to)
]

abbrev pub segment_wal : WalStore
segment_wal = record {
  Wal = SegmentWal;
  flush_lsn = λ w. w.flush;
  is_empty = λ w. w.empty;
  append = append;
  truncate_from = truncate_from;
  drop_below = drop_below;
  retained_start = retained_start;
  read = read;
}
