-- ===== src/Quorum/SegmentWal/Boot.antt =====
-- icegres/src/quorum/acceptor.rs, `SegmentWal::open` and `scan_wal_segment`: the scan of the log
-- directory when an acceptor starts. The directory is the list of its segment files whose names spell
-- a start; files of one start stand in the order of their names.
pub mod Walk
pub mod Kept
pub mod Restart
use icegres.Prelude.{
  ℕ, zero, suc, ◌+◌, ◌-◌, ◌*◌, ◌^◌, Option, none, some, List, [], ◌∷◌, Bool, true, false, not, ◌&&◌,
  take, drop, ltb, leb, ◌==◌, if◌then◌else◌,
}
use icegres.Prelude.Bytes.{Bytes, from_le, add_u64}
use icegres.Prelude.Results.{Result, ok, err}
use icegres.Segment.{
  Crc, Range, Bad, RawFrameScan, range_len, scan_frame_bytes, frame_header_bytes, short_frame,
  wrong_lsn,
}
use icegres.Quorum.Message.{WalError, io_failed}
use icegres.Quorum.TermHistory.{is_nil}
use icegres.Quorum.SegmentWal.{Seg, SegmentWal, Io, done, failed, next_io, rest_io}

-- SEGMENT_ROTATE_BYTES.
abbrev pub segment_rotate_bytes : ℕ
segment_rotate_bytes = 16 * 2 ^ 20

pub record DirFile : Type 0 where
  pub start : ℕ
  pub bytes : Bytes

-- `named.sort()`.
abbrev pub insert_file : DirFile → List DirFile → List DirFile
insert_file f [] = f ∷ []
insert_file f (x ∷ xs) =
    let rest = insert_file f xs in if leb f.start x.start then f ∷ x ∷ xs else x ∷ rest

unfoldable pub sort_files : List DirFile → List DirFile
sort_files [] = []
sort_files (f ∷ fs) = insert_file f (sort_files fs)

-- The loop over the payload ranges of the scan: the last good offset, and why the log ends there.
unfoldable pub walk_payloads : Bytes → ℕ → ℕ → ℕ → List Range → Option Bad → ℕ × Option Bad
walk_payloads d start pos good [] bad = (good, bad)
walk_payloads d start pos good (r ∷ rs) bad =
    let lsn = from_le (take 8 (drop r.start d)) in
    let rest = walk_payloads d start (add_u64 start r.stop) r.stop rs bad in
    if ltb (range_len r) 8
    then (r.start - frame_header_bytes, some short_frame)
    else if not (lsn == pos)
    then (r.start - frame_header_bytes, some (wrong_lsn lsn pos))
    else rest

-- What the scan of a file yields: where its records end, whether it met a bad frame, and the bytes
-- that it leaves in the file.
pub record FileScan : Type 0 where
  pub end : ℕ
  pub hit_bad : Bool
  pub bytes : Bytes

-- A step that may fail, on the outcomes of the file operations that are still to come.
abbrev pub Step {ℓ} : Type ℓ → Type ℓ
Step A = Result WalError A × List Io

abbrev pub and_then {ℓ κ} : {A : Type ℓ} {B : Type κ} → Step A → (A → List Io → Step B) → Step B
and_then (err e, os) next = (err e, os)
and_then (ok a, os) next = next a os

-- So many file operations in a row, up to the first that fails.
abbrev pub do_all : ℕ → List Io → Step (Unit {0})
do_all zero os = (ok tt, os)
do_all (suc n) os = elim (next_io os) [
  | failed _ ↦ (err io_failed, rest_io os)
  | done ↦ do_all n (rest_io os)
]

-- The truncation of a file with a bad frame: opening it for writing, cutting it and syncing it.
abbrev pub cut_bad : DirFile → ℕ × Option Bad → List Io → Step FileScan
cut_bad f (good, none) os =
    (ok (record { end = add_u64 f.start good; hit_bad = false; bytes = f.bytes }), os)
cut_bad f (good, some _) os = and_then (do_all 3 os) λ _ os'.
    (ok (record { end = add_u64 f.start good; hit_bad = true; bytes = take good f.bytes }), os')

-- `pos`, `sealed` and `stop` of the loop in `open`, `sealed` from its last element to its first.
pub record Boot : Type 0 where
  pub pos : Option ℕ
  pub sealed : List Seg
  pub stop : Bool

abbrev pub is_gap : Option ℕ → ℕ → Bool
is_gap none start = false
is_gap (some p) start = not (start == p)

-- The file that held no valid frame is removed; that its removal fails is ignored.
abbrev pub keep_file : Boot → DirFile → FileScan → List Io → Step Boot
keep_file b f s os =
    if s.end == f.start
    then (ok (record b { pos = some s.end; stop = s.hit_bad }), rest_io os)
    else (
      ok (record {
        pos = some s.end;
        sealed = record { start = f.start; end = s.end; bytes = s.bytes } ∷ b.sealed;
        stop = s.hit_bad;
      }),
      os,
    )

-- `pos.unwrap_or(0)`.
abbrev pub flush_of : Option ℕ → ℕ
flush_of none = 0
flush_of (some p) = p

abbrev pub booted : Boot → List Io → Step SegmentWal
booted b os = (
  ok (record {
    sealed = b.sealed;
    active = none;
    flush = flush_of b.pos;
    empty = is_nil b.sealed && (flush_of b.pos == 0);
    rotate_bytes = segment_rotate_bytes;
    wedged = false;
    io = os;
  }),
  os,
)

abbrev pub start_boot : Boot
start_boot = record { pos = none; sealed = []; stop = false }

module _ (c : Crc) where
  unfoldable pub scan_wal_segment : DirFile → List Io → Step FileScan
  scan_wal_segment f os =
      let s = scan_frame_bytes c f.bytes in
      and_then (do_all 1 os)
        λ _. cut_bad f (walk_payloads f.bytes f.start f.start 0 s.payloads s.bad)

  -- The body of the loop on one file.
  unfoldable pub visit : Boot → DirFile → List Io → Step Boot
  unfolding scan_wal_segment
  visit b f os =
      if b.stop
      then (ok b, rest_io os)
      else if is_gap b.pos f.start
      then (ok (record b { stop = true }), rest_io os)
      else and_then (scan_wal_segment f os) (keep_file b f)

  unfoldable pub visit_all : Boot → List DirFile → List Io → Step Boot
  unfolding visit
  visit_all b [] os = (ok b, os)
  visit_all b (f ∷ fs) os = and_then (visit b f os) λ b'. visit_all b' fs

  -- The first two operations make the directory and read it.
  unfoldable pub open_wal : List DirFile → List Io → Step SegmentWal
  unfolding visit_all sort_files
  open_wal files os =
      and_then (do_all 2 os) λ _ os'. and_then (visit_all start_boot (sort_files files) os') booted
