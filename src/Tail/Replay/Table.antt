-- ===== src/Tail/Replay/Table.antt =====
-- icegres/src/tail.rs, `scan_table`: the segment files of a table in the order of their names. Beside
-- what it returns it gives the files that it leaves on the disk (on success only).
pub mod Settled
pub mod Hole
use icegres.Prelude.{
  ℕ, suc, Option, none, some, List, [], ◌∷◌, ◌++◌, Bool, true, false, not, ◌&&◌, ◌==◌, max,
  if◌then◌else◌,
}
use icegres.Prelude.Bytes.{Bytes, add_u64}
use icegres.Prelude.Results.{Result, ok, err, ◌>>=◌}
use icegres.Segment.{Crc}
use icegres.Tail.Replay.{
  Decoded, ReplayError, SegmentFile, SegmentScan, first_seq, last_seq, scan_segment,
}

-- The variables of the loop; `bad_frame` tells whether `bad_frame_at` is set. A sealed segment is known
-- by the id in its name.
pub record TableRead (A : Type 0) : Type 0 where
  pub frames : List (ℕ × A)
  pub sealed : List (Option ℕ × ℕ)
  pub next_segment : ℕ
  pub bad_frame : Bool
  pub resume_hint : Option ℕ

pub record TableScan (A : Type 0) : Type 0 where
  pub frames : List (ℕ × A)
  pub sealed : List (Option ℕ × ℕ)
  pub next_seq : ℕ
  pub next_segment : ℕ

abbrev pub same_seq : Option ℕ → Option ℕ → Bool
same_seq none none = true
same_seq (some a) (some b) = a == b
same_seq _ _ = false

abbrev pub is_some : Option ℕ → Bool
is_some none = false
is_some (some n) = true

abbrev pub or_else : Option ℕ → Option ℕ → Option ℕ
or_else none b = b
or_else (some a) b = some a

abbrev pub next_of : Option ℕ → Option ℕ
next_of none = none
next_of (some seq) = some (add_u64 seq 1)

abbrev pub next_seq_of : Option ℕ → ℕ
next_seq_of none = 1
next_seq_of (some seq) = add_u64 seq 1

abbrev pub note_id : Option ℕ → ℕ → ℕ
note_id none next = next
note_id (some id) next = max next (add_u64 id 1)

-- What is left of a file that is deleted.
abbrev pub remove_file : SegmentFile → List SegmentFile
remove_file f = if f.removes then [] else f ∷ []

module _ {A : Type 0} where
  abbrev pub new_read : TableRead A
  new_read = record {
    frames = [];
    sealed = [];
    next_segment = 1;
    bad_frame = false;
    resume_hint = none;
  }

  -- `expected.is_none() || first != expected`, behind an invalid frame.
  abbrev pub is_hole : TableRead A → SegmentScan A → Bool
  is_hole t s =
      let expected = or_else t.resume_hint (next_of (last_seq t.frames)) in
      t.bad_frame && not (is_some expected && same_seq (first_seq s.frames) expected)

  abbrev pub mark_bad : SegmentScan A → TableRead A → TableRead A
  mark_bad s t =
      if s.hit_bad_frame then record t { bad_frame = true; resume_hint = s.resume_hint } else t

  -- The body of the loop behind the scan of the file.
  abbrev pub take_scan :
      Option ℕ → SegmentFile → SegmentScan A → TableRead A → TableRead A × List SegmentFile
  take_scan none f s t = (mark_bad s t, remove_file f)
  take_scan (some max_seq) f s t = if is_hole t s then (t, remove_file f) else (
    mark_bad s (record t {
      frames = t.frames ++ s.frames;
      sealed = t.sealed ++ ((f.id, max_seq) ∷ []);
      bad_frame = false;
      resume_hint = if t.bad_frame then none else t.resume_hint;
    }),
    f ∷ [],
  )

  abbrev pub after_scan :
      TableRead A
      → Result ReplayError (SegmentScan A) × SegmentFile
      → Result ReplayError (TableRead A × List SegmentFile)
  after_scan t (err e, f) = err e
  after_scan t (ok s, f) =
      ok (take_scan s.max_seq f s (record t { next_segment = note_id f.id t.next_segment }))

  abbrev pub finish_table : TableRead A → TableScan A
  finish_table t = record {
    frames = t.frames;
    sealed = t.sealed;
    next_seq = next_seq_of (last_seq t.frames);
    next_segment = t.next_segment;
  }

module _ {A : Type 0} (c : Crc) (decode_op : Bytes → Decoded A) where
  -- `for path in &seg_paths`.
  unfoldable pub scan_files :
      List SegmentFile → TableRead A → Result ReplayError (TableRead A × List SegmentFile)
  unfolding scan_segment
  scan_files [] t = ok (t, [])
  scan_files (f ∷ fs) t = after_scan t (scan_segment c decode_op f) >>= λ here.
      (scan_files fs here.0 >>= λ there. ok (there.0, here.1 ++ there.1))

  unfoldable pub scan_table : List SegmentFile → Result ReplayError (TableScan A × List SegmentFile)
  unfolding scan_files
  scan_table files = scan_files files new_read >>= λ o. ok (finish_table o.0, o.1)
