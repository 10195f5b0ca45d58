-- ===== src/Tail/Replay/Table/Hole.antt =====
-- A replay in icegres/src/tail.rs that truncates a corrupt segment and does not get to delete the one
-- behind the hole: what the next replay makes of the files.
use icegres.Prelude.{ℕ, ◌≡◌, refl, ap, ◌∙◌, none, some, List, [], ◌∷◌, ◌++◌, true, false, arith}
use icegres.Prelude.Bytes.{Bytes, add_u64}
use icegres.Prelude.Results.{Result, ok, ◌>>=◌}
use icegres.Segment.{Crc}
use icegres.Tail.Replay.{
  Decoded, ReplayError, SegmentFile, SegmentScan, first_seq, last_seq, hint_of, scan_segment,
}
use icegres.Tail.Replay.Again.{scan_segment-IsSettled}
use icegres.Tail.Replay.Table.{
  TableRead, TableScan, new_read, same_seq, note_id, take_scan, after_scan, finish_table,
  scan_files, scan_table,
}
use icegres.Tail.Replay.Table.Settled.{scan_files-clean, scan_files-append}

module _ {A : Type 0} (c : Crc) (decode_op : Bytes → Decoded A) where
  module _ (a a' b : SegmentFile) (s u : SegmentScan A) (m n : ℕ) where
    abbrev Round : Type 0
    Round = TableRead A × List SegmentFile

    round :
        (f f' : SegmentFile) (r : SegmentScan A) (t t' : TableRead A) (l : List SegmentFile)
        → scan_segment c decode_op f ≡ (ok r, f')
        → take_scan r.max_seq f' r (record t { next_segment = note_id f'.id t.next_segment })
          ≡ (t', l)
        → scan_files c decode_op (f ∷ []) t ≡ ok (t', l ++ [])
    unfolding scan_files
    round f f' r t t' l scanned taken =
        ap (λ o. after_scan t o >>= λ (here : Round). ok (here.0, here.1 ++ [])) scanned
        ∙ ap (λ (o : Round). ok (o.0, o.1 ++ [])) taken

    -- The rows behind a hole come back. The first replay finds `a` corrupt behind sequence `m`,
    -- truncates it and rejects `b`, which is whole but does not begin at the next sequence, so its frames
    -- are not returned; but where `b` cannot be removed and the scan of `a` has no resume hint, the
    -- files that are left show no trace of the hole, and the next replay returns the frames of both.
    pub scan_table-past_hole :
        scan_segment c decode_op a ≡ (ok s, a')
        → s.hit_bad_frame ≡ true
        → s.resume_hint ≡ none
        → s.max_seq ≡ some m
        → last_seq s.frames ≡ some m
        → scan_segment c decode_op b ≡ (ok u, b)
        → u.hit_bad_frame ≡ false
        → u.max_seq ≡ some n
        → same_seq (first_seq u.frames) (some (add_u64 m 1)) ≡ false
        → b.removes ≡ false
        → (first again : TableScan A) × (scan_table c decode_op (a ∷ b ∷ [])
            ≡ ok (first, a' ∷ b ∷ []))
          × (first.frames ≡ s.frames)
          × (scan_table c decode_op (a' ∷ b ∷ []) ≡ ok (again, a' ∷ b ∷ []))
          × (again.frames ≡ s.frames ++ u.frames)
    unfolding scan_table
    scan_table-past_hole scan_a bad hint max_a last scan_b whole max_b gap stuck =
        let t0 : TableRead A = record new_read { next_segment = note_id a'.id 1 } in
        let t1 : TableRead A = record t0 {
          frames = s.frames;
          sealed = (a'.id, m) ∷ [];
          bad_frame = true;
          resume_hint = none;
        } in
        let t2 : TableRead A = record t1 { next_segment = note_id b.id t1.next_segment } in
        let taken_a : take_scan s.max_seq a' s t0 ≡ (t1, a' ∷ []) =
          ground (arith, max_a, bad, hint) in
        let taken_b : take_scan u.max_seq b u t2 ≡ (t2, b ∷ []) =
          ground (arith, max_b, last, gap, stuck) in
        let read_a = round a a' s new_read t1 (a' ∷ []) scan_a taken_a in
        let read_b = round b b u t1 t2 (b ∷ []) scan_b taken_b in
        let settled = scan_segment-IsSettled c decode_op a a' s scan_a in
        let clean_s : SegmentScan A = record s {
          hit_bad_frame = false;
          resume_hint = hint_of a'.marker;
        } in
        let (v1, again_a, frames_a, clean_a) =
          scan_files-clean c decode_op a' clean_s m new_read settled.again max_a refl refl in
        let (v2, again_b, frames_b, _) =
          scan_files-clean c decode_op b u n v1 scan_b max_b whole clean_a in
        let finish =
          λ (o : Result ReplayError Round). (o >>= λ (o : Round). ok (finish_table o.0, o.1)) in
        (
          finish_table t2,
          finish_table v2,
          ap finish (
              scan_files-append c decode_op (a ∷ []) (b ∷ []) (a' ∷ []) (b ∷ []) new_read t1 t2
                read_a read_b),
          refl,
          ap finish (
              scan_files-append c decode_op (a' ∷ []) (b ∷ []) (a' ∷ []) (b ∷ []) new_read v1 v2
                again_a again_b),
          frames_b ∙ ap (λ fs. fs ++ u.frames) frames_a,
        )
