-- ===== src/Tail/Replay/Table/Settled.antt =====
-- Replaying the segments of a table in icegres/src/tail.rs a second time, with the files that the first
-- replay left.
use mathlib.Core.Path.{subst}
use icegres.Prelude.{
  ℕ, ◌≡◌, refl, sym, ap, ◌∙◌, Option, none, some, List, [], ◌∷◌, ◌++◌, true, false, All, arith,
  append_assoc, append-nil, if◌then◌else◌, if_cases,
}
use icegres.Prelude.Bytes.{Bytes}
use icegres.Prelude.Results.{Result, ok, err, err-ne-ok, ◌>>=◌, >>=-eq-ok, ok_injective}
use icegres.Segment.{Crc}
use icegres.Tail.Replay.{
  Decoded, ReplayError, SegmentFile, SegmentScan, last_seq, hint_of, scan_segment,
}
use icegres.Tail.Replay.Again.{IsSettled, scan_segment-IsSettled}
use icegres.Tail.Replay.Table.{
  TableRead, TableScan, new_read, is_hole, next_seq_of, note_id, remove_file, mark_bad, take_scan,
  after_scan, finish_table, scan_files, scan_table,
}

module _ {A : Type 0} (c : Crc) (decode_op : Bytes → Decoded A) where
  -- The frames that a round adds, and that the files it leaves add again where nothing is marked bad.
  record Added (t t' : TableRead A) (left : List SegmentFile) : Type 0 where
    added : List (ℕ × A)
    first : t'.frames ≡ t.frames ++ added
    again :
        (u : TableRead A)
        → u.bad_frame ≡ false
        → (u' : TableRead A) × (scan_files c decode_op left u ≡ ok (u', left))
          × (u'.frames ≡ u.frames ++ added)
          × (u'.bad_frame ≡ false)

  -- A scan leaves it as it was whether the file can be removed.
  scan_segment-removes :
      (f : SegmentFile) → f.removes ≡ true → (scan_segment c decode_op f).1.removes ≡ true
  unfolding scan_segment
  scan_segment-removes f h = ground arith

  gone-Added :
      (f : SegmentFile) (t t' : TableRead A)
      → f.removes ≡ true
      → t'.frames ≡ t.frames
      → Added t t' (remove_file f)
  gone-Added f t t' gone same =
      let none_left : remove_file f ≡ [] = ground (arith, gone) in
      subst (Added t t') (sym none_left) (record {
        added = [];
        first = same ∙ sym (append-nil t.frames);
        again = λ u clean. (u, unfold scan_files in refl, sym (append-nil u.frames), clean);
      })

  -- A file that scans clean is kept where nothing is marked bad.
  pub scan_files-clean :
      (f : SegmentFile) (s : SegmentScan A) (m : ℕ) (u : TableRead A)
      → scan_segment c decode_op f ≡ (ok s, f)
      → s.max_seq ≡ some m
      → s.hit_bad_frame ≡ false
      → u.bad_frame ≡ false
      → (u' : TableRead A) × (scan_files c decode_op (f ∷ []) u ≡ ok (u', f ∷ []))
        × (u'.frames ≡ u.frames ++ s.frames)
        × (u'.bad_frame ≡ false)
  unfolding scan_files
  scan_files-clean f s m u scanned some_max good clean =
      let v : TableRead A = record u { next_segment = note_id f.id u.next_segment } in
      let kept : TableRead A = record v {
        frames = v.frames ++ s.frames;
        sealed = v.sealed ++ ((f.id, m) ∷ []);
        bad_frame = false;
        resume_hint = if v.bad_frame then none else v.resume_hint;
      } in
      let taken : take_scan s.max_seq f s v ≡ (kept, f ∷ []) =
        ground (arith, some_max, good, clean) in
      (
        kept,
        ap (λ o. after_scan u o >>= λ here. (ok (here.0, here.1 ++ []))) scanned
            ∙ ap (λ (o : TableRead A × List SegmentFile). ok (o.0, o.1 ++ [])) taken,
        refl,
        refl,
      )

  take_scan-Added :
      (m : Option ℕ) (f : SegmentFile) (s : SegmentScan A) (t : TableRead A)
      → s.max_seq ≡ m
      → f.removes ≡ true
      → IsSettled c decode_op s f
      → let (t', left) = take_scan m f s t in Added t t' left
  take_scan-Added none f s t at gone settled = gone-Added f t (mark_bad s t) gone (ground arith)
  take_scan-Added (some m) f s t at gone settled =
      if_cases (λ (o : TableRead A × List SegmentFile). Added t o.0 o.1) (is_hole t s) _ _
        (λ hole. gone-Added f t t gone refl)
        (λ whole. record {
          added = s.frames;
          first = ground arith;
          again = λ u clean.
              scan_files-clean f
                (record s { hit_bad_frame = false; resume_hint = hint_of f.marker }) m u
                settled.again at refl clean;
        })

  abbrev Round : Type 0
  Round = TableRead A × List SegmentFile

  pub scan_files-append :
      (xs ys l k : List SegmentFile) (u v w : TableRead A)
      → scan_files c decode_op xs u ≡ ok (v, l)
      → scan_files c decode_op ys v ≡ ok (w, k)
      → scan_files c decode_op (xs ++ ys) u ≡ ok (w, l ++ k)
  unfolding scan_files
  scan_files-append [] ys l k u v w h e =
      let same : ◌≡◌ {A = Round} (u, []) (v, l) = ok_injective h in
      ap (scan_files c decode_op ys) (ap (λ (o : Round). o.0) same)
      ∙ e
      ∙ ap (λ (o : Round). ok (w, o.1 ++ k)) same
  scan_files-append (x ∷ xs) ys l k u v w h e =
      let (here, scanned, rest) = >>=-eq-ok (after_scan u (scan_segment c decode_op x)) _ h in
      let (there, after, out) = >>=-eq-ok (scan_files c decode_op xs here.0) _ rest in
      let same : ◌≡◌ {A = Round} (there.0, here.1 ++ there.1) (v, l) = ok_injective out in
      let behind =
        scan_files-append xs ys there.1 k here.0 v w
          (after ∙ ap (λ (o : Round). ok (o.0, there.1)) same) e in
      ap
        (λ o. o >>= λ (here : Round).
          (scan_files c decode_op (xs ++ ys) here.0 >>= λ (there : Round).
          ok (there.0, here.1 ++ there.1)))
        scanned
      ∙ ap (λ o. o >>= λ (there : Round). ok (there.0, here.1 ++ there.1)) behind
      ∙ ap ok (ap (λ x. (w, x)) (sym (append_assoc here.1 there.1 k)))
      ∙ ap (λ (o : Round). ok (w, o.1 ++ k)) same

  Added-append :
      (t v t' : TableRead A) (l k : List SegmentFile)
      → Added t v l
      → Added v t' k
      → Added t t' (l ++ k)
  Added-append t v t' l k a b = record {
    added = a.added ++ b.added;
    first = b.first ∙ ap (λ x. x ++ b.added) a.first ∙ append_assoc t.frames a.added b.added;
    again = λ u clean.
        let (u1, scan1, frames1, clean1) = a.again u clean in
        let (u2, scan2, frames2, clean2) = b.again u1 clean1 in
        (
          u2,
          scan_files-append l k l k u u1 u2 scan1 scan2,
          frames2 ∙ ap (λ x. x ++ b.added) frames1 ∙ append_assoc u.frames a.added b.added,
          clean2,
        );
  }

  -- The files that a deletion has to reach can be removed.
  abbrev pub Removable : List SegmentFile → Type 0
  Removable files = All (λ f. f.removes ≡ true) files

  after_scan-Added :
      (f f' : SegmentFile) (t t' : TableRead A) (left : List SegmentFile)
      (r : Result ReplayError (SegmentScan A))
      → f'.removes ≡ true
      → scan_segment c decode_op f ≡ (r, f')
      → after_scan t (r, f') ≡ ok (t', left)
      → Added t t' left
  after_scan-Added f f' t t' left (err e) gone scanned h = absurd (err-ne-ok h)
  after_scan-Added f f' t t' left (ok s) gone scanned h =
      let v : TableRead A = record t { next_segment = note_id f'.id t.next_segment } in
      let taken =
        take_scan-Added s.max_seq f' s v refl gone
          (scan_segment-IsSettled c decode_op f f' s scanned) in
      let own : Added t (take_scan s.max_seq f' s v).0 (take_scan s.max_seq f' s v).1 = record {
        added = taken.added;
        first = taken.first;
        again = taken.again;
      } in
      subst (λ (o : Round). Added t o.0 o.1) (ok_injective h) own

  scan_files-Added :
      (files left : List SegmentFile) (t t' : TableRead A)
      → Removable files
      → scan_files c decode_op files t ≡ ok (t', left)
      → Added t t' left
  unfolding scan_files
  scan_files-Added [] left t t' gone h =
      subst (λ (o : Round). Added t o.0 o.1) (ok_injective h)
        (record {
          added = [];
          first = sym (append-nil t.frames);
          again = λ u clean. (u, refl, sym (append-nil u.frames), clean);
        })
  scan_files-Added (f ∷ files) left t t' (gone, rest) h =
      let (here, scanned, behind) = >>=-eq-ok (after_scan t (scan_segment c decode_op f)) _ h in
      let (there, after, out) = >>=-eq-ok (scan_files c decode_op files here.0) _ behind in
      let (r, f') = scan_segment c decode_op f in
      let one =
        after_scan-Added f f' t here.0 here.1 r (scan_segment-removes f gone) refl scanned in
      let more = scan_files-Added files there.1 here.0 there.0 rest after in
      subst (λ (o : Round). Added t o.0 o.1) (ok_injective out)
        (Added-append t here.0 there.0 here.1 there.1 one more)

  module _ (files left : List SegmentFile) (scan : TableScan A) where
    -- Recovery is repeatable. Where the files that a replay of a table deletes can be removed, and the
    -- replay succeeds, a replay of the files that it leaves, which is what a crash behind it brings
    -- about, succeeds too and leaves those files as they are; it gives the same frames in the same
    -- order and the same next sequence.
    pub scan_table-again :
        Removable files
        → scan_table c decode_op files ≡ ok (scan, left)
        → (again : TableScan A) × (scan_table c decode_op left ≡ ok (again, left))
          × (again.frames ≡ scan.frames)
          × (again.next_seq ≡ scan.next_seq)
    unfolding scan_table
    scan_table-again gone h =
        let (o, read, out) = >>=-eq-ok (scan_files c decode_op files new_read) _ h in
        let same : ◌≡◌ {A = TableScan A × List SegmentFile} (finish_table o.0, o.1) (scan, left) =
          ok_injective out in
        let added = scan_files-Added files o.1 new_read o.0 gone read in
        let (u, reread, frames, _) = added.again new_read refl in
        let equal : u.frames ≡ scan.frames =
          frames ∙ sym added.first ∙ ap (λ (p : TableScan A × List SegmentFile). p.0.frames) same in
        let next : next_seq_of (last_seq o.0.frames) ≡ scan.next_seq =
          ap (λ (p : TableScan A × List SegmentFile). p.0.next_seq) same in
        let files_left : o.1 ≡ left = ap (λ (p : TableScan A × List SegmentFile). p.1) same in
        (
          finish_table u,
          subst (λ l. scan_table c decode_op l ≡ ok (finish_table u, l)) files_left
              (ap (λ r. r >>= λ (o : Round). ok (finish_table o.0, o.1)) reread),
          equal,
          ap (λ fs. next_seq_of (last_seq fs)) (frames ∙ sym added.first) ∙ next,
        )
