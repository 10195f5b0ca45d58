-- ===== src/Tail/Replay/Again.antt =====
-- Scanning a segment of icegres/src/tail.rs again, behind what the first scan truncated.
use mathlib.Core.Path.{subst}
use icegres.Prelude.{
  ◌-◌, ◌≤◌, ◌≡◌, refl, sym, ap, ◌∙◌, none, ◌||◌, if◌then◌else◌, true, false, length, take, ltb,
  arith, length-take, take_all, Bool-cases, inl, inr,
}
use icegres.Prelude.Bytes.{Bytes}
use icegres.Prelude.Results.{Result, ok, err, err-ne-ok, Result-cases}
use icegres.Segment.{Crc}
use icegres.Tail.Replay.{
  Decoded, ReplayError, SegmentScan, SegmentFile, Read, read_frames, clamp_of, hint_of, as_scan,
  after_read, truncate_bad, scan_segment,
}
use icegres.Tail.Replay.Frames.{take-take, same_take, Again, read_frames-Again}

module _ {A : Type 0} (c : Crc) (decode_op : Bytes → Decoded A) where
  -- What the replay of a segment leaves: the file scans clean, with the same frames.
  pub record IsSettled (s : SegmentScan A) (f' : SegmentFile) : Type 0 where
    pub again :
        scan_segment c decode_op f'
        ≡ (ok (record s { hit_bad_frame = false; resume_hint = hint_of f'.marker }), f')

  abbrev Settled : Result ReplayError (SegmentScan A) → SegmentFile → Type 0
  Settled (ok s) f' = IsSettled s f'
  Settled (err e) f' = Unit {0}

  scan_segment-clean :
      (f : SegmentFile) (r : Read A)
      → clamp_of f.marker f.bytes ≡ length f.bytes
      → read_frames c decode_op (length f.bytes) 0 f.bytes ≡ ok r
      → r.bad ≡ false
      → scan_segment c decode_op f ≡ (ok (as_scan f r false), f)
  unfolding scan_segment
  scan_segment-clean f r unclamped read good =
      let whole_file : take (clamp_of f.marker f.bytes) f.bytes ≡ f.bytes =
        take_all (clamp_of f.marker f.bytes) f.bytes (omega (arith, unclamped)) in
      ap (λ d. after_read f (read_frames c decode_op (length d) 0 d)) whole_file
      ∙ ap (after_read f) read
      ∙ ground (arith)

  -- The file that is cut behind the good end.
  abbrev cut_file : SegmentFile → Read A → SegmentFile
  cut_file f r = record f {
    bytes = take r.good_end f.bytes;
    marker = if f.unmarks then none else f.marker;
  }

  clamp_of-cut :
      (f : SegmentFile) (r : Read A)
      → r.good_end ≤ clamp_of f.marker f.bytes
      → r.good_end ≤ length f.bytes
      → clamp_of (cut_file f r).marker (cut_file f r).bytes ≡ length (cut_file f r).bytes
  clamp_of-cut f r inside short = ground (arith, length-take r.good_end f.bytes)

  cut_file-clean :
      (f : SegmentFile) (r : Read A)
      → Again c decode_op 0 (take (clamp_of f.marker f.bytes) f.bytes) r
      → scan_segment c decode_op (cut_file f r)
        ≡ (ok (as_scan (cut_file f r) (record r { bad = false }) false), cut_file f r)
  cut_file-clean f r (lo, hi, again) =
      let clamp = clamp_of f.marker f.bytes in
      let inside : (r.good_end ≤ clamp) × (r.good_end ≤ length f.bytes) =
        omega (arith, hi, length-take clamp f.bytes) in
      let size : length (take r.good_end f.bytes) ≡ r.good_end =
        omega (arith, length-take r.good_end f.bytes, inside) in
      let same : take (r.good_end - 0) (take clamp f.bytes) ≡ take r.good_end f.bytes =
        same_take (r.good_end - 0) r.good_end (take clamp f.bytes) (omega arith)
        ∙ take-take r.good_end clamp f.bytes inside.0 in
      scan_segment-clean (cut_file f r) (record r { bad = false })
        (clamp_of-cut f r inside.0 inside.1)
        (ap (λ d. read_frames c decode_op (length (take r.good_end f.bytes)) 0 d) (sym same)
          ∙ again (length (take r.good_end f.bytes)) (omega (arith, size)))
        refl

  truncate_bad-IsSettled :
      (f f' : SegmentFile) (s : SegmentScan A) (r : Read A)
      → Again c decode_op 0 (take (clamp_of f.marker f.bytes) f.bytes) r
      → scan_segment c decode_op f ≡ truncate_bad f r
      → truncate_bad f r ≡ (ok s, f')
      → IsSettled s f'
  truncate_bad-IsSettled f f' s r again same h =
      let hit = r.bad || ltb (clamp_of f.marker f.bytes) (length f.bytes) in
      elim (Bool-cases hit) [
        | inl bad ↦ elim (Bool-cases f.truncates) [
          | inl cuts ↦
              let out : ◌≡◌ {A = Result ReplayError (SegmentScan A) × SegmentFile}
                  (ok (as_scan f r true), cut_file f r) (ok s, f') =
                ground (arith, bad, cuts) in
              subst (λ (o : Result ReplayError (SegmentScan A) × SegmentFile). Settled o.0 o.1) out
                (record { again = cut_file-clean f r again })
          | inr fails ↦ absurd (ground (arith, bad, fails))
        ]
        | inr clean ↦
            let kept : truncate_bad f r ≡ (ok (as_scan f r false), f) = ground (arith, clean) in
            subst (λ (o : Result ReplayError (SegmentScan A) × SegmentFile). Settled o.0 o.1)
              (sym kept ∙ h) (record { again = same ∙ kept })
      ]

  -- What a replay leaves of a segment scans clean from then on, with the same frames.
  pub scan_segment-IsSettled :
      (f f' : SegmentFile) (s : SegmentScan A)
      → scan_segment c decode_op f ≡ (ok s, f')
      → IsSettled s f'
  scan_segment-IsSettled f f' s h =
      let d = take (clamp_of f.marker f.bytes) f.bytes in
      elim (Result-cases (read_frames c decode_op (length d) 0 d)) [
        | inl (r, read) ↦
            let at : scan_segment c decode_op f ≡ truncate_bad f r =
              unfold scan_segment in ap (after_read f) read in
            truncate_bad-IsSettled f f' s r
              (read_frames-Again c decode_op (length d) 0 d r (omega arith) read) at (sym at ∙ h)
        | inr (e, bad) ↦
            let at : scan_segment c decode_op f ≡ (err e, f) =
              unfold scan_segment in ap (after_read f) bad in
            absurd (err-ne-ok (ap first (sym at ∙ h)))
      ]
    where
      first : Result ReplayError (SegmentScan A) × SegmentFile → Result ReplayError (SegmentScan A)
      first o = o.0
