-- ===== src/Quorum/Record/Strict.antt =====
-- What the strict decoder accepts: its output encodes back to its input, at consecutive positions.
use mathlib.Core.Path.{subst}
use icegres.Prelude.{
  ℕ, zero, suc, ◌+◌, ◌-◌, ◌≤◌, ◌<◌, ◌≡◌, refl, ap, ap₂, ◌∙◌, sym, none, List, [], ◌∷◌, ◌++◌,
  append-nil, Bool, length, take, drop, map, arith, All, ltb, ◌==◌, not, ◌&&◌, if_cases,
}
use icegres.Prelude.{
  length-append, drop-drop, length-drop, length-take, take-append-drop, All-take, All-drop,
  All-split, heads_eq, tails_eq, nil_of_length,
}
use icegres.Prelude.Bytes.{Bytes, IsByte, to_le, from_le, add_u64, to_le-from_le}
use icegres.Prelude.Results.{Result, ok, ok_injective, err-ne-ok, >>=-eq-ok}
use icegres.Segment.{
  Crc, frame, Range, RawFrameScan, slice, scan_loop, scan_frame_bytes, frame_header_bytes,
}
use icegres.Segment.Frames.{frames, ranges}
use icegres.Segment.Recovery.{slices_behind}
use icegres.Segment.Sound.{scan_frame_bytes-Took}
use icegres.Quorum.Record.{
  Record, RecordError, record_payload, decode_record_payload, decode_ranges, decode_records,
  byte_at, record_frame, record_watermark, check_scan, check_lsn,
}

module _ (c : Crc) where
  frames-IsByte : (ps : List Bytes) → All IsByte (frames c ps) → All (All IsByte) ps
  frames-IsByte [] h = tt
  frames-IsByte (p ∷ ps) h =
      let (hp, hps) = All-split IsByte (frame c p) (frames c ps) h in
      let (_, body) = All-split IsByte (to_le 4 (length p)) _ hp in
      ((All-split IsByte (to_le 4 (c.hash p)) p body).1, frames-IsByte ps hps)

  scan_loop_clean :
      (fuel off : ℕ) (d : Bytes)
      → (scan_loop c fuel off off d).bad ≡ none
      → (scan_loop c fuel off off d).good_end ≡ off + length d
  unfolding scan_loop
  scan_loop_clean fuel off [] h = omega arith
  scan_loop_clean zero off (b ∷ bs) h = cc
  scan_loop_clean (suc fuel) off (b ∷ bs) h =
      let len = from_le (take 4 (b ∷ bs)) in
      ground (
        arith,
        scan_loop_clean fuel (off + 8 + len) (drop len (drop 8 (b ∷ bs))),
        length-drop len (drop 8 (b ∷ bs)),
        length-drop 8 (b ∷ bs),
      )

byte_at-drop : (i : ℕ) (p : Bytes) → i < length p → drop i p ≡ byte_at p i ∷ drop (suc i) p
byte_at-drop i [] h = absurd (omega arith)
byte_at-drop zero (b ∷ p) h = refl
byte_at-drop (suc i) (b ∷ p) h = byte_at-drop i p (omega arith)

-- The integer that stands in the `w` bytes at `i`, written back.
word_at :
    (w i : ℕ) (p : Bytes)
    → All IsByte p
    → i + w ≤ length p
    → to_le w (from_le (take w (drop i p))) ≡ take w (drop i p)
word_at w i p h l =
    to_le-from_le w (take w (drop i p)) (omega (arith, length-take w (drop i p), length-drop i p))
      (All-take IsByte w (drop i p) (All-drop IsByte i p h))

parts_payload :
    (p : Bytes) (k : ℕ)
    → All IsByte p
    → from_le (take 4 (drop 9 p)) ≡ k
    → 13 + k + 8 ≤ length p
    → record_payload (record {
      lsn = from_le (take 8 p);
      kind = byte_at p 8;
      table_key = take k (drop 13 p);
      seq = from_le (take 8 (drop (13 + k) p));
      body = drop (13 + k + 8) p;
    })
      ≡ p
unfolding record_payload
parts_payload p k h e l = rw (
  word_at 8 0 p h (omega arith),
  key_len,
  word_at 8 (13 + k) p h l,
  ← drop-drop 8 (13 + k) (13 + k + 8) p refl,
  take-append-drop,
  ← drop-drop k 13 (13 + k) p refl,
  take-append-drop,
  ← drop-drop 4 9 13 p refl,
  take-append-drop,
  ← byte_at-drop 8 p (omega arith),
  take-append-drop,
)
  where
    key_len : to_le 4 (length (take k (drop 13 p))) ≡ take 4 (drop 9 p)
    key_len =
        let l' : length (take k (drop 13 p)) ≡ k =
          omega (arith, length-take k (drop 13 p), length-drop 13 p) in
        ap (to_le 4) (l' ∙ sym e) ∙ word_at 4 9 p h (omega arith)

check_lsn-ok : (lsn pos : ℕ) {u : Unit {0}} → check_lsn lsn pos ≡ ok u → lsn ≡ pos
check_lsn-ok lsn pos h = ground arith

check_scan-ok :
    (s : RawFrameScan) (rs : List Range) → check_scan s ≡ ok rs → (s.bad ≡ none) × (s.payloads ≡ rs)
check_scan-ok s rs h = ground arith

module _ (c : Crc) (is_utf8 : Bytes → Bool) where
  record_payload-decode :
      (p : Bytes) (r : Record)
      → All IsByte p
      → decode_record_payload c is_utf8 p ≡ ok r
      → record_payload r ≡ p
  unfolding decode_record_payload
  record_payload-decode p r h =
      let P : Result RecordError Record → Type 0 = λ x. x ≡ ok r → record_payload r ≡ p in
      let k = from_le (take 4 (drop 9 p)) in
      if_cases P (ltb (length p) 13) _ _ (λ _ e. absurd (err-ne-ok e))
        λ _.
          if_cases P (not (byte_at p 8 == record_frame) && not (byte_at p 8 == record_watermark)) _
            _ (λ _ e. absurd (err-ne-ok e))
            λ _.
              if_cases P (ltb (length p) (13 + k + 8)) _ _ (λ _ e. absurd (err-ne-ok e))
                λ long.
                  if_cases P (is_utf8 (take k (drop 13 p))) _ _
                    (λ _ e.
                      ap record_payload (sym (ok_injective e))
                      ∙ parts_payload p k h refl (ground arith))
                    (λ _ e. absurd (err-ne-ok e))

  -- Every record claims the position at which its frame starts.
  abbrev pub IsContiguous : ℕ → List Record → Type 0
  IsContiguous pos [] = Unit {0}
  IsContiguous pos (r ∷ rs) =
      (r.lsn ≡ pos) × IsContiguous (add_u64 pos (8 + length (record_payload r))) rs

  pub scan_clean :
      (d : Bytes) → (scan_frame_bytes c d).bad ≡ none → (scan_frame_bytes c d).good_end ≡ length d
  unfolding scan_frame_bytes
  scan_clean d h = omega (arith, scan_loop_clean c (length d) 0 d h)

  decode_ranges-ok :
      (bytes : Bytes) (off pos : ℕ) (ps : List Bytes) (recs : List Record)
      → All (All IsByte) ps
      → map (slice bytes) (ranges off ps) ≡ ps
      → decode_ranges c is_utf8 bytes pos (ranges off ps) ≡ ok recs
      → (map record_payload recs ≡ ps) × IsContiguous pos recs
  unfolding decode_ranges
  decode_ranges-ok bytes off pos [] recs h s e = subst Goal (ok_injective e) (refl, tt)
    where
      Goal : List Record → Type 0
      Goal rs = (map record_payload rs ≡ []) × IsContiguous pos rs
  decode_ranges-ok bytes off pos (p ∷ ps) recs (hp, hps) s e =
      let range : Range = record { start = off + 8; stop = off + 8 + length p } in
      let (r, e1, e2) = >>=-eq-ok (decode_record_payload c is_utf8 (slice bytes range)) _ e in
      let (u, e3, e4) = >>=-eq-ok (check_lsn r.lsn pos) _ e2 in
      let (rs, e5, e6) =
        >>=-eq-ok (decode_ranges c is_utf8 bytes _ (ranges (off + 8 + length p) ps)) _ e4 in
      let payload : record_payload r ≡ p = record_payload-decode p r hp (rw (heads_eq s) at e1) in
      let step : off + 8 + length p - (off + 8) + frame_header_bytes
          ≡ 8 + length (record_payload r) =
        omega (arith, ap length payload) in
      let (maps, at) =
        decode_ranges-ok bytes (off + 8 + length p) (add_u64 pos (8 + length (record_payload r))) ps
          rs hps (tails_eq s) (rw (ap (add_u64 pos) step) at e5) in
      let own : r.lsn ≡ pos = check_lsn-ok r.lsn pos e3 in
      subst (λ x. (map record_payload x ≡ p ∷ ps) × IsContiguous pos x) (ok_injective e6)
        (ap₂ (λ a b. a ∷ b) payload maps, (own, at))

  -- The strict decoder on any bytes: when it accepts a stream, the bytes are exactly the encodings
  -- of the records that it returns, and each record claims the position at which its frame stands.
  pub decode_records_sound :
      (bytes : Bytes) (start : ℕ) (recs : List Record)
      → All IsByte bytes
      → decode_records c is_utf8 bytes start ≡ ok recs
      → (frames c (map record_payload recs) ≡ bytes) × IsContiguous start recs
  unfolding decode_records
  decode_records_sound bytes start recs h e =
      let scan = scan_frame_bytes c bytes in
      let (rs, e1, e2) = >>=-eq-ok (check_scan scan) _ e in
      let t = scan_frame_bytes-Took c bytes h in
      let (clean, listed) = check_scan-ok scan rs e1 in
      let whole : bytes ≡ frames c t.ps =
        let ends : length (frames c t.ps) ≡ length bytes =
          omega (arith, t.until, scan_clean bytes clean) in
        let rest : t.tail ≡ [] =
          nil_of_length t.tail
            (omega (arith, ap length t.split, length-append (frames c t.ps) t.tail)) in
        t.split ∙ ap (λ x. frames c t.ps ++ x) rest ∙ append-nil (frames c t.ps) in
      let (maps, at) =
        decode_ranges-ok bytes 0 start t.ps recs (frames-IsByte c t.ps (subst (All IsByte) whole h))
          (rw whole (slices_behind c [] 0 t.ps refl)) (rw (← listed, t.at) at e2) in
      (ap (frames c) maps ∙ sym whole, at)
