-- ===== src/Segment/Sound.antt =====
-- The scan on a torn tail and on arbitrary bytes: what it accepts is whole frames, and nothing else.
use icegres.Prelude.{
  ℕ, zero, suc, ◌+◌, ◌-◌, ◌^◌, ◌≤◌, ◌<◌, ◌≡◌, refl, sym, ap, ap₂, ◌∙◌, Option, none, some, List, [],
  ◌∷◌, ◌++◌, length, take, drop, All, arith, append_assoc, ==_iff,
}
use mathlib.Core.Path.{subst}
use icegres.Prelude.{length-append, take-append, length-drop, length-take}
use icegres.Prelude.{All-take, All-drop, ltb, ◌==◌, if_cases}
use icegres.Prelude.Bytes.{Bytes, IsByte, from_le, from_le-lt}
use icegres.Segment.{
  Crc, Bad, RawFrameScan, frame, scan_loop, scan_frame_bytes, push_payload, stop_scan,
}
use icegres.Segment.Scan.{length-frame}
use icegres.Segment.Frames.{IsShort, frames, ranges, push_payloads, scan_loop-frames}
use icegres.Segment.Recovery.{
  push_payloads-stop_scan, torn_frame, torn_reason, frame_at, scan-frames,
}

-- The scan `s` of `d` took frames off its front: those of `ps`, with `tail` left over.
pub record Took (c : Crc) (off : ℕ) (d : Bytes) (s : RawFrameScan) : Type 0 where
  pub ps : List Bytes
  pub tail : Bytes
  pub short : All IsShort ps
  pub split : d ≡ frames c ps ++ tail
  pub at : s.payloads ≡ ranges off ps
  pub until : s.good_end ≡ off + length (frames c ps)

module _ (c : Crc) where
  stop_behind :
      (ps : List Bytes) (p : Bytes) (n k : ℕ)
      → IsShort p
      → 0 < n
      → n < 8 + length p
      → 0 < k
      → push_payloads
          (ranges 0 ps)
          (scan_loop c k (length (frames c ps)) (length (frames c ps)) (take n (frame c p)))
        ≡ record {
          payloads = ranges 0 ps;
          good_end = length (frames c ps);
          bad = some (torn_reason p n);
        }
  stop_behind ps p n zero hp lo hi hk = absurd (omega arith)
  stop_behind ps p n (suc k) hp lo hi hk =
      rw (torn_frame c k (length (frames c ps)) n p hp lo hi)
        (push_payloads-stop_scan (ranges 0 ps) (length (frames c ps)) (some (torn_reason p n)))

  -- A log that was cut inside its last frame, after `n` of the frame's bytes: the scan keeps every
  -- frame before it, ends at the last of them, and reports why it stopped.
  pub scan-torn :
      (ps : List Bytes) (p : Bytes) (n : ℕ)
      → All IsShort ps
      → IsShort p
      → 0 < n
      → n < 8 + length p
      → scan_frame_bytes c (frames c ps ++ take n (frame c p)) ≡ record {
        payloads = ranges 0 ps;
        good_end = length (frames c ps);
        bad = some (torn_reason p n);
      }
  unfolding scan_frame_bytes
  scan-torn ps p n hs hp lo hi =
      let d = frames c ps ++ take n (frame c p) in
      let (k, hk, e) = scan_loop-frames c ps (length d) 0 (take n (frame c p)) hs (omega arith) in
      let start : 0 + length (frames c ps) ≡ length (frames c ps) = omega arith in
      rw start at e
      ∙ stop_behind ps p n k hp lo hi
          (omega (arith, hk, length-take n (frame c p), length-frame c p))

  stop-Took : (off : ℕ) (d : Bytes) (b : Option Bad) → Took c off d (stop_scan off b)
  stop-Took off d b = record {
    ps = [];
    tail = d;
    short = tt;
    split = refl;
    at = refl;
    until = omega arith;
  }

  push-Took :
      (off : ℕ) (d p rest : Bytes) (s : RawFrameScan)
      → IsShort p
      → d ≡ frame c p ++ rest
      → Took c (off + 8 + length p) rest s
      → Took c off d (push_payload (record { start = off + 8; stop = off + 8 + length p }) s)
  push-Took off d p rest s hp e t = record {
    ps = p ∷ t.ps;
    tail = t.tail;
    short = (hp, t.short);
    split =
        e
        ∙ ap (λ r. frame c p ++ r) t.split
        ∙ sym (append_assoc (frame c p) (frames c t.ps) t.tail);
    at = ap (λ r. record { start = off + 8; stop = off + 8 + length p } ∷ r) t.at;
    until = omega (arith, t.until, length-append (frame c p) (frames c t.ps), length-frame c p);
  }

  whole :
      (off len : ℕ) (d : Bytes) (s : RawFrameScan)
      → All IsByte d
      → from_le (take 4 d) ≡ len
      → 8 + len ≤ length d
      → c.hash (take len (drop 8 d)) ≡ from_le (take 4 (drop 4 d))
      → Took c (off + 8 + len) (drop len (drop 8 d)) s
      → Took c off d (push_payload (record { start = off + 8; stop = off + 8 + len }) s)
  whole off len d s hd el hl hc t =
      let p : Bytes = take len (drop 8 d) in
      let plen : length p ≡ len = omega (arith, length-take len (drop 8 d), length-drop 8 d) in
      let word : length (take 4 d) ≡ 4 = omega (arith, length-take 4 d) in
      let short : len < 2 ^ 32 =
        omega (arith, rw word at (from_le-lt (take 4 d) (All-take IsByte 4 d hd))) in
      subst (λ k. Took c off d (push_payload (record { start = off + 8; stop = off + 8 + k }) s))
        plen
        (push-Took off d p (drop len (drop 8 d)) s (rw plen short) (frame_at c d hd len el hl hc)
          (rw plen t))

  scan_loop-Took :
      (fuel off : ℕ) (d : Bytes) → All IsByte d → Took c off d (scan_loop c fuel off off d)
  unfolding scan_loop
  scan_loop-Took fuel off [] h = stop-Took off [] none
  scan_loop-Took zero off (b ∷ bs) h = stop-Took off (b ∷ bs) _
  scan_loop-Took (suc fuel) off (b ∷ bs) h =
      let d : Bytes = b ∷ bs in
      let len = from_le (take 4 d) in
      let body = drop 8 d in
      let next = scan_loop c fuel (off + 8 + len) (off + 8 + len) (drop len body) in
      if_cases (Took c off d) (ltb (length d) 8) _ _ (λ _. stop-Took off d _)
        λ e1.
          if_cases (Took c off d) (ltb (length d - 8) len) _ _ (λ _. stop-Took off d _)
            λ e2.
              if_cases (Took c off d) (c.hash (take len body) == from_le (take 4 (drop 4 d))) _ _
                (λ e3. whole off len d next h refl (ground arith) ((==_iff _ _).0 e3) (
                  scan_loop-Took fuel (off + 8 + len) (drop len body)
                    (All-drop IsByte len body (All-drop IsByte 8 d h))))
                (λ _. stop-Took off d _)

  -- Whatever the bytes: what the scan accepts is a sequence of whole frames at the front of the
  -- buffer, its ranges are their payloads, and the good end is where they end.
  pub scan_frame_bytes-Took : (d : Bytes) → All IsByte d → Took c 0 d (scan_frame_bytes c d)
  unfolding scan_frame_bytes
  scan_frame_bytes-Took d h = scan_loop-Took (length d) 0 d h

  -- Whatever the bytes: the file that the good end of its scan cuts off scans clean, with the same
  -- payload ranges and the same end, so truncating a torn log and scanning it again loses nothing.
  scan-take-good_end :
      (d : Bytes)
      → All IsByte d
      → scan_frame_bytes c (take (scan_frame_bytes c d).good_end d)
        ≡ record (scan_frame_bytes c d) { bad = none }
  scan-take-good_end d h =
      let t = scan_frame_bytes-Took d h in
      let ends : (scan_frame_bytes c d).good_end ≡ length (frames c t.ps) =
        omega (arith, t.until) in
      let cut : take (scan_frame_bytes c d).good_end d ≡ frames c t.ps =
        ap (take _) t.split ∙ take-append _ (frames c t.ps) t.tail (sym ends) in
      ap (scan_frame_bytes c) cut
      ∙ scan-frames c t.ps t.short
      ∙ ap₂ (λ r g. record { payloads = r; good_end = g; bad = none }) (sym t.at) (sym ends)
