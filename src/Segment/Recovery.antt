-- ===== src/Segment/Recovery.antt =====
-- What the scan recovers of a log: whole frames, a log whose last write was torn, any bytes at all.
use icegres.Prelude.{
  ℕ, suc, ◌+◌, ◌-◌, ◌≤◌, ◌<◌, ◌≡◌, refl, sym, ap, ◌∙◌, ap₂, Option, none, some, List, [], ◌∷◌, ◌++◌,
  map, length, take, drop, All, arith, append_assoc, append-nil,
}
use icegres.Prelude.{length-append, take-append, drop-append, length-drop, length-take}
use icegres.Prelude.{All-take, All-drop, take-append-drop, drop-drop, ltb, if◌then◌else◌}
use icegres.Prelude.Bytes.{
  Bytes, IsByte, to_le, from_le, from_le-to_le, to_le-from_le, length-to_le,
}
use icegres.Segment.{
  Crc, Range, Bad, frame, scan_loop, scan_frame_bytes, push_payload, stop_scan, slice, torn_header,
  torn_payload,
}
use icegres.Segment.Scan.{length-frame}
use icegres.Segment.Frames.{IsShort, frames, ranges, push_payloads, scan_loop-frames}

pub push_payloads-stop_scan :
    (rs : List Range) (g : ℕ) (b : Option Bad)
    → push_payloads rs (stop_scan g b) ≡ record { payloads = rs; good_end = g; bad = b }
push_payloads-stop_scan [] g b = refl
push_payloads-stop_scan (r ∷ rs) g b = ap (push_payload r) (push_payloads-stop_scan rs g b)

pub slices_behind :
    (c : Crc) (front : Bytes) (off : ℕ) (ps : List Bytes)
    → length front ≡ off
    → map (slice (front ++ frames c ps)) (ranges off ps) ≡ ps
slices_behind c front off [] h = refl
slices_behind c front off (p ∷ ps) h =
    ap₂ (λ x xs. x ∷ xs) first
      (ap (λ t. map (slice t) (ranges (off + 8 + length p) ps))
          (sym (append_assoc front (frame c p) (frames c ps)))
        ∙ slices_behind c (front ++ frame c p) (off + 8 + length p) ps
            (omega (arith, length-append front (frame c p), length-frame c p)))
  where
    header : Bytes
    header = to_le 4 (length p) ++ to_le 4 (c.hash p)

    header_len : length (front ++ header) ≡ off + 8
    header_len = omega (
      arith,
      length-append front header,
      length-append (to_le 4 (length p)) (to_le 4 (c.hash p)),
      length-to_le 4 (length p),
      length-to_le 4 (c.hash p),
    )

    regroup : front ++ frames c (p ∷ ps) ≡ (front ++ header) ++ (p ++ frames c ps)
    regroup = simp append_assoc

    first :
        slice (front ++ frames c (p ∷ ps)) (record { start = off + 8; stop = off + 8 + length p })
        ≡ p
    first =
        rw (regroup, drop-append (off + 8) (front ++ header) (p ++ frames c ps) header_len)
          (take-append _ p (frames c ps) (omega arith))

-- Why the walk stops inside a frame of which `n` bytes reached the disk.
abbrev pub torn_reason : Bytes → ℕ → Bad
torn_reason p n = if ltb n 8 then torn_header n else torn_payload (length p) (n - 8)

module _ (c : Crc) where
  -- A buffer that is exactly the frames of `ps` scans clean: one payload range for each frame, in
  -- order, the end of the buffer as the last good position, and no reason to stop.
  pub scan-frames :
      (ps : List Bytes)
      → All IsShort ps
      → scan_frame_bytes c (frames c ps)
        ≡ record { payloads = ranges 0 ps; good_end = length (frames c ps); bad = none }
  unfolding scan_frame_bytes scan_loop
  scan-frames ps h =
      let (k, hk, e) =
        scan_loop-frames c ps (length (frames c ps)) 0 [] h (rw append-nil (omega arith)) in
      let start : 0 + length (frames c ps) ≡ length (frames c ps) = omega arith in
      rw (append-nil, start) at e
      ∙ push_payloads-stop_scan (ranges 0 ps) (length (frames c ps)) none

  -- The payload bytes that the ranges of a clean scan select are the payloads that were framed.
  pub slice-ranges : (ps : List Bytes) → map (slice (frames c ps)) (ranges 0 ps) ≡ ps
  slice-ranges ps = slices_behind c [] 0 ps refl

  pub torn_frame :
      (fuel off n : ℕ) (p : Bytes)
      → IsShort p
      → 0 < n
      → n < 8 + length p
      → scan_loop c (suc fuel) off off (take n (frame c p)) ≡ stop_scan off (some (torn_reason p n))
  unfolding scan_loop to_le
  torn_frame fuel off (suc (suc (suc (suc (suc (suc (suc (suc m)))))))) p hp lo hi =
      rw (from_le-to_le 4 (length p) hp) (ground (arith, length-take m p))
  torn_frame fuel off _ p hp lo hi = ground arith

  -- d ≡ frame ++ rest
  pub frame_at :
      (d : Bytes)
      → All IsByte d
      → (len : ℕ) → from_le (take 4 d) ≡ len
      → 8 + len ≤ length d
      → c.hash (take len (drop 8 d)) ≡ from_le (take 4 (drop 4 d))
      → d ≡ frame c (take len (drop 8 d)) ++ drop len (drop 8 d)
  frame_at d hd len el hl hc = rw (
    plen,
    low,
    hc,
    high,
    append_assoc,
    append_assoc,
    take-append-drop,
    ← d8,
    take-append-drop,
    take-append-drop,
  )
    where
      plen : length (take len (drop 8 d)) ≡ len
      plen = omega (arith, length-take len (drop 8 d), length-drop 8 d)

      low : to_le 4 len ≡ take 4 d
      low =
          ap (to_le 4) (sym el)
          ∙ to_le-from_le 4 (take 4 d) (omega (arith, length-take 4 d)) (All-take IsByte 4 d hd)

      high : to_le 4 (from_le (take 4 (drop 4 d))) ≡ take 4 (drop 4 d)
      high =
          to_le-from_le 4 (take 4 (drop 4 d))
            (omega (arith, length-take 4 (drop 4 d), length-drop 4 d))
            (All-take IsByte 4 (drop 4 d) (All-drop IsByte 4 d hd))

      d8 : drop 4 (drop 4 d) ≡ drop 8 d
      d8 = drop-drop 4 4 8 d (omega arith)
