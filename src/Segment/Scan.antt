-- ===== src/Segment/Scan.antt =====
-- The scan of a buffer of frames: what it returns on whole frames, on a torn tail and on any bytes.
use icegres.Prelude.{
  ℕ, zero, suc, ◌+◌, ◌^◌, ◌≤◌, ◌<◌, ◌≡◌, ◌≢◌, refl, some, [], ◌∷◌, ◌++◌, length, take, drop, arith,
}
use icegres.Prelude.{length-append, take-append, drop-append, length-drop}
use icegres.Prelude.Bytes.{Bytes, to_le, from_le, from_le-to_le, length-to_le}
use icegres.Segment.{Crc, frame, scan_loop, scan_frame_bytes, push_payload, out_of_fuel}

module _ (c : Crc) where
  pub length-frame : (p : Bytes) → length (frame c p) ≡ 8 + length p
  length-frame p = rw (length-append, length-append, length-to_le, length-to_le) (omega arith)

  scan_loop-ne-out_of_fuel :
      (fuel off good : ℕ) (d : Bytes)
      → length d ≤ fuel
      → (scan_loop c fuel off good d).bad ≢ some out_of_fuel
  unfolding scan_loop
  scan_loop-ne-out_of_fuel fuel off good [] h = λ e. cc
  scan_loop-ne-out_of_fuel zero off good (b ∷ bs) h = absurd (omega arith)
  scan_loop-ne-out_of_fuel (suc fuel) off good (b ∷ bs) h =
      let len = from_le (take 4 (b ∷ bs)) in
      ground (
        arith,
        scan_loop-ne-out_of_fuel fuel (off + 8 + len) (off + 8 + len) (drop len (drop 8 (b ∷ bs))),
        length-drop len (drop 8 (b ∷ bs)),
        length-drop 8 (b ∷ bs),
      )

  pub scan_loop-frame :
      (fuel off good : ℕ) (p rest : Bytes)
      → length p < 2 ^ 32
      → scan_loop c (suc fuel) off good (frame c p ++ rest)
        ≡ push_payload
            (record { start = off + 8; stop = off + 8 + length p })
            (scan_loop c fuel (off + 8 + length p) (off + 8 + length p) rest)
  unfolding scan_loop to_le
  scan_loop-frame fuel off good p rest h =
      rw (from_le-to_le 4 (length p) h, from_le-to_le 4 (c.hash p) (c.hash_u32 p))
        (rw (take-append (length p) p rest refl, drop-append (length p) p rest refl)
          (ground (arith, length-append p rest)))

  pub scan_frame_bytes-ne-out_of_fuel : (d : Bytes) → (scan_frame_bytes c d).bad ≢ some out_of_fuel
  unfolding scan_frame_bytes
  scan_frame_bytes-ne-out_of_fuel d = scan_loop-ne-out_of_fuel (length d) 0 0 d (omega arith)
