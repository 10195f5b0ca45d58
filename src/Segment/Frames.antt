-- ===== src/Segment/Frames.antt =====
-- Sequences of frames: what the writers of a log put on disk, one frame behind the other.
use icegres.Prelude.{
  ℕ, zero, suc, ◌+◌, ◌^◌, ◌≤◌, ◌<◌, ◌≡◌, refl, sym, ap, ◌∙◌, List, [], ◌∷◌, ◌++◌, length, All,
  arith, append_assoc,
}
use icegres.Prelude.{length-append}
use icegres.Prelude.Bytes.{Bytes}
use icegres.Segment.{Crc, Range, RawFrameScan, frame, scan_loop, push_payload}
use icegres.Segment.Scan.{length-frame, scan_loop-frame}

abbrev pub IsShort : Bytes → Type 0
IsShort p = length p < 2 ^ 32

module _ (c : Crc) where
  abbrev pub frames : List Bytes → Bytes
  frames [] = []
  frames (p ∷ ps) = frame c p ++ frames ps

  pub frames-append : (ps qs : List Bytes) → frames (ps ++ qs) ≡ frames ps ++ frames qs
  frames-append [] qs = refl
  frames-append (p ∷ ps) qs =
      ap (λ t. frame c p ++ t) (frames-append ps qs)
      ∙ sym (append_assoc (frame c p) (frames ps) (frames qs))

-- The payload ranges of frames that begin at `off`.
abbrev pub ranges : ℕ → List Bytes → List Range
ranges off [] = []
ranges off (p ∷ ps) =
    record { start = off + 8; stop = off + 8 + length p } ∷ ranges (off + 8 + length p) ps

abbrev pub push_payloads : List Range → RawFrameScan → RawFrameScan
push_payloads [] s = s
push_payloads (r ∷ rs) s = push_payload r (push_payloads rs s)

module _ (c : Crc) where
  pub scan_loop-frames :
      (ps : List Bytes) (fuel off : ℕ) (tail : Bytes)
      → All IsShort ps
      → length (frames c ps ++ tail) ≤ fuel
      → (k : ℕ) × (length tail ≤ k)
        × (scan_loop c fuel off off (frames c ps ++ tail)
            ≡ push_payloads
                (ranges off ps)
                (scan_loop c k (off + length (frames c ps)) (off + length (frames c ps)) tail))
  scan_loop-frames [] fuel off tail h hf = let e : off + 0 ≡ off = omega arith in (fuel, hf, rw e)
  scan_loop-frames (p ∷ ps) zero off tail h hf = absurd (
      omega (
        arith,
        length-append (frame c p ++ frames c ps) tail,
        length-frame c p,
        length-append (frame c p) (frames c ps),
      ))
  scan_loop-frames (p ∷ ps) (suc fuel) off tail (hp, hps) hf =
      let sizes : (length (frame c p ++ frames c ps ++ tail)
          ≡ 8 + length p + length (frames c ps ++ tail)) =
        omega (
          arith,
          length-append (frame c p ++ frames c ps) tail,
          length-frame c p,
          length-append (frame c p) (frames c ps),
          length-append (frames c ps) tail,
        ) in
      let (k, hk, e) = scan_loop-frames ps fuel (off + 8 + length p) tail hps (omega arith) in
      let ends : off + length (frame c p ++ frames c ps)
          ≡ off + 8 + length p + length (frames c ps) =
        omega (arith, length-frame c p, length-append (frame c p) (frames c ps)) in
      (
        k,
        hk,
        rw (append_assoc (frame c p) (frames c ps) tail, ends)
            (scan_loop-frame c fuel off off p (frames c ps ++ tail) hp ∙ ap (push_payload _) e),
      )
