-- ===== src/Quorum/SegmentWal/Boot/Walk.antt =====
-- The walk over the payloads of one file: it stops at the first that is no record of its position.
use icegres.Prelude.{
  ℕ, zero, suc, ◌+◌, ◌-◌, ◌^◌, ◌≤◌, ◌<◌, ◌≡◌, refl, sym, ap, ◌∙◌, Option, none, some, List, [], ◌∷◌,
  ◌++◌, not, length, take, drop, arith, append_assoc, ltb, ◌==◌, if_cases,
}
use icegres.Prelude.{length-append, drop-append}
use icegres.Prelude.Bytes.{Bytes, to_le, from_le, length-to_le, add_u64}
use icegres.Segment.{Crc, Bad, frame}
use icegres.Segment.Scan.{length-frame}
use icegres.Segment.Frames.{frames, ranges}
use icegres.Quorum.SegmentWal.Boot.{walk_payloads}

-- Payloads that are the records of consecutive positions from `pos` on.
abbrev pub IsRun : ℕ → List Bytes → Type 0
IsRun pos [] = Unit {0}
IsRun pos (p ∷ ps) = (8 ≤ length p) × (from_le (take 8 p) ≡ pos) × IsRun (pos + 8 + length p) ps

take-prefix : (n : ℕ) (p rest : Bytes) → n ≤ length p → take n (p ++ rest) ≡ take n p
take-prefix zero p rest h = refl
take-prefix (suc n) [] rest h = absurd (omega arith)
take-prefix (suc n) (x ∷ p) rest h = ap (λ t. x ∷ t) (take-prefix n p rest (omega arith))

-- The walk `r` over the payloads `ps`, whose frames begin at `off` of a file that begins at `start`,
-- accepted a run at their front.
pub record Walked (c : Crc) (start off : ℕ) (ps : List Bytes) (bad : Option Bad)
    (r : ℕ × Option Bad) : Type 0 where
  pub qs : List Bytes
  pub rest : List Bytes
  pub split : ps ≡ qs ++ rest
  pub run : IsRun (start + off) qs
  pub good : r.0 ≡ off + length (frames c qs)
  pub clean : r.1 ≡ none → (rest ≡ []) × (bad ≡ none)

module _ (c : Crc) where
  pub lsn_at :
      (front p rest : Bytes) (off : ℕ)
      → length front ≡ off
      → 8 ≤ length p
      → take 8 (drop (off + 8) (front ++ (frame c p ++ rest))) ≡ take 8 p
  lsn_at front p rest off h l =
      let header : Bytes = to_le 4 (length p) ++ to_le 4 (c.hash p) in
      let regroup : front ++ (frame c p ++ rest) ≡ (front ++ header) ++ (p ++ rest) =
        simp append_assoc in
      let long : length (front ++ header) ≡ off + 8 = omega (
        arith,
        length-append front header,
        length-append (to_le 4 (length p)) (to_le 4 (c.hash p)),
        length-to_le 4 (length p),
        length-to_le 4 (c.hash p),
      ) in
      rw (regroup, drop-append (off + 8) (front ++ header) (p ++ rest) long)
        (take-prefix 8 p rest l)

  stopped :
      (start off : ℕ) (ps : List Bytes) (bad : Option Bad) (b : Bad)
      → Walked c start off ps bad (off + 8 - 8, some b)
  stopped start off ps bad b = record {
    qs = [];
    rest = ps;
    split = refl;
    run = tt;
    good = omega arith;
    clean = λ e. cc;
  }

  pub walk_payloads-Walked :
      (d : Bytes) (start : ℕ) (front : Bytes) (off : ℕ) (ps : List Bytes) (tail : Bytes)
      (bad : Option Bad)
      → d ≡ front ++ (frames c ps ++ tail)
      → length front ≡ off
      → start + length d < 2 ^ 64
      → Walked c start off ps bad (walk_payloads d start (start + off) off (ranges off ps) bad)
  unfolding walk_payloads
  walk_payloads-Walked d start front off [] tail bad e h l = record {
    qs = [];
    rest = [];
    split = refl;
    run = tt;
    good = omega arith;
    clean = λ k. (refl, k);
  }
  walk_payloads-Walked d start front off (p ∷ ps) tail bad e h l =
      let next = off + 8 + length p in
      let regroup : d ≡ (front ++ frame c p) ++ (frames c ps ++ tail) = e ∙ simp append_assoc in
      let long : length (front ++ frame c p) ≡ next =
        omega (arith, length-append front (frame c p), length-frame c p) in
      let fits : next ≤ length d =
        omega
          (arith, ap length regroup, length-append (front ++ frame c p) (frames c ps ++ tail)) in
      let pos : add_u64 start next ≡ start + next = omega arith in
      let lsn = from_le (take 8 (drop (off + 8) d)) in
      let W = Walked c start off (p ∷ ps) bad in
      let w = walk_payloads-Walked d start (front ++ frame c p) next ps tail bad regroup long l in
      if_cases W (ltb (next - (off + 8)) 8) _ _ (λ _. stopped start off (p ∷ ps) bad _)
        λ size.
          if_cases W (not (lsn == start + off)) _ _ (λ _. stopped start off (p ∷ ps) bad _)
            λ same. rw pos (
              accept p ps w (ground arith) (
                ap from_le (
                  sym (lsn_at front p (frames c ps ++ tail) off h (ground arith))
                  ∙ ap (λ t. take 8 (drop (off + 8) t))
                      (ap (λ t. front ++ t) (sym (append_assoc (frame c p) (frames c ps) tail))
                        ∙ sym e))
                ∙ ground arith))
    where
      accept :
          (p : Bytes) (ps : List Bytes) {r : ℕ × Option Bad}
          → Walked c start (off + 8 + length p) ps bad r
          → 8 ≤ length p
          → from_le (take 8 p) ≡ start + off
          → Walked c start off (p ∷ ps) bad r
      accept p ps w size lsn =
          let at : start + (off + 8 + length p) ≡ start + off + 8 + length p = omega arith in
          record {
            qs = p ∷ w.qs;
            rest = w.rest;
            split = ap (λ t. p ∷ t) w.split;
            run = (size, lsn, rw at at w.run);
            good =
                omega (arith, w.good, length-append (frame c p) (frames c w.qs), length-frame c p);
            clean = w.clean;
          }
