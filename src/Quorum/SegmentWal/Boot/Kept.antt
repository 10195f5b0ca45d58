-- ===== src/Quorum/SegmentWal/Boot/Kept.antt =====
-- What a boot keeps of a directory, whatever bytes stand in its files: a gapless log of whole records.
use icegres.Prelude.{
  ℕ, ◌+◌, ◌^◌, ◌<◌, ◌≡◌, refl, sym, ap, ◌∙◌, Option, none, some, List, [], ◌∷◌, ◌++◌, Bool, true,
  false, ◌&&◌, length, take, All, arith, append_assoc, leb, ◌==◌, if_cases, append-nil, ==_iff,
}
use mathlib.Core.Path.{subst}
use icegres.Prelude.{length-append, take-append, nil_of_length}
use icegres.Prelude.Bytes.{Bytes, IsByte, add_u64}
use icegres.Prelude.Results.{ok, err, err-ne-ok, ok_injective}
use icegres.Segment.{Crc, Bad, scan_frame_bytes}
use icegres.Segment.Frames.{frames, frames-append}
use icegres.Segment.Sound.{scan_frame_bytes-Took}
use icegres.Quorum.Record.Strict.{scan_clean}
use icegres.Quorum.TermHistory.{is_nil}
use icegres.Quorum.SegmentWal.{Seg, SegmentWal, Io}
use icegres.Quorum.SegmentWal.Chain.{Chain}
use icegres.Quorum.SegmentWal.Wf.{IsWf, IsWfAt}
use icegres.Quorum.SegmentWal.Boot.{
  DirFile, FileScan, Boot, Step, and_then, do_all, cut_bad, walk_payloads, is_gap, keep_file,
  flush_of, booted, start_boot, scan_wal_segment, visit, visit_all, open_wal, insert_file,
  sort_files,
}
use icegres.Quorum.SegmentWal.Boot.Walk.{IsRun, Walked, walk_payloads-Walked}

-- The bytes are whole frames of the records of consecutive positions from `start` to `end`.
abbrev pub IsWhole : Crc → ℕ → ℕ → Bytes → Type 0
IsWhole c start end bs =
    (end ≡ start + length bs) × (qs : List Bytes) × IsRun start qs × (bs ≡ frames c qs)

-- The segments, the last first, hold whole records and follow one on the other up to `hi`.
abbrev pub IsGapless : Crc → ℕ → List Seg → Type 0
IsGapless c hi [] = Unit {0}
IsGapless c hi (s ∷ older) =
    (s.end ≡ hi) × IsWhole c s.start s.end s.bytes × IsGapless c s.start older

-- A file of bytes whose positions lie in the lower half of `u64`.
abbrev pub IsFile : DirFile → Type 0
IsFile f = All IsByte f.bytes × (f.start + length f.bytes < 2 ^ 63)

pub and_then-ok {ℓ κ} :
    {A : Type ℓ} {B : Type κ} (x : Step A) (next : A → List Io → Step B) {b : B}
    → (and_then x next).0 ≡ ok b
    → (a : A) × (os : List Io) × (x ≡ (ok a, os)) × ((next a os).0 ≡ ok b)
and_then-ok (err e, os) next h = absurd (err-ne-ok h)
and_then-ok (ok a, os) next h = (a, os, refl, h)

IsGapless-Chain : (c : Crc) (hi : ℕ) (segs : List Seg) → IsGapless c hi segs → Chain hi segs
IsGapless-Chain c hi [] h = tt
IsGapless-Chain c hi (s ∷ older) (at, (e, _, _, _), r) =
    (omega arith, omega arith, IsGapless-Chain c s.start older r)

module _ (c : Crc) where
  cut_bad-IsWhole :
      (f : DirFile) (ps : List Bytes) (tail : Bytes) (bad : Option Bad) (r : ℕ × Option Bad)
      (os : List Io) {s : FileScan}
      → f.start + length f.bytes < 2 ^ 63
      → f.bytes ≡ frames c ps ++ tail
      → (bad ≡ none → tail ≡ [])
      → Walked c f.start 0 ps bad r
      → (cut_bad f r os).0 ≡ ok s
      → IsWhole c f.start s.end s.bytes
  cut_bad-IsWhole f ps tail bad (good, none) os {s} l e full w h =
      let (r0, b0) = w.clean refl in
      let t0 = full b0 in
      let whole : f.bytes ≡ frames c w.qs =
        e ∙ rw (t0, append-nil) (ap (frames c) (w.split ∙ rw (r0, append-nil) refl)) in
      let at : f.start + 0 ≡ f.start = omega arith in
      let end : add_u64 f.start good ≡ f.start + length f.bytes =
        omega (arith, w.good, ap length whole) in
      subst (λ (x : FileScan). IsWhole c f.start x.end x.bytes) (ok_injective h)
        (end, w.qs, rw at at w.run, whole)
  cut_bad-IsWhole f ps tail bad (good, some b) os {s} l e full w h =
      let (u, os', _, k) =
        and_then-ok (do_all 3 os)
          (λ _ os'. (
            ok (record { end = add_u64 f.start good; hit_bad = true; bytes = take good f.bytes }),
            os',
          ))
          h in
      let parts : f.bytes ≡ frames c w.qs ++ (frames c w.rest ++ tail) =
        e
        ∙ ap (λ t. frames c t ++ tail) w.split
        ∙ rw (frames-append) (append_assoc (frames c w.qs) (frames c w.rest) tail) in
      let cut : take good f.bytes ≡ frames c w.qs =
        ap (take good) parts ∙ take-append good (frames c w.qs) _ (omega (arith, w.good)) in
      let at : f.start + 0 ≡ f.start = omega arith in
      let end : add_u64 f.start good ≡ f.start + length (take good f.bytes) = omega (
        arith,
        w.good,
        ap length cut,
        ap length parts,
        length-append (frames c w.qs) (frames c w.rest ++ tail),
      ) in
      subst (λ (x : FileScan). IsWhole c f.start x.end x.bytes) (ok_injective k)
        (end, w.qs, rw at at w.run, cut)

  scan_wal_segment-IsWhole :
      (f : DirFile) (os : List Io) {s : FileScan}
      → IsFile f
      → (scan_wal_segment c f os).0 ≡ ok s
      → IsWhole c f.start s.end s.bytes
  unfolding scan_wal_segment
  scan_wal_segment-IsWhole f os {s} (hb, l) h =
      let scan = scan_frame_bytes c f.bytes in
      let t = scan_frame_bytes-Took c f.bytes hb in
      let (_, os', _, k) = and_then-ok (do_all 1 os) _ h in
      let at : f.start + 0 ≡ f.start = omega arith in
      let walked =
        walk_payloads-Walked c f.bytes f.start [] 0 t.ps t.tail scan.bad t.split refl
          (omega arith) in
      let full : scan.bad ≡ none → t.tail ≡ [] = λ b. nil_of_length t.tail (
        omega (
          arith,
          t.until,
          scan_clean c (λ _. true) f.bytes b,
          ap length t.split,
          length-append (frames c t.ps) t.tail,
        )) in
      cut_bad-IsWhole f t.ps t.tail scan.bad
        (walk_payloads f.bytes f.start f.start 0 scan.payloads scan.bad) os' l t.split full
        (rw t.at (rw at at walked)) k

  -- The state of the loop: nothing kept yet, or a gapless log up to the position.
  abbrev IsBootAt : Option ℕ → List Seg → Type 0
  IsBootAt none sealed = sealed ≡ []
  IsBootAt (some p) sealed = IsGapless c p sealed

  abbrev IsBoot : Boot → Type 0
  IsBoot b = IsBootAt b.pos b.sealed

  reaches :
      (pos : Option ℕ) (sealed : List Seg) (start : ℕ)
      → IsBootAt pos sealed
      → is_gap pos start ≡ false
      → IsGapless c start sealed
  reaches none sealed start h g = rw h tt
  reaches (some p) sealed start h g =
      let e : p ≡ start = ground arith in subst (λ x. IsGapless c x sealed) e h

  keep_file-IsBoot :
      (b : Boot) (f : DirFile) (s : FileScan) (os : List Io) {b' : Boot}
      → IsGapless c f.start b.sealed
      → IsWhole c f.start s.end s.bytes
      → (keep_file b f s os).0 ≡ ok b'
      → IsBoot b'
  keep_file-IsBoot b f s os {b'} g w =
      if_cases (λ (x : Step Boot). x.0 ≡ ok b' → IsBoot b') (s.end == f.start) _ _
        (λ same h.
          subst IsBoot (ok_injective h)
            (subst (λ x. IsGapless c x b.sealed) (sym ((==_iff _ _).0 same)) g))
        (λ _ h. subst IsBoot (ok_injective h) (refl, w, g))

  visit-IsBoot :
      (b : Boot) (f : DirFile) (os : List Io) {b' : Boot}
      → IsFile f
      → IsBoot b
      → (visit c b f os).0 ≡ ok b'
      → IsBoot b'
  unfolding visit
  visit-IsBoot b f os {b'} hf hb =
      let P : Step Boot → Type 0 = λ x. x.0 ≡ ok b' → IsBoot b' in
      if_cases P b.stop _ _ (λ _ h. subst IsBoot (ok_injective h) hb)
        λ _.
          if_cases P (is_gap b.pos f.start) _ _ (λ _ h. subst IsBoot (ok_injective h) hb)
            λ near h.
              let (s, os', e, k) = and_then-ok (scan_wal_segment c f os) (keep_file b f) h in
              keep_file-IsBoot b f s os' (reaches b.pos b.sealed f.start hb near)
                (scan_wal_segment-IsWhole f os hf (ap (λ x. x.0) e)) k

  visit_all-IsBoot :
      (b : Boot) (fs : List DirFile) (os : List Io) {b' : Boot}
      → All IsFile fs
      → IsBoot b
      → (visit_all c b fs os).0 ≡ ok b'
      → IsBoot b'
  unfolding visit_all
  visit_all-IsBoot b [] os hf hb h = subst IsBoot (ok_injective h) hb
  visit_all-IsBoot b (f ∷ fs) os (hf, hfs) hb h =
      let (b1, os', e, k) = and_then-ok (visit c b f os) (λ b'. visit_all c b' fs) h in
      visit_all-IsBoot b1 fs os' hfs (visit-IsBoot b f os hf hb (ap (λ x. x.0) e)) k

  insert_file-IsFile :
      (f : DirFile) (fs : List DirFile) → IsFile f → All IsFile fs → All IsFile (insert_file f fs)
  insert_file-IsFile f [] h k = (h, tt)
  insert_file-IsFile f (x ∷ xs) h (kx, k) =
      if_cases (All IsFile) (leb f.start x.start) _ _ (λ _. (h, (kx, k)))
        (λ _. (kx, insert_file-IsFile f xs h k))

  sort_files-IsFile : (fs : List DirFile) → All IsFile fs → All IsFile (sort_files fs)
  unfolding sort_files
  sort_files-IsFile [] h = tt
  sort_files-IsFile (f ∷ fs) (h, k) =
      insert_file-IsFile f (sort_files fs) h (sort_files-IsFile fs k)

  boot_flush :
      (pos : Option ℕ) (sealed : List Seg) → IsBootAt pos sealed → IsGapless c (flush_of pos) sealed
  boot_flush none sealed h = rw h tt
  boot_flush (some p) sealed h = h

  fresh_or_written :
      (flush : ℕ) (sealed : List Seg)
      → IsGapless c flush sealed
      → IsWfAt (is_nil sealed && (flush == 0)) flush sealed none
  fresh_or_written flush [] g = either (flush == 0)
    where
      either : (b : Bool) → IsWfAt b flush [] none
      either true = tt
      either false = tt
  fresh_or_written flush (s ∷ older) g = IsGapless-Chain c flush (s ∷ older) g

  -- Whatever bytes stand in the segment files of a directory, with their positions in the lower half
  -- of `u64`, and whichever file operations fail: a log that the boot opens is well-formed and has no
  -- active segment, and its segments hold whole frames of the records of consecutive positions, each
  -- segment beginning where the one before it ends and the last ending at the flush position.
  pub open_wal-IsGapless :
      (files : List DirFile) (os : List Io) (w : SegmentWal)
      → All IsFile files
      → (open_wal c files os).0 ≡ ok w
      → IsWf w × (w.active ≡ none) × IsGapless c w.flush w.sealed
  unfolding open_wal
  open_wal-IsGapless files os w hf h =
      let (_, os', _, k) = and_then-ok (do_all 2 os) _ h in
      let (b, os'', e, k') = and_then-ok (visit_all c start_boot (sort_files files) os') booted k in
      let g =
        visit_all-IsBoot start_boot (sort_files files) os' (sort_files-IsFile files hf) refl
          (ap (λ x. x.0) e) in
      let gapless = boot_flush b.pos b.sealed g in
      subst (λ w. IsWf w × (w.active ≡ none) × IsGapless c w.flush w.sealed) (ok_injective k')
        (fresh_or_written (flush_of b.pos) b.sealed gapless, refl, gapless)
