-- ===== src/Quorum/SegmentWal/Boot/Restart.antt =====
-- A crash in the middle of a write, and the restart: what was whole is recovered, all of it.
use icegres.Prelude.{
  ℕ, zero, suc, ◌+◌, ◌^◌, ◌≤◌, ◌<◌, ◌≡◌, refl, sym, ap, ◌∙◌, Option, none, some, List, [], ◌∷◌,
  ◌++◌, Bool, true, false, length, take, drop, All, arith, append_assoc, append-nil, ◌==◌, if_cases,
  ==_iff,
}
use icegres.Prelude.{length-append, take-append, length-take, nil_of_length}
use icegres.Prelude.Bytes.{Bytes, add_u64, from_le}
use icegres.Prelude.Results.{ok}
use icegres.Segment.{Crc, Bad, frame, scan_frame_bytes}
use icegres.Segment.Scan.{length-frame}
use icegres.Segment.Frames.{IsShort, frames, ranges}
use icegres.Segment.Recovery.{scan-frames, torn_reason}
use icegres.Segment.Sound.{scan-torn}
use icegres.Quorum.SegmentWal.{Seg, SegmentWal}
use icegres.Quorum.SegmentWal.Boot.{
  DirFile, FileScan, Boot, Step, walk_payloads, is_gap, flush_of, start_boot, scan_wal_segment,
  visit, visit_all, open_wal, insert_file, sort_files, cut_bad,
}
use icegres.Quorum.SegmentWal.Boot.Walk.{IsRun, lsn_at}

-- The bytes of the segments, from the oldest on.
abbrev pub stored : List Seg → Bytes
stored [] = []
stored (s ∷ older) = stored older ++ s.bytes

abbrev is_bad : Option Bad → Bool
is_bad none = false
is_bad (some _) = true

module _ (c : Crc) where
  -- The directory of a log from `b` on: a file for each list of payloads, and a last file of the
  -- frames of `ps` and the first `n` bytes of the frame of `p`, whose write was cut short.
  abbrev pub crash_dir : ℕ → List (List Bytes) → List Bytes → Bytes → ℕ → List DirFile
  crash_dir b [] ps p n = record { start = b; bytes = frames c ps ++ take n (frame c p) } ∷ []
  crash_dir b (qs ∷ qss) ps p n =
      record { start = b; bytes = frames c qs } ∷ crash_dir (b + length (frames c qs)) qss ps p n

  -- The frames that were written as a whole.
  abbrev pub whole_bytes : List (List Bytes) → List Bytes → Bytes
  whole_bytes [] ps = frames c ps
  whole_bytes (qs ∷ qss) ps = frames c qs ++ whole_bytes qss ps

  -- Every payload is the record of its position, and fits a frame.
  abbrev pub AreRuns : ℕ → List (List Bytes) → List Bytes → Type 0
  AreRuns b [] ps = IsRun b ps × All IsShort ps
  AreRuns b (qs ∷ qss) ps = IsRun b qs × All IsShort qs × AreRuns (b + length (frames c qs)) qss ps

  walk_payloads-run :
      (d : Bytes) (start : ℕ) (front : Bytes) (off : ℕ) (ps : List Bytes) (tail : Bytes)
      (bad : Option Bad)
      → d ≡ front ++ (frames c ps ++ tail)
      → length front ≡ off
      → start + length d < 2 ^ 64
      → IsRun (start + off) ps
      → walk_payloads d start (start + off) off (ranges off ps) bad
        ≡ (off + length (frames c ps), bad)
  unfolding walk_payloads
  walk_payloads-run d start front off [] tail bad e h l k = ap (λ n. (n, bad)) (omega arith)
  walk_payloads-run d start front off (p ∷ ps) tail bad e h l (size, lsn, k) =
      let next = off + 8 + length p in
      let regroup : d ≡ (front ++ frame c p) ++ (frames c ps ++ tail) = e ∙ simp append_assoc in
      let long : length (front ++ frame c p) ≡ next =
        omega (arith, length-append front (frame c p), length-frame c p) in
      let fits : next ≤ length d =
        omega
          (arith, ap length regroup, length-append (front ++ frame c p) (frames c ps ++ tail)) in
      let pos : add_u64 start next ≡ start + next = omega arith in
      let at : start + off + 8 + length p ≡ start + next = omega arith in
      let split : d ≡ front ++ (frame c p ++ (frames c ps ++ tail)) =
        e ∙ ap (λ t. front ++ t) (append_assoc (frame c p) (frames c ps) tail) in
      let here : take 8 (drop (off + 8) d) ≡ take 8 p =
        ap (λ t. take 8 (drop (off + 8) t)) split
        ∙ lsn_at c front p (frames c ps ++ tail) off h size in
      let ends : next + length (frames c ps) ≡ off + length (frame c p ++ frames c ps) =
        omega (arith, length-append (frame c p) (frames c ps), length-frame c p) in
      let lsn' : from_le (take 8 (drop (off + 8) d)) ≡ start + off = ap from_le here ∙ lsn in
      let rest : walk_payloads d start (add_u64 start next) next (ranges next ps) bad
          ≡ (off + length (frame c p ++ frames c ps), bad) =
        rw (pos, ← ends)
          (walk_payloads-run d start (front ++ frame c p) next ps tail bad regroup long l
            (rw at at k)) in
      ground (arith, rest, lsn')

  scanned :
      (start : ℕ) (d : Bytes) (ps : List Bytes) (tail : Bytes) (bad : Option Bad)
      → d ≡ frames c ps ++ tail
      → start + length d < 2 ^ 64
      → IsRun start ps
      → scan_frame_bytes c d
        ≡ record { payloads = ranges 0 ps; good_end = length (frames c ps); bad = bad }
      → (bad ≡ none → d ≡ frames c ps)
      → scan_wal_segment c (record { start = start; bytes = d }) [] ≡ (
        ok (record {
          end = start + length (frames c ps);
          hit_bad = is_bad bad;
          bytes = frames c ps;
        }),
        [],
      )
  unfolding scan_wal_segment
  scanned start d ps tail bad e l run scan whole =
      let at : start + 0 ≡ start = omega arith in
      let none_before : 0 + length (frames c ps) ≡ length (frames c ps) = omega arith in
      let walked : walk_payloads d start start 0 (ranges 0 ps) bad ≡ (length (frames c ps), bad) =
        rw (at, none_before) at (walk_payloads-run d start [] 0 ps tail bad e refl l (rw at run)) in
      let end : add_u64 start (length (frames c ps)) ≡ start + length (frames c ps) =
        omega (arith, ap length e, length-append (frames c ps) tail) in
      rw (scan, walked) (cut bad whole end)
    where
      cut :
          (bad : Option Bad)
          → (bad ≡ none → d ≡ frames c ps)
          → add_u64 start (length (frames c ps)) ≡ start + length (frames c ps)
          → cut_bad (record { start = start; bytes = d }) (length (frames c ps), bad) [] ≡ (
            ok (record {
              end = start + length (frames c ps);
              hit_bad = is_bad bad;
              bytes = frames c ps;
            }),
            [],
          )
      cut none whole end = rw (whole refl, end) refl
      cut (some b) whole end =
          rw (end, e, take-append (length (frames c ps)) (frames c ps) tail refl) refl

  tail_scan :
      (ps : List Bytes) (p : Bytes) (n : ℕ)
      → All IsShort ps
      → IsShort p
      → n < 8 + length p
      → (bad : Option Bad) × (scan_frame_bytes c (frames c ps ++ take n (frame c p))
          ≡ record { payloads = ranges 0 ps; good_end = length (frames c ps); bad = bad })
        × (bad ≡ none → frames c ps ++ take n (frame c p) ≡ frames c ps)
  tail_scan ps p zero hs hp l = (
    none,
    ap (scan_frame_bytes c) (append-nil (frames c ps)) ∙ scan-frames c ps hs,
    (λ _. append-nil (frames c ps)),
  )
  tail_scan ps p (suc n) hs hp l =
      (some (torn_reason p (suc n)), scan-torn c ps p (suc n) hs hp (omega arith) l, (λ e. cc))

  -- The state of the loop after files whose frames were the bytes `more`, up to `end`.
  record Reached (sealed : List Seg) (more : Bytes) (end : ℕ) (r : Step Boot) : Type 0 where
    after : Boot
    result : r ≡ (ok after, [])
    pos : after.pos ≡ some end
    holds : stored after.sealed ≡ stored sealed ++ more

  visited :
      (b : Boot) (f : DirFile) (s : FileScan)
      → b.stop ≡ false
      → is_gap b.pos f.start ≡ false
      → scan_wal_segment c f [] ≡ (ok s, [])
      → (s.end ≡ f.start → s.bytes ≡ [])
      → (t : Reached b.sealed s.bytes s.end (visit c b f [])) × (t.after.stop ≡ s.hit_bad)
  unfolding visit
  visited b f s go near scan none_kept =
      rw (go, near, scan)
        (if_cases P (s.end == f.start) _ _
          (λ same. (
            record {
              after = record b { pos = some s.end; stop = s.hit_bad };
              result = refl;
              pos = refl;
              holds = sym (rw (none_kept ((==_iff _ _).0 same)) (append-nil (stored b.sealed)));
            },
            refl,
          ))
          (λ _. (
            record {
              after = record {
                pos = some s.end;
                sealed = record { start = f.start; end = s.end; bytes = s.bytes } ∷ b.sealed;
                stop = s.hit_bad;
              };
              result = refl;
              pos = refl;
              holds = refl;
            },
            refl,
          )))
    where
      P : Step Boot → Type 0
      P x = (t : Reached b.sealed s.bytes s.end x) × (t.after.stop ≡ s.hit_bad)

  visit_all-Reached :
      (b : ℕ) (qss : List (List Bytes)) (ps : List Bytes) (p : Bytes) (n : ℕ) (boot : Boot)
      → boot.stop ≡ false
      → is_gap boot.pos b ≡ false
      → AreRuns b qss ps
      → IsShort p
      → n < 8 + length p
      → b + length (whole_bytes qss ps) + n < 2 ^ 63
      → Reached boot.sealed
          (whole_bytes qss ps)
          (b + length (whole_bytes qss ps))
          (visit_all c boot (crash_dir b qss ps p n) [])
  unfolding visit_all
  visit_all-Reached b [] ps p n boot go near (run, hs) hp l fits =
      let tail = take n (frame c p) in
      let (bad, scan, whole) = tail_scan ps p n hs hp l in
      let size : b + length (frames c ps ++ tail) < 2 ^ 64 =
        omega (arith, length-append (frames c ps) tail, length-take n (frame c p)) in
      let (t, _) =
        visited boot (record { start = b; bytes = frames c ps ++ tail })
          (record { end = b + length (frames c ps); hit_bad = is_bad bad; bytes = frames c ps }) go
          near (scanned b (frames c ps ++ tail) ps tail bad refl size run scan whole)
          (λ e. nil_of_length (frames c ps) (omega arith)) in
      record { after = t.after; result = rw t.result refl; pos = t.pos; holds = t.holds }
  visit_all-Reached b (qs ∷ qss) ps p n boot go near (run, hs, more) hp l fits =
      let here = frames c qs in
      let rest = whole_bytes qss ps in
      let sum : length (here ++ rest) ≡ length here + length rest = length-append here rest in
      let (t, goes) =
        visited boot (record { start = b; bytes = here })
          (record { end = b + length here; hit_bad = false; bytes = here }) go near
          (scanned b here qs [] none (sym (append-nil here)) (omega arith) run (scan-frames c qs hs)
            (λ _. refl))
          (λ e. nil_of_length here (omega arith)) in
      let joined : is_gap t.after.pos (b + length here) ≡ false = rw t.pos (ground arith) in
      let u =
        visit_all-Reached (b + length here) qss ps p n t.after goes joined more hp l
          (omega arith) in
      record {
        after = u.after;
        result = rw t.result u.result;
        pos = u.pos ∙ ap some (omega arith);
        holds = u.holds ∙ rw t.holds (append_assoc (stored boot.sealed) here rest);
      }

  sorted :
      (b : ℕ) (qss : List (List Bytes)) (ps : List Bytes) (p : Bytes) (n : ℕ)
      → sort_files (crash_dir b qss ps p n) ≡ crash_dir b qss ps p n
  unfolding sort_files
  sorted b [] ps p n = refl
  sorted b (qs ∷ qss) ps p n = rw (sorted (b + length (frames c qs)) qss ps p n) (in_front qss)
    where
      in_front :
          (qss : List (List Bytes))
          → insert_file
              (record { start = b; bytes = frames c qs })
              (crash_dir (b + length (frames c qs)) qss ps p n)
            ≡ record { start = b; bytes = frames c qs }
              ∷ crash_dir (b + length (frames c qs)) qss ps p n
      in_front [] = ground arith
      in_front (rs ∷ rss) = ground arith

  -- A log of whole records of consecutive positions in the lower half of `u64`, over any number of
  -- segment files, whose last write was cut inside its frame or not begun: where the file operations
  -- succeed, the boot opens a log that holds every whole frame and nothing else, and whose flush
  -- position is where they end.
  pub open_wal-whole_bytes :
      (b : ℕ) (qss : List (List Bytes)) (ps : List Bytes) (p : Bytes) (n : ℕ)
      → AreRuns b qss ps
      → IsShort p
      → n < 8 + length p
      → b + length (whole_bytes qss ps) + n < 2 ^ 63
      → (w : SegmentWal) × ((open_wal c (crash_dir b qss ps p n) []).0 ≡ ok w)
        × (stored w.sealed ≡ whole_bytes qss ps)
        × (w.flush ≡ b + length (whole_bytes qss ps))
  unfolding open_wal
  open_wal-whole_bytes b qss ps p n runs hp l fits =
      let t = visit_all-Reached b qss ps p n start_boot refl refl runs hp l fits in
      rw (sorted b qss ps p n, t.result) (_, refl, t.holds, ap flush_of t.pos)
