-- ===== src/Tail/Writes.antt =====
-- Writes, failed writes and rounds of a waiter keep a segment safe.
use icegres.Prelude.{
  ℕ, suc, ◌+◌, ◌≡◌, refl, Option, none, some, Bool, true, false, not, leb, arith, nth?, if_cases,
  leb→le, inr,
}
use icegres.Tail.{Round, wait_round, TailSegment, stage, fail_write, after_round, wait_frame}
use icegres.Tail.Safe.{
  IsSafe, bounded_up, Covers-written, Covers-nth?, Holds-change, not_cleaned, LeaderAt-stage,
  SealedAt-active,
}

pub stage-IsSafe : (s : TailSegment) (n : ℕ) → IsSafe s → IsSafe (stage s n)
stage-IsSafe s n h =
    let end = s.good_len + suc n in
    if_cases IsSafe s.active _ _
      (λ on. record {
        stable = h.stable;
        written = refl;
        within = omega (arith, h.within);
        holds =
            Holds-change s.sync.cleaned s.good_len end s.sync.synced_len s.sync.synced_len s.clamp
              s.file_len end (not_cleaned s h on) (omega arith) h.holds;
        sealed = h.sealed;
        leading =
            LeaderAt-stage s.leader s.sync.syncing s.sync.written_len end s.sync.written_seq
              s.next_seq s.staged (omega (arith, h.written)) h.numbered h.leading;
        bounded = (
          (omega arith, omega arith),
          bounded_up s.good_len end s.sync.written_seq s.next_seq s.staged (omega arith) h.numbered
              h.bounded,
        );
        covered = ((λ e. absurd (omega (arith, h.within))), h.covered);
        ordered = (omega arith, h.ordered);
        numbered = omega arith;
        behind = omega (arith, h.behind, h.numbered);
        last = inr refl;
        counted =
            SealedAt-active s.sealed_seq s.active s.sync.cleaned s.sync.synced_seq
              s.sync.written_seq s.sync.synced_seq s.next_seq on h.counted;
        kept = h.kept;
      })
      (λ _. h)

pub fail_write-IsSafe :
    (s : TailSegment) (n : ℕ) (undone : Bool) → IsSafe s → IsSafe (fail_write s n undone)
fail_write-IsSafe s n true h =
    if_cases IsSafe s.active _ _
      (λ on. record {
        stable = h.stable;
        written = h.written;
        within = h.within;
        leading = h.leading;
        bounded = h.bounded;
        covered = h.covered;
        ordered = h.ordered;
        numbered = h.numbered;
        behind = h.behind;
        last = h.last;
        counted = h.counted;
        kept = h.kept;
        holds =
            Holds-change s.sync.cleaned s.good_len s.good_len s.sync.synced_len s.sync.synced_len
              s.clamp s.file_len s.good_len (not_cleaned s h on) (omega arith) h.holds;
        sealed = h.sealed;
      })
      (λ _. h)
fail_write-IsSafe s n false h =
    if_cases IsSafe s.active _ _
      (λ on. record {
        stable = h.stable;
        written = h.written;
        within = h.within;
        leading = h.leading;
        bounded = h.bounded;
        covered = h.covered;
        ordered = h.ordered;
        numbered = h.numbered;
        behind = h.behind;
        last = h.last;
        counted = h.counted;
        kept = h.kept;
        holds =
            Holds-change s.sync.cleaned s.good_len s.good_len s.sync.synced_len s.sync.synced_len
              s.clamp s.file_len (s.good_len + n) (not_cleaned s h on) (omega arith) h.holds;
        sealed = λ c. ((h.sealed c).0, refl);
      })
      (λ _. h)

pub after_round-IsSafe :
    (s : TailSegment) (i : ℕ) (f : ℕ × ℕ)
    → nth? s.staged i ≡ some f
    → IsSafe s
    → IsSafe (after_round s f (wait_round s.sync f.1))
after_round-IsSafe s i f at h =
    let st = s.sync in
    let P : Round → Type 0 = λ r. IsSafe (after_round s f r) in
    if_cases P st.failed _ _ (λ _. h)
      λ _.
        if_cases P (leb f.1 st.synced_len) _ _
          (λ done. record {
            stable = h.stable;
            written = h.written;
            within = h.within;
            holds = h.holds;
            sealed = h.sealed;
            leading = h.leading;
            bounded = h.bounded;
            covered = h.covered;
            ordered = h.ordered;
            numbered = h.numbered;
            behind = h.behind;
            last = h.last;
            counted = h.counted;
            kept =
                let l = leb→le f.1 st.synced_len done in
                ((l, Covers-nth? st.synced_len st.synced_seq s.staged i f h.covered at l), h.kept);
          })
          λ _.
            if_cases P (not st.syncing) _ _
              (λ _. record {
                stable = h.stable;
                written = h.written;
                within = h.within;
                holds = h.holds;
                sealed = h.sealed;
                leading = (
                  refl,
                  omega arith,
                  omega arith,
                  rw h.written (Covers-written s.good_len st.written_seq s.staged h.bounded),
                );
                bounded = h.bounded;
                covered = h.covered;
                ordered = h.ordered;
                numbered = h.numbered;
                behind = h.behind;
                last = h.last;
                counted = h.counted;
                kept = h.kept;
              })
              (λ _. h)

pub wait_frame-IsSafe :
    (s : TailSegment) (i : ℕ) (o : Option (ℕ × ℕ))
    → nth? s.staged i ≡ o
    → IsSafe s
    → IsSafe (wait_frame s o)
wait_frame-IsSafe s i none at h = h
wait_frame-IsSafe s i (some f) at h = after_round-IsSafe s i f at h
