-- ===== src/Tail/Syncs.antt =====
-- The end of a sync and the cleanup of a failure keep a segment safe.
use icegres.Prelude.{
  ℕ, ◌≤◌, ◌≡◌, refl, Option, none, some, Bool, true, false, not, ◌&&◌, ltb, if◌then◌else◌, max,
  arith, if_cases,
}
use icegres.Tail.{SegSyncState, TailSegment, finish_sync, seal_at}
use icegres.Tail.Safe.{
  readable, LeaderAt, SealedAt, IsSafe, bounded_up, Covers-max, Holds-same, Holds-file,
  Holds-cleaned, not_cleaned, SealedAt-sync, SealedAt-cleaned,
}

pub finish_sync-IsSafe :
    (s : TailSegment) (o : Option (ℕ × ℕ)) (ok : Bool)
    → LeaderAt o s.sync.syncing s.sync.written_len s.sync.written_seq s.staged
    → IsSafe s
    → IsSafe (finish_sync s o ok)
finish_sync-IsSafe s none ok lead h = h
finish_sync-IsSafe s (some (len, seq)) false lead h = record {
  stable = h.stable;
  written = h.written;
  within = h.within;
  holds = h.holds;
  sealed = λ c. ((h.sealed c).0, refl);
  leading = refl;
  bounded = h.bounded;
  covered = h.covered;
  ordered = h.ordered;
  numbered = h.numbered;
  behind = h.behind;
  last = h.last;
  counted = h.counted;
  kept = h.kept;
}
finish_sync-IsSafe s (some (len, seq)) true (on, a, b, c) h =
    let st = s.sync in
    let P : SegSyncState → Type 0 =
      λ st'. IsSafe (record s { sync = st'; leader = none; stable_len = max s.stable_len len }) in
    if_cases P (not st.failed && not st.cleaned) _ _
      (λ ok. record {
        stable = omega (arith, h.stable);
        written = h.written;
        within = omega (arith, h.within, h.written);
        holds =
            Holds-same st.cleaned s.good_len st.synced_len (max st.synced_len len) s.clamp
              s.file_len (ground arith) h.holds;
        sealed = h.sealed;
        leading = refl;
        bounded = h.bounded;
        covered = Covers-max st.synced_len len st.synced_seq seq s.staged h.covered c;
        ordered = h.ordered;
        numbered = h.numbered;
        behind = omega (arith, h.behind);
        last = h.last;
        counted =
            SealedAt-sync s.sealed_seq s.active st.cleaned st.synced_seq (max st.synced_seq seq)
              st.written_seq (ground arith) (omega (arith, h.behind)) h.counted;
        kept =
            bounded_up st.synced_len (max st.synced_len len) st.synced_seq (max st.synced_seq seq)
              s.acked (omega arith) (omega arith) h.kept;
      })
      (λ _. record {
        stable = omega (arith, h.stable);
        written = h.written;
        within = h.within;
        holds = h.holds;
        sealed = h.sealed;
        leading = refl;
        bounded = h.bounded;
        covered = h.covered;
        ordered = h.ordered;
        numbered = h.numbered;
        behind = h.behind;
        last = h.last;
        counted = h.counted;
        kept = h.kept;
      })

pub seal_at-IsSafe :
    (s : TailSegment) (undone : Bool) → s.sync.failed ≡ true → IsSafe s → IsSafe (seal_at s undone)
seal_at-IsSafe s undone failed h =
    let st = s.sync in
    let before =
      Holds-cleaned st.cleaned s.good_len st.synced_len s.clamp s.file_len h.within h.holds in
    if_cases IsSafe s.active _ _
      (λ on. record {
        stable = h.stable;
        written = h.written;
        within = h.within;
        holds = marked undone (on_file on);
        sealed = λ _. (refl, failed);
        leading = h.leading;
        bounded = h.bounded;
        covered = h.covered;
        ordered = h.ordered;
        numbered = h.numbered;
        behind = h.behind;
        last = h.last;
        counted = sealing (ltb 0 st.synced_len);
        kept = h.kept;
      })
      (λ off. record {
        stable = h.stable;
        written = h.written;
        within = h.within;
        holds = before;
        sealed = λ _. (off, failed);
        leading = h.leading;
        bounded = h.bounded;
        covered = h.covered;
        ordered = h.ordered;
        numbered = h.numbered;
        behind = h.behind;
        last = h.last;
        counted =
            SealedAt-cleaned s.sealed_seq s.active st.cleaned st.synced_seq st.written_seq
              h.counted;
        kept = h.kept;
      })
  where
    on_file : s.active ≡ true → s.sync.synced_len ≤ s.file_len
    on_file on =
        Holds-file s.sync.cleaned s.good_len s.sync.synced_len s.clamp s.file_len
          (not_cleaned s h on) h.within h.holds

    marked :
        (undone : Bool)
        → s.sync.synced_len ≤ s.file_len
        → s.sync.synced_len
          ≤ readable
              (if undone then none else some s.sync.synced_len)
              (if undone then s.sync.synced_len else s.file_len)
    marked true l = omega arith
    marked false l = omega arith

    sealing :
        (b : Bool)
        → SealedAt
            (if b then some s.sync.synced_seq else none)
            false
            true
            s.sync.synced_seq
            s.sync.written_seq
    sealing true = (refl, omega arith, (λ e. cc))
    sealing false = tt
