-- ===== src/Tail/GroupSync.antt =====
-- The fsync that appenders share: an acknowledged frame is on stable storage and is never erased, in
-- whatever order the tasks run and whichever writes, syncs and roll backs fail.
use icegres.Prelude.{
  ℕ, ◌≤◌, ◌≡◌, refl, Option, none, some, List, [], ◌∷◌, Bool, false, not, ◌||◌, ◌==◌, max, min, All,
  arith, nth?, if_cases, ◌⊎◌, inl, inr,
}
use icegres.Tail.{
  Round, fails, satisfied, leads, waits, wait_round, TailSegment, create, Event, wrote,
  write_failed, waited, synced, cleanup, rotate, ensure_seq_floor, clean_up, rotate_synced,
  rotate_segment, after_event, after_events, replayable,
}
use icegres.Tail.Safe.{
  Descending, readable, SealedAt, IsSafe, create-IsSafe, Descending-le, Holds-cleaned,
}
use icegres.Tail.Writes.{stage-IsSafe, fail_write-IsSafe, wait_frame-IsSafe}
use icegres.Tail.Syncs.{finish_sync-IsSafe, seal_at-IsSafe}

clean_up-IsSafe : (s : TailSegment) (undone : Bool) → IsSafe s → IsSafe (clean_up s undone)
clean_up-IsSafe s undone h =
    if_cases IsSafe (s.sync.cleaned || not s.sync.failed || s.sync.syncing) _ _ (λ _. h)
      (λ now. seal_at-IsSafe s undone (ground arith) h)

-- Sealing what no longer has to be written.
module _ (s : TailSegment) (h : IsSafe s) where
  sealed_with :
      (o : Option ℕ)
      → SealedAt o false s.sync.cleaned s.sync.synced_seq s.sync.written_seq
      → IsSafe (record s { active = false; sealed_seq = o })
  sealed_with o counted = record {
    stable = h.stable;
    written = h.written;
    within = h.within;
    holds = h.holds;
    sealed = λ c. (refl, (h.sealed c).1);
    leading = h.leading;
    bounded = h.bounded;
    covered = h.covered;
    ordered = h.ordered;
    numbered = h.numbered;
    behind = h.behind;
    last = h.last;
    counted = counted;
    kept = h.kept;
  }

  SealedAt-off : (o : Option ℕ) (a b : Bool) (x y : ℕ) → SealedAt o a b x y → SealedAt o false b x y
  SealedAt-off none a b x y k = tt
  SealedAt-off (some q) a b x y (_, l, w) = (refl, l, w)

  rotate-IsSafe : IsSafe (rotate_segment s)
  rotate-IsSafe =
      if_cases IsSafe (not s.active) _ _ (λ _. h)
        λ _.
          if_cases IsSafe (s.max_seq == 0) _ _
            (λ _. sealed_with s.sealed_seq (
              SealedAt-off s.sealed_seq s.active s.sync.cleaned s.sync.synced_seq s.sync.written_seq
                h.counted))
            (λ some_frame.
              by_round (wait_round s.sync s.sync.written_len) (last_written h.last some_frame))
    where
      last_written :
          (s.max_seq ≡ 0) ⊎ (s.max_seq ≡ s.sync.written_seq)
          → (s.max_seq == 0) ≡ false
          → s.max_seq ≡ s.sync.written_seq
      last_written (inl z) e = absurd (ground arith)
      last_written (inr w) e = w

      by_round : (r : Round) → s.max_seq ≡ s.sync.written_seq → IsSafe (rotate_synced s r)
      by_round fails w = h
      by_round satisfied w =
          sealed_with (some s.max_seq) (refl, omega (arith, h.behind), (λ _. omega arith))
      by_round (leads l q) w = h
      by_round waits w = h

floor-IsSafe :
    (s : TailSegment) (floor : ℕ) → IsSafe s → IsSafe (record s { next_seq = max s.next_seq floor })
floor-IsSafe s floor h = record {
  stable = h.stable;
  written = h.written;
  within = h.within;
  holds = h.holds;
  sealed = h.sealed;
  leading = h.leading;
  bounded = h.bounded;
  covered = h.covered;
  ordered = Descending-le s.next_seq (max s.next_seq floor) s.staged (omega arith) h.ordered;
  numbered = omega (arith, h.numbered);
  behind = h.behind;
  last = h.last;
  counted = h.counted;
  kept = h.kept;
}

event-IsSafe : (s : TailSegment) (e : Event) → IsSafe s → IsSafe (after_event s e)
unfolding after_event
event-IsSafe s (wrote n) h = stage-IsSafe s n h
event-IsSafe s (write_failed n undone) h = fail_write-IsSafe s n undone h
event-IsSafe s (waited i) h = wait_frame-IsSafe s i (nth? s.staged i) refl h
event-IsSafe s (synced ok) h = finish_sync-IsSafe s s.leader ok h.leading h
event-IsSafe s (cleanup undone) h = clean_up-IsSafe s undone h
event-IsSafe s rotate h = rotate-IsSafe s h
event-IsSafe s (ensure_seq_floor floor) h = floor-IsSafe s floor h

events-IsSafe : (s : TailSegment) (es : List Event) → IsSafe s → IsSafe (after_events s es)
unfolding after_events
events-IsSafe s [] h = h
events-IsSafe s (e ∷ es) h = events-IsSafe (after_event s e) es (event-IsSafe s e h)

-- What a sealed segment was sealed with, or nothing before it is sealed, is no less than the
-- sequence of the frame.
abbrev pub IsCounted : Option ℕ → ℕ × ℕ → Type 0
IsCounted none f = Unit {0}
IsCounted (some seq) f = f.0 ≤ seq

acked-IsCounted :
    (o : Option ℕ) (a b : Bool) (x y l : ℕ) (fs : List (ℕ × ℕ))
    → SealedAt o a b x y
    → All (λ f. (f.1 ≤ l) × (f.0 ≤ x)) fs
    → All (IsCounted o) fs
acked-IsCounted o a b x y l [] k h = tt
acked-IsCounted none a b x y l (f ∷ fs) k (g, h) = (tt, acked-IsCounted none a b x y l fs k h)
acked-IsCounted (some q) a b x y l (f ∷ fs) k (g, h) =
    (omega (arith, k.1, g.1), acked-IsCounted (some q) a b x y l fs k h)

ends_within :
    (l q n : ℕ) (fs : List (ℕ × ℕ))
    → l ≤ n
    → All (λ f. (f.1 ≤ l) × (f.0 ≤ q)) fs
    → All (λ f. f.1 ≤ n) fs
ends_within l q n [] k h = tt
ends_within l q n (f ∷ fs) k (g, h) = (omega (arith, g.0), ends_within l q n fs k h)

-- Of a new segment, after any events in any order, with any writes, syncs and roll backs that fail:
-- every frame that was acknowledged lies, to its end, in what a replay reads and a crash cannot
-- take; once the segment is sealed, the sequence that a truncation compares with is no less than that
-- of any acknowledged frame; and the sequences of the staged frames rise and stay below the next one,
-- so none is used twice.
pub after_events-replayable :
    (next_seq : ℕ) (es : List Event)
    → let s = after_events (create next_seq) es in
      All (λ f. f.1 ≤ replayable s) s.acked
      × All (IsCounted s.sealed_seq) s.acked
      × Descending s.next_seq s.staged
after_events-replayable next_seq es =
    let s = after_events (create next_seq) es in
    let h = events-IsSafe (create next_seq) es (create-IsSafe next_seq) in
    let st = s.sync in
    let held =
      Holds-cleaned st.cleaned s.good_len st.synced_len s.clamp s.file_len h.within h.holds in
    (
      ends_within st.synced_len st.synced_seq (replayable s) s.acked
          (both s.clamp s.file_len held h.stable) h.kept,
      acked-IsCounted s.sealed_seq s.active st.cleaned st.synced_seq st.written_seq st.synced_len
          s.acked h.counted h.kept,
      h.ordered,
    )
  where
    both :
        (o : Option ℕ) (f : ℕ) {l a : ℕ}
        → l ≤ readable o f
        → l ≤ a
        → l ≤ min a (elim o [ none ↦ f | some k ↦ min k f ])
    both none f h k = omega arith
    both (some x) f h k = omega arith
