-- ===== src/Quorum/SegmentWal/Laws.antt =====
-- The segment log keeps the laws of `WalStore`, so what is proved of the acceptor over any such store
-- holds over segment files.
use icegres.Prelude.{ℕ, ◌+◌, ◌^◌, ◌≤◌, ◌<◌, ◌≡◌, false, length, min}
use icegres.Prelude.Bytes.{Bytes}
use icegres.Prelude.Results.{ok, err}
use icegres.Quorum.Message.{WalError}
use icegres.Quorum.Stores.{WalLaws}
use icegres.Quorum.SegmentWal.{SegmentWal, segment_wal, append, truncate_from, drop_below}
use icegres.Quorum.SegmentWal.Wf.{IsWf, byte, append-IsWf}
use icegres.Quorum.SegmentWal.Write.{append_ok, append_err, append_flush, append_byte}
use icegres.Quorum.SegmentWal.Cut.{
  truncate-IsWf, truncate_empty, truncate_ok, truncate_err, truncate_byte, drop-IsWf, drop_flush,
  drop_empty, drop_byte,
}

-- Whichever file operations fail: `append`, `truncate_from` and `drop_below` keep a well-formed
-- segment log, move the flush position as `WalStore` says, and keep every byte outside what they
-- were told to write or to delete.
abbrev pub segment_wal_laws : WalLaws segment_wal
segment_wal_laws = record {
  IsWf = IsWf;
  byte = byte;
  append_wf = append-IsWf;
  append_ok = append_ok;
  append_flush = append_flush;
  append_err = append_err;
  append_byte = append_byte;
  truncate_wf = truncate-IsWf;
  truncate_empty = truncate_empty;
  truncate_ok = truncate_ok;
  truncate_err = truncate_err;
  truncate_byte = truncate_byte;
  drop_wf = drop-IsWf;
  drop_flush = drop_flush;
  drop_empty = drop_empty;
  drop_byte = drop_byte;
}

-- A truncation, whichever of its file operations fail: the log stays well-formed and every byte below
-- the cut stays; the flush position is the cut, or stays where it was below it, when it succeeds, and
-- does not move when it fails.
pub truncate_from-keeps :
    (w : SegmentWal) (l : ℕ)
    → IsWf w
    → IsWf (truncate_from w l).1
      × ((p : ℕ) → p < l → byte (truncate_from w l).1 p ≡ byte w p)
      × ((truncate_from w l).0 ≡ ok tt → (truncate_from w l).1.flush ≡ min w.flush l)
      × ((e : WalError) → (truncate_from w l).0 ≡ err e → (truncate_from w l).1.flush ≡ w.flush)
truncate_from-keeps w l h = (
  truncate-IsWf w l h,
  (λ p below. truncate_byte w l p h below),
  truncate_ok w l,
  truncate_err w l,
)

-- An append to a log that was written before and whose new end lies in the lower half of `u64`,
-- whichever of its file operations fail: the log stays well-formed and every byte below the flush
-- position stays; when it succeeds it began at the flush position, which moves up by its length, and
-- when it fails the flush position does not move.
pub append-keeps :
    (w : SegmentWal) (b : ℕ) (f : Bytes)
    → b + length f < 2 ^ 63
    → IsWf w
    → w.empty ≡ false
    → IsWf (append w b f).1
      × ((p : ℕ) → p < w.flush → byte (append w b f).1 p ≡ byte w p)
      × ((append w b f).0 ≡ ok tt → (b ≡ w.flush) × ((append w b f).1.flush ≡ b + length f))
      × ((e : WalError) → (append w b f).0 ≡ err e → (append w b f).1.flush ≡ w.flush)
append-keeps w b f fits h full = (
  append-IsWf w b f fits h,
  (λ p below. append_byte w b f p fits h full below),
  append_flush w b f fits h full,
  λ e failure. (append_err w b f e failure).1 full,
)

-- Dropping what lies below a horizon, whichever of its file operations fail: the log stays
-- well-formed, every byte at or above the horizon stays, and the flush position does not move.
drop_below-keeps :
    (w : SegmentWal) (horizon : ℕ)
    → IsWf w
    → IsWf (drop_below w horizon)
      × ((p : ℕ) → horizon ≤ p → byte (drop_below w horizon) p ≡ byte w p)
      × ((drop_below w horizon).flush ≡ w.flush)
drop_below-keeps w horizon h =
    (drop-IsWf w horizon h, (λ p above. drop_byte w horizon p h above), drop_flush w horizon)
