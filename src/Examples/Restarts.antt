-- ===== src/Examples/Restarts.antt =====
-- The boot of a segment log, applied to a directory whose last record was torn.
use icegres.Prelude.{◌+◌, ◌^◌, ◌<◌, ◌≡◌, refl, none, List, [], ◌∷◌, false, length, take, All, arith}
use icegres.Prelude.Bytes.{Bytes, to_le, from_le}
use icegres.Prelude.Results.{ok}
use icegres.Segment.{scan_frame_bytes}
use icegres.Quorum.SegmentWal.{SegmentWal}
use icegres.Quorum.SegmentWal.Wf.{IsWf}
use icegres.Quorum.SegmentWal.Boot.{
  DirFile, open_wal, walk_payloads, scan_wal_segment, visit, visit_all, sort_files,
}
use icegres.Quorum.SegmentWal.Boot.Kept.{IsFile, IsGapless, open_wal-IsGapless}
use icegres.Quorum.SegmentWal.Boot.Restart.{
  crash_dir, whole_bytes, AreRuns, stored, open_wal-whole_bytes,
}
use icegres.Examples.Setting.{crc}

-- The records of the positions 0 and 17.
abbrev first_record : Bytes
first_record = 0 ∷ 0 ∷ 0 ∷ 0 ∷ 0 ∷ 0 ∷ 0 ∷ 0 ∷ 5 ∷ []

abbrev second_record : Bytes
second_record = 17 ∷ 0 ∷ 0 ∷ 0 ∷ 0 ∷ 0 ∷ 0 ∷ 0 ∷ []

-- The first record's frame, and eleven bytes of the second's.
abbrev torn_bytes : Bytes
torn_bytes =
    9 ∷ 0 ∷ 0 ∷ 0 ∷ 5 ∷ 0 ∷ 0 ∷ 0 ∷ 0 ∷ 0 ∷ 0 ∷ 0 ∷ 0 ∷ 0 ∷ 0 ∷ 0 ∷ 5 ∷ 8 ∷ 0 ∷ 0 ∷ 0 ∷ 17 ∷ 0 ∷ 0
    ∷ 0 ∷ 17 ∷ 0 ∷ 0 ∷ []

abbrev torn_files : List DirFile
torn_files = record { start = 0; bytes = torn_bytes } ∷ []

abbrev recovered : SegmentWal
recovered = record {
  sealed = record { start = 0; end = 17; bytes = take 17 torn_bytes } ∷ [];
  active = none;
  flush = 17;
  empty = false;
  rotate_bytes = 16777216;
  wedged = false;
  io = [];
}

torn_files-recovered : (open_wal crc torn_files []).0 ≡ ok recovered
unfolding open_wal visit_all visit scan_wal_segment walk_payloads sort_files scan_frame_bytes
    from_le
torn_files-recovered = refl

torn_files-AreFiles : All IsFile torn_files
torn_files-AreFiles = ground arith

open_wal-IsGapless_example :
    IsWf recovered × (recovered.active ≡ none) × IsGapless crc 17 recovered.sealed
open_wal-IsGapless_example =
    open_wal-IsGapless crc torn_files [] recovered torn_files-AreFiles torn_files-recovered

first-AreRuns : AreRuns crc 0 ((first_record ∷ []) ∷ []) []
unfolding from_le
first-AreRuns = ((omega arith, refl, tt), (omega arith, tt), (tt, tt))

first-small : 0 + length (whole_bytes crc ((first_record ∷ []) ∷ []) []) + 11 < 2 ^ 63
unfolding to_le
first-small = omega arith

open_wal-whole_bytes_example :
    (w : SegmentWal) × ((open_wal crc
        (crash_dir crc 0 ((first_record ∷ []) ∷ []) [] second_record 11)
        []).0
      ≡ ok w)
    × (stored w.sealed ≡ whole_bytes crc ((first_record ∷ []) ∷ []) [])
    × (w.flush ≡ 0 + length (whole_bytes crc ((first_record ∷ []) ∷ []) []))
open_wal-whole_bytes_example =
    open_wal-whole_bytes crc 0 ((first_record ∷ []) ∷ []) [] second_record 11 first-AreRuns
      (omega arith) (omega arith) first-small
