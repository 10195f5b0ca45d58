-- ===== src/Examples/Replays.antt =====
-- The theorems on the replay of a table's segments, at concrete files.
use icegres.Prelude.{ℕ, ◌≡◌, refl, none, some, [], ◌∷◌, ◌++◌, true, false}
use icegres.Prelude.Bytes.{Bytes, to_le, from_le}
use icegres.Prelude.Results.{ok}
use icegres.Segment.{frame}
use icegres.Tail.Replay.{
  Decoded, decoded, SegmentFile, SegmentScan, scan_segment, read_frames, front, front_of,
  decode_payload,
}
use icegres.Tail.Replay.Table.{TableScan, scan_table, scan_files}
use icegres.Tail.Replay.Table.Settled.{scan_table-again}
use icegres.Tail.Replay.Table.Hole.{scan_table-past_hole}
use icegres.Examples.Setting.{crc}

abbrev any_op : Bytes → Decoded Bytes
any_op bs = decoded bs

abbrev payload : ℕ → Bytes
payload seq = seq ∷ 0 ∷ 0 ∷ 0 ∷ 0 ∷ 0 ∷ 0 ∷ 0 ∷ 7 ∷ []

-- One frame, and a byte of the next.
abbrev torn_file : SegmentFile
torn_file = record {
  id = some 1;
  bytes = frame crc (payload 1) ++ (9 ∷ []);
  marker = none;
  truncates = true;
  unmarks = true;
  removes = true;
}

abbrev cut_file : SegmentFile
cut_file = record torn_file { bytes = frame crc (payload 1) }

-- The frame of sequence 5.
abbrev far_file : SegmentFile
far_file = record {
  id = some 2;
  bytes = frame crc (payload 5);
  marker = none;
  truncates = true;
  unmarks = true;
  removes = true;
}

abbrev held_file : SegmentFile
held_file = record far_file { removes = false }

abbrev torn_scan : SegmentScan Bytes
torn_scan = record {
  frames = (1, 7 ∷ []) ∷ [];
  max_seq = some 1;
  hit_bad_frame = true;
  resume_hint = none;
}

abbrev far_scan : SegmentScan Bytes
far_scan = record {
  frames = (5, 7 ∷ []) ∷ [];
  max_seq = some 5;
  hit_bad_frame = false;
  resume_hint = none;
}

abbrev replayed : TableScan Bytes
replayed = record {
  frames = (1, 7 ∷ []) ∷ [];
  sealed = (some 1, 1) ∷ [];
  next_seq = 2;
  next_segment = 3;
}

scan_table-again_example :
    (again : TableScan Bytes) × (scan_table crc any_op (cut_file ∷ []) ≡ ok (again, cut_file ∷ []))
    × (again.frames ≡ replayed.frames)
    × (again.next_seq ≡ replayed.next_seq)
scan_table-again_example =
    scan_table-again crc any_op (torn_file ∷ far_file ∷ []) (cut_file ∷ []) replayed
      (refl, (refl, tt))
      (unfold scan_table scan_files scan_segment read_frames front front_of decode_payload to_le
          from_le in
        refl)

scan_table-past_hole_example :
    (first again : TableScan Bytes) × (scan_table crc any_op (torn_file ∷ held_file ∷ [])
      ≡ ok (first, cut_file ∷ held_file ∷ []))
    × (first.frames ≡ torn_scan.frames)
    × (scan_table crc any_op (cut_file ∷ held_file ∷ []) ≡ ok (again, cut_file ∷ held_file ∷ []))
    × (again.frames ≡ torn_scan.frames ++ far_scan.frames)
scan_table-past_hole_example =
    scan_table-past_hole crc any_op torn_file cut_file held_file torn_scan far_scan 1 5
      (unfold scan_segment decode_payload to_le from_le in refl) refl refl refl refl
      (unfold scan_segment decode_payload to_le from_le in refl) refl refl refl refl
