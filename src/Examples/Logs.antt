-- ===== src/Examples/Logs.antt =====
-- The theorems on frames and records at concrete logs.
use icegres.Prelude.{◌≡◌, refl, inl, List, [], ◌∷◌, arith, map, All}
use icegres.Prelude.Bytes.{Bytes, IsByte, to_le, from_le}
use icegres.Segment.{scan_frame_bytes}
use icegres.Segment.Frames.{IsShort, frames}
use icegres.Quorum.Record.{IsRecord, record_payload, decode_records}
use icegres.Quorum.Record.RoundTrip.{IsStream}
use icegres.Quorum.Record.Strict.{IsContiguous, decode_records_sound}
use icegres.Examples.Setting.{crc, any_utf8, greeting_record}

abbrev payloads : List Bytes
payloads = (1 ∷ 2 ∷ []) ∷ [] ∷ (3 ∷ []) ∷ []

payloads-IsShort : All IsShort payloads
payloads-IsShort = ground arith

-- A whole frame of one byte, and three bytes of a header.
abbrev torn : Bytes
torn = 1 ∷ 0 ∷ 0 ∷ 0 ∷ 7 ∷ 0 ∷ 0 ∷ 0 ∷ 7 ∷ 9 ∷ 9 ∷ 9 ∷ []

torn_bytes : All IsByte torn
torn_bytes = ground arith

greeting_record_valid : IsRecord any_utf8 greeting_record
greeting_record_valid = record {
  lsn_u64 = omega arith;
  seq_u64 = omega arith;
  key_u32 = omega arith;
  key_utf8 = refl;
  kind_known = inl refl;
}

greeting-IsStream : IsStream crc any_utf8 3 (greeting_record ∷ [])
unfolding record_payload to_le
greeting-IsStream = (refl, greeting_record_valid, omega arith, omega arith, tt)

-- The bytes of the record's frame.
abbrev greeting_bytes : Bytes
greeting_bytes =
    24 ∷ 0 ∷ 0 ∷ 0 ∷ 128 ∷ 0 ∷ 0 ∷ 0 ∷ 3 ∷ 0 ∷ 0 ∷ 0 ∷ 0 ∷ 0 ∷ 0 ∷ 0 ∷ 0 ∷ 1 ∷ 0 ∷ 0 ∷ 0 ∷ 116 ∷ 5
    ∷ 0 ∷ 0 ∷ 0 ∷ 0 ∷ 0 ∷ 0 ∷ 0 ∷ 1 ∷ 2 ∷ []

greeting_bytes_bytes : All IsByte greeting_bytes
greeting_bytes_bytes = ground arith

decode_records_sound_example :
    (frames crc (map record_payload (greeting_record ∷ [])) ≡ greeting_bytes)
    × IsContiguous crc any_utf8 3 (greeting_record ∷ [])
decode_records_sound_example =
    decode_records_sound crc any_utf8 greeting_bytes 3 (greeting_record ∷ []) greeting_bytes_bytes
      (unfold decode_records scan_frame_bytes from_le in refl)
