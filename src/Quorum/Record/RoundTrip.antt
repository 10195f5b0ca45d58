-- ===== src/Quorum/Record/RoundTrip.antt =====
-- What `encode` writes, `decode_record_payload` and `decode_records` read back.
use icegres.Prelude.{
  ℕ, ◌+◌, ◌-◌, ◌^◌, ◌<◌, ◌≡◌, refl, ap, ◌∙◌, sym, ◌⊎◌, false, List, [], ◌∷◌, ◌++◌, append_assoc,
  Bool, true, length, take, drop, map, arith, All, ◌==◌, not, ◌&&◌,
}
use icegres.Prelude.{heads_eq, tails_eq, length-append, take-append, drop-append, drop-drop}
use icegres.Prelude.Bytes.{Bytes, to_le, from_le, add_u64, from_le-to_le, length-to_le}
use icegres.Prelude.Results.{ok}
use icegres.Segment.{frame_header_bytes, Crc, slice}
use icegres.Segment.Frames.{IsShort, frames, ranges}
use icegres.Segment.Recovery.{scan-frames, slice-ranges}
use icegres.Quorum.Record.{
  Record, IsRecord, record_payload, decode_record_payload, decode_ranges, decode_records, byte_at,
  record_frame, record_watermark,
}

-- The thirteen bytes before the key.
abbrev head : Record → Bytes
head r = to_le 8 r.lsn ++ (r.kind ∷ to_le 4 (length r.table_key))

module _ (r : Record) where
  record_payload-split : record_payload r ≡ (head r ++ r.table_key) ++ (to_le 8 r.seq ++ r.body)
  unfolding record_payload to_le
  record_payload-split = rw append_assoc

  length-head : length (head r ++ r.table_key) ≡ 13 + length r.table_key
  unfolding to_le
  length-head = omega arith

  length-record_payload : length (record_payload r) ≡ 21 + length r.table_key + length r.body
  length-record_payload =
      rw (record_payload-split, length-append, length-head, length-append, length-to_le)
        (omega arith)

  lsn_field : r.lsn < 2 ^ 64 → from_le (take 8 (record_payload r)) ≡ r.lsn
  unfolding record_payload
  lsn_field h =
      rw (take-append 8 (to_le 8 r.lsn) _ (length-to_le 8 r.lsn)) (from_le-to_le 8 r.lsn h)

  kind_field : byte_at (record_payload r) 8 ≡ r.kind
  unfolding record_payload to_le
  kind_field = refl

  key_len_field :
      length r.table_key < 2 ^ 32
      → from_le (take 4 (drop 9 (record_payload r))) ≡ length r.table_key
  unfolding record_payload to_le
  key_len_field h = from_le-to_le 4 (length r.table_key) h

  key_field : take (length r.table_key) (drop 13 (record_payload r)) ≡ r.table_key
  unfolding record_payload to_le
  key_field = take-append (length r.table_key) r.table_key _ refl

  behind_key : drop (13 + length r.table_key) (record_payload r) ≡ to_le 8 r.seq ++ r.body
  behind_key =
      ap (drop _) record_payload-split
      ∙ drop-append (13 + length r.table_key) (head r ++ r.table_key) _ length-head

  seq_field :
      r.seq < 2 ^ 64 → from_le (take 8 (drop (13 + length r.table_key) (record_payload r))) ≡ r.seq
  seq_field h =
      rw (behind_key, take-append 8 (to_le 8 r.seq) r.body (length-to_le 8 r.seq))
        (from_le-to_le 8 r.seq h)

  body_field : drop (13 + length r.table_key + 8) (record_payload r) ≡ r.body
  body_field =
      sym (drop-drop 8 (13 + length r.table_key) _ (record_payload r) refl)
      ∙ ap (drop 8) behind_key
      ∙ drop-append 8 (to_le 8 r.seq) r.body (length-to_le 8 r.seq)

module _ (c : Crc) (is_utf8 : Bytes → Bool) where
  known_kind :
      (k : ℕ)
      → (k ≡ record_frame) ⊎ (k ≡ record_watermark)
      → (not (k == record_frame) && not (k == record_watermark)) ≡ false
  known_kind k h = ground arith

  -- The payload of a record whose fields fit their types, whose key is UTF-8 and whose kind is one of
  -- the two decodes to the record.
  decode_record_payload-record_payload :
      (r : Record) → IsRecord is_utf8 r → decode_record_payload c is_utf8 (record_payload r) ≡ ok r
  unfolding decode_record_payload
  decode_record_payload-record_payload r h =
      rw
        (
          key_len_field r h.key_u32,
          key_field r,
          lsn_field r h.lsn_u64,
          kind_field r,
          seq_field r h.seq_u64,
          body_field r,
          h.key_utf8,
          known_kind r.kind h.kind_known,
        )
        (ground (arith, length-record_payload r))

  -- Records that follow one another in the log from position `pos` on, below the end of `u64`.
  abbrev pub IsStream : ℕ → List Record → Type 0
  IsStream pos [] = Unit {0}
  IsStream pos (r ∷ rs) =
      (r.lsn ≡ pos)
      × IsRecord is_utf8 r
      × IsShort (record_payload r)
      × (pos + (8 + length (record_payload r)) < 2 ^ 64)
      × IsStream (pos + (8 + length (record_payload r))) rs

  IsStream-IsShort :
      (pos : ℕ) (recs : List Record) → IsStream pos recs → All IsShort (map record_payload recs)
  IsStream-IsShort pos [] h = tt
  IsStream-IsShort pos (r ∷ recs) (at, valid, short, fits, rest) =
      (short, IsStream-IsShort (pos + (8 + length (record_payload r))) recs rest)

  decode_ranges-stream :
      (bytes : Bytes) (off pos : ℕ) (recs : List Record)
      → IsStream pos recs
      → map (slice bytes) (ranges off (map record_payload recs)) ≡ map record_payload recs
      → decode_ranges c is_utf8 bytes pos (ranges off (map record_payload recs)) ≡ ok recs
  unfolding decode_ranges
  decode_ranges-stream bytes off pos [] h e = refl
  decode_ranges-stream bytes off pos (r ∷ recs) (at, valid, short, fits, rest) e = rw (
    heads_eq e,
    decode_record_payload-record_payload r valid,
    own_lsn,
    step,
    decode_ranges-stream bytes (off + 8 + length (record_payload r))
        (pos + (8 + length (record_payload r))) recs rest (tails_eq e),
  )
    where
      own_lsn : (r.lsn == pos) ≡ true
      own_lsn = ground arith

      step :
          add_u64 pos (off + 8 + length (record_payload r) - (off + 8) + frame_header_bytes)
          ≡ pos + (8 + length (record_payload r))
      step = omega arith

  -- A stream of encoded records decodes, at the position where it starts, to exactly those records.
  pub decode_records-frames :
      (start : ℕ) (recs : List Record)
      → IsStream start recs
      → decode_records c is_utf8 (frames c (map record_payload recs)) start ≡ ok recs
  unfolding decode_records
  decode_records-frames start recs h =
      rw (scan-frames c (map record_payload recs) (IsStream-IsShort start recs h))
        (decode_ranges-stream _ 0 start recs h (slice-ranges c (map record_payload recs)))
