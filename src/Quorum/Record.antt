-- ===== src/Quorum/Record.antt =====
-- icegres/src/quorum/proto.rs: the records of the replicated log and the strict decoder of a record
-- stream. A key is its UTF-8 bytes; the validity test of UTF-8 is the standard library's.
pub mod RoundTrip
pub mod Strict
use icegres.Prelude.{
  ℕ, zero, suc, ◌+◌, ◌-◌, ◌^◌, ◌<◌, ◌≡◌, ◌⊎◌, true, Option, none, some, List, [], ◌∷◌, ◌++◌, Bool,
  not, ◌&&◌, length, take, drop, map, ltb, leb, ◌==◌, if◌then◌else◌,
}
use icegres.Prelude.Bytes.{Bytes, to_le, from_le, add_u64}
use icegres.Prelude.Results.{Result, ok, err, ◌>>=◌, ◌>>◌}
use icegres.Segment.{
  Crc, Range, Bad, RawFrameScan, range_len, slice, u32_max, frame, frame_bytes, scan_frame_bytes,
  frame_header_bytes, FrameError, frame_too_long,
}

abbrev pub record_frame : ℕ
record_frame = 0

abbrev pub record_watermark : ℕ
record_watermark = 1

pub record Record : Type 0 where
  pub lsn : ℕ
  pub kind : ℕ
  pub table_key : Bytes
  pub seq : ℕ
  pub body : Bytes

pub data RecordError : Type 0 where
  key_too_long : ℕ → RecordError
  framing : FrameError → RecordError
  shorter_than_header : ℕ → RecordError
  unknown_kind : ℕ → RecordError
  torn_key : RecordError
  not_utf8 : RecordError
  invalid_stream : ℕ → Bad → RecordError
  discontinuity : ℕ → ℕ → RecordError

-- `[u64 lsn][u8 kind][u32 key_len][table_key][u64 seq][body]`.
unfoldable pub record_payload : Record → Bytes
record_payload r =
    to_le 8 r.lsn
    ++ (r.kind ∷ (to_le 4 (length r.table_key) ++ (r.table_key ++ (to_le 8 r.seq ++ r.body))))

abbrev pub map_err {ℓ} : {E F A : Type ℓ} → (E → F) → Result E A → Result F A
map_err f (ok a) = ok a
map_err f (err e) = err (f e)

-- `p[i]`, where the caller has checked that `i` lies in `p`.
abbrev pub byte_at : Bytes → ℕ → ℕ
byte_at [] i = 0
byte_at (b ∷ bs) zero = b
byte_at (b ∷ bs) (suc i) = byte_at bs i

abbrev pub check_lsn : ℕ → ℕ → Result RecordError (Unit {0})
check_lsn lsn pos = if lsn == pos then ok tt else err (discontinuity lsn pos)

abbrev pub check_scan : RawFrameScan → Result RecordError (List Range)
check_scan s = elim s.bad [ some b ↦ err (invalid_stream s.good_end b) | none ↦ ok s.payloads ]

module _ (c : Crc) (is_utf8 : Bytes → Bool) where
  -- `Record::encode`.
  unfoldable pub encode : Record → Result RecordError Bytes
  unfolding frame_bytes
  encode r =
      if ltb u32_max (length r.table_key)
      then err (key_too_long (length r.table_key))
      else map_err framing (frame_bytes c (record_payload r))

  unfoldable pub decode_record_payload : Bytes → Result RecordError Record
  decode_record_payload p =
      let key_len = from_le (take 4 (drop 9 p)) in
      let key = take key_len (drop 13 p) in
      let kind = byte_at p 8 in
      if ltb (length p) 13
      then err (shorter_than_header (length p))
      else if not (kind == record_frame) && not (kind == record_watermark)
      then err (unknown_kind kind)
      else if ltb (length p) (13 + key_len + 8)
      then err torn_key
      else if is_utf8 key
      then ok (record {
        lsn = from_le (take 8 p);
        kind = kind;
        table_key = key;
        seq = from_le (take 8 (drop (13 + key_len) p));
        body = drop (13 + key_len + 8) p;
      })
      else err not_utf8

  -- `for range in scan.payloads`.
  unfoldable pub decode_ranges : Bytes → ℕ → List Range → Result RecordError (List Record)
  decode_ranges bytes pos [] = ok []
  decode_ranges bytes pos (range ∷ ranges) =
      let rest = decode_ranges bytes (add_u64 pos (range_len range + frame_header_bytes)) ranges in
      do
        rec ← decode_record_payload (slice bytes range)
        check_lsn rec.lsn pos
        recs ← rest
        ok (rec ∷ recs)

  unfoldable pub decode_records : Bytes → ℕ → Result RecordError (List Record)
  unfolding decode_record_payload decode_ranges
  decode_records bytes expect_start = do
    ranges ← check_scan (scan_frame_bytes c bytes)
    decode_ranges bytes expect_start ranges

-- What a record of the program satisfies by the types of its fields.
pub record IsRecord (is_utf8 : Bytes → Bool) (r : Record) : Type 0 where
  pub lsn_u64 : r.lsn < 2 ^ 64
  pub seq_u64 : r.seq < 2 ^ 64
  pub key_u32 : length r.table_key < 2 ^ 32
  pub key_utf8 : is_utf8 r.table_key ≡ true
  pub kind_known : (r.kind ≡ record_frame) ⊎ (r.kind ≡ record_watermark)
