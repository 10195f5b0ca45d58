-- ===== src/Segment.antt =====
-- icegres/src/segment.rs: the frame format that both durable logs share, and the scan that
-- tolerates a torn tail. A byte string is a list of numbers below 256.
pub mod Scan
pub mod Frames
pub mod Recovery
pub mod Sound
use icegres.Prelude.{
  ℕ, zero, suc, ◌+◌, ◌-◌, ◌^◌, ◌<◌, Option, none, some, List, [], ◌∷◌, ◌++◌, length, take, drop,
  ltb, ◌==◌, if◌then◌else◌,
}
use icegres.Prelude.Bytes.{Bytes, to_le, from_le}
use icegres.Prelude.Results.{Result, ok, err}

-- `crc32fast::hash`, which stands in another crate: a function of the bytes into `u32`.
pub record Crc : Type 0 where
  pub hash : Bytes → ℕ
  pub hash_u32 : (p : Bytes) → hash p < 2 ^ 32

-- FRAME_HEADER_BYTES: `[u32 len][u32 crc]`.
abbrev pub frame_header_bytes : ℕ
frame_header_bytes = 8

abbrev pub u32_max : ℕ
u32_max = 2 ^ 32 - 1

pub data FrameError : Type 0 where
  frame_too_long : ℕ → FrameError

-- A byte range `start..stop` of a buffer.
pub record Range : Type 0 where
  pub start : ℕ
  pub stop : ℕ

abbrev pub range_len : Range → ℕ
range_len r = r.stop - r.start

-- `&data[range]`.
abbrev pub slice : Bytes → Range → Bytes
slice d r = take (r.stop - r.start) (drop r.start d)

-- Why a walk over frames stopped. The last two are those of the record log's boot scan, and
-- `out_of_fuel` is no reason of the program: `scan_frame_bytes-ne-out_of_fuel` excludes it.
pub data Bad : Type 0 where
  torn_header : ℕ → Bad
  torn_payload : ℕ → ℕ → Bad
  crc_mismatch : Bad
  short_frame : Bad
  wrong_lsn : ℕ → ℕ → Bad
  out_of_fuel : Bad

pub record RawFrameScan : Type 0 where
  pub payloads : List Range
  pub good_end : ℕ
  pub bad : Option Bad

unfoldable pub check_frame_len : ℕ → Result FrameError (Unit {0})
check_frame_len len = if ltb u32_max len then err (frame_too_long len) else ok tt

abbrev pub stop_scan : ℕ → Option Bad → RawFrameScan
stop_scan good bad = record { payloads = []; good_end = good; bad = bad }

abbrev pub push_payload : Range → RawFrameScan → RawFrameScan
push_payload r s = record s { payloads = r ∷ s.payloads }

module _ (c : Crc) where
  -- The bytes of one frame whose payload fits.
  abbrev pub frame : Bytes → Bytes
  frame p = to_le 4 (length p) ++ (to_le 4 (c.hash p) ++ p)

  unfoldable pub frame_bytes : Bytes → Result FrameError Bytes
  unfolding check_frame_len
  frame_bytes p = if ltb u32_max (length p) then err (frame_too_long (length p)) else ok (frame p)

  -- The list is `data[off..]`; `good` is `good_end`.
  unfoldable pub scan_loop : ℕ → ℕ → ℕ → Bytes → RawFrameScan
  scan_loop fuel off good [] = stop_scan good none
  scan_loop zero off good (b ∷ bs) = stop_scan good (some out_of_fuel)
  scan_loop (suc fuel) off good (b ∷ bs) =
      let rest : Bytes = b ∷ bs in
      let len = from_le (take 4 rest) in
      let crc = from_le (take 4 (drop 4 rest)) in
      let body = drop frame_header_bytes rest in
      let start = off + frame_header_bytes in
      let next = scan_loop fuel (start + len) (start + len) (drop len body) in
      if ltb (length rest) frame_header_bytes
      then stop_scan good (some (torn_header (length rest)))
      else if ltb (length rest - frame_header_bytes) len
      then stop_scan good (some (torn_payload len (length rest - frame_header_bytes)))
      else if c.hash (take len body) == crc
      then push_payload (record { start = start; stop = start + len }) next
      else stop_scan good (some crc_mismatch)

  -- Each round takes eight bytes at least, so the length of the buffer is fuel enough.
  unfoldable pub scan_frame_bytes : Bytes → RawFrameScan
  unfolding scan_loop
  scan_frame_bytes d = scan_loop (length d) 0 0 d
