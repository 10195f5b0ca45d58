-- ===== src/Tail/Replay.antt =====
-- icegres/src/tail.rs, `scan_segment` and `scan_table`: what a replay reads of the segment files of a
-- table, and what it truncates and deletes of them. The decoder of an operation is a parameter; a
-- file carries its bytes, its poison marker as `read_poison_marker` reads it, the id in its name, and
-- whether the file operations on it succeed. A truncation that fails is an error and leaves the file.
pub mod Frames
pub mod Again
pub mod Table
use icegres.Prelude.{
  ℕ, zero, suc, ◌+◌, ◌-◌, Option, none, some, List, [], ◌∷◌, ◌++◌, Bool, true, false, not, ◌&&◌,
  ◌||◌, length, take, drop, ltb, ◌==◌, min, max, if◌then◌else◌,
}
use icegres.Prelude.Bytes.{Bytes, from_le}
use icegres.Prelude.Results.{Result, ok, err, ◌>>=◌}
use icegres.Segment.{Crc}

pub data Decoded (A : Type 0) : Type 0 where
  decoded : A → Decoded A
  foreign : Decoded A
  undecodable : Decoded A

pub data ReplayError : Type 0 where
  foreign_frame : ReplayError
  not_truncated : ReplayError

pub record PoisonMarker : Type 0 where
  pub clamp : ℕ
  pub resume_seq : Option ℕ

pub record SegmentScan (A : Type 0) : Type 0 where
  pub frames : List (ℕ × A)
  pub max_seq : Option ℕ
  pub hit_bad_frame : Bool
  pub resume_hint : Option ℕ

pub record SegmentFile : Type 0 where
  pub id : Option ℕ
  pub bytes : Bytes
  pub marker : Option PoisonMarker
  pub truncates : Bool
  pub unmarks : Bool
  pub removes : Bool

-- The end of the loop over the frames.
pub record Read (A : Type 0) : Type 0 where
  pub frames : List (ℕ × A)
  pub good_end : ℕ
  pub bad : Bool

-- What stands at the front of the data.
pub data Front (A : Type 0) : Type 0 where
  invalid : Front A
  incompatible : Front A
  whole : (frame : ℕ × A) (len : ℕ) → Front A

abbrev pub last_seq : {A : Type 0} → List (ℕ × A) → Option ℕ
last_seq [] = none
last_seq ((seq, op) ∷ []) = some seq
last_seq (f ∷ g ∷ fs) = last_seq (g ∷ fs)

abbrev pub first_seq : {A : Type 0} → List (ℕ × A) → Option ℕ
first_seq [] = none
first_seq ((seq, op) ∷ fs) = some seq

abbrev pub clamp_of : Option PoisonMarker → Bytes → ℕ
clamp_of none bytes = length bytes
clamp_of (some m) bytes = min m.clamp (length bytes)

abbrev pub hint_of : Option PoisonMarker → Option ℕ
hint_of none = none
hint_of (some m) = m.resume_seq

module _ {A : Type 0} where
  abbrev pub as_scan : SegmentFile → Read A → Bool → SegmentScan A
  as_scan f r hit = record {
    frames = r.frames;
    max_seq = last_seq r.frames;
    hit_bad_frame = hit;
    resume_hint = hint_of f.marker;
  }

  -- From the loop on: the truncation of a file that ends in an invalid frame or behind its clamp.
  abbrev pub truncate_bad : SegmentFile → Read A → Result ReplayError (SegmentScan A) × SegmentFile
  truncate_bad f r =
      if r.bad || ltb (clamp_of f.marker f.bytes) (length f.bytes)
      then (if f.truncates
          then (
            ok (as_scan f r true),
            record f {
              bytes = take r.good_end f.bytes;
              marker = if f.unmarks then none else f.marker;
            },
          )
          else (err not_truncated, f))
      else (ok (as_scan f r false), f)

  abbrev pub after_read :
      SegmentFile → Result ReplayError (Read A) → Result ReplayError (SegmentScan A) × SegmentFile
  after_read f (err e) = (err e, f)
  after_read f (ok r) = truncate_bad f r

module _ {A : Type 0} (c : Crc) (decode_op : Bytes → Decoded A) where
  unfoldable pub decode_payload : Bytes → Decoded (ℕ × A)
  decode_payload p = if ltb (length p) 8 then undecodable else elim (decode_op (drop 8 p)) [
    | decoded op ↦ decoded (from_le (take 8 p), op)
    | foreign ↦ foreign
    | undecodable ↦ undecodable
  ]

  abbrev pub as_front : ℕ → Decoded (ℕ × A) → Front A
  as_front len (decoded f) = whole f len
  as_front len foreign = incompatible
  as_front len undecodable = invalid

  -- `size` bytes are left; the header says `len` and `crc`.
  unfoldable pub front_of : (size len crc : ℕ) → Bytes → Front A
  front_of size len crc payload =
      if ltb size 8
      then invalid
      else if ltb (size - 8) len
      then invalid
      else if c.hash payload == crc
      then as_front len (decode_payload payload)
      else invalid

  unfoldable pub front : Bytes → Front A
  unfolding front_of
  front d =
      let len = from_le (take 4 d) in
      front_of (length d) len (from_le (take 4 (drop 4 d))) (take len (drop 8 d))

  -- One round of `while off < data.len()`.
  abbrev pub after_front :
      ℕ → (ℕ → Result ReplayError (Read A)) → Front A → Result ReplayError (Read A)
  after_front off next invalid = ok (record { frames = []; good_end = off; bad = true })
  after_front off next incompatible = err foreign_frame
  after_front off next (whole f len) =
      next len >>= λ rest. ok (record rest { frames = f ∷ rest.frames })

  -- The loop on `data[off..]`; each round takes eight bytes at least.
  unfoldable pub read_frames : ℕ → ℕ → Bytes → Result ReplayError (Read A)
  unfolding front
  read_frames fuel off [] = ok (record { frames = []; good_end = off; bad = false })
  read_frames zero off (b ∷ bs) = ok (record { frames = []; good_end = off; bad = true })
  read_frames (suc fuel) off (b ∷ bs) =
      after_front off (λ len. read_frames fuel (off + (8 + len)) (drop (8 + len) (b ∷ bs)))
        (front (b ∷ bs))

  unfoldable pub scan_segment : SegmentFile → Result ReplayError (SegmentScan A) × SegmentFile
  unfolding read_frames
  scan_segment f =
      let clamped = take (clamp_of f.marker f.bytes) f.bytes in
      after_read f (read_frames (length clamped) 0 clamped)
