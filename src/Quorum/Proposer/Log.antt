-- ===== src/Quorum/Proposer/Log.antt =====
-- The retained log of icegres/src/quorum/proposer.rs: what `submit` keeps of it, and what
-- `next_batch` takes from it.
use icegres.Prelude.{
  ℕ, ◌+◌, ◌^◌, ◌≤◌, ◌<◌, ◌≡◌, refl, ap, none, some, List, [], ◌∷◌, ◌++◌, Bool, true, arith, length,
  map, leb, ltb, if◌then◌else◌, if_cases, length-append, append-nil,
}
use icegres.Prelude.Bytes.{Bytes}
use icegres.Prelude.Results.{ok}
use icegres.Segment.{Crc, frame}
use icegres.Segment.Frames.{IsShort, frames, frames-append}
use icegres.Segment.Scan.{length-frame}
use icegres.Quorum.Record.{Record, IsRecord, record_payload, decode_records}
use icegres.Quorum.Record.RoundTrip.{IsStream, decode_records-frames}
use icegres.Quorum.Proposer.{
  RecordMeta, LogBuf, Batch, batch, batch_loop, next_batch, max_append_batch_bytes,
  max_message_bytes, append_message_headroom,
}

module _ (c : Crc) (is_utf8 : Bytes → Bool) where
  -- The retained frame of one record.
  pub record IsEntry (r : RecordMeta) : Type 0 where
    pub rec : Record
    pub own_lsn : rec.lsn ≡ r.start
    pub valid : IsRecord is_utf8 rec
    pub short : IsShort (record_payload rec)
    pub encoded : r.frame ≡ frame c (record_payload rec)
    pub ends : r.end ≡ r.start + length r.frame
    pub below : r.end < 2 ^ 64
    pub fits : length r.frame + append_message_headroom ≤ max_message_bytes

  -- Records that follow one another from `pos` to `head`.
  abbrev pub IsChain : ℕ → List RecordMeta → ℕ → Type 0
  IsChain pos [] head = pos ≡ head
  IsChain pos (r ∷ rs) head = (r.start ≡ pos) × IsEntry r × IsChain r.end rs head

  abbrev pub IsLog : LogBuf → Type 0
  IsLog log = IsChain log.base log.records log.head

  pub entry_grows : (r : RecordMeta) → IsEntry r → r.start < r.end
  entry_grows r e = rw (e.ends, e.encoded, length-frame c (record_payload e.rec)) (omega arith)

  pub chain_grows : (pos : ℕ) (rs : List RecordMeta) (head : ℕ) → IsChain pos rs head → pos ≤ head
  chain_grows pos [] head h = omega (arith, h)
  chain_grows pos (r ∷ rs) head (at, e, h) =
      omega (arith, at, entry_grows r e, chain_grows r.end rs head h)

  IsStream-snoc :
      (pos : ℕ) (recs : List Record) (rec : Record)
      → IsStream c is_utf8 pos recs
      → rec.lsn ≡ pos + length (frames c (map record_payload recs))
      → IsRecord is_utf8 rec
      → IsShort (record_payload rec)
      → pos + length (frames c (map record_payload recs)) + (8 + length (record_payload rec))
        < 2 ^ 64
      → IsStream c is_utf8 pos (recs ++ (rec ∷ []))
  IsStream-snoc pos [] rec h at valid short below = (omega arith, valid, short, omega arith, tt)
  IsStream-snoc pos (r ∷ recs) rec (own, v, s, b, h) at valid short below =
      let split = length-append (frame c (record_payload r)) (frames c (map record_payload recs)) in
      let one = length-frame c (record_payload r) in
      (
        own,
        v,
        s,
        b,
        IsStream-snoc (pos + (8 + length (record_payload r))) recs rec h (omega (arith, split, one))
            valid short (omega (arith, split, one)),
      )

  map_snoc :
      (recs : List Record) (rec : Record)
      → map record_payload (recs ++ (rec ∷ []))
        ≡ map record_payload recs ++ (record_payload rec ∷ [])
  map_snoc [] rec = refl
  map_snoc (r ∷ recs) rec = ap (λ t. record_payload r ∷ t) (map_snoc recs rec)

  -- A batch of whole records from `begin` on, inside the log and within the cap of a message.
  pub record Sent (begin head : ℕ) (m : Batch) : Type 0 where
    pub end : ℕ
    pub bytes : Bytes
    pub recs : List Record
    pub sends : m ≡ batch begin end bytes
    pub framed : bytes ≡ frames c (map record_payload recs)
    pub stream : IsStream c is_utf8 begin recs
    pub ends : end ≡ begin + length bytes
    pub progress : begin < end
    pub inside : end ≤ head
    pub fits : length bytes + append_message_headroom ≤ max_message_bytes

  -- One more record behind what has been collected.
  module _ (begin : ℕ) (bytes : Bytes) (recs : List Record) (r : RecordMeta) (e : IsEntry r)
      (framed : bytes ≡ frames c (map record_payload recs)) where
    extend_framed : bytes ++ r.frame ≡ frames c (map record_payload (recs ++ (e.rec ∷ [])))
    extend_framed =
        rw
          (
            map_snoc recs e.rec,
            frames-append c (map record_payload recs) (record_payload e.rec ∷ []),
            append-nil (frame c (record_payload e.rec)),
            e.encoded,
            framed,
          )
          refl

    extend-IsStream :
        IsStream c is_utf8 begin recs
        → r.start ≡ begin + length bytes
        → IsStream c is_utf8 begin (recs ++ (e.rec ∷ []))
    extend-IsStream stream at =
        let here = ap length framed in
        let one = length-frame c (record_payload e.rec) in
        IsStream-snoc begin recs e.rec stream (omega (arith, e.own_lsn, at, here)) e.valid e.short
          (omega (arith, e.below, e.ends, ap length e.encoded, one, at, here))

    extend :
        (head : ℕ) (rs : List RecordMeta)
        → IsStream c is_utf8 begin recs
        → r.start ≡ begin + length bytes
        → IsChain r.end rs head
        → length (bytes ++ r.frame) + append_message_headroom ≤ max_message_bytes
        → Sent begin head (batch begin r.end (bytes ++ r.frame))
    extend head rs stream at rest fits = record {
      end = r.end;
      bytes = bytes ++ r.frame;
      recs = recs ++ (e.rec ∷ []);
      sends = refl;
      framed = extend_framed;
      stream = extend-IsStream stream at;
      ends = omega (arith, at, e.ends, length-append bytes r.frame);
      progress = omega (arith, at, entry_grows r e);
      inside = chain_grows r.end rs head rest;
      fits = fits;
    }

  collect :
      (begin head end : ℕ) (bytes : Bytes) (recs : List Record) (rs : List RecordMeta)
      → bytes ≡ frames c (map record_payload recs)
      → IsStream c is_utf8 begin recs
      → end ≡ begin + length bytes
      → begin < end
      → IsChain end rs head
      → length bytes + append_message_headroom ≤ max_message_bytes
      → Sent begin head (batch_loop begin (some begin) end bytes rs)
  unfolding batch_loop
  collect begin head end bytes recs [] framed stream ends progress chain fits = record {
    end = end;
    bytes = bytes;
    recs = recs;
    sends = refl;
    framed = framed;
    stream = stream;
    ends = ends;
    progress = progress;
    inside = omega (arith, chain);
    fits = fits;
  }
  collect begin head end bytes recs (r ∷ rs) framed stream ends progress (at, e, rest) fits =
      let grown = length-append bytes r.frame in
      let more = extend begin bytes recs r e framed head rs stream (omega (arith, at, ends)) rest in
      if_cases (Sent begin head) (leb r.end begin) _ _
        (λ covered. absurd (ground (arith, entry_grows r e)))
        (λ uncovered.
          if_cases (Sent begin head)
            (ltb max_message_bytes (length bytes + length r.frame + append_message_headroom)) _ _
            (λ over. record {
              end = end;
              bytes = bytes;
              recs = recs;
              sends = refl;
              framed = framed;
              stream = stream;
              ends = ends;
              progress = progress;
              inside = omega (arith, at, entry_grows r e, chain_grows r.end rs head rest);
              fits = fits;
            })
            (λ room.
              if_cases (Sent begin head) (leb max_append_batch_bytes (length (bytes ++ r.frame))) _
                _ (λ full. more (ground (arith, grown)))
                (λ short.
                  collect begin head r.end (bytes ++ r.frame) (recs ++ (e.rec ∷ [])) rs
                    (extend_framed begin bytes recs r e framed)
                    (extend-IsStream begin bytes recs r e framed stream (omega (arith, at, ends)))
                    (omega (arith, at, ends, e.ends, grown))
                    (omega (arith, at, ends, entry_grows r e)) rest (ground (arith, grown)))))

  -- Behind the records that end at or before `from`.
  skip_covered :
      (from base : ℕ) (pre post : List RecordMeta)
      → IsChain base pre from
      → batch_loop from none from [] (pre ++ post) ≡ batch_loop from none from [] post
  unfolding batch_loop
  skip_covered from base [] post h = refl
  skip_covered from base (r ∷ pre) post (at, e, h) =
      let covered : leb r.end from ≡ true = ground (arith, chain_grows r.end pre from h) in
      rw (covered) (skip_covered from r.end pre post h)

  first_record :
      (from head : ℕ) (r : RecordMeta) (post : List RecordMeta)
      → r.start ≡ from
      → IsEntry r
      → IsChain r.end post head
      → Sent from head (
          if leb max_append_batch_bytes (length r.frame)
          then batch r.start r.end r.frame
          else batch_loop from (some r.start) r.end r.frame post)
  first_record from head r post at e after =
      let at_begin : r.start ≡ from + length {A = ℕ} [] = omega (arith, at) in
      rw at (
        if_cases (Sent from head) (leb max_append_batch_bytes (length r.frame)) _ _
          (λ full. extend from [] [] r e refl head post tt at_begin after e.fits)
          (λ room.
            collect from head r.end r.frame (e.rec ∷ []) post (extend_framed from [] [] r e refl)
              (extend-IsStream from [] [] r e refl tt at_begin) (omega (arith, at, e.ends))
              (omega (arith, at, entry_grows r e)) after e.fits))

  batch_sent :
      (log : LogBuf) (from : ℕ) (pre post : List RecordMeta)
      → log.records ≡ pre ++ post
      → IsChain log.base pre from
      → IsChain from post log.head
      → from < log.head
      → Sent from log.head (next_batch log from)
  unfolding next_batch batch_loop
  batch_sent log from pre [] split before after inside = absurd (omega (arith, after))
  batch_sent log from pre (r ∷ post) split before (at, e, after) inside =
      let start = chain_grows log.base pre from before in
      if_cases (Sent from log.head) (leb log.head from) _ _ (λ done. absurd (ground arith))
        (λ more.
          if_cases (Sent from log.head) (ltb from log.base) _ _
            (λ low. absurd (ground (arith, start)))
            (λ kept.
              rw (split, skip_covered from log.base pre (r ∷ post) before)
                (if_cases (Sent from log.head) (leb r.end from) _ _
                  (λ covered. absurd (ground (arith, entry_grows r e)))
                  (λ fresh. first_record from log.head r post at e after))))

  -- From the boundary of a retained record, below the end of the log, `next_batch` sends records that
  -- begin there, at least one and none beyond the end of the log, no more than one message carries.
  -- `end` lies right behind the bytes, and the bytes decode: the acceptor's strict decoder, at the
  -- position where they begin, gives back records.
  pub next_batch-decodes :
      (log : LogBuf) (from : ℕ) (pre post : List RecordMeta)
      → log.records ≡ pre ++ post
      → IsChain log.base pre from
      → IsChain from post log.head
      → from < log.head
      → (end : ℕ) × (bytes : Bytes) × (recs : List Record) × (next_batch log from
          ≡ batch from end bytes)
        × (decode_records c is_utf8 bytes from ≡ ok recs)
        × (end ≡ from + length bytes)
        × (from < end)
        × (end ≤ log.head)
        × (length bytes + append_message_headroom ≤ max_message_bytes)
  next_batch-decodes log from pre post split before after inside =
      let s = batch_sent log from pre post split before after inside in
      (
        s.end,
        s.bytes,
        s.recs,
        s.sends,
        rw s.framed (decode_records-frames c is_utf8 from s.recs s.stream),
        s.ends,
        s.progress,
        s.inside,
        s.fits,
      )
