-- ===== src/Quorum/Proposer/Submit.antt =====
-- `submit` of icegres/src/quorum/proposer.rs: the log stays a chain of encoded records.
use icegres.Prelude.{
  ℕ, ◌+◌, ◌^◌, ◌≤◌, ◌<◌, ◌≡◌, refl, ap, ◌∙◌, sym, ◌⊎◌, List, [], ◌∷◌, ◌++◌, Bool, true, arith,
  length,
}
use icegres.Prelude.Bytes.{Bytes}
use icegres.Prelude.Results.{ok, >>=-eq-ok}
use icegres.Segment.{Crc, frame, frame_bytes}
use icegres.Segment.Frames.{IsShort}
use icegres.Segment.Scan.{length-frame}
use icegres.Quorum.Record.{
  Record, IsRecord, encode, record_payload, record_frame, record_watermark, map_err,
}
use icegres.Quorum.Proposer.{
  RecordMeta, LogBuf, Shared, submit, push_record, check_poison, check_record_frame_len,
  max_message_bytes, append_message_headroom, not_encoded,
}
use icegres.Quorum.Proposer.Log.{IsEntry, IsChain, IsLog}

module _ (c : Crc) (is_utf8 : Bytes → Bool) where
  encode-ok :
      (r : Record) (f : Bytes)
      → map_err not_encoded (encode c is_utf8 r) ≡ ok f
      → (length r.table_key < 2 ^ 32)
        × IsShort (record_payload r)
        × (f ≡ frame c (record_payload r))
  unfolding encode frame_bytes
  encode-ok r f h = (ground arith, ground arith, ground arith)

  IsChain-snoc :
      (pos head : ℕ) (rs : List RecordMeta) (r : RecordMeta)
      → IsChain c is_utf8 pos rs head
      → r.start ≡ head
      → IsEntry c is_utf8 r
      → IsChain c is_utf8 pos (rs ++ (r ∷ [])) r.end
  IsChain-snoc pos head [] r h at e = (at ∙ sym h, e, refl)
  IsChain-snoc pos head (x ∷ rs) r (own, entry, h) at e =
      (own, entry, IsChain-snoc x.end head rs r h at e)

  push_record-IsLog :
      (r : Record) (f : Bytes) (log : LogBuf)
      → IsLog c is_utf8 log
      → r.lsn ≡ log.head
      → log.head < 2 ^ 63
      → IsRecord is_utf8 r
      → IsShort (record_payload r)
      → f ≡ frame c (record_payload r)
      → length f + append_message_headroom ≤ max_message_bytes
      → IsLog c is_utf8 (push_record r f log)
  unfolding push_record
  push_record-IsLog r f log h at low valid short framed fits =
      IsChain-snoc log.base log.head log.records _ h refl (record {
        rec = r;
        own_lsn = at;
        valid = valid;
        short = short;
        encoded = framed;
        ends = refl;
        below = omega arith;
        fits = fits;
      })

  abbrev record_of : ℕ → Bytes → ℕ → Bytes → Shared → Record
  record_of kind key seq body s = record {
    lsn = s.log.head;
    kind = kind;
    table_key = key;
    seq = seq;
    body = body;
  }

  -- What a submission adds to the log: one record with these arguments, whose frame encodes them at
  -- the old head; a watermark becomes its table's last one.
  pub record Submitted (kind : ℕ) (key : Bytes) (seq : ℕ) (body : Bytes) (s s' : Shared)
      : Type 0 where
    pub entry : RecordMeta
    pub entered : s'.log.records ≡ s.log.records ++ (entry ∷ [])
    pub own_start : entry.start ≡ s.log.head
    pub own_end : entry.end ≡ s'.log.head
    pub own_kind : entry.kind ≡ kind
    pub own_key : entry.table_key ≡ key
    pub own_seq : entry.seq ≡ seq
    pub own_frame :
        entry.frame
        ≡ frame c (
            record_payload
              (record { lsn = s.log.head; kind = kind; table_key = key; seq = seq; body = body }))
    pub watermark :
        kind ≡ record_watermark
        → s'.log.last_wm ≡ (key, record { start = s.log.head; seq = seq }) ∷ s.log.last_wm
    pub frame_keeps : kind ≡ record_frame → s'.log.last_wm ≡ s.log.last_wm

  submit-ok :
      (kind : ℕ) (key : Bytes) (seq : ℕ) (body : Bytes) (s s' : Shared) (end : ℕ)
      → submit c is_utf8 kind key seq body s ≡ ok (end, s')
      → (f : Bytes) × (map_err not_encoded (encode c is_utf8 (record_of kind key seq body s))
          ≡ ok f)
        × (length f + append_message_headroom ≤ max_message_bytes)
        × (s.log.head + length f ≡ end)
        × (record s { log = push_record (record_of kind key seq body s) f s.log } ≡ s')
  unfolding submit
  submit-ok kind key seq body s s' end e =
      let (_, sound, e1) = >>=-eq-ok (check_poison s.poison) _ e in
      let (f, encoded, e2) =
        >>=-eq-ok (map_err not_encoded (encode c is_utf8 (record_of kind key seq body s))) _ e1 in
      let (_, short, e3) = >>=-eq-ok (check_record_frame_len (length f)) _ e2 in
      (f, encoded, ground (arith, short), cc, cc)

  -- A record that is submitted is in the log: with the arguments given it stands at the end of the
  -- records, its frame encodes them at the old head, and a watermark is entered as its table's last.
  -- The log stays a chain of encoded records without a gap, its start does not move, and its head
  -- moves up to the position that is returned. The head is taken to
  -- lie in the lower half of `u64`, and the arguments are taken to fit their types: the key is UTF-8,
  -- the kind one of the two.
  pub submit-IsLog :
      (kind : ℕ) (key : Bytes) (seq : ℕ) (body : Bytes) (s s' : Shared) (end : ℕ)
      → IsLog c is_utf8 s.log
      → s.log.head < 2 ^ 63
      → (kind ≡ record_frame) ⊎ (kind ≡ record_watermark)
      → seq < 2 ^ 64
      → is_utf8 key ≡ true
      → submit c is_utf8 kind key seq body s ≡ ok (end, s')
      → IsLog c is_utf8 s'.log
        × (s'.log.base ≡ s.log.base)
        × (s'.log.head ≡ end)
        × (s.log.head < end)
        × Submitted kind key seq body s s'
  submit-IsLog kind key seq body s s' end h low known seq_u64 utf8 e =
      let (f, encoded, fits, ends, after) = submit-ok kind key seq body s s' end e in
      let (key_u32, short, framed) = encode-ok (record_of kind key seq body s) f encoded in
      let valid : IsRecord is_utf8 (record_of kind key seq body s) = record {
        lsn_u64 = omega arith;
        seq_u64 = seq_u64;
        key_u32 = key_u32;
        key_utf8 = utf8;
        kind_known = known;
      } in
      let grown =
        ap length framed ∙ length-frame c (record_payload (record_of kind key seq body s)) in
      rw (sym after) (
        push_record-IsLog (record_of kind key seq body s) f s.log h refl low valid short framed
            fits,
        unfold push_record in refl,
        unfold push_record in ends,
        omega (arith, ends, grown),
        record {
          entry = record {
            start = s.log.head;
            end = s.log.head + length f;
            kind = kind;
            table_key = key;
            seq = seq;
            frame = f;
          };
          entered = unfold push_record in refl;
          own_start = refl;
          own_end = unfold push_record in refl;
          own_kind = refl;
          own_key = refl;
          own_seq = refl;
          own_frame = framed;
          watermark = λ is_wm. unfold push_record in ground arith;
          frame_keeps = λ is_frame. unfold push_record in ground arith;
        },
      )
