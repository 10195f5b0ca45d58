-- ===== src/Quorum/Open/Seeded.antt =====
-- The log that `Quorum::open` of icegres/src/quorum/proposer.rs seeds with the recovered records.
use mathlib.Core.Path.{subst}
use icegres.Prelude.{
  ℕ, zero, suc, ◌+◌, ◌<◌, ◌^◌, ◌≡◌, refl, ap, ◌∙◌, List, [], ◌∷◌, ◌++◌, Bool, arith, length, map,
  All, length-append, min, max, leb, Bool-cases, inl, inr, All-append,
}
use icegres.Prelude.Bytes.{Bytes, IsByte, add_u64}
use icegres.Prelude.Results.{Result, ok, err, Result-cases, >>=-eq-ok, ok_injective}
use icegres.Segment.{Crc, frame, frame_bytes}
use icegres.Segment.Frames.{frames}
use icegres.Segment.Scan.{length-frame}
use icegres.Quorum.Record.{Record, encode, record_payload, map_err}
use icegres.Quorum.Record.Strict.{IsContiguous}
use icegres.Quorum.Proposer.{RecordMeta, Table, Watermark}
use icegres.Quorum.Message.{Message}
use icegres.Quorum.Election.{Network, Wire, delivered, reply}
use icegres.Quorum.Election.Connect.{saturating_add, check_chunk, download}
use icegres.Quorum.Open.{not_encoded, next_wm, seed_loop}

pub map_err-ok :
    {E F A : Type 0} (f : E → F) (r : Result E A) {a : A}
    → ◌≡◌ {A = Result F A} (map_err f r) (ok a)
    → r ≡ ok a
map_err-ok f (ok b) h = cc
map_err-ok f (err e) h = cc

module _ (c : Crc) (is_utf8 : Bytes → Bool) where
  -- The log holds the records in turn, each under the position that it claims and with its encoding,
  -- without a gap from `pos` to `head`.
  abbrev pub IsSeeded : ℕ → List RecordMeta → List Record → ℕ → Type 0
  IsSeeded pos [] [] head = pos ≡ head
  IsSeeded pos (m ∷ ms) (r ∷ rs) head =
      (m.start ≡ pos)
      × (r.lsn ≡ pos)
      × (encode c is_utf8 r ≡ ok m.frame)
      × (m.end ≡ pos + length m.frame)
      × (m.kind ≡ r.kind)
      × (m.table_key ≡ r.table_key)
      × (m.seq ≡ r.seq)
      × IsSeeded m.end ms rs head
  IsSeeded pos _ _ head = ⊥

  encode-frame :
      (r : Record) (bytes : Bytes)
      → encode c is_utf8 r ≡ ok bytes
      → bytes ≡ frame c (record_payload r)
  unfolding encode frame_bytes
  encode-frame r bytes h = ground arith

  -- Records that stand one behind the other in `[pos, head)` are seeded there.
  pub seed_loop-IsSeeded :
      (pos : ℕ) (last_wm : Table Watermark) (recs : List Record) (head : ℕ)
      → {out : List RecordMeta × Table Watermark} → seed_loop c is_utf8 pos last_wm recs ≡ ok out
      → IsContiguous c is_utf8 pos recs
      → pos + length (frames c (map record_payload recs)) ≡ head
      → head < 2 ^ 64
      → IsSeeded pos out.0 recs head
  unfolding seed_loop
  seed_loop-IsSeeded pos last_wm [] head h at long below =
      subst (λ (o : List RecordMeta × Table Watermark). IsSeeded pos o.0 [] head) (ok_injective h)
        (omega arith)
  seed_loop-IsSeeded pos last_wm (r ∷ recs) head h (at, behind) long below =
      let (bytes, encoded, h1) = >>=-eq-ok (map_err not_encoded (encode c is_utf8 r)) _ h in
      let (rest, seeded, h2) =
        >>=-eq-ok (seed_loop c is_utf8 (pos + length bytes) (next_wm r last_wm) recs) _ h1 in
      let encoding = map_err-ok not_encoded (encode c is_utf8 r) encoded in
      let size : length bytes ≡ 8 + length (record_payload r) =
        ap length (encode-frame r bytes encoding) ∙ length-frame c (record_payload r) in
      let total = length-append (frame c (record_payload r)) (frames c (map record_payload recs)) in
      let one = length-frame c (record_payload r) in
      let next : add_u64 pos (8 + length (record_payload r)) ≡ pos + length bytes =
        omega (arith, size, total, one, long, below) in
      subst (λ (o : List RecordMeta × Table Watermark). IsSeeded pos o.0 (r ∷ recs) head)
        (ok_injective h2)
        (
          refl,
          at,
          encoding,
          refl,
          refl,
          refl,
          refl,
          seed_loop-IsSeeded (pos + length bytes) (next_wm r last_wm) recs head seeded
              (subst (λ n. IsContiguous c is_utf8 n recs) next behind)
              (omega (arith, size, total, one, long)) below,
        )

-- What is read from an acceptor are bytes.
abbrev pub IsBytewise : Wire → Type 0
IsBytewise (delivered (Message.read_resp from records)) = All IsByte records
IsBytewise _ = Unit {0}

check_chunk-IsByte :
    (pos to : ℕ) (x : Wire) (records : Bytes)
    → IsBytewise x
    → check_chunk pos to (reply x) ≡ ok records
    → All IsByte records
unfolding reply
check_chunk-IsByte pos to (delivered (Message.read_resp from [])) records h e =
    absurd (ground arith)
check_chunk-IsByte pos to (delivered (Message.read_resp from (b ∷ bs))) records h e =
    let same : ◌≡◌ {A = Bytes} (b ∷ bs) records = ground arith in subst (All IsByte) same h
check_chunk-IsByte pos to _ records h e = absurd (ground arith)

module _ (net : Network) (donor chunk term_start : ℕ) where
  module _
      (bytewise : (w : net.World) (i : ℕ) (m : Message) → IsBytewise (net.exchange w i m).0) where
    pub download-IsByte :
        (fuel pos : ℕ) (acc : Bytes) (w : net.World) {out : Bytes}
        → All IsByte acc
        → (download net donor chunk term_start fuel pos acc w).0 ≡ ok out
        → All IsByte out
    unfolding download
    download-IsByte zero pos acc w h e = subst (All IsByte) (ground arith) h
    download-IsByte (suc fuel) pos acc w h e =
        let to_lsn = min term_start (saturating_add pos (max chunk 1)) in
        let (answer, w') = net.exchange w donor (Message.read pos to_lsn) in
        elim (Bool-cases (leb term_start pos)) [
          | inl complete ↦ subst (All IsByte) (ground (arith, complete)) h
          | inr more ↦ elim (Result-cases (check_chunk pos to_lsn (reply answer))) [
            | inl (records, read) ↦
                let good =
                  check_chunk-IsByte pos to_lsn answer records
                    (bytewise w donor (Message.read pos to_lsn)) read in
                download-IsByte fuel (pos + length records) (acc ++ records) w'
                  (All-append IsByte acc records h good) (ground (arith, more, read))
            | inr (x, bad) ↦ absurd (ground (arith, more, bad))
          ]
        ]
