-- ===== src/Quorum/Proposer/Coverage.antt =====
-- `coverable_prefix` of icegres/src/quorum/proposer.rs: which records the horizon may pass.
use icegres.Prelude.{
  none, max, if◌then◌else◌, ℕ, ◌-◌, ◌≤◌, ◌<◌, ◌≡◌, inl, inr, Option, some, List, [], ◌∷◌, Bool,
  true, false, ◌&&◌, arith, All, ltb, leb, ◌==◌, Bool-cases, if_cases, Option-cases, sym, ap, ◌∙◌,
  ◌⊎◌,
}
use icegres.Prelude.Bytes.{Bytes}
use icegres.Segment.{Crc}
use icegres.Quorum.Record.{record_frame, record_watermark}
use icegres.Quorum.Proposer.{
  RecordMeta, LogBuf, Watermark, lookup, unwrap_or, watermark_refresh_slack,
}
use icegres.Quorum.Proposer.Log.{IsChain, IsLog, entry_grows, chain_grows}

-- What `coverable_prefix` asks of a record.
unfoldable pub is_coverable : LogBuf → RecordMeta → Bool
is_coverable log r =
    if r.kind == record_frame
    then leb r.seq (unwrap_or 0 (lookup r.table_key log.covered))
      && elim (lookup r.table_key log.last_wm) [ none ↦ false | some wm ↦ leb r.seq wm.seq ]
    else if r.kind == record_watermark
    then elim (lookup r.table_key log.last_wm) [ none ↦ false | some wm ↦ ltb r.start wm.start ]
    else false

unfoldable pub coverable_walk : LogBuf → ℕ → ℕ → List RecordMeta → ℕ × Option (Bytes × ℕ)
unfolding is_coverable
coverable_walk log commit prefix_end [] = (prefix_end, none)
coverable_walk log commit prefix_end (r ∷ rs) =
    let rest = coverable_walk log commit r.end rs in
    if ltb commit r.end
    then (prefix_end, none)
    else if is_coverable log r
    then rest
    else if r.kind == record_watermark && ltb watermark_refresh_slack (log.head - r.start)
    then (prefix_end, some (r.table_key, max r.seq (unwrap_or 0 (lookup r.table_key log.covered))))
    else (prefix_end, none)

unfoldable pub coverable_prefix : LogBuf → ℕ → ℕ × Option (Bytes × ℕ)
unfolding coverable_walk
coverable_prefix log commit = coverable_walk log commit log.base log.records

-- A frame that a flush covers and that a retained watermark of its table records as covered.
pub record IsFlushed (log : LogBuf) (r : RecordMeta) : Type 0 where
  pub is_frame : r.kind ≡ record_frame
  pub flushed : r.seq ≤ unwrap_or 0 (lookup r.table_key log.covered)
  pub wm : Watermark
  pub last : lookup r.table_key log.last_wm ≡ some wm
  pub recorded : r.seq ≤ wm.seq

-- A watermark behind which a later one of its table stands.
pub record IsSuperseded (log : LogBuf) (r : RecordMeta) : Type 0 where
  pub is_watermark : r.kind ≡ record_watermark
  pub wm : Watermark
  pub last : lookup r.table_key log.last_wm ≡ some wm
  pub later : r.start < wm.start

-- The record is durable on a quorum, and a flush or a later watermark stands in for it.
pub record IsReleased (log : LogBuf) (commit : ℕ) (r : RecordMeta) : Type 0 where
  pub committed : r.end ≤ commit
  pub stands_in : IsFlushed log r ⊎ IsSuperseded log r

-- What a walk that stops at `p` says of the records below `p`.
abbrev pub Released : LogBuf → ℕ → ℕ → List RecordMeta → Type 0
Released log commit p rs = All (λ r. r.end ≤ p → IsReleased log commit r) rs

-- The record is the last watermark of its table.
pub record IsLastWatermark (log : LogBuf) (r : RecordMeta) : Type 0 where
  pub is_watermark : r.kind ≡ record_watermark
  pub seq : ℕ
  pub last : lookup r.table_key log.last_wm ≡ some (record { start = r.start; seq = seq })

module _ (c : Crc) (is_utf8 : Bytes → Bool) (log : LogBuf) (commit : ℕ) where
  none_below :
      (p pos head : ℕ) (rs : List RecordMeta)
      → p ≤ pos
      → IsChain c is_utf8 pos rs head
      → Released log commit p rs
  none_below p pos head [] h k = tt
  none_below p pos head (r ∷ rs) h (at, e, k) =
      let grows = entry_grows c is_utf8 r e in
      (
        λ le. absurd (omega (arith, at, grows)),
        none_below p r.end head rs (omega (arith, at, grows)) k,
      )

  released : (r : RecordMeta) → is_coverable log r ≡ true → IsFlushed log r ⊎ IsSuperseded log r
  unfolding is_coverable
  released r h = elim (Option-cases (lookup r.table_key log.last_wm)) [
    | inl absent ↦ absurd (ground (arith, absent))
    | inr (wm, last) ↦ elim (Bool-cases (r.kind == record_frame)) [
      | inl frame ↦ inl (record {
        is_frame = ground (arith, frame);
        flushed = ground (arith, frame, last);
        wm = wm;
        last = last;
        recorded = ground (arith, frame, last);
      })
      | inr other ↦ inr (record {
        is_watermark = ground (arith, other, last);
        wm = wm;
        last = last;
        later = ground (arith, other, last);
      })
    ]
  ]

  walk-Released :
      (pos head : ℕ) (rs : List RecordMeta)
      → IsChain c is_utf8 pos rs head
      → (pos ≤ (coverable_walk log commit pos rs).0)
        × ((coverable_walk log commit pos rs).0 ≤ head)
        × Released log commit (coverable_walk log commit pos rs).0 rs
  unfolding coverable_walk
  walk-Released pos head [] h = (omega arith, omega (arith, h), tt)
  walk-Released pos head (r ∷ rs) (at, e, h) =
      let grows = entry_grows c is_utf8 r e in
      let stop = none_below pos pos head (r ∷ rs) (omega arith) (at, e, h) in
      let inside = chain_grows c is_utf8 r.end rs head h in
      let P : ℕ × Option (Bytes × ℕ) → Type 0 =
        λ o. (pos ≤ o.0) × (o.0 ≤ head) × Released log commit o.0 (r ∷ rs) in
      if_cases P (ltb commit r.end) _ _
        (λ late. (omega arith, omega (arith, at, grows, inside), stop))
        (λ reached.
          if_cases P (is_coverable log r) _ _
            (λ covered.
              let (up, within, rest) = walk-Released r.end head rs h in
              (
                omega (arith, at, grows, up),
                within,
                ((λ le. record { committed = ground arith; stands_in = released r covered }), rest),
              ))
            (λ kept.
              if_cases P
                (r.kind == record_watermark && ltb watermark_refresh_slack (log.head - r.start)) _ _
                (λ old. (omega arith, omega (arith, at, grows, inside), stop))
                (λ recent. (omega arith, omega (arith, at, grows, inside), stop))))

  -- Nothing stands in for the last watermark of a table.
  last-not_released :
      (r : RecordMeta) → IsLastWatermark log r → IsFlushed log r ⊎ IsSuperseded log r → ⊥
  last-not_released r w (inl f) =
      absurd (
        let two : record_watermark ≡ record_frame = sym w.is_watermark ∙ f.is_frame in ground arith)
  last-not_released r w (inr p) =
      let same : p.wm.start ≡ r.start = ap (start_of r) (sym p.last ∙ w.last) in
      absurd (let later = p.later in omega (arith, later, same))
    where
      start_of : RecordMeta → Option Watermark → ℕ
      start_of r none = r.start
      start_of r (some wm) = wm.start

  -- The prefix that the horizon may pass lies in the log, and every record below it is committed and
  -- either a frame whose sequence is neither above what is covered of its table nor above the last
  -- watermark of its table, which there is, or a watermark that begins before the last one of its
  -- table. So a record that is its table's last watermark is never below it.
  pub coverable_prefix-Released :
      IsLog c is_utf8 log
      → (log.base ≤ (coverable_prefix log commit).0)
        × ((coverable_prefix log commit).0 ≤ log.head)
        × Released log commit (coverable_prefix log commit).0 log.records
        × All (λ r. IsLastWatermark log r → (coverable_prefix log commit).0 < r.end) log.records
  unfolding coverable_prefix
  coverable_prefix-Released h =
      let (up, within, released) = walk-Released log.base log.head log.records h in
      (up, within, released, kept _ log.records released)
    where
      kept :
          (p : ℕ) (rs : List RecordMeta)
          → Released log commit p rs
          → All (λ r. IsLastWatermark log r → p < r.end) rs
      kept p [] k = tt
      kept p (r ∷ rs) (k, ks) = (
        (λ w. elim (Bool-cases (leb r.end p)) [
          | inl below ↦ absurd (last-not_released r w ((k (ground arith)).stands_in))
          | inr above ↦ ground arith
        ]),
        kept p rs ks,
      )
