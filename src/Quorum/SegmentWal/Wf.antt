-- ===== src/Quorum/SegmentWal/Wf.antt =====
-- Well-formed segment logs, and that a write, whether it succeeds or fails, leaves one.
use mathlib.Core.Path.{sym, subst}
use icegres.Prelude.{
  ℕ, ◌+◌, ◌-◌, ◌^◌, ◌≤◌, ◌<◌, ◌≡◌, refl, Option, none, some, List, [], ◌∷◌, ◌++◌, Bool, true, false,
  not, length, take, ltb, leb, arith, if◌then◌else◌,
}
use icegres.Prelude.{length-append, length-take, if_cases, ◌==◌}
use icegres.Prelude.Bytes.{Bytes, add_u64}
use icegres.Prelude.Results.{err}
use icegres.Quorum.Message.{io_failed}
use icegres.Quorum.SegmentWal.{
  Seg, Io, done, failed, SegmentWal, rest_io, next_io, Outcome, seal_active, write_active,
  with_active, append, segments, push_seg,
}
use icegres.Quorum.SegmentWal.Chain.{Chain, Chain-le, Holds, byte_in}

-- A log that was never written holds no byte: at most a file that a failed write left empty.
abbrev pub IsFresh : List Seg → Option Seg → Type 0
IsFresh [] none = Unit {0}
IsFresh [] (some s) = (s.start ≡ s.end) × (s.end < 2 ^ 63)
IsFresh (s ∷ ss) active = ⊥

-- A written log: its segments form a chain below the flush position, which the active one reaches.
abbrev pub IsWritten : ℕ → List Seg → Option Seg → Type 0
IsWritten flush sealed none = Chain flush sealed
IsWritten flush sealed (some s) = (s.end ≡ flush) × Holds s × Chain s.start sealed

abbrev pub IsWfAt : Bool → ℕ → List Seg → Option Seg → Type 0
IsWfAt true flush sealed active = IsFresh sealed active
IsWfAt false flush sealed active = IsWritten flush sealed active

abbrev pub IsWf : SegmentWal → Type 0
IsWf w = IsWfAt w.empty w.flush w.sealed w.active

abbrev pub byte : SegmentWal → ℕ → Option ℕ
byte w p = byte_in (segments w) p

pub active_facts :
    (e : Bool) (flush : ℕ) (sealed : List Seg) (s : Seg)
    → IsWfAt e flush sealed (some s)
    → Holds s × Chain s.start sealed
active_facts true flush [] s h = (omega arith, tt)
active_facts true flush (x ∷ xs) s h = absurd h
active_facts false flush sealed s (at, o, k) = (o, k)

with_bytes :
    (e : Bool) (flush : ℕ) (sealed : List Seg) (s : Seg) (bs : Bytes)
    → s.end ≤ s.start + length bs
    → IsWfAt e flush sealed (some s)
    → IsWfAt e flush sealed (some (record s { bytes = bs }))
with_bytes true flush [] s bs l h = h
with_bytes true flush (x ∷ xs) s bs l h = absurd h
with_bytes false flush sealed s bs l (at, o, k) = (at, (o.0, l), k)

-- A sealed segment that ends at the flush position.
pub sealed-Chain :
    (s : Seg) (sealed : List Seg)
    → Holds s
    → Chain s.start sealed
    → Chain s.end (push_seg (some s) sealed)
sealed-Chain s sealed o k =
    if_cases (Chain s.end) (ltb s.start s.end) (s ∷ sealed) sealed (λ _. (omega arith, o.0, k))
      (λ _. Chain-le s.start s.end sealed o.0 k)

extended : (s : Seg) (f : Bytes) → Holds s → s.end + length f ≤ s.start + length (s.bytes ++ f)
extended s f o = omega (arith, length-append s.bytes f)

pub write_active-IsWf :
    (w : SegmentWal) (s : Seg) (f : Bytes) (o : Io) (os : List Io)
    → IsWfAt w.empty w.flush w.sealed (some s)
    → s.end + length f < 2 ^ 64
    → IsWf (write_active w s f o os).1
unfolding seal_active
write_active-IsWf w s f done os h fits =
    let end' = add_u64 s.end (length f) in
    let (o, k) = active_facts w.empty w.flush w.sealed s h in
    let s' : Seg = record s { end = end'; bytes = s.bytes ++ f } in
    let held : Holds s' = (omega arith, omega (arith, extended s f o)) in
    if_cases (λ (x : Outcome). IsWf x.1) (leb w.rotate_bytes (end' - s.start)) _ _
      (λ _. sealed-Chain s' w.sealed held k) (λ _. (refl, held, k))
write_active-IsWf w s f (failed n) os h fits =
    let (o, k) = active_facts w.empty w.flush w.sealed s h in
    rolled_back (next_io os)
      (with_bytes w.empty w.flush w.sealed s (take (s.end - s.start) s.bytes)
        (omega (arith, length-take (s.end - s.start) s.bytes)) h)
      (with_bytes w.empty w.flush w.sealed s (s.bytes ++ take n f)
        (omega (arith, length-append s.bytes (take n f))) h)
  where
    rolled_back :
        (o : Io)
        → IsWfAt w.empty w.flush w.sealed
            (some (record s { bytes = take (s.end - s.start) s.bytes }))
        → IsWfAt w.empty w.flush w.sealed (some (record s { bytes = s.bytes ++ take n f }))
        → IsWf (
            let x : Outcome = elim o [
              | done ↦ (
                err io_failed,
                record w {
                  active = some (record s { bytes = take (s.end - s.start) s.bytes });
                  io = rest_io os;
                },
              )
              | failed _ ↦ (
                err io_failed,
                record w {
                  active = some (record s { bytes = s.bytes ++ take n f });
                  wedged = true;
                  io = rest_io os;
                },
              )
            ] in
            x.1)
    rolled_back done x y = x
    rolled_back (failed m) x y = y

new_active :
    (e : Bool) (flush : ℕ) (sealed : List Seg) (b : ℕ)
    → b ≡ flush
    → b < 2 ^ 63
    → IsWfAt e flush sealed none
    → IsWfAt e flush sealed (some (record { start = b; end = b; bytes = [] }))
new_active true flush [] b at small h = (refl, small)
new_active true flush (x ∷ xs) b at small h = absurd h
new_active false flush sealed b at small h =
    (at, (omega arith, omega arith), subst (λ x. Chain x sealed) (sym at) h)

active_fits :
    (e : Bool) (flush : ℕ) (sealed : List Seg) (s : Seg) (n : ℕ)
    → flush + n < 2 ^ 63
    → IsWfAt e flush sealed (some s)
    → s.end + n < 2 ^ 64
active_fits true flush [] s n l h = omega arith
active_fits true flush (x ∷ xs) s n l h = absurd h
active_fits false flush sealed s n l h = omega arith

with_active-IsWf :
    (w : SegmentWal) (active : Option Seg) (b : ℕ) (f : Bytes)
    → b ≡ w.flush
    → b + length f < 2 ^ 63
    → IsWf w
    → IsWfAt w.empty w.flush w.sealed active
    → IsWf (with_active w active b f).1
with_active-IsWf w (some s) b f at fits h k =
    write_active-IsWf w s f (next_io w.io) (rest_io w.io) k
      (active_fits w.empty w.flush w.sealed s (length f) (omega arith) k)
with_active-IsWf w none b f at fits h k = opened (next_io w.io) (next_io (rest_io w.io))
  where
    s : Seg
    s = record { start = b; end = b; bytes = [] }

    os : List Io
    os = rest_io w.io

    opened :
        (i j : Io)
        → IsWf (
            let x : Outcome = elim i [
              | failed _ ↦ (err io_failed, record w { io = os })
              | done ↦ elim j [
                | failed _ ↦ (err io_failed, record w { io = rest_io os })
                | done ↦
                    let os' = rest_io os in
                    write_active (record w { active = some s }) s f (next_io os') (rest_io os')
              ]
            ] in
            x.1)
    opened (failed n) j = h
    opened done (failed n) = h
    opened done done =
        write_active-IsWf (record w { active = some s }) s f (next_io (rest_io os))
          (rest_io (rest_io os)) (new_active w.empty w.flush w.sealed b at (omega arith) k)
          (omega arith)

reflush :
    (e : Bool) (flush b : ℕ) (sealed : List Seg) (active : Option Seg)
    → IsWfAt e flush sealed active
    → IsWfAt e (if e then b else flush) sealed active
reflush true flush b sealed active h = h
reflush false flush b sealed active h = h

pub append-IsWf :
    (w : SegmentWal) (b : ℕ) (f : Bytes) → b + length f < 2 ^ 63 → IsWf w → IsWf (append w b f).1
unfolding append
append-IsWf w b f fits h =
    let w' : SegmentWal = record w { flush = if w.empty then b else w.flush } in
    let h' : IsWf w' = reflush w.empty w.flush b w.sealed w.active h in
    if_cases (λ (x : Outcome). IsWf x.1) w.wedged _ _ (λ _. h)
      (λ _.
        if_cases (λ (x : Outcome). IsWf x.1) (not (b == w'.flush)) _ _ (λ _. h')
          (λ same. with_active-IsWf w' w'.active b f (ground arith) fits h' h'))
