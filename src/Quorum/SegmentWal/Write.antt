-- ===== src/Quorum/SegmentWal/Write.antt =====
-- What `append` keeps of a segment log, and where the log ends behind it.
use mathlib.Core.Path.{sym, subst}
use icegres.Prelude.{
  ℕ, ◌+◌, ◌-◌, ◌^◌, ◌<◌, ◌≡◌, refl, ◌∙◌, Option, none, some, List, [], ◌∷◌, false, not, length,
  take, arith, if◌then◌else◌,
}
use icegres.Prelude.{if_cases, ◌==◌}
use icegres.Prelude.Bytes.{Bytes}
use icegres.Prelude.Results.{ok, err}
use icegres.Quorum.Message.{WalError, io_failed}
use icegres.Quorum.SegmentWal.{
  Seg, Io, done, failed, SegmentWal, rest_io, next_io, Outcome, seal_active, write_active,
  with_active, append,
}
use icegres.Quorum.SegmentWal.Chain.{Holds, byte_in, nth?-append, nth?-take}
use icegres.Quorum.SegmentWal.Wf.{IsWf, IsWfAt, IsWritten, byte}

-- A written log keeps every byte below its flush position.
write_active_byte :
    (w : SegmentWal) (s : Seg) (f : Bytes) (o : Io) (os : List Io) (p : ℕ)
    → Holds s
    → p < s.end
    → s.end + length f < 2 ^ 64
    → byte (write_active w s f o os).1 p ≡ byte_in (s ∷ w.sealed) p
unfolding seal_active byte_in
write_active_byte w s f done os p o h fits = ground (arith, nth?-append s.bytes f (p - s.start))
write_active_byte w s f (failed n) os p o h fits = ground (
  arith,
  nth?-append s.bytes (take n f) (p - s.start),
  nth?-take (s.end - s.start) s.bytes (p - s.start),
)

with_active_byte :
    (w : SegmentWal) (active : Option Seg) (b : ℕ) (f : Bytes) (p : ℕ)
    → b ≡ w.flush
    → b + length f < 2 ^ 63
    → p < w.flush
    → IsWritten w.flush w.sealed active
    → w.active ≡ active
    → byte (with_active w active b f).1 p ≡ byte w p
with_active_byte w (some s) b f p at fits h (e, o, k) same =
    write_active_byte w s f (next_io w.io) (rest_io w.io) p o (omega arith) (omega arith)
    ∙ ground arith
with_active_byte w none b f p at fits h k same = opened (next_io w.io) (next_io (rest_io w.io))
  where
    s : Seg
    s = record { start = b; end = b; bytes = [] }

    os : List Io
    os = rest_io w.io

    opened :
        (i j : Io)
        → (let x : Outcome = elim i [
          | failed _ ↦ (err io_failed, record w { io = os })
          | done ↦ elim j [
            | failed _ ↦ (err io_failed, record w { io = rest_io os })
            | done ↦
                let os' = rest_io os in
                write_active (record w { active = some s }) s f (next_io os') (rest_io os')
          ]
        ] in
            byte x.1 p ≡ byte w p)
    opened (failed n) j = refl
    opened done (failed n) = refl
    opened done done =
        write_active_byte (record w { active = some s }) s f (next_io (rest_io os))
          (rest_io (rest_io os)) p (omega arith, omega arith) (omega arith) (omega arith)
        ∙ unfold byte_in in ground arith

written : (w : SegmentWal) → IsWf w → w.empty ≡ false → IsWritten w.flush w.sealed w.active
written w h full = subst (λ e. IsWfAt e w.flush w.sealed w.active) full h

pub append_byte :
    (w : SegmentWal) (b : ℕ) (f : Bytes) (p : ℕ)
    → b + length f < 2 ^ 63
    → IsWf w
    → w.empty ≡ false
    → p < w.flush
    → byte (append w b f).1 p ≡ byte w p
unfolding append
append_byte w b f p fits h full lt =
    let w' : SegmentWal = record w { flush = if w.empty then b else w.flush } in
    let same : w'.flush ≡ w.flush = ground arith in
    let h' : IsWritten w'.flush w.sealed w.active =
      subst (λ x. IsWritten x w.sealed w.active) (sym same) (written w h full) in
    if_cases (λ (x : Outcome). byte x.1 p ≡ byte w p) w.wedged _ _ (λ _. refl)
      (λ _.
        if_cases (λ (x : Outcome). byte x.1 p ≡ byte w p) (not (b == w'.flush)) _ _ (λ _. refl)
          (λ at. with_active_byte w' w'.active b f p (ground arith) fits (omega arith) h' refl))

pub append_ok :
    (w : SegmentWal) (b : ℕ) (f : Bytes) → (append w b f).0 ≡ ok tt → (append w b f).1.empty ≡ false
unfolding append
append_ok w b f h = ground arith

pub append_err :
    (w : SegmentWal) (b : ℕ) (f : Bytes) (e : WalError)
    → (append w b f).0 ≡ err e
    → ((append w b f).1.empty ≡ w.empty) × ((w.empty ≡ false) → (append w b f).1.flush ≡ w.flush)
unfolding append
append_err w b f e h = (ground arith, ground arith)

pub append_flush :
    (w : SegmentWal) (b : ℕ) (f : Bytes)
    → b + length f < 2 ^ 63
    → IsWf w
    → w.empty ≡ false
    → (append w b f).0 ≡ ok tt
    → (b ≡ w.flush) × ((append w b f).1.flush ≡ b + length f)
unfolding append
append_flush w b f fits k full h = (ground arith, ground arith)
