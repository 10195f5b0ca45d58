-- ===== src/Quorum/SegmentWal/Cut.antt =====
-- What `truncate_from` and `drop_below` keep of a segment log.
use mathlib.Core.Path.{sym, subst}
use icegres.Prelude.{
  ℕ, ◌≤◌, ◌<◌, ◌≡◌, refl, ap, ◌∙◌, Option, none, some, List, [], ◌∷◌, Bool, true, false, ltb, leb,
  min, arith,
}
use icegres.Prelude.{if_cases}
use icegres.Prelude.Results.{ok, err}
use icegres.Quorum.Message.{WalError, io_failed}
use icegres.Quorum.SegmentWal.{
  Seg, Io, done, failed, SegmentWal, rest_io, next_io, Outcome, truncate_from, drop_below, segments,
  cut_last, delete_from, sort_segs, collect, collect_below, cut_after, finish_cut, push_seg,
}
use icegres.Quorum.SegmentWal.Chain.{
  Chain, byte_in, sort-Chain, StartsBelow, delete_from-Chain, delete_from-byte,
  delete_from-StartsBelow, cut_last-Chain, cut_last-end, cut_last-byte, collect_below-Chain,
  collect_below-byte,
}
use icegres.Quorum.SegmentWal.Wf.{IsWf, IsWfAt, byte, sealed-Chain}

pub truncate_empty : (w : SegmentWal) (l : ℕ) → (truncate_from w l).1.empty ≡ w.empty
unfolding truncate_from
truncate_empty w l = ground arith

pub truncate_ok :
    (w : SegmentWal) (l : ℕ)
    → (truncate_from w l).0 ≡ ok tt
    → (truncate_from w l).1.flush ≡ min w.flush l
unfolding truncate_from
truncate_ok w l h = ground arith

pub truncate_err :
    (w : SegmentWal) (l : ℕ) (e : WalError)
    → (truncate_from w l).0 ≡ err e
    → (truncate_from w l).1.flush ≡ w.flush
unfolding truncate_from
truncate_err w l e h = ground arith

seal_wf :
    (e : Bool) (flush : ℕ) (sealed : List Seg) (active : Option Seg)
    → IsWfAt e flush sealed active
    → IsWfAt e flush (push_seg active sealed) none
seal_wf true flush [] none h = tt
seal_wf true flush [] (some s) h =
    if_cases (λ x. IsWfAt true flush x none) (ltb s.start s.end) (s ∷ []) [] (λ t. ground arith)
      (λ _. tt)
seal_wf true flush (x ∷ xs) active h = absurd h
seal_wf false flush sealed none h = h
seal_wf false flush sealed (some s) (at, o, k) =
    subst (λ x. Chain x (push_seg (some s) sealed)) at (sealed-Chain s sealed o k)

sort_wf :
    (e : Bool) (flush : ℕ) (segs : List Seg) → IsWfAt e flush segs none → sort_segs segs ≡ segs
sort_wf true flush [] h = unfold sort_segs in refl
sort_wf true flush (x ∷ xs) h = absurd h
sort_wf false flush segs h = sort-Chain flush segs h

delete_wf :
    (e : Bool) (flush l : ℕ) (segs : List Seg) (os : List Io)
    → IsWfAt e flush segs none
    → IsWfAt e flush (delete_from l segs os).1 none
delete_wf true flush l [] os h = unfold delete_from in tt
delete_wf true flush l (x ∷ xs) os h = absurd h
delete_wf false flush l segs os h = delete_from-Chain l flush segs os h

cut_wf :
    (e : Bool) (flush l : ℕ) (segs : List Seg) (os : List Io)
    → StartsBelow l segs
    → IsWfAt e flush segs none
    → IsWfAt e flush (cut_last l segs os).1 none
cut_wf true flush l [] os b h = tt
cut_wf true flush l (x ∷ xs) os b h = absurd h
cut_wf false flush l segs os b h = cut_last-Chain l flush segs os b h

cut_done_wf :
    (e : Bool) (flush l : ℕ) (segs : List Seg) (os : List Io)
    → StartsBelow l segs
    → IsWfAt e flush segs none
    → (cut_last l segs os).0 ≡ true
    → IsWfAt e l (cut_last l segs os).1 none
cut_done_wf true flush l [] os b h d = tt
cut_done_wf true flush l (x ∷ xs) os b h d = absurd h
cut_done_wf false flush l segs os b h d = cut_last-end l flush segs os b h d

finish_cut-IsWf :
    (w : SegmentWal) (l : ℕ) (x : Bool × List Seg × List Io)
    → (x.0 ≡ true → IsWfAt w.empty l x.1 none)
    → IsWfAt w.empty w.flush x.1 none
    → IsWf (finish_cut (record w { active = none }) l x).1
finish_cut-IsWf w l (false, segs, os) d h = h
finish_cut-IsWf w l (true, segs, os) d h = synced (next_io os)
  where
    synced :
        (o : Io)
        → IsWf (
            let x : Outcome = elim o [
              | failed _ ↦
                  (err io_failed, record w { sealed = segs; active = none; io = rest_io os })
              | done ↦
                  (ok tt, record w { sealed = segs; active = none; flush = l; io = rest_io os })
            ] in
            x.1)
    synced (failed n) = h
    synced done = d refl

cut_after-IsWf :
    (w : SegmentWal) (l : ℕ) (x : Bool × List Seg × List Io)
    → (x.0 ≡ true → StartsBelow l x.1)
    → IsWfAt w.empty w.flush x.1 none
    → IsWf (cut_after (record w { active = none }) l x).1
cut_after-IsWf w l (false, segs, os) b h = h
cut_after-IsWf w l (true, segs, os) b h =
    finish_cut-IsWf w l (cut_last l segs os) (cut_done_wf w.empty w.flush l segs os (b refl) h)
      (cut_wf w.empty w.flush l segs os (b refl) h)

pub truncate-IsWf : (w : SegmentWal) (l : ℕ) → IsWf w → IsWf (truncate_from w l).1
unfolding truncate_from
truncate-IsWf w l h =
    let segs = push_seg w.active w.sealed in
    let shut = seal_wf w.empty w.flush w.sealed w.active h in
    let sorted = sort_wf w.empty w.flush segs shut in
    let w' : SegmentWal = record w { sealed = segs } in
    if_cases (λ (x : Outcome). IsWf x.1) w.wedged _ _ (λ _. h)
      (λ _.
        if_cases (λ (x : Outcome). IsWf x.1) (leb w.flush l) _ _ (λ _. h)
          (λ _.
            subst (λ ss. IsWf (cut_after (record w' { active = none }) l (delete_from l ss w.io)).1)
              (sym sorted)
              (cut_after-IsWf w' l (delete_from l segs w.io) (delete_from-StartsBelow l segs w.io)
                (delete_wf w.empty w.flush l segs w.io shut))))

-- Below the cut every byte stays.
seal_byte : (w : SegmentWal) (p : ℕ) → byte_in (push_seg w.active w.sealed) p ≡ byte w p
unfolding byte_in
seal_byte w p = ground arith

finish_cut_byte :
    (w : SegmentWal) (l p : ℕ) (x : Bool × List Seg × List Io)
    → byte (finish_cut (record w { active = none }) l x).1 p ≡ byte_in x.1 p
finish_cut_byte w l p (false, segs, os) = refl
finish_cut_byte w l p (true, segs, os) = ground arith

cut_after_byte :
    (w : SegmentWal) (l p hi : ℕ) (x : Bool × List Seg × List Io)
    → Chain hi x.1
    → p < l
    → byte (cut_after (record w { active = none }) l x).1 p ≡ byte_in x.1 p
cut_after_byte w l p hi (false, segs, os) k lt = refl
cut_after_byte w l p hi (true, segs, os) k lt =
    finish_cut_byte w l p (cut_last l segs os) ∙ cut_last-byte l hi segs os p k lt

wf-Chain : (e : Bool) (flush : ℕ) (segs : List Seg) → IsWfAt e flush segs none → Chain flush segs
wf-Chain true flush [] h = tt
wf-Chain true flush (x ∷ xs) h = absurd h
wf-Chain false flush segs h = h

pub truncate_byte :
    (w : SegmentWal) (l p : ℕ) → IsWf w → p < l → byte (truncate_from w l).1 p ≡ byte w p
unfolding truncate_from
truncate_byte w l p h lt =
    let segs = push_seg w.active w.sealed in
    let shut = seal_wf w.empty w.flush w.sealed w.active h in
    let sorted = sort_wf w.empty w.flush segs shut in
    let k = wf-Chain w.empty w.flush segs shut in
    let w' : SegmentWal = record w { sealed = segs } in
    if_cases (λ (x : Outcome). byte x.1 p ≡ byte w p) w.wedged _ _ (λ _. refl)
      (λ _.
        if_cases (λ (x : Outcome). byte x.1 p ≡ byte w p) (leb w.flush l) _ _ (λ _. refl)
          (λ _.
            subst
              (λ ss.
                byte (cut_after (record w' { active = none }) l (delete_from l ss w.io)).1 p
                ≡ byte w p)
              (sym sorted)
              (cut_after_byte w' l p w.flush (delete_from l segs w.io)
                  (delete_from-Chain l w.flush segs w.io k) lt
                ∙ delete_from-byte l w.flush segs w.io p k lt
                ∙ seal_byte w p)))

collect_wf :
    (e : Bool) (flush h : ℕ) (sealed : List Seg) (active : Option Seg) (os : List Io)
    → IsWfAt e flush sealed active
    → IsWfAt e flush (collect active h sealed os).0 active
collect_wf true flush h [] none os k = tt
collect_wf true flush h [] (some s) os k = unfold collect_below in k
collect_wf true flush h (x ∷ xs) active os k = absurd k
collect_wf false flush h [] none os k = tt
collect_wf false flush h (s ∷ older) none os (l, o, k) =
    (l, o, collect_below-Chain h s.start older os k)
collect_wf false flush h sealed (some s) os (l, o, k) =
    (l, o, collect_below-Chain h s.start sealed os k)

sort_sealed :
    (e : Bool) (flush : ℕ) (sealed : List Seg) (active : Option Seg)
    → IsWfAt e flush sealed active
    → sort_segs sealed ≡ sealed
sort_sealed true flush [] active h = unfold sort_segs in refl
sort_sealed true flush (x ∷ xs) active h = absurd h
sort_sealed false flush sealed none h = sort-Chain flush sealed h
sort_sealed false flush sealed (some s) (l, o, k) = sort-Chain s.start sealed k

pub drop-IsWf : (w : SegmentWal) (h : ℕ) → IsWf w → IsWf (drop_below w h)
unfolding drop_below
drop-IsWf w h k =
    subst (λ ss. IsWfAt w.empty w.flush (collect w.active h ss w.io).0 w.active)
      (sym (sort_sealed w.empty w.flush w.sealed w.active k))
      (collect_wf w.empty w.flush h w.sealed w.active w.io k)

abbrev with_front : Option Seg → List Seg → List Seg
with_front none segs = segs
with_front (some s) segs = s ∷ segs

collect_byte :
    (e : Bool) (flush h : ℕ) (sealed : List Seg) (active : Option Seg) (os : List Io) (p : ℕ)
    → IsWfAt e flush sealed active
    → h ≤ p
    → byte_in (with_front active (collect active h sealed os).0) p
      ≡ byte_in (with_front active sealed) p
unfolding byte_in
collect_byte true flush h [] none os p k l = refl
collect_byte true flush h [] (some s) os p k l = unfold collect_below in refl
collect_byte true flush h (x ∷ xs) active os p k l = absurd k
collect_byte false flush h [] none os p k l = refl
collect_byte false flush h (s ∷ older) none os p (e, o, k) l =
    ground (arith, collect_below-byte h s.start older os p k)
collect_byte false flush h sealed (some s) os p (e, o, k) l =
    ground (arith, collect_below-byte h s.start sealed os p k)

segments-with_front : (w : SegmentWal) → segments w ≡ with_front w.active w.sealed
segments-with_front w = ground arith

pub drop_byte : (w : SegmentWal) (h p : ℕ) → IsWf w → h ≤ p → byte (drop_below w h) p ≡ byte w p
unfolding drop_below
drop_byte w h p k l =
    ap (λ ss. byte_in ss p) (segments-with_front (drop_below w h))
    ∙ ap (λ ss. byte_in (with_front w.active (collect w.active h ss w.io).0) p)
        (sort_sealed w.empty w.flush w.sealed w.active k)
    ∙ collect_byte w.empty w.flush h w.sealed w.active w.io p k l
    ∙ ap (λ ss. byte_in ss p) (sym (segments-with_front w))

pub drop_flush : (w : SegmentWal) (h : ℕ) → (drop_below w h).flush ≡ w.flush
unfolding drop_below
drop_flush w h = refl

pub drop_empty : (w : SegmentWal) (h : ℕ) → (drop_below w h).empty ≡ w.empty
unfolding drop_below
drop_empty w h = refl
