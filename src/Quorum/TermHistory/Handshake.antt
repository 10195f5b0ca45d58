-- ===== src/Quorum/TermHistory/Handshake.antt =====
-- The proposer's start position against the one that the acceptor computes by itself.
use icegres.Prelude.{ℕ, ◌<◌, ◌≡◌, ap, Option, none, some, [], ◌∷◌, Bool, arith, ◌==◌}
use mathlib.Core.Path.{subst}
use icegres.Prelude.{not, min, if_cases, if◌then◌else◌}
use icegres.Prelude.Results.{Result, ok, ok_injective, err-ne-ok, >>=-eq-ok}
use icegres.Quorum.TermHistory.{
  TermLsn, TermHistory, up_to, Common, common_walk, compute_start, expected_start, common_point,
  start_from, expected_from, start_in_term, sk_end, HistoryError,
}
use icegres.Quorum.TermHistory.Divergence.{check_end-up_to}

-- The terms of a history strictly increase, and `term` is the last of them.
abbrev pub EndsAt : ℕ → TermHistory → Type 0
EndsAt term [] = Unit {0}
EndsAt term (e ∷ []) = e.term ≡ term
EndsAt term (e ∷ f ∷ es) = (e.term < f.term) × EndsAt term (f ∷ es)

EndsAt-lt : (term : ℕ) (e f : TermLsn) (es : TermHistory) → EndsAt term (e ∷ f ∷ es) → e.term < term
EndsAt-lt term e f [] (l, r) = omega arith
EndsAt-lt term e f (g ∷ es) (l, r) = omega (arith, EndsAt-lt term f g es r)

abbrev EndsAtCommon : ℕ → Option Common → Type 0
EndsAtCommon term none = Unit {0}
EndsAtCommon term (some c) = EndsAt term (c.entry ∷ c.prop_rest)

EndsAt-tail : (term : ℕ) (e : TermLsn) (es : TermHistory) → EndsAt term (e ∷ es) → EndsAt term es
EndsAt-tail term e [] h = tt
EndsAt-tail term e (f ∷ es) h = h.1

common_walk-EndsAt :
    (term : ℕ) (last : Option Common) (prop sk : TermHistory) (c : Option Common)
    → EndsAt term prop
    → EndsAtCommon term last
    → common_walk last prop sk ≡ ok c
    → EndsAtCommon term c
unfolding common_walk
common_walk-EndsAt term last [] sk c ep el h = subst (EndsAtCommon term) (ok_injective h) el
common_walk-EndsAt term last (p ∷ ps) [] c ep el h = subst (EndsAtCommon term) (ok_injective h) el
common_walk-EndsAt term last (p ∷ ps) (s ∷ ss) c ep el h =
    let P : Result HistoryError (Option Common) → Type 0 = λ r. r ≡ ok c → EndsAtCommon term c in
    if_cases P (not (p.term == s.term)) _ _ (λ _ k. subst (EndsAtCommon term) (ok_injective k) el)
      (λ _.
        if_cases P (not (p.lsn == s.lsn)) _ _ (λ _ k. absurd (err-ne-ok k))
          (λ _. common_walk-EndsAt term _ ps ss c (EndsAt-tail term p ps ep) ep))
      h

-- What the two sides compute from the same walk.
starts_agree :
    (c : Option Common) (prop sk : TermHistory) (flush term base start : ℕ) (wal_empty : Bool)
    → EndsAtCommon term c
    → wal_empty ≡ (flush == 0)
    → start_from c prop sk flush term base ≡ ok start
    → expected_from (common_point flush c) prop sk wal_empty start ≡ ok start
starts_agree none prop sk flush term base start wal_empty ec ew h = ground arith
starts_agree (some c) prop sk flush term base start wal_empty ec ew h =
    ap ok (agree c.entry c.prop_rest ec h)
  where
    agree :
        (e : TermLsn) (rest : TermHistory)
        → EndsAt term (e ∷ rest)
        → (if e.term == term then ok flush else start_in_term rest c.sk_rest flush) ≡ ok start
        → (elim rest [ [] ↦ flush | p ∷ _ ↦ min p.lsn (sk_end c.sk_rest flush) ]) ≡ start
    agree e [] ee k = ground arith
    agree e (p ∷ rest) ee k = ground (arith, EndsAt-lt term e p rest ee)

-- The proposer, from the positions in an acceptor's vote, and the acceptor, from its own state,
-- compute the same start of streaming: where the proposer's history ends in its own term, its terms
-- increase, and the acceptor's log is empty exactly when its flush position is 0, the start that
-- `compute_start` returns is the one that `handle_elected` expects.
pub expected_start-compute_start :
    (prop sk : TermHistory) (flush term base start : ℕ) (wal_empty : Bool)
    → EndsAt term prop
    → wal_empty ≡ (flush == 0)
    → compute_start prop (up_to sk flush) flush term base ≡ ok start
    → expected_start prop (up_to sk flush) flush wal_empty start ≡ ok start
unfolding compute_start expected_start
expected_start-compute_start prop sk flush term base start wal_empty ep ew h =
    let (c, e, k) = >>=-eq-ok (common_walk none prop (up_to sk flush)) _ h in
    rw (check_end-up_to sk flush, e)
      (starts_agree c prop (up_to sk flush) flush term base start wal_empty
        (common_walk-EndsAt term none prop (up_to sk flush) c ep tt e) ew k)
