-- ===== src/Quorum/TermHistory.antt =====
-- icegres/src/quorum/proto.rs: term histories and where two of them diverge; `compute_start` of
-- icegres/src/quorum/proposer.rs, the proposer's mirror of the same computation; and the start
-- position that `handle_elected` of icegres/src/quorum/acceptor.rs expects.
pub mod Divergence
pub mod Handshake
use icegres.Prelude.{
  ℕ, Option, none, some, List, [], ◌∷◌, Bool, true, false, not, ◌&&◌, ltb, leb, ◌==◌, min,
  if◌then◌else◌,
}
use icegres.Prelude.Results.{Result, ok, err, ◌>>=◌, ◌>>◌}

pub record TermLsn : Type 0 where
  pub term : ℕ
  pub lsn : ℕ

abbrev pub TermHistory : Type 0
TermHistory = List TermLsn

-- `index_panic` is the slice index that the source leaves unchecked.
pub data HistoryError : Type 0 where
  beyond_flush : ℕ → ℕ → HistoryError
  disagree : ℕ → ℕ → ℕ → HistoryError
  empty_history : HistoryError
  index_panic : HistoryError

abbrev pub last? {ℓ} : {A : Type ℓ} → List A → Option A
last? [] = none
last? (x ∷ []) = some x
last? (x ∷ y ∷ ys) = last? (y ∷ ys)

unfoldable pub up_to : TermHistory → ℕ → TermHistory
up_to [] lsn = []
up_to (e ∷ es) lsn = let rest = up_to es lsn in if leb e.lsn lsn then e ∷ rest else rest

abbrev pub term_of_last : Option TermLsn → ℕ
term_of_last none = 0
term_of_last (some e) = e.term

unfoldable pub last_log_term : TermHistory → ℕ → ℕ
last_log_term h flush = term_of_last (last? (up_to h flush))

-- The loop index `last_common_idx`, kept as the common entry and what lies behind it in the two
-- histories.
pub record Common : Type 0 where
  pub entry : TermLsn
  pub prop_rest : TermHistory
  pub sk_rest : TermHistory

-- `for i in 0..min(prop.len(), sk.len())`.
unfoldable pub common_walk :
    Option Common → TermHistory → TermHistory → Result HistoryError (Option Common)
common_walk last [] sk = ok last
common_walk last (p ∷ ps) [] = ok last
common_walk last (p ∷ ps) (s ∷ ss) =
    let rest = common_walk (some (record { entry = p; prop_rest = ps; sk_rest = ss })) ps ss in
    if not (p.term == s.term)
    then ok last
    else if not (p.lsn == s.lsn)
    then err (disagree p.term p.lsn s.lsn)
    else rest

abbrev pub check_end : Option TermLsn → ℕ → Result HistoryError (Unit {0})
check_end none sk_wal_end = ok tt
check_end (some last) sk_wal_end =
    if ltb sk_wal_end last.lsn then err (beyond_flush last.lsn sk_wal_end) else ok tt

-- Where the acceptor's part of the common term ends.
abbrev pub sk_end : TermHistory → ℕ → ℕ
sk_end [] sk_wal_end = sk_wal_end
sk_end (s ∷ ss) sk_wal_end = s.lsn

abbrev pub common_point : ℕ → Option Common → Option TermLsn
common_point sk_wal_end none = none
common_point sk_wal_end (some c) = some (record {
  term = c.entry.term;
  lsn = elim c.prop_rest [ [] ↦ sk_wal_end | p ∷ _ ↦ min p.lsn (sk_end c.sk_rest sk_wal_end) ];
})

unfoldable pub find_highest_common_point :
    TermHistory → TermHistory → ℕ → Result HistoryError (Option TermLsn)
unfolding common_walk
find_highest_common_point prop sk sk_wal_end = do
  check_end (last? sk) sk_wal_end
  c ← common_walk none prop sk
  ok (common_point sk_wal_end c)

abbrev pub first_lsn : TermHistory → Result HistoryError ℕ
first_lsn [] = err empty_history
first_lsn (e ∷ _) = ok e.lsn

abbrev pub is_nil {ℓ} : {A : Type ℓ} → List A → Bool
is_nil [] = true
is_nil (_ ∷ _) = false

abbrev pub start_in_term : TermHistory → TermHistory → ℕ → Result HistoryError ℕ
start_in_term [] sk_rest sk_flush = err index_panic
start_in_term (p ∷ _) sk_rest sk_flush = ok (min p.lsn (sk_end sk_rest sk_flush))

abbrev pub start_from :
    Option Common → TermHistory → TermHistory → ℕ → ℕ → ℕ → Result HistoryError ℕ
start_from none prop sk sk_flush prop_term base =
    if is_nil sk && sk_flush == 0 then ok base else first_lsn prop
start_from (some c) prop sk sk_flush prop_term base =
    if c.entry.term == prop_term then ok sk_flush else start_in_term c.prop_rest c.sk_rest sk_flush

-- proposer.rs: where to start streaming to one acceptor.
unfoldable pub compute_start : TermHistory → TermHistory → ℕ → ℕ → ℕ → Result HistoryError ℕ
unfolding common_walk
compute_start prop sk sk_flush prop_term base = do
  c ← common_walk none prop sk
  start_from c prop sk sk_flush prop_term base

abbrev pub expected_from :
    Option TermLsn → TermHistory → TermHistory → Bool → ℕ → Result HistoryError ℕ
expected_from (some t) prop sk wal_empty start_lsn = ok t.lsn
expected_from none prop sk wal_empty start_lsn =
    if is_nil sk && wal_empty then ok start_lsn else first_lsn prop

-- acceptor.rs, `handle_elected`: the start position that the acceptor accepts.
unfoldable pub expected_start : TermHistory → TermHistory → ℕ → Bool → ℕ → Result HistoryError ℕ
unfolding find_highest_common_point
expected_start prop sk flush wal_empty start_lsn = do
  lcp ← find_highest_common_point prop sk flush
  expected_from lcp prop sk wal_empty start_lsn
