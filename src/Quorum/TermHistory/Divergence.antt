-- ===== src/Quorum/TermHistory/Divergence.antt =====
-- Term histories cut at a flush position, and the divergence point of two of them.
use icegres.Prelude.{ℕ, ◌≤◌, ◌≡◌, refl, [], ◌∷◌, arith, All}
use icegres.Prelude.Results.{ok}
use icegres.Quorum.TermHistory.{TermHistory, last?, up_to, check_end}

abbrev pub AllBelow : ℕ → TermHistory → Type 0
AllBelow lsn = All (λ e. e.lsn ≤ lsn)

pub up_to-below : (h : TermHistory) (lsn : ℕ) → AllBelow lsn (up_to h lsn)
unfolding up_to
up_to-below [] lsn = tt
up_to-below (e ∷ es) lsn = ground (arith, up_to-below es lsn)

pub last?-below : (h : TermHistory) (lsn : ℕ) → AllBelow lsn h → check_end (last? h) lsn ≡ ok tt
last?-below [] lsn a = refl
last?-below (e ∷ []) lsn a = ground arith
last?-below (e ∷ f ∷ h) lsn (a, b) = last?-below (f ∷ h) lsn b

-- A history that the acceptor has cut at its own flush position passes the end check.
pub check_end-up_to : (h : TermHistory) (lsn : ℕ) → check_end (last? (up_to h lsn)) lsn ≡ ok tt
check_end-up_to h lsn = last?-below (up_to h lsn) lsn (up_to-below h lsn)

pub up_to-up_to : (h : TermHistory) (a b : ℕ) → a ≤ b → up_to (up_to h b) a ≡ up_to h a
unfolding up_to
up_to-up_to [] a b l = refl
up_to-up_to (e ∷ es) a b l = ground (arith, up_to-up_to es a b l)
