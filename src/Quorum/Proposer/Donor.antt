-- ===== src/Quorum/Proposer/Donor.antt =====
-- The choice of the donor in icegres/src/quorum/proposer.rs: `pick_donor`.
use icegres.Prelude.{
  ℕ, ◌≤◌, ◌<◌, ◌≡◌, refl, ◌⊎◌, inl, inr, some, List, [], ◌∷◌, true, false, arith, All, if_cases,
}
use icegres.Quorum.Proposer.{Candidate, key_le, max_candidate, pick_donor}

-- Raft's order of logs: the later last term first, then the longer log.
abbrev pub IsUpToDate : Candidate → Candidate → Type 0
IsUpToDate donor c =
    (c.last_log_term < donor.last_log_term)
    ⊎ ((c.last_log_term ≡ donor.last_log_term) × (c.flush ≤ donor.flush))

-- One of the list.
abbrev pub Among : Candidate → List Candidate → Type 0
Among c [] = ⊥
Among c (x ∷ xs) = (c ≡ x) ⊎ Among c xs

IsUpToDate-trans : (a b c : Candidate) → IsUpToDate a b → IsUpToDate b c → IsUpToDate a c
IsUpToDate-trans a b c h k = ground arith

key_le-true : (a b : Candidate) → key_le a b ≡ true → IsUpToDate b a
key_le-true a b h = ground arith

key_le-false : (a b : Candidate) → key_le a b ≡ false → IsUpToDate a b
key_le-false a b h = ground arith

All-IsUpToDate :
    (a b : Candidate) (xs : List Candidate)
    → IsUpToDate a b
    → All (IsUpToDate b) xs
    → All (IsUpToDate a) xs
All-IsUpToDate a b [] h k = tt
All-IsUpToDate a b (x ∷ xs) h (hx, k) = (IsUpToDate-trans a b x h hx, All-IsUpToDate a b xs h k)

max_candidate-greatest :
    (best : Candidate) (xs : List Candidate)
    → IsUpToDate (max_candidate best xs) best × All (IsUpToDate (max_candidate best xs)) xs
unfolding max_candidate
max_candidate-greatest best [] = (inr (refl, omega arith), tt)
max_candidate-greatest best (x ∷ xs) =
    if_cases
      (λ c.
        IsUpToDate (max_candidate c xs) best
        × (IsUpToDate (max_candidate c xs) x × All (IsUpToDate (max_candidate c xs)) xs))
      (key_le best x) x best
      (λ le.
        let (first, rest) = max_candidate-greatest x xs in
        (IsUpToDate-trans (max_candidate x xs) x best first (key_le-true best x le), (first, rest)))
      (λ gt.
        let (first, rest) = max_candidate-greatest best xs in
        (
          first,
          (IsUpToDate-trans (max_candidate best xs) best x first (key_le-false best x gt), rest),
        ))

max_candidate-Among :
    (best : Candidate) (xs : List Candidate) → Among (max_candidate best xs) (best ∷ xs)
unfolding max_candidate
max_candidate-Among best [] = inl refl
max_candidate-Among best (x ∷ xs) =
    if_cases (λ c. Among (max_candidate c xs) (best ∷ x ∷ xs)) (key_le best x) x best
      (λ le. inr (max_candidate-Among x xs))
      (λ gt. elim (max_candidate-Among best xs) [
        | inl same ↦ inl same
        | inr among ↦ inr (inr among)
      ])

-- The donor that is picked among the votes is one of them, and no vote's log is more up to date than
-- its log, by the term of the last entry and then by the length.
pub pick_donor-greatest :
    (votes : List Candidate) (i : ℕ)
    → pick_donor votes ≡ some i
    → (donor : Candidate) × (donor.index ≡ i) × Among donor votes × All (IsUpToDate donor) votes
unfolding pick_donor
pick_donor-greatest [] i h = cc
pick_donor-greatest (x ∷ xs) i h =
    (max_candidate x xs, cc, max_candidate-Among x xs, max_candidate-greatest x xs)
