-- ===== src/Quorum/Election/Reelect.antt =====
-- `reelect` of icegres/src/quorum/proposer.rs: what a re-election establishes, and that it changes
-- nothing where it fails.
use Prim.Native.String.{String}
use mathlib.Core.Path.{subst}
use icegres.Prelude.{
  ℕ, ◌≤◌, ◌≡◌, refl, ap, ap₂, ◌∙◌, sym, inl, inr, some, List, [], ◌∷◌, ◌++◌, true, arith, length,
  map, All, ltb, ◌==◌, Bool-cases, Option-cases, if_cases,
}
use icegres.Prelude.Bytes.{add_u64}
use icegres.Prelude.Results.{Result, ok, err, Result-cases}
use icegres.Quorum.TermHistory.{TermLsn, TermHistory, up_to}
use icegres.Quorum.Proposer.{Candidate, Shared, quorum, pick_donor}
use icegres.Quorum.Proposer.Donor.{IsUpToDate, pick_donor-greatest}
use icegres.Quorum.Election.Polled.{
  Ascends, Polled, own_vote, AnyHorizon, vote_all-Polled, greet_all-Ascends,
}
use icegres.Quorum.Election.{
  Network, Vote, ReelectError, candidate, find_vote, donor_of, same_history, clear_peer, adopt_term,
  greet_all, vote_all, finish_reelect, reelect,
}

abbrev entry : ℕ → ℕ → TermLsn
entry t l = record { term = t; lsn = l }

same_history-eq : (h k : TermHistory) → same_history h k ≡ true → h ≡ k
same_history-eq [] [] e = refl
same_history-eq [] (b ∷ k) e = cc
same_history-eq (a ∷ h) [] e = cc
same_history-eq (a ∷ h) (b ∷ k) e =
    let t : a.term ≡ b.term = ground arith in
    let l : a.lsn ≡ b.lsn = ground arith in
    let rest = same_history-eq h k (ground arith) in
    ap₂ (λ (x : TermLsn) (y : TermHistory). x ∷ y) (ap₂ entry t l) rest

-- What a campaign that was won in term `term` establishes of the state `s'` that follows `s`.
pub record Adopted (s s' : Shared) (term : ℕ) (votes : List Vote) : Type 0 where
  pub won : quorum ≤ length votes
  pub donor : Vote
  pub picked : donor_of (pick_donor (map candidate votes)) votes ≡ some donor
  pub own_log : donor.history ≡ up_to s.election.history donor.flush
  pub retained : (s.log.base ≤ donor.flush) × (donor.flush ≤ s.log.head)
  pub new_term : s'.election.term ≡ term
  pub watch : s'.term_tx ≡ term
  pub starts : s'.election.term_start_lsn ≡ donor.flush
  pub history :
      s'.election.history ≡ s.election.history ++ (record { term = term; lsn = donor.flush } ∷ [])
  pub peers_cleared : s'.peers ≡ map clear_peer s.peers
  pub same_log : s'.log ≡ s.log
  pub same_commit : (s'.commit ≡ s.commit) × (s'.horizon ≡ s.horizon)

adopt_term-Adopted :
    (max_term term t : ℕ) (votes : List Vote) (s : Shared)
    → (adopt_term max_term term votes s).0 ≡ ok t
    → (t ≡ term) × Adopted s (adopt_term max_term term votes s).1 term votes
adopt_term-Adopted max_term term t votes s h =
    elim (Option-cases (donor_of (pick_donor (map candidate votes)) votes)) [
      | inl absent ↦ absurd (unfold adopt_term in ground (arith, absent))
      | inr (donor, picked) ↦
          let same : same_history donor.history (up_to s.election.history donor.flush) ≡ true =
            unfold adopt_term in ground (arith, picked) in
          (
            unfold adopt_term in ground (arith, picked),
            record {
              won = unfold adopt_term in ground (arith, picked);
              donor = donor;
              picked = picked;
              own_log = same_history-eq donor.history (up_to s.election.history donor.flush) same;
              retained = (
                unfold adopt_term in ground (arith, picked),
                unfold adopt_term in ground (arith, picked),
              );
              new_term = unfold adopt_term in ground (arith, picked);
              watch = unfold adopt_term in ground (arith, picked);
              starts = unfold adopt_term in ground (arith, picked);
              history = unfold adopt_term in ground (arith, picked);
              peers_cleared = unfold adopt_term in ground (arith, picked);
              same_log = unfold adopt_term in ground (arith, picked);
              same_commit = (
                unfold adopt_term in ground (arith, picked),
                unfold adopt_term in ground (arith, picked),
              );
            },
          )
    ]

adopt_term-err :
    (max_term term : ℕ) (votes : List Vote) (s : Shared) (e : ReelectError)
    → (adopt_term max_term term votes s).0 ≡ err e
    → (adopt_term max_term term votes s).1 ≡ s
adopt_term-err max_term term votes s e h = unfold adopt_term in ground arith

find_vote-index : (i : ℕ) (vs : List Vote) (v : Vote) → find_vote i vs ≡ some v → v.index ≡ i
find_vote-index i [] v h = cc
find_vote-index i (x ∷ vs) v h = elim (Bool-cases (x.index == i)) [
  | inl same ↦ ground (arith, same)
  | inr other ↦ find_vote-index i vs v (ground (arith, other))
]

pub picked-greatest :
    (votes : List Vote) (v : Vote)
    → donor_of (pick_donor (map candidate votes)) votes ≡ some v
    → (best : Candidate) × (best.index ≡ v.index) × All (IsUpToDate best) (map candidate votes)
picked-greatest votes v h = elim (Option-cases (pick_donor (map candidate votes))) [
  | inl none_picked ↦ absurd (ground (arith, none_picked))
  | inr (i, some_picked) ↦
      let (best, at, _, greatest) = pick_donor-greatest (map candidate votes) i some_picked in
      let found : find_vote i votes ≡ some v = ground (arith, some_picked) in
      (best, at ∙ sym (find_vote-index i votes v found), greatest)
]

module _ (net : Network) (tail_id : String) (w : net.World) where
  -- The acceptors that answered the greeting, in the term that the proposer had, and the network then.
  abbrev pub greeted : Shared → List ℕ × ℕ × net.World
  greeted s = greet_all net tail_id w s.election.term (0 ∷ 1 ∷ 2 ∷ [])

  -- What a re-election that was won leaves.
  pub record Won (s s' : Shared) (term : ℕ) : Type 0 where
    pub votes : List Vote
    pub distinct : Ascends 0 (greeted s).0
    pub polled :
        Polled net term (own_vote net term) (AnyHorizon net term) (greeted s).2 (greeted s).0 votes
    pub adopted : Adopted s s' term votes
    pub best : Candidate
    pub is_donor : best.index ≡ adopted.donor.index
    pub greatest : All (IsUpToDate best) (map candidate votes)

  abbrev pub Outcome : Shared → Result ReelectError ℕ → Shared → Type 0
  Outcome s (ok term) s' = Won s s' term
  Outcome s (err e) s' = s' ≡ s

  module _ (s : Shared) where
    adopt_term-Outcome :
        (max_term term : ℕ) (votes : List Vote)
        → Polled net term
            (own_vote net term)
            (AnyHorizon net term)
            (greeted s).2
            (greeted s).0
            votes
        → Outcome s (adopt_term max_term term votes s).0 (adopt_term max_term term votes s).1
    adopt_term-Outcome max_term term votes polled =
        elim (Result-cases (adopt_term max_term term votes s).0) [
          | inl (t, won) ↦
              let (same, adopted) = adopt_term-Adopted max_term term t votes s won in
              let (best, is_donor, greatest) = picked-greatest votes adopted.donor adopted.picked in
              let result : Won s (adopt_term max_term term votes s).1 term = record {
                votes = votes;
                distinct =
                    greet_all-Ascends net tail_id w s.election.term 0 (0 ∷ 1 ∷ 2 ∷ [])
                      (omega arith);
                polled = polled;
                adopted = adopted;
                best = best;
                is_donor = is_donor;
                greatest = greatest;
              } in
              subst (λ r. Outcome s r (adopt_term max_term term votes s).1) (sym (won ∙ ap ok same))
                result
          | inr (e, failure) ↦
              subst (λ r. Outcome s r (adopt_term max_term term votes s).1) (sym failure)
                (adopt_term-err max_term term votes s e failure)
        ]

    finish_reelect-Outcome :
        (max_term term : ℕ) (votes : Result ℕ (List Vote))
        → ((vs : List Vote)
            → votes ≡ ok vs
            → Polled net term
                (own_vote net term)
                (AnyHorizon net term)
                (greeted s).2
                (greeted s).0
                vs)
        → Outcome s
            (finish_reelect max_term term votes s).0
            (finish_reelect max_term term votes s).1
    finish_reelect-Outcome max_term term (err t) polled = refl
    finish_reelect-Outcome max_term term (ok votes) polled =
        adopt_term-Outcome max_term term votes (polled votes refl)

    -- A re-election that succeeds has won a quorum of votes: each is the answer of a different acceptor,
    -- of those that answered the greeting, to the request for a vote, which grants it in no higher
    -- term. Its donor, whose log no vote's log is more up to date than, holds exactly the proposer's
    -- own history cut at the donor's flush position, and that position lies in the retained log; it
    -- becomes the start of the new term, which is entered into the history and sent to the tasks;
    -- every peer starts again at zero and live; and the log, the commit position and the horizon
    -- stay. A re-election that fails changes nothing of the proposer.
    pub reelect-Outcome : Outcome s (reelect net tail_id s w).0 (reelect net tail_id s w).1
    unfolding reelect
    reelect-Outcome =
        let (conns, max_term, w1) = greeted s in
        let term = add_u64 max_term 1 in
        let (votes, w2) = vote_all net tail_id term w1 conns in
        if_cases (λ (o : Result ReelectError ℕ × Shared × net.World). Outcome s o.0 o.1)
          (ltb (length conns) quorum) _ _ (λ few. refl)
          (λ enough.
            finish_reelect-Outcome max_term term votes
              (λ vs e. vote_all-Polled net term tail_id w1 conns vs e))
