-- ===== src/Quorum/Election/Polled.antt =====
-- The votes that `reelect` and `Quorum::open` of icegres/src/quorum/proposer.rs count, against the
-- answers of the acceptors that they ask one after the other.
use Prim.Native.String.{String}
use icegres.Prelude.{
  ℕ, suc, ◌≤◌, ◌≡◌, ◌⊎◌, refl, sym, inl, inr, none, some, List, [], ◌∷◌, true, false, arith, ltb,
  max, Bool-cases,
}
use icegres.Prelude.Results.{Result, ok, err, err-ne-ok, ok_injective}
use icegres.Quorum.Message.{Message}
use icegres.Quorum.Election.{
  Network, Reply, answered, reply, Vote, greet, greet_all, vote_all, on_vote, push_vote,
}

-- The indexes ascend from `lo` on, so no acceptor is among them twice.
abbrev pub Ascends : ℕ → List ℕ → Type 0
Ascends lo [] = Unit {0}
Ascends lo (i ∷ is) = (lo ≤ i) × Ascends (suc i) is

pub Ascends-le : (lo hi : ℕ) (is : List ℕ) → lo ≤ hi → Ascends hi is → Ascends lo is
Ascends-le lo hi [] h k = tt
Ascends-le lo hi (i ∷ is) h (le, k) = (omega arith, k)

module _ (net : Network) (term : ℕ) where
  -- The acceptor's answer to the request for a vote grants it, in no higher term, with the positions
  -- and the horizon of the vote.
  pub record IsGrant (i : ℕ) (w : net.World) (v : Vote) (horizon : ℕ) : Type 0 where
    pub own_index : v.index ≡ i
    pub resp_term : ℕ
    pub commit : ℕ
    pub answer :
        reply (net.exchange w i (Message.vote_request term)).0
        ≡ answered
            (Message.vote_response resp_term true v.flush v.last_log_term v.history horizon commit)
    pub not_above : resp_term ≤ term

  -- The acceptors are asked in turn, each behind the answer of the one before it; each vote of the list
  -- is the grant of one of them, and no grant makes two votes.
  module _ {A : Type 0} (vote : A → Vote) (horizon : A → ℕ → Type 0) where
    abbrev pub Polled : net.World → List ℕ → List A → Type 0
    Polled w [] [] = Unit {0}
    Polled w [] (v ∷ votes) = ⊥
    Polled w (i ∷ is) votes =
        let w1 = (net.exchange w i (Message.vote_request term)).1 in
        Polled w1 is votes
        ⊎ ((v : A) × (rest : List A) × (votes ≡ v ∷ rest)
            × ((h : ℕ) × horizon v h × IsGrant i w (vote v) h)
            × Polled w1 is rest)

  abbrev pub AnyHorizon : Vote → ℕ → Type 0
  AnyHorizon v h = Unit {0}

  abbrev pub own_vote : Vote → Vote
  own_vote v = v

  module _ (tail_id : String) where
    push_vote-ok :
        (v : Vote) (r : Result ℕ (List Vote)) (votes : List Vote)
        → push_vote net tail_id v r ≡ ok votes
        → (rest : List Vote) × (r ≡ ok rest) × (votes ≡ v ∷ rest)
    push_vote-ok v (ok rest) votes h = (rest, refl, sym (ok_injective h))
    push_vote-ok v (err t) votes h = absurd (err-ne-ok h)

    on_vote-Polled :
        (w : net.World) (i : ℕ) (is : List ℕ) (votes : List Vote) (r : Reply)
        (rest : Result ℕ (List Vote) × net.World)
        → let w1 = (net.exchange w i (Message.vote_request term)).1 in
          reply (net.exchange w i (Message.vote_request term)).0 ≡ r
          → (on_vote net tail_id term i r w1 rest).0 ≡ ok votes
          → ((vs : List Vote) → rest.0 ≡ ok vs → Polled own_vote AnyHorizon w1 is vs)
          → Polled own_vote AnyHorizon w (i ∷ is) votes
    on_vote-Polled w i is votes (answered (Message.vote_response t true flush llt history hz cm))
          rest at h polled =
        elim (Bool-cases (ltb term t)) [
          | inl above ↦ absurd (ground (arith, above))
          | inr low ↦
              let v : Vote = record {
                index = i;
                flush = flush;
                last_log_term = llt;
                history = history;
              } in
              let (vs, ends, same) = push_vote-ok v rest.0 votes (ground (arith, low)) in
              inr (
                v,
                vs,
                same,
                (
                  hz,
                  tt,
                  record {
                    own_index = refl;
                    resp_term = t;
                    commit = cm;
                    answer = at;
                    not_above = ground arith;
                  },
                ),
                polled vs ends,
              )
        ]
    on_vote-Polled w i is votes (answered (Message.vote_response t false flush llt history hz cm))
          rest at h polled =
        absurd (ground arith)
    on_vote-Polled w i is votes _ rest at h polled = inl (polled votes (ground arith))

    pub vote_all-Polled :
        (w : net.World) (is : List ℕ) (votes : List Vote)
        → (vote_all net tail_id term w is).0 ≡ ok votes
        → Polled own_vote AnyHorizon w is votes
    unfolding vote_all
    vote_all-Polled w [] [] h = tt
    vote_all-Polled w [] (v ∷ votes) h = absurd (ground arith)
    vote_all-Polled w (i ∷ is) votes h =
        let w1 = (net.exchange w i (Message.vote_request term)).1 in
        on_vote-Polled w i is votes _ (vote_all net tail_id term w1 is) refl h
          (λ vs e. vote_all-Polled w1 is vs e)

module _ (net : Network) (tail_id : String) where
  pub greet_all-Ascends :
      (w : net.World) (top lo : ℕ) (is : List ℕ)
      → Ascends lo is
      → Ascends lo (greet_all net tail_id w top is).0
  unfolding greet_all
  greet_all-Ascends w top lo [] h = tt
  greet_all-Ascends w top lo (i ∷ is) (le, h) =
      let Goal : List ℕ × ℕ × net.World → Type 0 = λ o. Ascends lo o.0 in
      let (seen, w1) = greet net tail_id w i in
      elim seen
        as (λ o. Goal (elim o [
          | none ↦ greet_all net tail_id w1 top is
          | some term ↦
              let (conns, t, w2) = greet_all net tail_id w1 (max top term) is in (i ∷ conns, t, w2)
        ])) [
          | none ↦ Ascends-le lo (suc i) _ (omega arith) (greet_all-Ascends w1 top (suc i) is h)
          | some term ↦ (le, greet_all-Ascends w1 (max top term) (suc i) is h)
        ]
