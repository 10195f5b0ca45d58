-- ===== src/Quorum/Open/Handshakes.antt =====
-- The handshakes with the voters in `Quorum::open` of icegres/src/quorum/proposer.rs: what they leave of
-- the proposer, and the connections that they give.
use mathlib.Core.Path.{subst}
use icegres.Prelude.{
  ℕ, ◌≡◌, ◌⊎◌, refl, ap, ◌∙◌, inl, inr, Option, none, some, List, [], ◌∷◌, arith, length, All, ltb,
}
use icegres.Prelude.Results.{ok, ok_injective}
use icegres.Prelude.Exec.{pure, lift, ◌>>=◌, >>=-ok, >>=-cases, if-ok}
use icegres.Quorum.TermHistory.{compute_start}
use icegres.Quorum.Message.{Message}
use icegres.Quorum.Proposer.{Election, Shared, recompute_commit_at, store_ack}
use icegres.Quorum.Election.{Network, Reply, Vote, find_vote}
use icegres.Quorum.Open.{if_start, OpenVote, ballots, on_elected}
use icegres.Quorum.Open.Phases.{elect_all, elect_one, call}
use icegres.Quorum.RunPeer.{set_failed}
use icegres.Quorum.RunPeer.Peers.{length-set_flush, length-set_failed}

-- The election and the log behind the handshakes, which leave both.
pub record SameLog (s s' : Shared) : Type 0 where
  pub election : s'.election ≡ s.election
  pub log : s'.log ≡ s.log
  pub horizon : s'.horizon ≡ s.horizon
  pub poison : s'.poison ≡ s.poison
  pub long : length s'.peers ≡ length s.peers

same : (s : Shared) → SameLog s s
same s = record { election = refl; log = refl; horizon = refl; poison = refl; long = refl }

pub trans : {s t u : Shared} → SameLog s t → SameLog t u → SameLog s u
trans a b = record {
  election = b.election ∙ a.election;
  log = b.log ∙ a.log;
  horizon = b.horizon ∙ a.horizon;
  poison = b.poison ∙ a.poison;
  long = b.long ∙ a.long;
}

pub recompute-SameLog : (term_start : ℕ) (s : Shared) → SameLog s (recompute_commit_at term_start s)
unfolding recompute_commit_at
recompute-SameLog term_start s = record {
  election = refl;
  log = refl;
  horizon = refl;
  poison = refl;
  long = refl;
}

on_elected-SameLog :
    (i start : ℕ) (r : Reply) (s : Shared) {o : Option ℕ × Shared}
    → on_elected i start r s ≡ ok o
    → SameLog s o.1
unfolding on_elected store_ack recompute_commit_at
on_elected-SameLog i start r s h = record {
  election = ground arith;
  log = ground arith;
  horizon = ground arith;
  poison = ground arith;
  long = ground (arith, length-set_flush i start s.peers);
}

-- A connection of the term, if there is one.
abbrev pub IsOfTerm : ℕ → Option ℕ → Type 0
IsOfTerm term conn = (conn ≡ none) ⊎ (conn ≡ some term)

on_elected-IsOfTerm :
    (i start : ℕ) (r : Reply) (s : Shared) {o : Option ℕ × Shared}
    → on_elected i start r s ≡ ok o
    → IsOfTerm s.election.term o.0
unfolding on_elected
on_elected-IsOfTerm i start r s h = ground arith

module _ (net : Network) where
  elect_one-SameLog :
      (truncate i : ℕ) (v : Option Vote) (s : Shared) (w : net.World) {o : Option ℕ × Shared}
      → (elect_one net truncate i v s w).0 ≡ ok o
      → SameLog s o.1
  unfolding elect_one
  elect_one-SameLog truncate i none s w h =
      subst (λ (o : Option ℕ × Shared). SameLog s o.1) (ok_injective h) (same s)
  elect_one-SameLog truncate i (some v) s w h =
      let el = s.election in
      let computed = compute_start el.history v.history v.flush el.term truncate in
      let (start, h1, h2) = >>=-ok (lift (if_start computed)) _ w h in
      let failed = record s { peers = set_failed i s.peers } in
      let message = Message.elected el.term start el.history in
      elim (if-ok (ltb start truncate) (pure (none, failed))
        (call net i message >>= λ r. lift (on_elected i start r s)) w h2) [
          | inl out ↦
              subst (λ (o : Option ℕ × Shared). SameLog s o.1) (ok_injective out)
                (record {
                  election = refl;
                  log = refl;
                  horizon = refl;
                  poison = refl;
                  long = length-set_failed i s.peers;
                })
          | inr called ↦
              let (r, h3, h4) =
                >>=-ok (call net i message) (λ r. lift (on_elected i start r s)) w called in
              on_elected-SameLog i start r s h4
        ]

  elect_one-IsOfTerm :
      (truncate i : ℕ) (v : Option Vote) (s : Shared) (w : net.World) {o : Option ℕ × Shared}
      → (elect_one net truncate i v s w).0 ≡ ok o
      → IsOfTerm s.election.term o.0
  unfolding elect_one
  elect_one-IsOfTerm truncate i none s w h =
      subst (λ (o : Option ℕ × Shared). IsOfTerm s.election.term o.0) (ok_injective h) (inl refl)
  elect_one-IsOfTerm truncate i (some v) s w h =
      let el = s.election in
      let computed = compute_start el.history v.history v.flush el.term truncate in
      >>=-cases (lift (if_start computed)) _ w h λ start w1 h1 r1.
        let failed = record s { peers = set_failed i s.peers } in
        let message = Message.elected el.term start el.history in
        elim (if-ok (ltb start truncate) (pure (none, failed))
          (call net i message >>= λ r. lift (on_elected i start r s)) w1 r1) [
            | inl out ↦
                subst (λ (o : Option ℕ × Shared). IsOfTerm s.election.term o.0) (ok_injective out)
                  (inl refl)
            | inr called ↦
                >>=-cases (call net i message) (λ r. lift (on_elected i start r s)) w1 called
                  λ r w2 h2 r2. on_elected-IsOfTerm i start r s r2
          ]

  pub elect_all-IsOfTerm :
      (truncate : ℕ) (votes : List OpenVote) (is : List ℕ) (s : Shared) (w : net.World)
      → {o : List (Option ℕ) × Shared} → (elect_all net truncate votes is s w).0 ≡ ok o
      → All (IsOfTerm s.election.term) o.0
  unfolding elect_all
  elect_all-IsOfTerm truncate votes [] s w h =
      subst (λ (o : List (Option ℕ) × Shared). All (IsOfTerm s.election.term) o.0) (ok_injective h)
        tt
  elect_all-IsOfTerm truncate votes (i ∷ is) s w h =
      >>=-cases (elect_one net truncate i (find_vote i (ballots votes)) s) _ w h
        λ (conn, s') w1 h1 r1.
          >>=-cases (elect_all net truncate votes is s') _ w1 r1 λ rest w2 h2 r2.
            let same = elect_one-SameLog truncate i (find_vote i (ballots votes)) s w h1 in
            subst (λ (o : List (Option ℕ) × Shared). All (IsOfTerm s.election.term) o.0)
              (ok_injective r2)
              (
                elect_one-IsOfTerm truncate i (find_vote i (ballots votes)) s w h1,
                subst (λ n. All (IsOfTerm n) rest.0) (ap (λ (e : Election). e.term) same.election)
                    (elect_all-IsOfTerm truncate votes is s' w1 h2),
              )

  pub elect_all-SameLog :
      (truncate : ℕ) (votes : List OpenVote) (is : List ℕ) (s : Shared) (w : net.World)
      → {o : List (Option ℕ) × Shared} → (elect_all net truncate votes is s w).0 ≡ ok o
      → SameLog s o.1
  unfolding elect_all
  elect_all-SameLog truncate votes [] s w h =
      subst (λ (o : List (Option ℕ) × Shared). SameLog s o.1) (ok_injective h) (same s)
  elect_all-SameLog truncate votes (i ∷ is) s w h =
      let (one, h1, h2) = >>=-ok (elect_one net truncate i (find_vote i (ballots votes)) s) _ w h in
      let (conn, s') = one in
      let (rest, h3, h4) = >>=-ok (elect_all net truncate votes is s') _ _ h2 in
      subst (λ (o : List (Option ℕ) × Shared). SameLog s o.1) (ok_injective h4)
        (trans (elect_one-SameLog truncate i (find_vote i (ballots votes)) s w h1)
          (elect_all-SameLog truncate votes is s' _ h3))
