-- ===== src/Quorum/Open/Ballots.antt =====
-- The votes that `Quorum::open` of icegres/src/quorum/proposer.rs counts are grants of the acceptors.
use Prim.Native.String.{String}
use mathlib.Core.Path.{subst}
use icegres.Prelude.{
  suc, ◌≤◌, none, some, map, if◌then◌else◌, if_cases, ℕ, ◌≡◌, refl, sym, inl, inr, List, [], ◌∷◌,
  true, false, arith, ltb, Bool-cases,
}
use icegres.Prelude.Results.{ok, err-ne-ok, ok_injective}
use icegres.Prelude.Exec.{Exec, pure, >>=-ok, >>=-cases}
use icegres.Quorum.Message.{Message}
use icegres.Quorum.Election.{Network, Reply, answered, call_timed_out, reply, Vote}
use icegres.Quorum.Election.Polled.{Ascends, Ascends-le, Polled}
use icegres.Quorum.Open.{Greet, OpenError, OpenVote}
use icegres.Quorum.Open.Phases.{
  call, greet_of, query_all, on_adopted, adopt_all, on_ballot, campaign,
}

abbrev pub vote_of : OpenVote → Vote
vote_of v = v.vote

abbrev pub HasHorizon : OpenVote → ℕ → Type 0
HasHorizon v h = h ≡ v.horizon

module _ (net : Network) (term : ℕ) where
  abbrev Ballots : net.World → List ℕ → List OpenVote → Type 0
  Ballots = Polled net term vote_of HasHorizon

  on_ballot-Polled :
      (w : net.World) (i : ℕ) (is : List ℕ) (votes : List OpenVote) (r : Reply)
      (rest : Exec OpenError net.World (List OpenVote))
      → let w1 = (net.exchange w i (Message.vote_request term)).1 in
        reply (net.exchange w i (Message.vote_request term)).0 ≡ r
        → (on_ballot net term i r rest w1).0 ≡ ok votes
        → ((vs : List OpenVote) → (rest w1).0 ≡ ok vs → Ballots w1 is vs)
        → Ballots w (i ∷ is) votes
  on_ballot-Polled w i is votes (answered (Message.vote_response t true flush llt history hz cm))
        rest at h polled =
      elim (Bool-cases (ltb term t)) [
        | inl above ↦ absurd (err-ne-ok (rw above at h))
        | inr low ↦
            let w1 = (net.exchange w i (Message.vote_request term)).1 in
            let v : OpenVote = record {
              vote = record { index = i; flush = flush; last_log_term = llt; history = history };
              horizon = hz;
            } in
            let (vs, ends, same) = >>=-ok rest (λ votes. pure (v ∷ votes)) w1 (rw low at h) in
            inr (
              v,
              vs,
              sym (ok_injective same),
              (
                hz,
                refl,
                record {
                  own_index = refl;
                  resp_term = t;
                  commit = cm;
                  answer = at;
                  not_above = ground arith;
                },
              ),
              polled vs ends,
            )
      ]
  on_ballot-Polled w i is votes (answered (Message.vote_response t false flush llt history hz cm))
        rest at h polled =
      absurd (ground arith)
  on_ballot-Polled w i is votes (answered _) rest at h polled = absurd (err-ne-ok h)
  on_ballot-Polled w i is votes _ rest at h polled = inl (polled votes h)

  pub campaign-Polled :
      (w : net.World) (is : List ℕ) (votes : List OpenVote)
      → (campaign net term is w).0 ≡ ok votes
      → Ballots w is votes
  unfolding campaign
  campaign-Polled w [] [] h = tt
  campaign-Polled w [] (v ∷ votes) h = absurd (ground arith)
  campaign-Polled w (i ∷ is) votes h =
      let (r, at, out) =
        >>=-ok (call net i (Message.vote_request term))
          (λ r. on_ballot net term i r (campaign net term is)) w h in
      on_ballot-Polled w i is votes r (campaign net term is) (ok_injective at) out
        (λ vs e. campaign-Polled (net.exchange w i (Message.vote_request term)).1 is vs e)

abbrev pub indexes : List Greet → List ℕ
indexes greets = map (λ g. g.index) greets

module _ (net : Network) where
  pub query_all-Ascends :
      (w : net.World) (lo : ℕ) (is : List ℕ)
      → Ascends lo is
      → Ascends lo (indexes (query_all net is w).0)
  unfolding query_all
  query_all-Ascends w lo [] h = tt
  query_all-Ascends w lo (i ∷ is) (le, h) =
      let (up, w1) = net.connect w i in
      let (answer, w2) = net.exchange w1 i (Message.greeting none) in
      let w3 = if up then w2 else w1 in
      let rest = query_all-Ascends w3 (suc i) is h in
      if_cases (λ gs. Ascends lo (indexes gs)) up _ _
        (λ _. on_greeting i lo (reply answer) (query_all net is w3).0 le rest)
        (λ _. Ascends-le lo (suc i) _ (omega arith) rest)
    where
      on_greeting :
          (i lo : ℕ) (r : Reply) (greets : List Greet)
          → lo ≤ i
          → Ascends (suc i) (indexes greets)
          → Ascends lo (indexes (greet_of net i r greets))
      on_greeting i lo (answered (Message.greeting_resp id t _)) greets le h = (le, h)
      on_greeting i lo _ greets le h = Ascends-le lo (suc i) (indexes greets) (omega arith) h

  on_adopted-Ascends :
      (lo i : ℕ) (r : Reply) (rest : Exec OpenError net.World (List ℕ)) (w : net.World)
      (live : List ℕ)
      → lo ≤ i
      → (on_adopted net i r rest w).0 ≡ ok live
      → ((l : List ℕ) → (rest w).0 ≡ ok l → Ascends (suc i) l)
      → Ascends lo live
  on_adopted-Ascends lo i (answered (Message.greeting_resp _ _ _)) rest w live le h k =
      let (l, ends, same) = >>=-ok rest (λ l. pure (i ∷ l)) w h in
      subst (Ascends lo) (ok_injective same) (le, k l ends)
  on_adopted-Ascends lo i call_timed_out rest w live le h k =
      Ascends-le lo (suc i) live (omega arith) (k live h)
  on_adopted-Ascends lo i _ rest w live le h k = absurd (err-ne-ok h)

  pub adopt_all-Ascends :
      (id : String) (w : net.World) (lo : ℕ) (greets : List Greet) (live : List ℕ)
      → Ascends lo (indexes greets)
      → (adopt_all net id greets w).0 ≡ ok live
      → Ascends lo live
  unfolding adopt_all
  adopt_all-Ascends id w lo [] live h e = subst (Ascends lo) (ok_injective e) tt
  adopt_all-Ascends id w lo (g ∷ greets) live (le, h) e =
      >>=-cases (call net g.index (Message.greeting (some id)))
        (λ r. on_adopted net g.index r (adopt_all net id greets)) w e
        λ r w1 at out.
          on_adopted-Ascends lo g.index r (adopt_all net id greets) w1 live le out
            (λ l ends. adopt_all-Ascends id w1 (suc g.index) greets l h ends)
