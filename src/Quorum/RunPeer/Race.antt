-- ===== src/Quorum/RunPeer/Race.antt =====
-- A re-election between two reads of `run_peer` in icegres/src/quorum/proposer.rs: the comparison of
-- the terms and the load of the flush position.
use Prim.Native.String.{String}
use mathlib.Core.Path.{subst}
use icegres.Prelude.{
  ℕ, zero, suc, ◌≤◌, ◌<◌, ◌≡◌, refl, sym, ap, ◌∙◌, none, List, [], ◌∷◌, true, false, arith, length,
  map,
}
use icegres.Prelude.Results.{ok}
use icegres.Quorum.Proposer.{Peer, Shared, next_batch}
use icegres.Quorum.Election.{Network, clear_peer, reelect}
use icegres.Quorum.Election.Reelect.{Won, Outcome, reelect-Outcome}
use icegres.Quorum.RunPeer.{
  inner, Task, own, others, nth_flush, nth_failed, set_failed, on_batch, resume, step, run_peer,
}
use icegres.Quorum.RunPeer.Peers.{nth_failed-set_failed}

nth-map-clear_peer :
    (idx : ℕ) (ps : List Peer)
    → (nth_flush idx (map clear_peer ps) ≡ 0) × (nth_failed idx (map clear_peer ps) ≡ false)
nth-map-clear_peer idx [] = (refl, refl)
nth-map-clear_peer zero (p ∷ ps) = (refl, refl)
nth-map-clear_peer (suc idx) (p ∷ ps) = nth-map-clear_peer idx ps

length-map {ℓ κ} :
    {A : Type ℓ} {B : Type κ} (f : A → B) (xs : List A) → length (map f xs) ≡ length xs
length-map f [] = refl
length-map f (x ∷ xs) = ap suc (length-map f xs)

module _ (idx : ℕ) (net : Network) (tail_id : String) where
  run_peer-expelled :
      (t : Task) (s s' : Shared) (w : net.World)
      → t.phase ≡ inner s.election.term
      → s.poison ≡ none
      → nth_flush idx s'.peers ≡ 0
      → 0 < s'.log.base
      → s'.log.base ≤ s'.log.head
      → (run_peer idx net tail_id (own ∷ others s' ∷ own ∷ own ∷ []) t s w).2
        ≡ record s' { peers = set_failed idx s'.peers }
  unfolding run_peer step resume on_batch next_batch
  run_peer-expelled t s s' w at clean zeroed cut whole = ground arith

  -- A re-election clears the flag of every peer. But where it lands after a task that streams has
  -- compared the terms and before it loads its flush position, which is then zero, and the log no
  -- longer begins at zero, the task takes the peer for one that lags below the retained base and sets
  -- the flag again, in the new term, whatever the acceptor holds.
  pub reelect-expels :
      (t : Task) (s : Shared) (w v : net.World) (conn_term term : ℕ)
      → t.phase ≡ inner conn_term
      → s.poison ≡ none
      → s.election.term ≡ conn_term
      → idx < length s.peers
      → 0 < s.log.base
      → s.log.base ≤ s.log.head
      → (reelect net tail_id s v).0 ≡ ok term
      → let s' = (reelect net tail_id s v).1 in
        let end = (run_peer idx net tail_id (own ∷ others s' ∷ own ∷ own ∷ []) t s w).2 in
        (nth_failed idx s'.peers ≡ false)
        × (end.election.term ≡ term)
        × (nth_failed idx end.peers ≡ true)
  reelect-expels t s w v conn_term term at clean same within cut whole won =
      let s' = (reelect net tail_id s v).1 in
      let outcome : Won net tail_id v s s' term =
        subst (λ r. Outcome net tail_id v s r s') won (reelect-Outcome net tail_id v s) in
      let (zeroed, cleared) = nth-map-clear_peer idx s.peers in
      let peers : s'.peers ≡ map clear_peer s.peers = outcome.adopted.peers_cleared in
      let log : s'.log ≡ s.log = outcome.adopted.same_log in
      let end =
        run_peer-expelled t s s' w (at ∙ ap inner (sym same)) clean
          (ap (nth_flush idx) peers ∙ zeroed) (rw log cut) (rw log whole) in
      (
        ap (nth_failed idx) peers ∙ cleared,
        ap (λ (o : Shared). o.election.term) end ∙ outcome.adopted.new_term,
        ap (λ (o : Shared). nth_failed idx o.peers) end
            ∙ nth_failed-set_failed idx s'.peers
                (rw peers (omega (arith, length-map clear_peer s.peers))),
      )
