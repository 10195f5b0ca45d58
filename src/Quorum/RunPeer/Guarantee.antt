-- ===== src/Quorum/RunPeer/Guarantee.antt =====
-- What the task of `run_peer` in icegres/src/quorum/proposer.rs leaves to the other tasks of the
-- proposer.
use Prim.Native.String.{String}
use icegres.Prelude.{
  ℕ, ◌≤◌, ◌<◌, ◌≡◌, ◌≢◌, ◌⊎◌, refl, inl, inr, [], ◌∷◌, ◌++◌, true, false, arith, map, ltb, if_cases,
}
use icegres.Prelude.Results.{Result, ok, err}
use icegres.Quorum.Message.{Message}
use icegres.Quorum.Proposer.{
  Shared, Batch, batch, up_to_date, behind, next_batch, fenced, quorum, store_ack,
  recompute_commit_at,
}
use icegres.Quorum.Proposer.CommitRule.{acked, store_ack-commit}
use icegres.Quorum.Election.{Network, Reply, answered}
use icegres.Quorum.Election.Connect.{HsError, hs_fenced, hs_behind, hs_wrong_cluster, hs_transient}
use icegres.Quorum.RunPeer.{
  Phase, shaken, positioned, appended, Effect, fence, Task, KeepsPeer, set_failed, on_shaken,
  on_appended, on_batch, resume, step,
}
use icegres.Quorum.RunPeer.Peers.{
  length-set_flush, length-set_failed, other-set_flush, other-set_failed,
}

-- One step from `s` to `s'` of the task of peer `idx`.
pub record Guarantee (idx : ℕ) (s s' : Shared) : Type 0 where
  pub same_election : s'.election ≡ s.election
  pub same_log : s'.log ≡ s.log
  pub same_poison : s'.poison ≡ s.poison
  pub same_horizon : s'.horizon ≡ s.horizon
  pub commit_up : s.commit ≤ s'.commit
  pub commit_witnessed :
      (s'.commit ≡ s.commit)
      ⊎ ((s.election.term_start_lsn ≤ s'.commit)
          × (quorum ≤ acked s'.commit (map (λ p. p.flush) s'.peers)))
  pub asked :
      (s'.events ≡ s.events)
      ⊎ ((term : ℕ) × (s.election.term < term) × (s'.events ≡ s.events ++ (fenced term ∷ [])))
  pub other_peers : (j : ℕ) → j ≢ idx → KeepsPeer j s s'

module _ (idx : ℕ) (s : Shared) where
  store_ack-Guarantee : (term flush : ℕ) → Guarantee idx s (store_ack idx term flush s).1
  unfolding store_ack recompute_commit_at
  store_ack-Guarantee term flush =
      let (up, how, _) = store_ack-commit idx term flush s in
      record {
        same_election = ground arith;
        same_log = ground arith;
        same_poison = ground arith;
        same_horizon = ground arith;
        commit_up = up;
        commit_witnessed = elim how [ inl kept ↦ inl kept | inr (_, lo, q) ↦ inr (lo, q) ];
        asked = inl (ground arith);
        other_peers = λ j other.
            ground (
              arith,
              other-set_flush idx flush j s.peers other,
              length-set_flush idx flush s.peers,
            );
      }

  fail-Guarantee : Guarantee idx s (record s { peers = set_failed idx s.peers })
  fail-Guarantee = record {
    same_election = refl;
    same_log = refl;
    same_poison = refl;
    same_horizon = refl;
    commit_up = omega arith;
    commit_witnessed = inl refl;
    asked = inl refl;
    other_peers = λ j other.
        ground (arith, other-set_failed idx j s.peers other, length-set_failed idx s.peers);
  }

  same-Guarantee : Guarantee idx s s
  same-Guarantee = record {
    same_election = refl;
    same_log = refl;
    same_poison = refl;
    same_horizon = refl;
    commit_up = omega arith;
    commit_witnessed = inl refl;
    asked = inl refl;
    other_peers = λ j other. ground arith;
  }

  fence-Guarantee : (term : ℕ) (t : Task) → Guarantee idx s (fence term t s).1
  fence-Guarantee term t =
      if_cases (λ (o : Task × Shared). Guarantee idx s o.1) (ltb s.election.term term) _ _
        (λ above. record {
          same_election = refl;
          same_log = refl;
          same_poison = refl;
          same_horizon = refl;
          commit_up = omega arith;
          commit_witnessed = inl refl;
          asked = inr (term, ground arith, refl);
          other_peers = λ j other. ground arith;
        })
        (λ stale. same-Guarantee)

  module _ (net : Network) (tail_id : String) (t : Task) (w : net.World) where
    on_batch-Guarantee :
        (term : ℕ) (b : Batch) → Guarantee idx s (on_batch idx net tail_id term b t s w).2
    unfolding on_batch
    on_batch-Guarantee term up_to_date = same-Guarantee
    on_batch-Guarantee term behind = fail-Guarantee
    on_batch-Guarantee term (batch b e bytes) = same-Guarantee

    on_shaken-Guarantee :
        (term : ℕ) (r : Result HsError ℕ) → Guarantee idx s (on_shaken idx term r t s).2
    unfolding on_shaken
    on_shaken-Guarantee term (ok start) =
        if_cases (λ (o : Effect × Task × Shared). Guarantee idx s o.2)
          (store_ack idx term start s).0 _ _ (λ accepted. store_ack-Guarantee term start)
          (λ stale. store_ack-Guarantee term start)
    on_shaken-Guarantee term (err (hs_fenced other)) = fence-Guarantee other t
    on_shaken-Guarantee term (err hs_behind) = fail-Guarantee
    on_shaken-Guarantee term (err hs_wrong_cluster) = fail-Guarantee
    on_shaken-Guarantee term (err hs_transient) = same-Guarantee

    on_appended-Guarantee : (term : ℕ) (r : Reply) → Guarantee idx s (on_appended idx term r t s).2
    unfolding on_appended
    on_appended-Guarantee term (answered (Message.append_resp _ true flush _)) =
        if_cases (λ (o : Effect × Task × Shared). Guarantee idx s o.2)
          (store_ack idx term flush s).0 _ _ (λ accepted. store_ack-Guarantee term flush)
          (λ stale. store_ack-Guarantee term flush)
    on_appended-Guarantee term (answered (Message.append_resp other false _ _)) =
        fence-Guarantee other t
    on_appended-Guarantee term _ = same-Guarantee

    resume-Guarantee : (p : Phase) → Guarantee idx s (resume idx net tail_id p t s w).2
    unfolding resume
    resume-Guarantee (positioned term pos) = on_batch-Guarantee term (next_batch s.log pos)
    resume-Guarantee (shaken term r) = on_shaken-Guarantee term r
    resume-Guarantee (appended term r) = on_appended-Guarantee term r
    resume-Guarantee _ = same-Guarantee

    -- What every step leaves to the other tasks, whatever the acceptor answers: the election, the log,
    -- the poison and the horizon stay; the commit position does not go down, and where it moves a
    -- quorum has flushed up to it and it is not below the start of the term; a re-election is asked
    -- for only with a term above the proposer's; and of every other peer the step keeps what that
    -- peer's own task relies on.
    pub step-Guarantee : Guarantee idx s (step idx net tail_id t s w).2
    unfolding step
    step-Guarantee = resume-Guarantee t.phase
