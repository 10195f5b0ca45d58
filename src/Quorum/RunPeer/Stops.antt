-- ===== src/Quorum/RunPeer/Stops.antt =====
-- How the task of `run_peer` in icegres/src/quorum/proposer.rs ends: on a poisoned tail, and only
-- there.
use Prim.Native.String.{String}
use icegres.Prelude.{ℕ, suc, ◌-◌, ◌≤◌, ◌≡◌, ◌≢◌, none, some, List, [], ◌∷◌, arith}
use icegres.Quorum.Proposer.{Poison, Shared, store_ack, recompute_commit_at}
use icegres.Quorum.Election.{Network}
use icegres.Quorum.RunPeer.{
  Phase, outer, seen_term, parked_failed, parked_fenced, sleeping, shaken, inner, checked,
  positioned, waiting, appended, returned, Task, Turn, own, others, KeepsPeer, on_shaken,
  on_appended, on_sleeping, on_batch, resume, step, run_peer,
}

-- How many turns of its own the task has left on a poisoned tail.
abbrev turns_left : Phase → ℕ
turns_left outer = 1
turns_left (seen_term _) = 3
turns_left (parked_failed _) = 2
turns_left (parked_fenced _) = 2
turns_left (sleeping _) = 1
turns_left (shaken _ _) = 3
turns_left (inner _) = 1
turns_left (checked _) = 5
turns_left (positioned _ _) = 4
turns_left (waiting _) = 2
turns_left (appended _ _) = 3
turns_left returned = 0

turns_left-le : (p : Phase) → turns_left p ≤ 5
turns_left-le p = ground arith

turns_left-zero : (p : Phase) → turns_left p ≡ 0 → p ≡ returned
turns_left-zero p h = ground arith

abbrev pub own_turns : List Turn → ℕ
own_turns [] = 0
own_turns (own ∷ turns) = suc (own_turns turns)
own_turns (others _ ∷ turns) = own_turns turns

module _ (idx : ℕ) (net : Network) (tail_id : String) where
  -- Each state that other tasks leave keeps what the peer relies on.
  unfoldable pub AllKeep : List Turn → Task → Shared → net.World → Type 0
  unfolding step
  AllKeep [] t s w = Unit {0}
  AllKeep (others s' ∷ turns) t s w = KeepsPeer idx s s' × AllKeep turns t s' w
  AllKeep (own ∷ turns) t s w =
      let (e, t', s', w') = step idx net tail_id t s w in AllKeep turns t' s' w'

  step-turns_left :
      (t : Task) (s : Shared) (w : net.World) (why : Poison)
      → s.poison ≡ some why
      → (turns_left (step idx net tail_id t s w).1.phase ≤ turns_left t.phase - 1)
        × ((step idx net tail_id t s w).2.poison ≡ some why)
  unfolding step resume on_shaken on_appended on_sleeping on_batch store_ack recompute_commit_at
  step-turns_left t s w why h = ground arith

  run_peer-turns_left :
      (turns : List Turn) (t : Task) (s : Shared) (w : net.World) (why : Poison)
      → s.poison ≡ some why
      → AllKeep turns t s w
      → turns_left (run_peer idx net tail_id turns t s w).1.phase
        ≤ turns_left t.phase - own_turns turns
  unfolding run_peer AllKeep
  run_peer-turns_left [] t s w why h keep = omega arith
  run_peer-turns_left (others s' ∷ turns) t s w why h (keep, rest) =
      run_peer-turns_left turns t s' w why (ground (arith, keep)) rest
  run_peer-turns_left (own ∷ turns) t s w why h keep =
      let (e, t', s', w') = step idx net tail_id t s w in
      let (fewer, still) = step-turns_left t s w why h in
      omega (arith, fewer, run_peer-turns_left turns t' s' w' why still keep)

  -- Once the tail is poisoned the task ends: whatever its phase, whatever the acceptor answers and
  -- whatever other tasks do in between, as long as they leave the poison, five turns of its own are
  -- enough.
  pub run_peer-returned :
      (turns : List Turn) (t : Task) (s : Shared) (w : net.World) (why : Poison)
      → s.poison ≡ some why
      → AllKeep turns t s w
      → 5 ≤ own_turns turns
      → (run_peer idx net tail_id turns t s w).1.phase ≡ returned
  run_peer-returned turns t s w why h keep enough =
      turns_left-zero (run_peer idx net tail_id turns t s w).1.phase
        (omega (arith, run_peer-turns_left turns t s w why h keep, turns_left-le t.phase))

  -- The task returns only on a poisoned tail.
  pub step-returned :
      (t : Task) (s : Shared) (w : net.World)
      → (step idx net tail_id t s w).1.phase ≡ returned
      → t.phase ≢ returned
      → s.poison ≢ none
  unfolding step resume on_shaken on_appended on_sleeping on_batch store_ack recompute_commit_at
  step-returned t s w h k clean = ground arith
