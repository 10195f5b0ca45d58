-- ===== src/Quorum/Election/Supervisor.antt =====
-- `run_supervisor` and `wait_commit` of icegres/src/quorum/proposer.rs: how the tail re-elects
-- itself and how it poisons itself.
use Prim.Native.String.{String}
use icegres.Prelude.{
  ℕ, suc, ◌≤◌, ◌<◌, ◌≡◌, ◌≢◌, refl, inl, inr, Option, none, some, List, [], ◌∷◌, ◌++◌, Bool, true,
  arith, leb, if◌then◌else◌, Option-cases, if_cases, false,
}
use icegres.Prelude.Results.{ok, err}
use icegres.Quorum.Proposer.{
  Poison, ReelectReason, Shared, superseded, reelections_failed, timed_out, fenced, stalled,
}
use icegres.Quorum.Election.{Network, superseded_by, failed, reelect}

abbrev max_reelection_failures : ℕ
max_reelection_failures = 2

-- The first reason is kept.
abbrev pub poison_with : Poison → Shared → Shared
poison_with why s = record s { poison = elim s.poison [ none ↦ some why | some old ↦ some old ] }

poison_with-poisoned : (why : Poison) (s : Shared) → (poison_with why s).poison ≢ none
poison_with-poisoned why s h = elim (Option-cases s.poison) [
  | inl clean ↦ ground (arith, clean)
  | inr (old, dirty) ↦ ground (arith, dirty)
]

-- `if let Some(why) = shared.poisoned()`.
abbrev pub if_poisoned : {A : Type 0} → Option Poison → (Poison → A) → A → A
if_poisoned none x y = y
if_poisoned (some why) x y = x why

if_poisoned-cases :
    {A : Type 0} (P : A → Type 0) (o : Option Poison) (x : Poison → A) (y : A)
    → ((why : Poison) → o ≡ some why → P (x why))
    → (o ≡ none → P y)
    → P (if_poisoned o x y)
if_poisoned-cases P none x y h k = k refl
if_poisoned-cases P (some why) x y h k = h why refl

-- An event that an earlier re-election, or the catch-up, has resolved.
abbrev pub is_resolved : ReelectReason → Shared → Bool
is_resolved (fenced t) s = leb t s.election.term
is_resolved (stalled pos) s = leb pos s.commit

module _ (net : Network) (tail_id : String) where
  -- One event: the consecutive failures, the state and the network after it.
  unfoldable pub on_event : ReelectReason → ℕ → Shared → net.World → ℕ × Shared × net.World
  unfolding reelect
  on_event reason failures s w =
      let (r, s', w') = reelect net tail_id s w in
      if is_resolved reason s then (failures, s, w) else elim r [
        | ok term ↦ (0, s', w')
        | err (superseded_by t) ↦ (failures, poison_with (superseded t) s', w')
        | err failed ↦
            if leb max_reelection_failures (suc failures)
            then (suc failures, poison_with reelections_failed s', w')
            else (suc failures, s', w')
      ]

  -- `while let Some(reason) = rx.recv().await`, on the events that come.
  unfoldable pub run_supervisor :
      List ReelectReason → ℕ → Shared → net.World → ℕ × Shared × net.World
  unfolding on_event
  run_supervisor [] failures s w = (failures, s, w)
  run_supervisor (reason ∷ events) failures s w =
      let (f, s', w') = on_event reason failures s w in
      let rest = run_supervisor events f s' w' in
      if_poisoned s.poison (λ why. (failures, s, w)) rest

  -- While the tail is not poisoned, the limit has not been reached.
  abbrev pub WithinLimit : ℕ × Shared × net.World → Type 0
  WithinLimit o = o.1.poison ≡ none → o.0 < max_reelection_failures

  -- The event is not resolved yet, and the re-election for it fails without being superseded.
  pub record IsFailure (reason : ReelectReason) (s : Shared) (w : net.World) : Type 0 where
    pub unresolved : is_resolved reason s ≡ false
    pub fails : (reelect net tail_id s w).0 ≡ err failed

-- What `wait_commit` waits for, with the state that it then finds.
pub data Wake : Type 0 where
  changed : Shared → Wake
  closed : Shared → Wake
  expired : Shared → Wake

pub data Waited : Type 0 where
  committed : Waited
  refused : Poison → Waited
  channel_closed : Waited
  gave_up : Waited
  waiting : Waited

-- One round: the checks at the top of the loop, then the wake-up. `waiting` is a wait whose wake-ups
-- so far have not ended it.
unfoldable pub wait_commit : ℕ → Bool → Shared → List Wake → Waited × Shared
wait_commit position stalled_once s [] =
    if_poisoned s.poison (λ why. (refused why, s))
      (if leb position s.commit then (committed, s) else (waiting, s))
wait_commit position stalled_once s (changed s' ∷ wakes) =
    let rest = wait_commit position stalled_once s' wakes in
    if_poisoned s.poison (λ why. (refused why, s))
      (if leb position s.commit then (committed, s) else rest)
wait_commit position stalled_once s (closed s' ∷ wakes) =
    if_poisoned s.poison (λ why. (refused why, s))
      (if leb position s.commit then (committed, s) else (channel_closed, s'))
wait_commit position stalled_once s (expired s' ∷ wakes) =
    let asked = record s' { events = s'.events ++ (stalled position ∷ []) } in
    let rest = wait_commit position true asked wakes in
    if_poisoned s.poison (λ why. (refused why, s))
      (if leb position s.commit
        then (committed, s)
        else if stalled_once
        then (gave_up, poison_with timed_out s')
        else rest)

-- What the end of a wait says of the state.
abbrev pub Justified : ℕ → Waited × Shared → Type 0
Justified position (committed, s) = (position ≤ s.commit) × (s.poison ≡ none)
Justified position (refused why, s) = s.poison ≡ some why
Justified position (channel_closed, s) = Unit {0}
Justified position (gave_up, s) = s.poison ≢ none
Justified position (waiting, s) = (s.commit < position) × (s.poison ≡ none)

round :
    (position : ℕ) (s : Shared) (next : Waited × Shared)
    → (s.commit < position → s.poison ≡ none → Justified position next)
    → Justified position (
        if_poisoned s.poison
          (λ why. (refused why, s))
          (if leb position s.commit then (committed, s) else next))
round position s next h =
    if_poisoned-cases (Justified position) s.poison _ _ (λ why dirty. dirty)
      (λ clean.
        if_cases (Justified position) (leb position s.commit) _ _ (λ reached. (ground arith, clean))
          (λ short. h (ground arith) clean))

-- An append is reported as durable only where the commit position covers it and the tail is not
-- poisoned, and it is given up only with the tail poisoned behind it; a wait goes on only while
-- neither holds.
pub wait_commit-Justified :
    (position : ℕ) (stalled_once : Bool) (s : Shared) (wakes : List Wake)
    → Justified position (wait_commit position stalled_once s wakes)
unfolding wait_commit
wait_commit-Justified position stalled_once s [] = round position s _ (λ late clean. (late, clean))
wait_commit-Justified position stalled_once s (changed s' ∷ wakes) =
    round position s _ (λ late clean. wait_commit-Justified position stalled_once s' wakes)
wait_commit-Justified position stalled_once s (closed s' ∷ wakes) =
    round position s _ (λ late clean. tt)
wait_commit-Justified position stalled_once s (expired s' ∷ wakes) =
    round position s _ (λ late clean.
      if_cases (Justified position) stalled_once _ _ (λ again. poison_with-poisoned timed_out s')
        (λ first.
          wait_commit-Justified position true
            (record s' { events = s'.events ++ (stalled position ∷ []) }) wakes))
