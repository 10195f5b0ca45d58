-- ===== src/Quorum/Acceptor/Votes.antt =====
-- One vote for a term, over any sequence of requests, failed writes and restarts.
use mathlib.Core.Path.{sym, subst}
use icegres.Prelude.{
  ℕ, ◌≤◌, ◌<◌, ◌≡◌, refl, ap, ◌∙◌, Option, none, some, List, [], ◌∷◌, Bool, arith, Bool-cases, inl,
  inr,
}
use icegres.Prelude.Bytes.{Bytes}
use icegres.Segment.{Crc}
use icegres.Quorum.Message.{Message}
use icegres.Quorum.Stores.{ControlStore, ControlLaws, WalStore}
use icegres.Quorum.Acceptor.{Node, handle_vote, handle, process, response, new}
use icegres.Quorum.Acceptor.Process.{process-live, process-wedged}
use icegres.Quorum.Acceptor.Terms.{vote_of}
use icegres.Quorum.Acceptor.Durable.{IsDurable, durable_term, process-Durably}

module _ (c : Crc) (is_utf8 : Bytes → Bool) (cs : ControlStore) (cl : ControlLaws cs)
    (ws : WalStore) where
  -- Either a request arrives, or the process stops and starts again: `open_dir` loads the control
  -- file, and the scan of the log finds some `wal`.
  pub data Event : Type 0 where
    request : Message → Event
    restart : ws.Wal → Event

  -- The responses that leave the acceptor.
  unfoldable pub run : List Event → Node c is_utf8 cs ws → List Message
  run [] a = []
  run (request m ∷ es) a = let (r, a') = process c is_utf8 cs ws m a in r ∷ run es a'
  run (restart wal ∷ es) a = run es (new c is_utf8 cs ws (cl.durable a.ctrl) a.ctrl wal)

abbrev pub add_vote : Option ℕ → List ℕ → List ℕ
add_vote none ts = ts
add_vote (some t) ts = t ∷ ts

-- The terms of the votes granted among some responses.
unfoldable pub votes : List Message → List ℕ
votes [] = []
votes (m ∷ ms) = add_vote (vote_of m) (votes ms)

-- Every term is above `lo` and above the one before it.
abbrev pub IsAscending : ℕ → List ℕ → Type 0
IsAscending lo [] = Unit {0}
IsAscending lo (t ∷ ts) = (lo < t) × IsAscending t ts

IsAscending-le : (lo hi : ℕ) (ts : List ℕ) → lo ≤ hi → IsAscending hi ts → IsAscending lo ts
IsAscending-le lo hi [] h k = tt
IsAscending-le lo hi (t ∷ ts) h (k, r) = (omega arith, r)

IsAscending-add_vote :
    (o : Option ℕ) (lo hi : ℕ) (ts : List ℕ)
    → lo ≤ hi
    → ((t : ℕ) → o ≡ some t → (lo < t) × (t ≡ hi))
    → IsAscending hi ts
    → IsAscending lo (add_vote o ts)
IsAscending-add_vote none lo hi ts h grants r = IsAscending-le lo hi ts h r
IsAscending-add_vote (some t) lo hi ts h grants r =
    let (above, same) = grants t refl in (above, subst (λ x. IsAscending x ts) (sym same) r)

module _ (c : Crc) (is_utf8 : Bytes → Bool) (cs : ControlStore) (cl : ControlLaws cs)
    (ws : WalStore) where
  module _ (a : Node c is_utf8 cs ws) (t : ℕ) where
    vote_grants :
        (u : ℕ)
        → vote_of (response c is_utf8 cs ws (handle_vote c is_utf8 cs ws u a).0) ≡ some t
        → (a.state.term < t)
          × (t ≡ (handle_vote c is_utf8 cs ws u a).1.state.term)
          × ((handle_vote c is_utf8 cs ws u a).1.wedged ≡ a.wedged)
    unfolding handle_vote
    vote_grants u h = (ground arith, ground arith, ground arith)

    others_grant_nothing :
        (m : Message)
        → ((u : ℕ) → ¬ (m ≡ Message.vote_request u))
        → ¬ (vote_of (response c is_utf8 cs ws (handle c is_utf8 cs ws m a).0) ≡ some t)
    unfolding handle
    others_grant_nothing (Message.vote_request u) no_vote h = no_vote u refl
    others_grant_nothing (Message.greeting id) no_vote h = ground arith
    others_grant_nothing (Message.elected u start hist) no_vote h = ground arith
    others_grant_nothing (Message.append u b e co ho r) no_vote h = ground arith
    others_grant_nothing (Message.read from to) no_vote h = ground arith
    others_grant_nothing _ no_vote h = ground arith

  handle_grants :
      (m : Message) (a : Node c is_utf8 cs ws) (t : ℕ)
      → vote_of (response c is_utf8 cs ws (handle c is_utf8 cs ws m a).0) ≡ some t
      → (a.state.term < t)
        × (t ≡ (handle c is_utf8 cs ws m a).1.state.term)
        × ((handle c is_utf8 cs ws m a).1.wedged ≡ a.wedged)
  handle_grants (Message.vote_request u) a t h = unfold handle in vote_grants a t u h
  handle_grants (Message.greeting id) a t h =
      absurd (others_grant_nothing a t (Message.greeting id) (λ u e. cc) h)
  handle_grants m a t h = absurd (others_grant_nothing a t m (λ u e. cc) h)

  process_grants :
      (m : Message) (a : Node c is_utf8 cs ws) (t : ℕ)
      → IsDurable c is_utf8 cs cl ws a
      → vote_of (process c is_utf8 cs ws m a).0 ≡ some t
      → (durable_term c is_utf8 cs cl ws a < t)
        × (t ≡ durable_term c is_utf8 cs cl ws (process c is_utf8 cs ws m a).1)
  process_grants m a t d h =
      let kept = (process-Durably c is_utf8 cs cl ws m a d).kept in
      elim (Bool-cases a.wedged) [
        | inl stuck ↦ cc (ap (λ r. vote_of r.0) (process-wedged c is_utf8 cs ws m a stuck))
        | inr w ↦
            let live = process-live c is_utf8 cs ws m a w in
            let (above, own, same) = handle_grants m a t (rw live at h) in
            let after = rw live at kept in
            rw live (omega (arith, d w, after (same ∙ w)), own ∙ sym (after (same ∙ w)))
      ]

  -- From an acceptor whose term is durable, over any requests and restarts and whichever writes of
  -- the control file fail: the terms of the votes that leave strictly increase, so no term, and none
  -- below the durable one, is voted for twice.
  pub votes_once :
      (es : List (Event c is_utf8 cs cl ws)) (a : Node c is_utf8 cs ws)
      → IsDurable c is_utf8 cs cl ws a
      → IsAscending (durable_term c is_utf8 cs cl ws a) (votes (run c is_utf8 cs cl ws es a))
  unfolding run votes new
  votes_once [] a d = tt
  votes_once (restart wal ∷ es) a d =
      votes_once es (new c is_utf8 cs ws (cl.durable a.ctrl) a.ctrl wal) (λ _. refl)
  votes_once (request m ∷ es) a d =
      let next = process-Durably c is_utf8 cs cl ws m a d in
      IsAscending-add_vote (vote_of (process c is_utf8 cs ws m a).0) _ _ _ next.grows
        (λ t granted. process_grants m a t d granted)
        (votes_once es (process c is_utf8 cs ws m a).1 next.kept)
