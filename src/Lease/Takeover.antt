-- ===== src/Lease/Takeover.antt =====
-- The loop of the lease: who leads, and when an instance sets out to lead.
use icegres.Prelude.{
  ℕ, ◌<◌, ◌≡◌, ◌⊎◌, inl, inr, refl, sym, ap, ap₂, ◌∙◌, Option, none, List, [], ◌∷◌, Bool, true,
  false, ◌||◌, length, map, All, if◌then◌else◌, if_cases, Bool-cases,
}
use icegres.Lease.{
  LeaseConfig, Observed, ExpiryTracker, unseen, new, reset, expired, virgin, poll_acceptors, Phase,
  standby, acquiring, leading, stopped, Loop, Turn, lease_turn, lease_loop,
}
use icegres.Lease.Expiry.{
  Position, Round, after_rounds, answers, IsLast, ttl-after_rounds, length-after_rounds,
}
use icegres.Lease.Lapse.{HasLapsed, expired-HasLapsed, virgin-IsLast_zero}

abbrev pub round : Turn → Round
round t = record { results = t.results; at = t.polled_at }

-- The rounds since the tracker was last reset, by a failed acquisition or a failed renewal.
abbrev watched_after : Phase → Turn → List Round → List Round
watched_after standby t rs = if t.shutdown then rs else round t ∷ rs
watched_after acquiring t rs = if t.shutdown || t.succeeds then rs else []
watched_after leading t rs = if t.shutdown || t.succeeds then rs else []
watched_after stopped t rs = rs

unfoldable pub watched : LeaseConfig → List Turn → List Round
watched cfg [] = []
watched cfg (t ∷ ts) = watched_after (lease_loop cfg ts).phase t (watched cfg ts)

abbrev pub is_leading : Phase → Bool
is_leading leading = true
is_leading _ = false

-- When the tracker was asked in the last turn.
abbrev pub last_asked : List Turn → ℕ
last_asked [] = 0
last_asked (t ∷ ts) = t.asked_at

-- Two acceptors have shown one position for the TTL at the time `asked`, or have nothing.
abbrev pub MayTakeOver : ℕ → ℕ → List Round → Type 0
MayTakeOver ttl asked rs =
    (i j : ℕ) × (i < j)
    × ((IsLast (0, 0) (answers i rs) × IsLast (0, 0) (answers j rs))
        ⊎ (HasLapsed ttl asked (answers i rs) × HasLapsed ttl asked (answers j rs)))

module _ (cfg : LeaseConfig) where
  -- Where an instance is to acquire the lease, it may.
  abbrev pub Ready : Phase → ℕ → List Round → Type 0
  Ready acquiring asked rs = MayTakeOver cfg.ttl asked rs
  Ready _ asked rs = Unit {0}

  abbrev IsTurned : Loop → ℕ → List Round → Type 0
  IsTurned l asked rs =
      (l.tracker ≡ after_rounds (length cfg.addrs) cfg.ttl rs)
      × All (λ r. length r.results ≡ length cfg.addrs) rs
      × (l.leader ≡ is_leading l.phase)
      × Ready l.phase asked rs

  reset-after_rounds :
      (rs : List Round)
      → reset (after_rounds (length cfg.addrs) cfg.ttl rs) ≡ new (length cfg.addrs) cfg.ttl
  reset-after_rounds rs =
      let t = after_rounds (length cfg.addrs) cfg.ttl rs in
      ap₂ (λ a b. record { ttl = a; seen = b }) (ttl-after_rounds (length cfg.addrs) cfg.ttl rs)
        (forgotten t.seen ∙ ap unseen (length-after_rounds (length cfg.addrs) cfg.ttl rs))
    where
      forgotten : (os : List (Option Observed)) → map (λ _. none) os ≡ unseen (length os)
      forgotten [] = refl
      forgotten (o ∷ os) = ap (λ x. none ∷ x) (forgotten os)

  ready-MayTakeOver :
      (rs : List Round) (asked : ℕ)
      → All (λ r. length r.results ≡ length cfg.addrs) rs
      → (virgin (after_rounds (length cfg.addrs) cfg.ttl rs)
          || expired (after_rounds (length cfg.addrs) cfg.ttl rs) asked)
        ≡ true
      → MayTakeOver cfg.ttl asked rs
  ready-MayTakeOver rs asked full h =
      either (Bool-cases (virgin (after_rounds (length cfg.addrs) cfg.ttl rs)))
    where
      either :
          (virgin (after_rounds (length cfg.addrs) cfg.ttl rs) ≡ true)
            ⊎ (virgin (after_rounds (length cfg.addrs) cfg.ttl rs) ≡ false)
          → MayTakeOver cfg.ttl asked rs
      either (inl v) =
          let (i, j, less, a, b) = virgin-IsLast_zero (length cfg.addrs) cfg.ttl rs full v in
          (i, j, less, inl (a, b))
      either (inr v) =
          let (i, j, less, a, b) =
            expired-HasLapsed (length cfg.addrs) cfg.ttl rs asked full (rw v at h) in
          (i, j, less, inr (a, b))

  turn-IsTurned :
      (p : Phase) (leader : Bool) (tracker : ExpiryTracker) (shutdown : Bool)
      (results : List (Option Position)) (polled asked before : ℕ) (succeeds : Bool)
      (rs : List Round)
      → length results ≡ length cfg.addrs
      → IsTurned (record { phase = p; leader = leader; tracker = tracker }) before rs
      → let t : Turn = record {
        shutdown = shutdown;
        results = results;
        polled_at = polled;
        asked_at = asked;
        succeeds = succeeds;
      } in
        IsTurned
          (lease_turn (record { phase = p; leader = leader; tracker = tracker }) t)
          asked
          (watched_after p t rs)
  unfolding lease_turn
  turn-IsTurned standby leader tracker true res polled asked before s rs full (t, f, l, _) =
      (t, f, l, tt)
  turn-IsTurned standby leader tracker false res polled asked before s rs full (t, f, l, _) =
      let now = poll_acceptors tracker res polled in
      let at = ap (λ x. poll_acceptors x res polled) t in
      let rs' : List Round = record { results = res; at = polled } ∷ rs in
      if_cases (λ (x : Loop). IsTurned x asked rs') (virgin now || expired now asked) _ _
        (λ ready. (
          at,
          (full, f),
          l,
          ready-MayTakeOver rs' asked (full, f)
              (ap (λ x. virgin x || expired x asked) (sym at) ∙ ready),
        ))
        (λ _. (at, (full, f), l, tt))
  turn-IsTurned acquiring leader tracker true res polled asked before s rs full (t, f, l, _) =
      (t, f, l, tt)
  turn-IsTurned acquiring leader tracker false res polled asked before true rs full (t, f, l, _) =
      (t, f, refl, tt)
  turn-IsTurned acquiring leader tracker false res polled asked before false rs full (t, f, l, _) =
      (ap reset t ∙ reset-after_rounds rs, tt, l, tt)
  turn-IsTurned leading leader tracker true res polled asked before s rs full (t, f, l, _) =
      (t, f, refl, tt)
  turn-IsTurned leading leader tracker false res polled asked before true rs full h = h
  turn-IsTurned leading leader tracker false res polled asked before false rs full (t, f, l, _) =
      (ap reset t ∙ reset-after_rounds rs, tt, refl, tt)
  turn-IsTurned stopped leader tracker shutdown res polled asked before s rs full h = h

  loop-IsTurned :
      (ts : List Turn)
      → All (λ t. length t.results ≡ length cfg.addrs) ts
      → IsTurned (lease_loop cfg ts) (last_asked ts) (watched cfg ts)
  unfolding lease_loop watched
  loop-IsTurned [] h = (refl, tt, refl, tt)
  loop-IsTurned (t ∷ ts) (full, h) =
      let l = lease_loop cfg ts in
      turn-IsTurned l.phase l.leader l.tracker t.shutdown t.results t.polled_at t.asked_at
        (last_asked ts) t.succeeds (watched cfg ts) full (loop-IsTurned ts h)

  -- After any turns, whose rounds have a result for each acceptor: the watch on leadership says
  -- `true` exactly while the loop is in its leading phase; and in the phase in which the loop sets out
  -- to acquire the lease, the rounds since the tracker was last reset show two acceptors that both answered the last
  -- of them, with term 0 and an empty log, or each with the one position that it has answered, in
  -- every answer, for the TTL at the time at which the last turn asked the tracker.
  pub lease_loop-MayTakeOver :
      (ts : List Turn)
      → All (λ t. length t.results ≡ length cfg.addrs) ts
      → ((lease_loop cfg ts).leader ≡ is_leading (lease_loop cfg ts).phase)
        × Ready (lease_loop cfg ts).phase (last_asked ts) (watched cfg ts)
  lease_loop-MayTakeOver ts h = let (_, _, l, ready) = loop-IsTurned ts h in (l, ready)
