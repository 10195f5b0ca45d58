-- ===== src/Quorum/Proposer/Horizon.antt =====
-- `advance_horizon_locked` and `note_covered` of icegres/src/quorum/proposer.rs: the horizon, what is
-- dropped behind it, and the peers that still need it.
use icegres.Prelude.{
  not, ◌&&◌, ◌==◌, true, ℕ, zero, suc, ◌+◌, ◌-◌, ◌≤◌, ◌<◌, ◌≡◌, refl, ◌⊎◌, inl, inr, Option, none,
  some, List, [], ◌∷◌, Bool, false, arith, length, All, ltb, leb, min, max, if◌then◌else◌,
  Bool-cases, Option-cases, if_cases,
}
use icegres.Prelude.Bytes.{Bytes}
use icegres.Segment.{Crc}
use icegres.Quorum.Proposer.{RecordMeta, Peer, Shared, lookup, unwrap_or, max_peer_lag_bytes}
use icegres.Quorum.Proposer.Coverage.{coverable_prefix}
use icegres.Quorum.Proposer.Log.{IsChain, IsLog, entry_grows}

-- The least flush position of the peers that are not `failed`.
unfoldable pub least_flush : List Peer → Option ℕ
least_flush [] = none
least_flush (p ∷ ps) =
    let rest = least_flush ps in
    if p.failed then rest else some (elim rest [ none ↦ p.flush | some f ↦ min p.flush f ])

-- `failed` is set on the first live peer at that flush position.
unfoldable pub fail_at : ℕ → List Peer → List Peer
fail_at flush [] = []
fail_at flush (p ∷ ps) =
    let rest = fail_at flush ps in
    if not p.failed && p.flush == flush then record p { failed = true } ∷ ps else p ∷ rest

-- The retention loop: where to drop to, and the peers that remain. Each round sets one `failed`, so
-- as many rounds as there are live peers, and one, are enough; `none` is a loop that was cut off.
unfoldable pub retention : ℕ → ℕ → List Peer → Option (ℕ × List Peer)
unfolding least_flush fail_at
retention zero horizon ps = none
retention (suc fuel) horizon ps =
    let lagging = unwrap_or horizon (least_flush ps) in
    let drop_to = min horizon lagging in
    let again = retention fuel horizon (fail_at lagging ps) in
    if ltb max_peer_lag_bytes (horizon - drop_to) then again else some (drop_to, ps)

-- `while let Some(front)`.
unfoldable pub drop_front : ℕ → ℕ → List RecordMeta → ℕ × List RecordMeta
drop_front drop_to base [] = (base, [])
drop_front drop_to base (r ∷ rs) =
    let rest = drop_front drop_to r.end rs in if leb r.end drop_to then rest else (base, r ∷ rs)

abbrev pub release : Option (ℕ × List Peer) → Shared → Shared
release none s = s
release (some (drop_to, ps)) s =
    let (base, records) = drop_front drop_to s.log.base s.log.records in
    record s { peers = ps; log = record s.log { base = base; records = records } }

-- `advance_horizon_locked`: the refresh to append, and the state after it.
unfoldable pub advance_horizon : Shared → Option (Bytes × ℕ) × Shared
unfolding coverable_prefix retention drop_front
advance_horizon s =
    let (prefix_end, refresh) = coverable_prefix s.log s.commit in
    let horizon = max (min prefix_end s.commit) s.horizon in
    if ltb s.horizon horizon
    then (
      refresh,
      release (retention (suc (length s.peers)) horizon s.peers) (record s { horizon = horizon }),
    )
    else (refresh, s)

unfoldable pub note_covered : Bytes → ℕ → Shared → Option (Bytes × ℕ) × Shared
unfolding advance_horizon
note_covered table_key upto_seq s =
    let cur = unwrap_or 0 (lookup table_key s.log.covered) in
    advance_horizon
      (record s { log = record s.log { covered = (table_key, max cur upto_seq) ∷ s.log.covered } })

-- How many peers are not `failed`.
abbrev live : List Peer → ℕ
live [] = 0
live (p ∷ ps) = let rest = live ps in if p.failed then rest else suc rest

live-length : (ps : List Peer) → live ps ≤ length ps
live-length [] = omega arith
live-length (p ∷ ps) = ground (arith, live-length ps)

-- The log from `d` on has what each live peer lacks.
abbrev pub Serves : ℕ → List Peer → Type 0
Serves d ps = All (λ p. p.failed ≡ false → d ≤ p.flush) ps

Serves-le : (d e : ℕ) (ps : List Peer) → d ≤ e → Serves e ps → Serves d ps
Serves-le d e [] h k = tt
Serves-le d e (p ∷ ps) h (kp, k) = ((λ l. omega (arith, kp l)), Serves-le d e ps h k)

least_flush-none : (d : ℕ) (ps : List Peer) → least_flush ps ≡ none → Serves d ps
unfolding least_flush
least_flush-none d [] h = tt
least_flush-none d (p ∷ ps) h = ((λ l. absurd (ground arith)), least_flush-none d ps (ground arith))

least_flush-some : (f : ℕ) (ps : List Peer) → least_flush ps ≡ some f → Serves f ps
unfolding least_flush
least_flush-some f [] h = cc
least_flush-some f (p ∷ ps) h = (
  (λ l. ground arith),
  elim (Option-cases (least_flush ps)) [
    | inl out ↦ least_flush-none f ps out
    | inr (g, on) ↦ Serves-le f g ps (ground arith) (least_flush-some g ps on)
  ],
)

fail_at-live : (f : ℕ) (ps : List Peer) → least_flush ps ≡ some f → live (fail_at f ps) < live ps
unfolding least_flush fail_at
fail_at-live f [] h = cc
fail_at-live f (p ∷ ps) h = ground (arith, fail_at-live f ps)

retention-done :
    (fuel h : ℕ) (ps : List Peer)
    → live ps < fuel
    → (d : ℕ) × (qs : List Peer) × (retention fuel h ps ≡ some (d, qs))
      × (d ≤ h)
      × Serves d qs
      × (h ≤ d + max_peer_lag_bytes)
unfolding retention
retention-done zero h ps k = absurd (omega (arith, k))
retention-done (suc fuel) h ps k = elim (Option-cases (least_flush ps)) [
  | inl out ↦ (
    min h h,
    ps,
    rw out (ground arith),
    omega arith,
    least_flush-none (min h h) ps out,
    omega arith,
  )
  | inr (f, on) ↦ elim (Bool-cases (ltb max_peer_lag_bytes (h - min h f))) [
    | inl far ↦
        let (d, qs, done, low, serves, near) =
          retention-done fuel h (fail_at f ps) (omega (arith, k, fail_at-live f ps on)) in
        (d, qs, rw (on, far) done, low, serves, near)
    | inr near ↦ (
      min h f,
      ps,
      rw (on, near) refl,
      omega arith,
      Serves-le (min h f) f ps (omega arith) (least_flush-some f ps on),
      ground arith,
    )
  ]
]

-- The first record that is left ends behind `d`.
abbrev pub EndsBehind : ℕ → List RecordMeta → Type 0
EndsBehind d [] = Unit {0}
EndsBehind d (r ∷ rs) = d < r.end

drop_front-EndsBehind : (d base : ℕ) (rs : List RecordMeta) → EndsBehind d (drop_front d base rs).1
unfolding drop_front
drop_front-EndsBehind d base [] = tt
drop_front-EndsBehind d base (r ∷ rs) =
    if_cases (λ (o : ℕ × List RecordMeta). EndsBehind d o.1) (leb r.end d) _ _
      (λ below. drop_front-EndsBehind d r.end rs) (λ above. ground arith)

-- What is dropped when the horizon moves: every record that ends at or below a position that each live
-- peer has reached, and that lies within the greatest lag of a peer below the horizon.
pub record Dropped (s : Shared) : Type 0 where
  pub drop_to : ℕ
  pub bounded : s.horizon ≤ drop_to + max_peer_lag_bytes
  pub reached : Serves drop_to s.peers
  pub complete : EndsBehind drop_to s.log.records

module _ (c : Crc) (is_utf8 : Bytes → Bool) where
  drop_front-IsChain :
      (d base head : ℕ) (rs : List RecordMeta)
      → IsChain c is_utf8 base rs head
      → IsChain c is_utf8 (drop_front d base rs).0 (drop_front d base rs).1 head
        × (base ≤ (drop_front d base rs).0)
        × (((drop_front d base rs).0 ≡ base) ⊎ ((drop_front d base rs).0 ≤ d))
  unfolding drop_front
  drop_front-IsChain d base head [] h = (h, omega arith, inl refl)
  drop_front-IsChain d base head (r ∷ rs) (at, e, h) =
      let grows = entry_grows c is_utf8 r e in
      let (chain, up, low) = drop_front-IsChain d r.end head rs h in
      if_cases
        (λ (o : ℕ × List RecordMeta).
          IsChain c is_utf8 o.0 o.1 head × (base ≤ o.0) × ((o.0 ≡ base) ⊎ (o.0 ≤ d)))
        (leb r.end d) _ _
        (λ below. (chain, omega (arith, at, grows, up), inr (ground (arith, low))))
        (λ above. ((at, e, h), omega arith, inl refl))

  -- What an advance of the horizon from `s` to `s'` keeps.
  pub record Advanced (s s' : Shared) : Type 0 where
    pub grows : s.horizon ≤ s'.horizon
    pub committed : s'.horizon ≤ max s.commit s.horizon
    pub covered : s'.horizon ≤ max (coverable_prefix s.log s.commit).0 s.horizon
    pub chain : IsLog c is_utf8 s'.log
    pub same_head : s'.log.head ≡ s.log.head
    pub base_grows : s.log.base ≤ s'.log.base
    pub behind_horizon : s'.log.base ≤ s'.horizon
    pub serves : (s'.log.base ≡ s.log.base) ⊎ Serves s'.log.base s'.peers
    pub reaches : min (coverable_prefix s.log s.commit).0 s.commit ≤ s'.horizon
    pub dropped : (s'.horizon ≡ s.horizon) ⊎ Dropped s'

  -- The horizon does not go down, and when it moves it passes neither the commit position nor the
  -- coverable prefix. What is dropped lies below it: the log stays a chain of encoded records with the
  -- same head, and when its base moves, every peer that is still live has flushed up to the new base.
  -- The horizon reaches the coverable prefix as far as that is committed. When it moves, all that ends
  -- at or below a certain position is dropped, and that position is at most the greatest lag of a peer
  -- below the horizon, so a peer that lags further is given up and holds nothing back.
  pub advance_horizon-Advanced :
      (s : Shared)
      → IsLog c is_utf8 s.log
      → s.log.base ≤ s.horizon
      → Advanced s (advance_horizon s).1
  unfolding advance_horizon
  advance_horizon-Advanced s chain below =
      let p = (coverable_prefix s.log s.commit).0 in
      let horizon = max (min p s.commit) s.horizon in
      let (d, qs, done, low, serves, near) =
        retention-done (suc (length s.peers)) horizon s.peers
          (omega (arith, live-length s.peers)) in
      let (kept, up, at) = drop_front-IsChain d s.log.base s.log.head s.log.records chain in
      if_cases (λ (o : Option (Bytes × ℕ) × Shared). Advanced s o.1) (ltb s.horizon horizon) _ _
        (λ moves. rw done (record {
          grows = omega arith;
          committed = omega arith;
          covered = omega arith;
          chain = kept;
          same_head = refl;
          base_grows = up;
          behind_horizon = ground (arith, at);
          serves = elim at [ inl same ↦ inl same | inr le ↦ inr (Serves-le _ d qs le serves) ];
          reaches = omega arith;
          dropped = inr (record {
            drop_to = d;
            bounded = near;
            reached = serves;
            complete = drop_front-EndsBehind d s.log.base s.log.records;
          });
        }))
        (λ rests. record {
          grows = omega arith;
          committed = omega arith;
          covered = omega arith;
          chain = chain;
          same_head = refl;
          base_grows = omega arith;
          behind_horizon = below;
          serves = inl refl;
          reaches = ground arith;
          dropped = inl refl;
        })
