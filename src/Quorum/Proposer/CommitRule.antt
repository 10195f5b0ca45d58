-- ===== src/Quorum/Proposer/CommitRule.antt =====
-- The commit rule of icegres/src/quorum/proposer.rs: `quorum_commit`, `recompute_commit_at` and
-- `store_ack`.
use mathlib.Core.Path.{subst}
use icegres.Prelude.{
  ◌≢◌, ◌&&◌, ℕ, suc, ◌≤◌, ◌<◌, ◌≡◌, refl, sym, ◌⊎◌, inl, inr, Option, none, some, List, [], ◌∷◌,
  arith, map, All, leb, ltb, ◌==◌, if◌then◌else◌, Bool-cases,
}
use icegres.Quorum.Proposer.{
  Shared, quorum, in_term, insert_desc, sort_desc, second, raise_commit, quorum_commit,
  recompute_commit_at, set_flush, store_ack,
}

-- How many of the positions are at or above `u`.
abbrev pub acked : ℕ → List ℕ → ℕ
acked u [] = 0
acked u (f ∷ fs) = let rest = acked u fs in if leb u f then suc rest else rest

abbrev IsDescending : List ℕ → Type 0
IsDescending [] = Unit {0}
IsDescending (x ∷ xs) = All (λ y. y ≤ x) xs × IsDescending xs

All-insert_desc : (P : ℕ → Type 0) (a : ℕ) (xs : List ℕ) → P a → All P xs → All P (insert_desc a xs)
unfolding insert_desc
All-insert_desc P a [] h k = (h, tt)
All-insert_desc P a (y ∷ ys) h (hy, k) = elim (Bool-cases (leb y a)) [
  | inl le ↦ rw le (h, (hy, k))
  | inr gt ↦ rw gt (hy, All-insert_desc P a ys h k)
]

All-sort_desc : (P : ℕ → Type 0) (xs : List ℕ) → All P xs → All P (sort_desc xs)
unfolding sort_desc
All-sort_desc P [] h = tt
All-sort_desc P (x ∷ xs) (hx, h) = All-insert_desc P x (sort_desc xs) hx (All-sort_desc P xs h)

All-le : (a b : ℕ) (xs : List ℕ) → a ≤ b → All (λ y. y ≤ a) xs → All (λ y. y ≤ b) xs
All-le a b [] h k = tt
All-le a b (x ∷ xs) h (hx, k) = (omega arith, All-le a b xs h k)

insert_desc-IsDescending : (a : ℕ) (xs : List ℕ) → IsDescending xs → IsDescending (insert_desc a xs)
unfolding insert_desc
insert_desc-IsDescending a [] h = (tt, tt)
insert_desc-IsDescending a (y ∷ ys) (hy, h) = elim (Bool-cases (leb y a)) [
  | inl le ↦ rw le ((ground arith, All-le y a ys (ground arith) hy), (hy, h))
  | inr gt ↦
      rw gt (All-insert_desc (λ z. z ≤ y) a ys (ground arith) hy, insert_desc-IsDescending a ys h)
]

sort_desc-IsDescending : (xs : List ℕ) → IsDescending (sort_desc xs)
unfolding sort_desc
sort_desc-IsDescending [] = tt
sort_desc-IsDescending (x ∷ xs) =
    insert_desc-IsDescending x (sort_desc xs) (sort_desc-IsDescending xs)

acked-insert_desc : (u a : ℕ) (xs : List ℕ) → acked u (insert_desc a xs) ≡ acked u (a ∷ xs)
unfolding insert_desc
acked-insert_desc u a [] = refl
acked-insert_desc u a (x ∷ xs) = ground (arith, acked-insert_desc u a xs)

acked-sort_desc : (u : ℕ) (xs : List ℕ) → acked u (sort_desc xs) ≡ acked u xs
unfolding sort_desc
acked-sort_desc u [] = refl
acked-sort_desc u (x ∷ xs) =
    ground (arith, acked-insert_desc u x (sort_desc xs), acked-sort_desc u xs)

acked-none : (u x : ℕ) (xs : List ℕ) → x < u → All (λ y. y ≤ x) xs → acked u xs ≡ 0
acked-none u x [] h k = refl
acked-none u x (y ∷ ys) h (hy, k) = ground (arith, acked-none u x ys h k)

second-acked : (xs : List ℕ) (v : ℕ) → IsDescending xs → second xs ≡ some v → quorum ≤ acked v xs
second-acked [] v d h = cc
second-acked (x ∷ []) v d h = cc
second-acked (x ∷ y ∷ ys) v ((le, k), d) h = ground arith

second-greatest :
    (xs : List ℕ) (v u : ℕ) → IsDescending xs → second xs ≡ some v → quorum ≤ acked u xs → u ≤ v
second-greatest [] v u d h q = cc
second-greatest (x ∷ []) v u d h q = cc
second-greatest (x ∷ y ∷ ys) v u ((le, k), (l, d)) h q = elim (Bool-cases (ltb y u)) [
  | inl lt ↦ ground (arith, acked-none u y ys (ground arith) l)
  | inr ge ↦ ground arith
]

-- A position that old-term entries were cut out of still counts the same peers at or above any
-- position of this term.
acked-in_term :
    (start u : ℕ) (fs : List ℕ) → start ≤ u → 0 < u → acked u (map (in_term start) fs) ≡ acked u fs
acked-in_term start u [] h k = refl
acked-in_term start u (f ∷ fs) h k = ground (arith, acked-in_term start u fs h k)

-- Zero, or of this term.
abbrev pub InTerm : ℕ → ℕ → Type 0
InTerm start v = (v ≡ 0) ⊎ (start ≤ v)

in_term-InTerm : (start : ℕ) (fs : List ℕ) → All (InTerm start) (map (in_term start) fs)
in_term-InTerm start [] = tt
in_term-InTerm start (f ∷ fs) = (ground arith, in_term-InTerm start fs)

second-All : (P : ℕ → Type 0) (xs : List ℕ) (v : ℕ) → All P xs → second xs ≡ some v → P v
second-All P [] v h e = cc
second-All P (x ∷ []) v h e = cc
second-All P (x ∷ y ∷ ys) v (hx, (hy, h)) e = let q : y ≡ v = cc in subst P q hy

-- The commit rule picks zero, or a position of this term that a quorum of the peers has flushed; and
-- every position above zero and of this term that a quorum has flushed is at or below the one it
-- picks.
pub quorum_commit-greatest :
    (fs : List ℕ) (start v : ℕ)
    → quorum_commit fs start ≡ some v
    → ((v ≡ 0) ⊎ ((start ≤ v) × (quorum ≤ acked v fs)))
      × ((u : ℕ) → start ≤ u → 0 < u → quorum ≤ acked u fs → u ≤ v)
unfolding quorum_commit
quorum_commit-greatest fs start v h =
    let vals = map (in_term start) fs in
    let sorted = sort_desc-IsDescending vals in
    let member =
      second-All (InTerm start) (sort_desc vals) v
        (All-sort_desc (InTerm start) vals (in_term-InTerm start fs)) h in
    let counted = second-acked (sort_desc vals) v sorted h in
    (
      quorum_of member (rw (sym (acked-sort_desc v vals)) counted),
      λ u le pos q.
          second-greatest (sort_desc vals) v u sorted h
            (rw (acked-sort_desc u vals, acked-in_term start u fs le pos) q),
    )
  where
    quorum_of :
        InTerm start v
        → quorum ≤ acked v (map (in_term start) fs)
        → (v ≡ 0) ⊎ ((start ≤ v) × (quorum ≤ acked v fs))
    quorum_of (inl z) q = inl z
    quorum_of (inr le) q = elim (Bool-cases (ltb 0 v)) [
      | inl pos ↦ inr (le, rw (sym (acked-in_term start v fs le (ground arith))) q)
      | inr z ↦ inl (ground arith)
    ]

raise_commit-cases :
    (o : Option ℕ) (start commit : ℕ)
    → (raise_commit o start commit ≡ commit)
      ⊎ ((o ≡ some (raise_commit o start commit))
          × (start ≤ raise_commit o start commit)
          × (commit < raise_commit o start commit))
raise_commit-cases none start commit = inl refl
raise_commit-cases (some v) start commit = elim (Bool-cases (leb start v && ltb commit v)) [
  | inl up ↦ rw up (inr (refl, ground arith, ground arith))
  | inr kept ↦ rw kept (inl refl)
]

recompute-commit :
    (s : Shared) (start : ℕ)
    → let s' = recompute_commit_at start s in
      (s.commit ≤ s'.commit)
      × ((s'.commit ≡ s.commit)
          ⊎ ((start ≤ s'.commit) × (quorum ≤ acked s'.commit (map (λ p. p.flush) s.peers))))
unfolding recompute_commit_at
recompute-commit s start =
    let flushes = map (λ p. p.flush) s.peers in
    let o = quorum_commit flushes start in
    elim (raise_commit-cases o start s.commit) [
      | inl same ↦ (omega (arith, same), inl same)
      | inr (picked, in_it, up) ↦ (
        omega (arith, up),
        elim (quorum_commit-greatest flushes start _ picked).0 [
          | inl z ↦ absurd (omega (arith, z, up))
          | inr q ↦ inr q
        ],
      )
    ]

-- Every commit position that an ack brings about: the ack was of the current term, a quorum of the
-- peers has flushed up to the position, and it is not below the start of the term; the position
-- never goes down; and an ack of another term changes nothing.
pub store_ack-commit :
    (idx conn_term flush : ℕ) (s : Shared)
    → let s' = (store_ack idx conn_term flush s).1 in
      (s.commit ≤ s'.commit)
      × ((s'.commit ≡ s.commit)
          ⊎ ((s.election.term ≡ conn_term)
              × (s.election.term_start_lsn ≤ s'.commit)
              × (quorum ≤ acked s'.commit (map (λ p. p.flush) s'.peers))))
      × ((s.election.term ≢ conn_term) → s' ≡ s)
unfolding store_ack
store_ack-commit idx conn_term flush s = elim (Bool-cases (s.election.term == conn_term)) [
  | inl same ↦
      let (up, how) =
        recompute-commit (record s { peers = set_flush idx flush s.peers })
          s.election.term_start_lsn in
      rw same (
        up,
        elim how [ inl kept ↦ inl kept | inr (lo, q) ↦ inr (ground arith, lo, q) ],
        λ other. absurd (other (ground arith)),
      )
  | inr other ↦ rw other (omega arith, inl refl, λ _. refl)
]
