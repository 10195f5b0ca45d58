-- ===== src/Lease/Lapse.antt =====
-- When the tracker lets an instance take the lease over: what two acceptors have then answered.
use icegres.Prelude.{
  ℕ, suc, ◌-◌, ◌≤◌, ◌<◌, ◌≡◌, ◌⊎◌, inl, inr, refl, ap₂, Option, none, some, List, [], ◌∷◌, Bool,
  true, false, length, All, arith, nth?, subst, Bool-cases,
}
use icegres.Lease.{Observed, count_seen, is_frozen, is_virgin, expired, virgin}
use icegres.Lease.Expiry.{
  Position, Answer, Round, after_rounds, answers, IsHeld, IsLast, place, Knows, ttl-after_rounds,
  after_rounds-Knows,
}

-- Two of the acceptors, each with what `P` says of its observation.
record Two (P : Observed → Bool) (seen : List (Option Observed)) : Type 0 where
  i : ℕ
  j : ℕ
  less : i < j
  first : Observed
  second : Observed
  at_i : nth? seen i ≡ some (some first)
  at_j : nth? seen j ≡ some (some second)
  holds_i : P first ≡ true
  holds_j : P second ≡ true

one_of :
    (P : Observed → Bool) (seen : List (Option Observed))
    → 1 ≤ count_seen P seen
    → (i : ℕ) × (o : Observed) × (nth? seen i ≡ some (some o)) × (P o ≡ true)
one_of P [] h = absurd (omega arith)
one_of P (none ∷ os) h = let (i, o, at, p) = one_of P os h in (suc i, o, at, p)
one_of P (some o ∷ os) h = either (Bool-cases (P o)) (one_of P os)
  where
    either :
        (P o ≡ true) ⊎ (P o ≡ false)
        → (1 ≤ count_seen P os
            → (i : ℕ) × (o : Observed) × (nth? os i ≡ some (some o)) × (P o ≡ true))
        → (i : ℕ) × (x : Observed) × (nth? (some o ∷ os) i ≡ some (some x)) × (P x ≡ true)
    either (inl y) rest = (0, o, refl, y)
    either (inr n) rest = let (i, x, at, p) = rest (rw n at h) in (suc i, x, at, p)

push-Two :
    (P : Observed → Bool) (s : Option Observed) (os : List (Option Observed))
    → Two P os
    → Two P (s ∷ os)
push-Two P s os t = record {
  i = suc t.i;
  j = suc t.j;
  less = omega (arith, t.less);
  first = t.first;
  second = t.second;
  at_i = t.at_i;
  at_j = t.at_j;
  holds_i = t.holds_i;
  holds_j = t.holds_j;
}

count_seen-Two :
    (P : Observed → Bool) (seen : List (Option Observed)) → 2 ≤ count_seen P seen → Two P seen
count_seen-Two P [] h = absurd (omega arith)
count_seen-Two P (none ∷ os) h = push-Two P none os (count_seen-Two P os h)
count_seen-Two P (some o ∷ os) h = either (Bool-cases (P o)) (count_seen-Two P os)
  where
    either : (P o ≡ true) ⊎ (P o ≡ false) → (2 ≤ count_seen P os → Two P os) → Two P (some o ∷ os)
    either (inl y) rest =
        let (j, x, at, p) = one_of P os (omega (arith, rw y at h)) in
        record {
          i = 0;
          j = suc j;
          less = omega arith;
          first = o;
          second = x;
          at_i = refl;
          at_j = at;
          holds_i = y;
          holds_j = p;
        }
    either (inr n) rest = push-Two P (some o) os (rest (rw n at h))

-- At `now`, the last probe was answered with a position that all answers have been, from one on that
-- is the TTL old at least.
abbrev pub HasLapsed : ℕ → ℕ → List Answer → Type 0
HasLapsed ttl now h =
    (pos : Position) × (since : ℕ) × IsHeld pos since h × IsLast pos h × (ttl ≤ now - since)

frozen-HasLapsed :
    (ttl now : ℕ) (o : Observed) (h : List Answer)
    → is_frozen ttl now o ≡ true
    → Knows h (some o)
    → HasLapsed ttl now h
frozen-HasLapsed ttl now o h f (held, last) =
    let up : o.reachable ≡ true = ground arith in (place o, o.since, held, last up, ground arith)

virgin-IsLast :
    (o : Observed) (h : List Answer) → is_virgin o ≡ true → Knows h (some o) → IsLast (0, 0) h
virgin-IsLast o h v (held, last) =
    let up : o.reachable ≡ true = ground arith in
    let zeros : place o ≡ (0, 0) = ap₂ (λ x y. (x, y)) (ground arith) (ground arith) in
    subst (λ p. IsLast p h) zeros (last up)

module _ (n ttl : ℕ) (rs : List Round) where
  -- The tracker of `n` acceptors holds the lease to have expired, after rounds with a result for each
  -- acceptor, only where two acceptors answered the last round and have shown one position, in every
  -- answer, for the TTL.
  pub expired-HasLapsed :
      (now : ℕ)
      → All (λ r. length r.results ≡ n) rs
      → expired (after_rounds n ttl rs) now ≡ true
      → (i j : ℕ) × (i < j) × HasLapsed ttl now (answers i rs) × HasLapsed ttl now (answers j rs)
  unfolding expired
  expired-HasLapsed now full h =
      let seen = (after_rounds n ttl rs).seen in
      let at_ttl = ttl-after_rounds n ttl rs in
      let t = count_seen-Two (is_frozen ttl now) seen (ground (arith, rw at_ttl at h)) in
      let known = after_rounds-Knows n ttl rs in
      (
        t.i,
        t.j,
        t.less,
        frozen-HasLapsed ttl now t.first (answers t.i rs) t.holds_i
            (known t.i (some t.first) full t.at_i),
        frozen-HasLapsed ttl now t.second (answers t.j rs) t.holds_j
            (known t.j (some t.second) full t.at_j),
      )

  pub virgin-IsLast_zero :
      All (λ r. length r.results ≡ n) rs
      → virgin (after_rounds n ttl rs) ≡ true
      → (i j : ℕ) × (i < j) × IsLast (0, 0) (answers i rs) × IsLast (0, 0) (answers j rs)
  unfolding virgin
  virgin-IsLast_zero full h =
      let t = count_seen-Two is_virgin (after_rounds n ttl rs).seen (ground arith) in
      let known = after_rounds-Knows n ttl rs in
      (
        t.i,
        t.j,
        t.less,
        virgin-IsLast t.first (answers t.i rs) t.holds_i (known t.i (some t.first) full t.at_i),
        virgin-IsLast t.second (answers t.j rs) t.holds_j (known t.j (some t.second) full t.at_j),
      )
