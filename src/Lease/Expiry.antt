-- ===== src/Lease/Expiry.antt =====
-- What the tracker knows of an acceptor: the position of its last answer, and since when every answer
-- has been that position.
use icegres.Prelude.{
  ℕ, zero, suc, ◌+◌, ◌-◌, ◌≤◌, ◌<◌, ◌≡◌, ◌⊎◌, inl, inr, refl, sym, ap, ◌∙◌, Option, none, some,
  List, [], ◌∷◌, ◌++◌, true, false, ◌&&◌, length, All, arith, ◌==◌, nth?, subst, if_cases,
  Bool-cases, ◌==◌, ap₂,
}
use icegres.Prelude.Maps.{some_eq}
use icegres.Lease.{
  Observed, ExpiryTracker, unseen, new, update_at, observe_slot, unreachable_slot, feed,
  poll_acceptors,
}

abbrev pub Position : Type 0
Position = ℕ × ℕ

-- When an acceptor was probed, and what it answered.
abbrev pub Answer : Type 0
Answer = ℕ × Option Position

pub record Round : Type 0 where
  pub results : List (Option Position)
  pub at : ℕ

-- A tracker of `n` acceptors after so many rounds, the last first.
abbrev pub after_rounds : ℕ → ℕ → List Round → ExpiryTracker
after_rounds n ttl [] = new n ttl
after_rounds n ttl (r ∷ rs) = poll_acceptors (after_rounds n ttl rs) r.results r.at

abbrev pub answer : ℕ → List (Option Position) → Option Position
answer i results = elim (nth? results i) [ none ↦ none | some r ↦ r ]

-- What the acceptor `i` answered, the last first.
abbrev pub answers : ℕ → List Round → List Answer
answers i [] = []
answers i (r ∷ rs) = (r.at, answer i r.results) ∷ answers i rs

abbrev pub IsSilentOr : Position → Answer → Type 0
IsSilentOr pos a = (a.1 ≡ none) ⊎ (a.1 ≡ some pos)

-- The answers `h` have been `pos`, where there was one, from one at `since` on.
pub record IsHeld (pos : Position) (since : ℕ) (h : List Answer) : Type 0 where
  pub later : List Answer
  pub earlier : List Answer
  pub split : h ≡ later ++ ((since, some pos) ∷ earlier)
  pub same : All (IsSilentOr pos) later

-- The last probe was answered, with `pos`.
abbrev pub IsLast : Position → List Answer → Type 0
IsLast pos [] = ⊥
IsLast pos (a ∷ h) = a.1 ≡ some pos

abbrev pub place : Observed → Position
place o = (o.term, o.flush)

abbrev pub Knows : List Answer → Option Observed → Type 0
Knows h none = Unit {0}
Knows h (some o) = IsHeld (place o) o.since h × (o.reachable ≡ true → IsLast (place o) h)

abbrev see : Answer → Option Observed → Option Observed
see (now, none) s = unreachable_slot s
see (now, some (term, flush)) s = observe_slot term flush now s

IsHeld-cons :
    {pos : Position} {since : ℕ} {h : List Answer} (a : Answer)
    → IsSilentOr pos a
    → IsHeld pos since h
    → IsHeld pos since (a ∷ h)
IsHeld-cons a same k = record {
  later = a ∷ k.later;
  earlier = k.earlier;
  split = ap (λ t. a ∷ t) k.split;
  same = (same, k.same);
}

begins : (pos : Position) (now : ℕ) (h : List Answer) → IsHeld pos now ((now, some pos) ∷ h)
begins pos now h = record { later = []; earlier = h; split = refl; same = tt }

see-Knows :
    (h : List Answer) (a : Answer) (s : Option Observed) → Knows h s → Knows (a ∷ h) (see a s)
see-Knows h (now, none) none k = tt
see-Knows h (now, none) (some o) (k, _) = (IsHeld-cons (now, none) (inl refl) k, (λ e. cc))
see-Knows h (now, some (term, flush)) none k = (begins (term, flush) now h, (λ _. refl))
see-Knows h (now, some (term, flush)) (some o) (k, _) =
    if_cases (Knows ((now, some (term, flush)) ∷ h)) ((o.term == term) && (o.flush == flush)) _ _
      (λ e.
        let same : some (term, flush) ≡ some (place o) =
          ap₂ (λ x y. some (x, y)) (ground arith) (ground arith) in
        (IsHeld-cons (now, some (term, flush)) (inr same) k, (λ _. same)))
      (λ _. (begins (term, flush) now h, (λ _. refl)))

-- The loop over the results of a round touches each acceptor once.
abbrev at_slot :
    (Option Observed → Option Observed) → Option (Option Observed) → Option (Option Observed)
at_slot f none = none
at_slot f (some s) = some (f s)

module _ (f : Option Observed → Option Observed) where
  nth?-update_at :
      (i : ℕ) (xs : List (Option Observed)) → nth? (update_at i f xs) i ≡ at_slot f (nth? xs i)
  nth?-update_at i [] = refl
  nth?-update_at zero (x ∷ xs) = refl
  nth?-update_at (suc i) (x ∷ xs) = nth?-update_at i xs

  nth?-update_other :
      (i j : ℕ) (xs : List (Option Observed))
      → (i == j) ≡ false
      → nth? (update_at j f xs) i ≡ nth? xs i
  nth?-update_other i j [] h = refl
  nth?-update_other zero zero (x ∷ xs) h = cc
  nth?-update_other (suc i) zero (x ∷ xs) h = refl
  nth?-update_other zero (suc j) (x ∷ xs) h = refl
  nth?-update_other (suc i) (suc j) (x ∷ xs) h = nth?-update_other i j xs (ground arith)

  length-update_at : (i : ℕ) (xs : List (Option Observed)) → length (update_at i f xs) ≡ length xs
  length-update_at i [] = refl
  length-update_at zero (x ∷ xs) = refl
  length-update_at (suc i) (x ∷ xs) = ap suc (length-update_at i xs)

abbrev feed_one : ExpiryTracker → ℕ → Option Position → ℕ → ExpiryTracker
feed_one t idx r now = record t { seen = update_at idx (see (now, r)) t.seen }

feed-cons :
    (t : ExpiryTracker) (idx : ℕ) (r : Option Position) (rs : List (Option Position)) (now : ℕ)
    → feed t idx (r ∷ rs) now ≡ feed (feed_one t idx r now) (suc idx) rs now
unfolding feed
feed-cons t idx none rs now = refl
feed-cons t idx (some (term, flush)) rs now = refl

length-feed :
    (t : ExpiryTracker) (idx : ℕ) (rs : List (Option Position)) (now : ℕ)
    → length (feed t idx rs now).seen ≡ length t.seen
unfolding feed
length-feed t idx [] now = refl
length-feed t idx (r ∷ rs) now =
    ap (λ (x : ExpiryTracker). length x.seen) (feed-cons t idx r rs now)
    ∙ length-feed (feed_one t idx r now) (suc idx) rs now
    ∙ length-update_at (see (now, r)) idx t.seen

ttl-feed :
    (t : ExpiryTracker) (idx : ℕ) (rs : List (Option Position)) (now : ℕ)
    → (feed t idx rs now).ttl ≡ t.ttl
unfolding feed
ttl-feed t idx [] now = refl
ttl-feed t idx (r ∷ rs) now =
    ap (λ (x : ExpiryTracker). x.ttl) (feed-cons t idx r rs now)
    ∙ ttl-feed (feed_one t idx r now) (suc idx) rs now

feed_before :
    (t : ExpiryTracker) (idx : ℕ) (rs : List (Option Position)) (now i : ℕ)
    → i < idx
    → nth? (feed t idx rs now).seen i ≡ nth? t.seen i
unfolding feed
feed_before t idx [] now i h = refl
feed_before t idx (r ∷ rs) now i h =
    ap (λ (x : ExpiryTracker). nth? x.seen i) (feed-cons t idx r rs now)
    ∙ feed_before (feed_one t idx r now) (suc idx) rs now i (omega arith)
    ∙ nth?-update_other (see (now, r)) i idx t.seen (ground arith)

feed_at :
    (t : ExpiryTracker) (idx : ℕ) (rs : List (Option Position)) (now i : ℕ)
    → idx ≤ i
    → i < idx + length rs
    → nth? (feed t idx rs now).seen i ≡ at_slot (see (now, answer (i - idx) rs)) (nth? t.seen i)
unfolding feed
feed_at t idx [] now i h l = absurd (omega arith)
feed_at t idx (r ∷ rs) now i h l =
    ap (λ (x : ExpiryTracker). nth? x.seen i) (feed-cons t idx r rs now)
    ∙ either (Bool-cases (i == idx)) (feed_at (feed_one t idx r now) (suc idx) rs now i)
  where
    either :
        ((i == idx) ≡ true) ⊎ ((i == idx) ≡ false)
        → (suc idx ≤ i
            → i < suc idx + length rs
            → nth? (feed (feed_one t idx r now) (suc idx) rs now).seen i
              ≡ at_slot (see (now, answer (i - suc idx) rs)) (nth? (feed_one t idx r now).seen i))
        → nth? (feed (feed_one t idx r now) (suc idx) rs now).seen i
          ≡ at_slot (see (now, answer (i - idx) (r ∷ rs))) (nth? t.seen i)
    either (inl y) rest =
        let e : idx ≡ i = ground arith in
        let z : i - idx ≡ 0 = omega arith in
        feed_before (feed_one t idx r now) (suc idx) rs now i (omega arith)
        ∙ rw z (rw e (nth?-update_at (see (now, r)) i t.seen))
    either (inr n) rest =
        let next : i - idx ≡ suc (i - suc idx) = ground arith in
        rest (ground arith) (omega arith)
        ∙ rw next (
            ap (at_slot (see (now, answer (i - suc idx) rs)))
              (nth?-update_other (see (now, r)) i idx t.seen n))

nth?-lt {ℓ} : {A : Type ℓ} (xs : List A) (i : ℕ) {x : A} → nth? xs i ≡ some x → i < length xs
nth?-lt [] i h = cc
nth?-lt (x ∷ xs) zero h = omega arith
nth?-lt (x ∷ xs) (suc i) h = omega (arith, nth?-lt xs i h)

length-unseen : (n : ℕ) → length (unseen n) ≡ n
length-unseen zero = refl
length-unseen (suc n) = ap suc (length-unseen n)

unseen-none : (n i : ℕ) {s : Option Observed} → nth? (unseen n) i ≡ some s → s ≡ none
unseen-none zero i h = cc
unseen-none (suc n) zero h = cc
unseen-none (suc n) (suc i) h = unseen-none n i h

module _ (n ttl : ℕ) where
  abbrev pub AreFull : List Round → Type 0
  AreFull rs = All (λ r. length r.results ≡ n) rs

  pub length-after_rounds : (rs : List Round) → length (after_rounds n ttl rs).seen ≡ n
  length-after_rounds [] = length-unseen n
  length-after_rounds (r ∷ rs) =
      length-feed (after_rounds n ttl rs) 0 r.results r.at ∙ length-after_rounds rs

  pub ttl-after_rounds : (rs : List Round) → (after_rounds n ttl rs).ttl ≡ ttl
  ttl-after_rounds [] = refl
  ttl-after_rounds (r ∷ rs) =
      ttl-feed (after_rounds n ttl rs) 0 r.results r.at ∙ ttl-after_rounds rs

  pub after_rounds-Knows :
      (rs : List Round) (i : ℕ) (s : Option Observed)
      → AreFull rs
      → nth? (after_rounds n ttl rs).seen i ≡ some s
      → Knows (answers i rs) s
  after_rounds-Knows [] i s h at = rw (unseen-none n i at) tt
  after_rounds-Knows (r ∷ rs) i s (full, h) at =
      let before = after_rounds n ttl rs in
      let small : i < n =
        omega
          (arith, nth?-lt (after_rounds n ttl (r ∷ rs)).seen i at, length-after_rounds (r ∷ rs)) in
      let came = sym (feed_at before 0 r.results r.at i (omega arith) (omega arith)) ∙ at in
      let whole : i - 0 ≡ i = omega arith in
      slot (nth? before.seen i) (rw whole at came) (λ s. after_rounds-Knows rs i s h)
    where
      slot :
          (o : Option (Option Observed))
          → at_slot (see (r.at, answer i r.results)) o ≡ some s
          → ((s : Option Observed) → o ≡ some s → Knows (answers i rs) s)
          → Knows (answers i (r ∷ rs)) s
      slot none e k = cc
      slot (some x) e k =
          subst (Knows (answers i (r ∷ rs))) (some_eq e)
            (see-Knows (answers i rs) (r.at, answer i r.results) x (k x refl))
