-- ===== src/Quorum/SegmentWal/Chain.antt =====
-- Chains of segments: each lies behind the one before it. A sealed segment may hold fewer bytes than it
-- claims, as a cut leaves it whose sync fails.
use icegres.Prelude.{
  ℕ, zero, suc, ◌+◌, ◌-◌, ◌≤◌, ◌<◌, ◌≡◌, refl, ap, ◌∙◌, Option, none, List, [], ◌∷◌, ◌++◌, Bool,
  true, false, ◌&&◌, length, take, ltb, leb, arith, if◌then◌else◌,
}
use icegres.Prelude.{nth?, if_cases, ltb→lt, ◌==◌}
use icegres.Quorum.SegmentWal.{
  Seg, Io, done, failed, rest_io, next_io, cut_last, insert_seg, sort_segs, delete_from,
  collect_one, collect_below,
}

-- The byte at position `p` of the log.
unfoldable pub byte_in : List Seg → ℕ → Option ℕ
byte_in [] p = none
byte_in (s ∷ older) p =
    let rest = byte_in older p in
    if leb s.start p && ltb p s.end then nth? s.bytes (p - s.start) else rest

abbrev pub Holds : Seg → Type 0
Holds s = (s.start ≤ s.end) × (s.end ≤ s.start + length s.bytes)

-- From the last segment to the first, none reaching beyond `hi`.
abbrev pub Chain : ℕ → List Seg → Type 0
Chain hi [] = Unit {0}
Chain hi (s ∷ older) = (s.end ≤ hi) × (s.start ≤ s.end) × Chain s.start older

pub Chain-le : (lo hi : ℕ) (segs : List Seg) → lo ≤ hi → Chain lo segs → Chain hi segs
Chain-le lo hi [] h k = tt
Chain-le lo hi (s ∷ older) h (e, o, r) = (omega arith, o, r)

pub sort-Chain : (hi : ℕ) (segs : List Seg) → Chain hi segs → sort_segs segs ≡ segs
unfolding sort_segs
sort-Chain hi [] k = refl
sort-Chain hi (s ∷ []) k = refl
sort-Chain hi (s ∷ t ∷ older) (e, o, (e', o', r)) =
    ap (insert_seg s) (sort-Chain s.start (t ∷ older) (e', o', r)) ∙ ground arith

pub nth?-append : (xs ys : List ℕ) (i : ℕ) → i < length xs → nth? (xs ++ ys) i ≡ nth? xs i
nth?-append [] ys i h = absurd (omega arith)
nth?-append (x ∷ xs) ys zero h = refl
nth?-append (x ∷ xs) ys (suc i) h = nth?-append xs ys i (omega arith)

pub nth?-take : (n : ℕ) (xs : List ℕ) (i : ℕ) → i < n → nth? (take n xs) i ≡ nth? xs i
nth?-take zero xs i h = absurd (omega arith)
nth?-take (suc n) [] i h = refl
nth?-take (suc n) (x ∷ xs) zero h = refl
nth?-take (suc n) (x ∷ xs) (suc i) h = nth?-take n xs i (omega arith)

-- Nothing stands at or behind the end of a chain.
pub byte_in_behind :
    (hi : ℕ) (segs : List Seg) (p : ℕ) → Chain hi segs → hi ≤ p → byte_in segs p ≡ none
unfolding byte_in
byte_in_behind hi [] p k h = refl
byte_in_behind hi (s ∷ older) p (e, o, r) h = ground (arith, byte_in_behind s.start older p r)

module _ (lsn : ℕ) where
  -- Deleting from `lsn` on keeps a chain, and every byte below `lsn`.
  pub delete_from-Chain :
      (hi : ℕ) (segs : List Seg) (os : List Io)
      → Chain hi segs
      → Chain hi (delete_from lsn segs os).1
  unfolding delete_from
  delete_from-Chain hi [] os k = tt
  delete_from-Chain hi (s ∷ older) os (e, o, r) =
      ground
        (arith, delete_from-Chain hi older (rest_io os) (Chain-le s.start hi older (omega arith) r))

  pub delete_from-byte :
      (hi : ℕ) (segs : List Seg) (os : List Io) (p : ℕ)
      → Chain hi segs
      → p < lsn
      → byte_in (delete_from lsn segs os).1 p ≡ byte_in segs p
  unfolding delete_from byte_in
  delete_from-byte hi [] os p k h = refl
  delete_from-byte hi (s ∷ older) os p (e, o, r) h =
      ground (arith, delete_from-byte s.start older (rest_io os) p r)

  abbrev pub StartsBelow : List Seg → Type 0
  StartsBelow [] = Unit {0}
  StartsBelow (s ∷ older) = s.start < lsn

  pub delete_from-StartsBelow :
      (segs : List Seg) (os : List Io)
      → (delete_from lsn segs os).0 ≡ true
      → StartsBelow (delete_from lsn segs os).1
  unfolding delete_from
  delete_from-StartsBelow [] os h = tt
  delete_from-StartsBelow (s ∷ older) os h =
      if_cases Goal (ltb s.start lsn) _ _ (λ below _. ltb→lt s.start lsn below)
        (λ _. deleted (delete_from-StartsBelow older (rest_io os)) (next_io os)) h
    where
      Goal : Bool × List Seg × List Io → Type 0
      Goal x = x.0 ≡ true → StartsBelow x.1

      deleted :
          Goal (delete_from lsn older (rest_io os))
          → (o : Io)
          → Goal (elim o [
            | done ↦ delete_from lsn older (rest_io os)
            | failed _ ↦ (false, s ∷ older, rest_io os)
          ])
      deleted rest done g = rest g
      deleted rest (failed n) g = cc

  pub cut_last-Chain :
      (hi : ℕ) (segs : List Seg) (os : List Io)
      → StartsBelow segs
      → Chain hi segs
      → Chain hi (cut_last lsn segs os).1
  cut_last-Chain hi [] os b k = tt
  cut_last-Chain hi (s ∷ older) os b (e, o, r) =
      if_cases Goal (ltb lsn s.end) _ _ (λ inside. cut inside (next_io os)) (λ _. (e, o, r))
    where
      Goal : Bool × List Seg × List Io → Type 0
      Goal x = Chain hi x.1

      s' : Seg
      s' = record s { end = lsn; bytes = take (lsn - s.start) s.bytes }

      shorter : ltb lsn s.end ≡ true → Chain hi (s' ∷ older)
      shorter inside = let below = ltb→lt lsn s.end inside in (omega arith, omega arith, r)

      cut :
          ltb lsn s.end ≡ true
          → (x : Io)
          → Goal (elim x [
            | failed zero ↦ (false, s ∷ older, rest_io os)
            | failed (suc _) ↦ (false, record s { bytes = s'.bytes } ∷ older, rest_io os)
            | done ↦ (true, (if s'.end == s'.start then older else s' ∷ older), rest_io os)
          ])
      cut inside (failed zero) = (e, o, r)
      cut inside (failed (suc n)) = (e, o, r)
      cut inside done =
          if_cases (Chain hi) (s'.end == s'.start) older (s' ∷ older)
            (λ _. Chain-le s.start hi older (omega arith) r) (λ _. shorter inside)

  -- Where the cut is made, the chain ends at it.
  pub cut_last-end :
      (hi : ℕ) (segs : List Seg) (os : List Io)
      → StartsBelow segs
      → Chain hi segs
      → (cut_last lsn segs os).0 ≡ true
      → Chain lsn (cut_last lsn segs os).1
  cut_last-end hi [] os b k d = tt
  cut_last-end hi (s ∷ older) os b (e, o, r) d =
      if_cases Goal (ltb lsn s.end) _ _ (λ inside. cut inside (next_io os))
        (λ outside _. (ground arith, o, r)) d
    where
      Goal : Bool × List Seg × List Io → Type 0
      Goal x = x.0 ≡ true → Chain lsn x.1

      s' : Seg
      s' = record s { end = lsn; bytes = take (lsn - s.start) s.bytes }

      cut :
          ltb lsn s.end ≡ true
          → (x : Io)
          → Goal (elim x [
            | failed zero ↦ (false, s ∷ older, rest_io os)
            | failed (suc _) ↦ (false, record s { bytes = s'.bytes } ∷ older, rest_io os)
            | done ↦ (true, (if s'.end == s'.start then older else s' ∷ older), rest_io os)
          ])
      cut inside (failed zero) d = cc
      cut inside (failed (suc n)) d = cc
      cut inside done d =
          if_cases (Chain lsn) (s'.end == s'.start) older (s' ∷ older)
            (λ _. Chain-le s.start lsn older (omega arith) r) (λ _. (omega arith, omega arith, r))

  pub cut_last-byte :
      (hi : ℕ) (segs : List Seg) (os : List Io) (p : ℕ)
      → Chain hi segs
      → p < lsn
      → byte_in (cut_last lsn segs os).1 p ≡ byte_in segs p
  unfolding byte_in
  cut_last-byte hi [] os p k h = refl
  cut_last-byte hi (s ∷ older) os p (e, o, r) h =
      ground (arith, nth?-take (lsn - s.start) s.bytes (p - s.start))

  -- Collecting below a horizon keeps a chain, and every byte at or behind the horizon.
  collect_one-Chain :
      (hi : ℕ) (s : Seg) (x : List Seg × Bool × List Io)
      → s.end ≤ hi
      → s.start ≤ s.end
      → Chain s.start x.0
      → Chain hi (collect_one lsn s x).0
  collect_one-Chain hi s (kept, false, os) e o k = (e, o, k)
  collect_one-Chain hi s (kept, true, os) e o k =
      if_cases Goal (ltb lsn s.end) _ _ (λ _. (e, o, k)) (λ _. removed (next_io os))
    where
      Goal : List Seg × Bool × List Io → Type 0
      Goal x = Chain hi x.0

      removed :
          (i : Io)
          → Goal (elim i [
            | done ↦ (kept, true, rest_io os)
            | failed _ ↦ (s ∷ kept, false, rest_io os)
          ])
      removed done = Chain-le s.start hi kept (omega arith) k
      removed (failed n) = (e, o, k)

  pub collect_below-Chain :
      (hi : ℕ) (segs : List Seg) (os : List Io)
      → Chain hi segs
      → Chain hi (collect_below lsn segs os).0
  unfolding collect_below
  collect_below-Chain hi [] os k = tt
  collect_below-Chain hi (s ∷ older) os (e, o, r) =
      collect_one-Chain hi s (collect_below lsn older os) e o
        (collect_below-Chain s.start older os r)

  pub collect_below-byte :
      (hi : ℕ) (segs : List Seg) (os : List Io) (p : ℕ)
      → Chain hi segs
      → lsn ≤ p
      → byte_in (collect_below lsn segs os).0 p ≡ byte_in segs p
  unfolding collect_below byte_in
  collect_below-byte hi [] os p k h = refl
  collect_below-byte hi (s ∷ older) os p (e, o, r) h =
      ground (arith, collect_below-byte s.start older os p r)
