-- ===== src/Tail/Safe.antt =====
-- What the events of a segment keep: how far its syncs reach, what its file holds, which frames and
-- sequences they cover.
use icegres.Prelude.{
  ℕ, zero, suc, ◌≤◌, ◌<◌, ◌≡◌, refl, Option, none, some, List, [], ◌∷◌, Bool, true, false, leb, max,
  min, All, arith, nth?, leb→le, Bool-cases, ◌⊎◌, inl, inr, subst,
}
use icegres.Prelude.Maps.{some_eq}
use icegres.Tail.{TailSegment, create}

-- Sequences that fall from below `hi`.
abbrev pub Descending : ℕ → List (ℕ × ℕ) → Type 0
Descending hi [] = Unit {0}
Descending hi ((seq, end) ∷ fs) = (seq < hi) × Descending seq fs

-- The part of the file that a replay reads.
abbrev pub readable : Option ℕ → ℕ → ℕ
readable none file_len = file_len
readable (some k) file_len = min k file_len

-- Before the cleanup the file holds all that was written; after it, what was synced.
abbrev pub Holds : Bool → ℕ → ℕ → Option ℕ → ℕ → Type 0
Holds false good_len synced_len clamp file_len = (clamp ≡ none) × (good_len ≤ file_len)
Holds true good_len synced_len clamp file_len = synced_len ≤ readable clamp file_len

-- Frames that end within `len` have sequences up to `seq`.
abbrev pub Covers : ℕ → ℕ → List (ℕ × ℕ) → Type 0
Covers len seq fs = All (λ f. f.1 ≤ len → f.0 ≤ seq) fs

abbrev pub LeaderAt : Option (ℕ × ℕ) → Bool → ℕ → ℕ → List (ℕ × ℕ) → Type 0
LeaderAt none syncing written_len written_seq staged = syncing ≡ false
LeaderAt (some (len, seq)) syncing written_len written_seq staged =
    (syncing ≡ true) × (len ≤ written_len) × (seq ≤ written_seq) × Covers len seq staged

-- What a segment was sealed with covers all that was or may yet be synced.
abbrev pub SealedAt : Option ℕ → Bool → Bool → ℕ → ℕ → Type 0
SealedAt none active cleaned synced_seq written_seq = Unit {0}
SealedAt (some seq) active cleaned synced_seq written_seq =
    (active ≡ false) × (synced_seq ≤ seq) × (cleaned ≡ false → written_seq ≤ seq)

pub record IsSafe (s : TailSegment) : Type 0 where
  pub stable : s.sync.synced_len ≤ s.stable_len
  pub written : s.sync.written_len ≡ s.good_len
  pub within : s.sync.synced_len ≤ s.good_len
  pub holds : Holds s.sync.cleaned s.good_len s.sync.synced_len s.clamp s.file_len
  pub sealed : s.sync.cleaned ≡ true → (s.active ≡ false) × (s.sync.failed ≡ true)
  pub leading : LeaderAt s.leader s.sync.syncing s.sync.written_len s.sync.written_seq s.staged
  pub bounded : All (λ f. (f.1 ≤ s.good_len) × (f.0 ≤ s.sync.written_seq)) s.staged
  pub covered : Covers s.sync.synced_len s.sync.synced_seq s.staged
  pub ordered : Descending s.next_seq s.staged
  pub numbered : s.sync.written_seq ≤ s.next_seq
  pub behind : s.sync.synced_seq ≤ s.sync.written_seq
  pub last : (s.max_seq ≡ 0) ⊎ (s.max_seq ≡ s.sync.written_seq)
  pub counted : SealedAt s.sealed_seq s.active s.sync.cleaned s.sync.synced_seq s.sync.written_seq
  pub kept : All (λ f. (f.1 ≤ s.sync.synced_len) × (f.0 ≤ s.sync.synced_seq)) s.acked

pub create-IsSafe : (next_seq : ℕ) → IsSafe (create next_seq)
create-IsSafe next_seq = record {
  stable = omega arith;
  written = refl;
  within = omega arith;
  holds = (refl, omega arith);
  sealed = λ e. cc;
  leading = refl;
  bounded = tt;
  covered = tt;
  ordered = tt;
  numbered = omega arith;
  behind = omega arith;
  last = inl refl;
  counted = tt;
  kept = tt;
}

pub Descending-le : (a b : ℕ) (fs : List (ℕ × ℕ)) → a ≤ b → Descending a fs → Descending b fs
Descending-le a b [] l h = tt
Descending-le a b ((seq, end) ∷ fs) l (x, h) = (omega arith, h)

pub bounded_up :
    (l l' q q' : ℕ) (fs : List (ℕ × ℕ))
    → l ≤ l'
    → q ≤ q'
    → All (λ f. (f.1 ≤ l) × (f.0 ≤ q)) fs
    → All (λ f. (f.1 ≤ l') × (f.0 ≤ q')) fs
bounded_up l l' q q' [] a b h = tt
bounded_up l l' q q' (f ∷ fs) a b ((x, y), h) =
    ((omega arith, omega arith), bounded_up l l' q q' fs a b h)

pub Covers-written :
    (len seq : ℕ) (fs : List (ℕ × ℕ)) → All (λ f. (f.1 ≤ len) × (f.0 ≤ seq)) fs → Covers len seq fs
Covers-written len seq [] h = tt
Covers-written len seq (f ∷ fs) ((x, y), h) = ((λ _. y), Covers-written len seq fs h)

pub Covers-max :
    (l l' q q' : ℕ) (fs : List (ℕ × ℕ))
    → Covers l q fs
    → Covers l' q' fs
    → Covers (max l l') (max q q') fs
Covers-max l l' q q' [] h k = tt
Covers-max l l' q q' (f ∷ fs) (x, h) (y, k) = (either, Covers-max l l' q q' fs h k)
  where
    either : f.1 ≤ max l l' → f.0 ≤ max q q'
    either e = max_either (Bool-cases (leb f.1 l))
      where
        max_either : (leb f.1 l ≡ true) ⊎ (leb f.1 l ≡ false) → f.0 ≤ max q q'
        max_either (inl a) = omega (arith, x (leb→le f.1 l a))
        max_either (inr a) = omega (arith, y (ground arith))

pub Covers-nth? :
    (len seq : ℕ) (fs : List (ℕ × ℕ)) (i : ℕ) (f : ℕ × ℕ)
    → Covers len seq fs
    → nth? fs i ≡ some f
    → f.1 ≤ len
    → f.0 ≤ seq
Covers-nth? len seq [] i f c h l = cc
Covers-nth? len seq (x ∷ fs) zero f (c, cs) h l =
    subst (λ (y : ℕ × ℕ). y.1 ≤ len → y.0 ≤ seq) (some_eq h) c l
Covers-nth? len seq (x ∷ fs) (suc i) f (c, cs) h l = Covers-nth? len seq fs i f cs h l

pub Holds-change :
    (b : Bool) (g g' l l' : ℕ) (c : Option ℕ) (f f' : ℕ)
    → b ≡ false
    → g' ≤ f'
    → Holds b g l c f
    → Holds b g' l' c f'
Holds-change false g g' l l' c f f' e k h = (h.0, k)
Holds-change true g g' l l' c f f' e k h = cc

pub Holds-same :
    (b : Bool) (g l l' : ℕ) (c : Option ℕ) (f : ℕ) → b ≡ false → Holds b g l c f → Holds b g l' c f
Holds-same false g l l' c f e h = h
Holds-same true g l l' c f e h = cc

pub Holds-file :
    (b : Bool) (g l : ℕ) (c : Option ℕ) (f : ℕ) → b ≡ false → l ≤ g → Holds b g l c f → l ≤ f
Holds-file false g l c f e k (_, h) = omega arith
Holds-file true g l c f e k h = cc

pub Holds-cleaned :
    (b : Bool) (g l : ℕ) (c : Option ℕ) (f : ℕ) → l ≤ g → Holds b g l c f → l ≤ readable c f
Holds-cleaned false g l c f k (e, h) = rw e (omega arith)
Holds-cleaned true g l c f k h = h

-- A segment that is active was not cleaned.
pub not_cleaned : (s : TailSegment) → IsSafe s → s.active ≡ true → s.sync.cleaned ≡ false
not_cleaned s h a = either (Bool-cases s.sync.cleaned)
  where
    either : (s.sync.cleaned ≡ true) ⊎ (s.sync.cleaned ≡ false) → s.sync.cleaned ≡ false
    either (inl c) = let (off, _) = h.sealed c in cc
    either (inr c) = c

pub LeaderAt-stage :
    (o : Option (ℕ × ℕ)) (syncing : Bool) (l l' w q : ℕ) (fs : List (ℕ × ℕ))
    → l < l'
    → w ≤ q
    → LeaderAt o syncing l w fs
    → LeaderAt o syncing l' q ((q, l') ∷ fs)
LeaderAt-stage none syncing l l' w q fs k j h = h
LeaderAt-stage (some (len, seq)) syncing l l' w q fs k j (on, a, b, c) =
    (on, omega arith, omega arith, ((λ e. absurd (omega arith)), c))

pub SealedAt-active :
    (o : Option ℕ) (a b : Bool) (x y x' y' : ℕ)
    → a ≡ true
    → SealedAt o a b x y
    → SealedAt o a b x' y'
SealedAt-active none a b x y x' y' on h = tt
SealedAt-active (some q) a b x y x' y' on (off, _, _) = cc

pub SealedAt-sync :
    (o : Option ℕ) (a b : Bool) (x x' y : ℕ)
    → b ≡ false
    → x' ≤ y
    → SealedAt o a b x y
    → SealedAt o a b x' y
SealedAt-sync none a b x x' y e l h = tt
SealedAt-sync (some q) a b x x' y e l (off, _, w) = (off, omega (arith, w e), w)

pub SealedAt-cleaned :
    (o : Option ℕ) (a b : Bool) (x y : ℕ) → SealedAt o a b x y → SealedAt o a true x y
SealedAt-cleaned none a b x y h = tt
SealedAt-cleaned (some q) a b x y (off, l, w) = (off, l, (λ e. cc))
