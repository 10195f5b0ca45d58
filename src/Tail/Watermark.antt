-- ===== src/Tail/Watermark.antt =====
-- icegres/src/tail.rs, `truncate`: the files whose frames a commit covers are removed from the disk. A
-- segment carries the frames of its file. Whether a file can be removed is read off a list of
-- outcomes; when it is used up every removal succeeds.
use icegres.Prelude.{
  ℕ, ◌≤◌, ◌<◌, ◌≡◌, refl, sym, ap, ◌∙◌, Option, none, some, List, [], ◌∷◌, ◌++◌, Bool, true, false,
  ◌&&◌, All, arith, leb, ltb, if◌then◌else◌, if_cases, append_assoc, append-nil, ap₂,
}

module _ {A : Type 0} where
  -- The frames that a commit up to `w` does not cover.
  abbrev pub above : ℕ → List (ℕ × A) → List (ℕ × A)
  above w [] = []
  above w ((seq, op) ∷ fs) = let rest = above w fs in if ltb w seq then (seq, op) ∷ rest else rest

pub record TailFile (A : Type 0) : Type 0 where
  pub max_seq : ℕ
  pub frames : List (ℕ × A)

-- The files of a table in the order of their names: those that are sealed, those that the table no
-- longer knows but that could not be removed, and the active one.
pub record TableFiles (A : Type 0) : Type 0 where
  pub sealed : List (TailFile A)
  pub forgotten : List (TailFile A)
  pub active : Option (TailFile A)

abbrev pub next_outcome : List Bool → Bool
next_outcome [] = true
next_outcome (b ∷ bs) = b

abbrev pub rest_outcomes : List Bool → List Bool
rest_outcomes [] = []
rest_outcomes (b ∷ bs) = bs

module _ {A : Type 0} where
  -- `entry.sealed.retain(...)`: what stays, whether every removal succeeded, the outcomes left.
  abbrev pub retain : ℕ → List (TailFile A) → List Bool → List (TailFile A) × Bool × List Bool
  retain upto [] os = ([], true, os)
  retain upto (f ∷ fs) os =
      let (kept, fine, os') =
        retain upto fs (if ltb upto f.max_seq then os else rest_outcomes os) in
      if ltb upto f.max_seq
      then (f ∷ kept, fine, os')
      else if next_outcome os
      then (kept, fine, os')
      else (f ∷ kept, false, os')

  abbrev pub remove_active :
      TableFiles A → ℕ → Option (TailFile A) → Bool → List Bool → Bool × TableFiles A
  remove_active t upto none fine os = (fine, t)
  remove_active t upto (some f) fine os =
      if ltb 0 f.max_seq && leb f.max_seq upto
      then if next_outcome os
        then (fine, record t { active = none })
        else (false, record t { active = none; forgotten = t.forgotten ++ (f ∷ []) })
      else (fine, t)

  unfoldable pub truncate : TableFiles A → ℕ → List Bool → Bool × TableFiles A
  truncate t upto os =
      let (kept, fine, os') = retain upto t.sealed os in
      remove_active (record t { sealed = kept }) upto t.active fine os'

  abbrev pub frames_in : List (TailFile A) → List (ℕ × A)
  frames_in [] = []
  frames_in (f ∷ fs) = f.frames ++ frames_in fs

  abbrev pub active_frames : Option (TailFile A) → List (ℕ × A)
  active_frames none = []
  active_frames (some f) = f.frames

  -- The frames on the disk, file by file.
  abbrev pub frames_of : TableFiles A → List (ℕ × A)
  frames_of t = frames_in t.sealed ++ (frames_in t.forgotten ++ active_frames t.active)

  -- No frame has a higher sequence than its file is known by.
  abbrev pub IsCapped : TailFile A → Type 0
  IsCapped f = All (λ x. x.0 ≤ f.max_seq) f.frames

  abbrev pub IsCappedActive : Option (TailFile A) → Type 0
  IsCappedActive none = Unit {0}
  IsCappedActive (some f) = IsCapped f

  above-append : (w : ℕ) (xs ys : List (ℕ × A)) → above w (xs ++ ys) ≡ above w xs ++ above w ys
  above-append w [] ys = refl
  above-append w ((seq, op) ∷ xs) ys = ground (arith, above-append w xs ys)

  above_all : (w m : ℕ) (xs : List (ℕ × A)) → m ≤ w → All (λ x. x.0 ≤ m) xs → above w xs ≡ []
  above_all w m [] l h = refl
  above_all w m ((seq, op) ∷ xs) l (x, h) = ground (arith, above_all w m xs)

  module _ (upto w : ℕ) (covers : upto ≤ w) where
    retain-above :
        (fs : List (TailFile A)) (os : List Bool)
        → All IsCapped fs
        → above w (frames_in (retain upto fs os).0) ≡ above w (frames_in fs)
    retain-above [] os h = refl
    retain-above (f ∷ fs) os (hf, h) =
        let os' = if ltb upto f.max_seq then os else rest_outcomes os in
        let rest = retain-above fs os' h in
        let kept = (retain upto fs os').0 in
        let keep =
          above-append w f.frames (frames_in kept)
          ∙ ap (λ t. above w f.frames ++ t) rest
          ∙ sym (above-append w f.frames (frames_in fs)) in
        if_cases P (ltb upto f.max_seq) _ _ (λ _. keep)
          λ low.
            let gone : above w f.frames ≡ [] = above_all w f.max_seq f.frames (ground arith) hf in
            if_cases P (next_outcome os) _ _
              (λ _.
                rest
                ∙ sym (
                    above-append w f.frames (frames_in fs)
                    ∙ ap (λ t. t ++ above w (frames_in fs)) gone))
              (λ _. keep)
      where
        P : List (TailFile A) × Bool × List Bool → Type 0
        P x = above w (frames_in x.0) ≡ above w (frames_in (f ∷ fs))

    frames_in-append :
        (xs : List (TailFile A)) (f : TailFile A)
        → frames_in (xs ++ (f ∷ [])) ≡ frames_in xs ++ f.frames
    frames_in-append [] f = append-nil f.frames
    frames_in-append (x ∷ xs) f =
        ap (λ t. x.frames ++ t) (frames_in-append xs f)
        ∙ sym (append_assoc x.frames (frames_in xs) f.frames)

    -- The frames of the parts of a table.
    parts_above :
        (t t' : TableFiles A)
        → above w (frames_in t'.sealed) ≡ above w (frames_in t.sealed)
        → above w (frames_in t'.forgotten ++ active_frames t'.active)
          ≡ above w (frames_in t.forgotten ++ active_frames t.active)
        → above w (frames_of t') ≡ above w (frames_of t)
    parts_above t t' a b =
        above-append w (frames_in t'.sealed) (frames_in t'.forgotten ++ active_frames t'.active)
        ∙ ap₂ (λ x y. x ++ y) a b
        ∙ sym
            (above-append w (frames_in t.sealed) (frames_in t.forgotten ++ active_frames t.active))

    remove_active-above :
        (t : TableFiles A) (o : Option (TailFile A)) (fine : Bool) (os : List Bool)
        → IsCappedActive o
        → t.active ≡ o
        → above w (frames_of (remove_active t upto o fine os).1) ≡ above w (frames_of t)
    remove_active-above t none fine os c e = refl
    remove_active-above t (some f) fine os c e =
        if_cases P (ltb 0 f.max_seq && leb f.max_seq upto) _ _
          (λ low.
            let gone : above w f.frames ≡ [] = above_all w f.max_seq f.frames (ground arith) c in
            let whole : above w (frames_in t.forgotten ++ active_frames t.active)
                ≡ above w (frames_in t.forgotten ++ f.frames) =
              ap (λ x. above w (frames_in t.forgotten ++ active_frames x)) e in
            if_cases P (next_outcome os) _ _
              (λ _.
                parts_above t (record t { active = none }) refl
                  (above-append w (frames_in t.forgotten) []
                    ∙ ap (λ x. above w (frames_in t.forgotten) ++ x) (sym gone)
                    ∙ sym (above-append w (frames_in t.forgotten) f.frames)
                    ∙ sym whole))
              (λ _.
                parts_above t (record t { active = none; forgotten = t.forgotten ++ (f ∷ []) }) refl
                  (ap (above w) (append-nil _ ∙ frames_in-append t.forgotten f) ∙ sym whole)))
          (λ _. refl)
      where
        P : Bool × TableFiles A → Type 0
        P x = above w (frames_of x.1) ≡ above w (frames_of t)

    truncate-above :
        (t : TableFiles A) (os : List Bool)
        → All IsCapped t.sealed
        → IsCappedActive t.active
        → above w (frames_of (truncate t upto os).1) ≡ above w (frames_of t)
    unfolding truncate
    truncate-above t os h c =
        let (kept, fine, os') = retain upto t.sealed os in
        remove_active-above (record t { sealed = (retain upto t.sealed os).0 }) t.active
          (retain upto t.sealed os).1 (retain upto t.sealed os).2 c refl
        ∙ parts_above t (record t { sealed = (retain upto t.sealed os).0 })
            (retain-above t.sealed os h) refl

  abbrev pub IsAbove : ℕ → List (TailFile A) → Type 0
  IsAbove upto fs = All (λ f. upto < f.max_seq) fs

  retain-IsAbove :
      (upto : ℕ) (fs : List (TailFile A)) (os : List Bool)
      → (retain upto fs os).1 ≡ true
      → IsAbove upto (retain upto fs os).0
  retain-IsAbove upto [] os h = tt
  retain-IsAbove upto (f ∷ fs) os h =
      let rest = retain-IsAbove upto fs (if ltb upto f.max_seq then os else rest_outcomes os) in
      if_cases Goal (ltb upto f.max_seq) _ _ (λ high fine. (ground arith, rest fine))
        (λ low. if_cases Goal (next_outcome os) _ _ (λ _ fine. rest fine) (λ _ no. cc)) h
    where
      Goal : List (TailFile A) × Bool × List Bool → Type 0
      Goal x = x.1 ≡ true → IsAbove upto x.0

  remove_active-sealed :
      (t : TableFiles A) (upto : ℕ) (o : Option (TailFile A)) (fine : Bool) (os : List Bool)
      → (remove_active t upto o fine os).0 ≡ true
      → (fine ≡ true) × ((remove_active t upto o fine os).1.sealed ≡ t.sealed)
  remove_active-sealed t upto none fine os h = (h, refl)
  remove_active-sealed t upto (some f) fine os h = (ground arith, ground arith)

  -- A truncation of files whose frames do not exceed the sequences that they are known by: whichever
  -- files cannot be removed, the frames above the covered sequence that are on the disk stay, in
  -- their order; and where it reports success, no sealed file is left that is covered as a whole.
  pub truncate-keeps :
      (t : TableFiles A) (upto : ℕ) (os : List Bool)
      → All IsCapped t.sealed
      → IsCappedActive t.active
      → (above upto (frames_of (truncate t upto os).1) ≡ above upto (frames_of t))
        × ((truncate t upto os).0 ≡ true → IsAbove upto (truncate t upto os).1.sealed)
  truncate-keeps t upto os h c = (
    truncate-above upto upto (omega arith) t os h c,
    unfold truncate in
        λ fine.
          let (kept, all, os') = retain upto t.sealed os in
          let (done, same) =
            remove_active-sealed (record t { sealed = (retain upto t.sealed os).0 }) upto t.active
              (retain upto t.sealed os).1 (retain upto t.sealed os).2 fine in
          rw same (retain-IsAbove upto t.sealed os done),
  )
