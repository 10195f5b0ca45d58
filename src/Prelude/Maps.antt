-- ===== src/Prelude/Maps.antt =====
-- Hash maps as lists of keys and entries, over a type of keys with a test of equality, and the entry
-- that was used least recently.
use Prim.Native.Nat.{ℕ, suc, ◌≤◌}
use mathlib.Core.Path.{◌≡◌, refl, sym, ap, ap₂, ◌∙◌, subst}
use mathlib.Core.Logic.{◌↔◌, ◌⊎◌, inl, inr}
use mathlib.Core.Bool.{Bool, true, false}
use mathlib.Core.Option.{Option, none, some}
use mathlib.Core.List.{List, [], ◌∷◌}
use native.Mathlib.Omega.{arith}
use icegres.Prelude.Tests.{ltb, if◌then◌else◌, if_cases, Bool-cases}
use icegres.Prelude.Lists.{length, All}

pub some_eq {ℓ} : {A : Type ℓ} {a b : A} → some a ≡ some b → a ≡ b
some_eq h = cc

some-ne-none {ℓ} : {A : Type ℓ} {a : A} → some a ≡ none → ⊥
some-ne-none h = cc

pub record Keys : Type 1 where
  pub Key : Type 0
  pub same : Key → Key → Bool
  pub same_iff : (a b : Key) → (same a b ≡ true) ↔ (a ≡ b)

abbrev pub Map : Keys → Type 0 → Type 0
Map ks E = List (ks.Key × E)

module _ (ks : Keys) {E : Type 0} where
  abbrev pub get : ks.Key → Map ks E → Option E
  get k [] = none
  get k ((j, e) ∷ m) = let rest = get k m in if ks.same k j then some e else rest

  abbrev pub remove : ks.Key → Map ks E → Map ks E
  remove k [] = []
  remove k ((j, e) ∷ m) = let rest = remove k m in if ks.same k j then rest else (j, e) ∷ rest

  -- The entry of a key that the map has, overwritten in place.
  abbrev pub overwrite : ks.Key → E → Map ks E → Map ks E
  overwrite k x [] = []
  overwrite k x ((j, e) ∷ m) =
      let rest = overwrite k x m in if ks.same k j then (j, x) ∷ m else (j, e) ∷ rest

  abbrev pub put : ks.Key → E → Map ks E → Map ks E
  put k x m = (k, x) ∷ remove k m

  -- Every key has one entry.
  abbrev pub Distinct : Map ks E → Type 0
  Distinct [] = Unit {0}
  Distinct ((k, e) ∷ m) = (get k m ≡ none) × Distinct m

  abbrev pub IsIn : ks.Key × E → Map ks E → Type 0
  IsIn x [] = ⊥
  IsIn x (y ∷ m) = (x ≡ y) ⊎ IsIn x m

  get-IsIn_ne :
      (k j : ks.Key) (e : E) (m : Map ks E) → get j m ≡ none → IsIn (k, e) m → ks.same k j ≡ false
  get-IsIn_ne k j e [] h i = absurd i
  get-IsIn_ne k j e ((x, f) ∷ m) h (inr i) =
      if_cases (λ o. o ≡ none → ks.same k j ≡ false) (ks.same j x) (some f) (get j m) (λ _ s. cc)
        (λ _ n. get-IsIn_ne k j e m n i) h
  get-IsIn_ne k j e ((x, f) ∷ m) h (inl i) = either (Bool-cases (ks.same k j))
    where
      either : (ks.same k j ≡ true) ⊎ (ks.same k j ≡ false) → ks.same k j ≡ false
      either (inr n) = n
      either (inl y) =
          let at : j ≡ x = sym ((ks.same_iff k j).0 y) ∙ ap (λ z. z.0) i in
          absurd (some-ne-none (rw ((ks.same_iff j x).1 at) at h))

  pub get-IsIn : (k : ks.Key) (e : E) (m : Map ks E) → Distinct m → IsIn (k, e) m → get k m ≡ some e
  get-IsIn k e [] d i = absurd i
  get-IsIn k e ((j, f) ∷ m) (new, d) (inl i) =
      rw ((ks.same_iff k j).1 (ap (λ x. x.0) i)) (ap some (sym (ap (λ x. x.1) i)))
  get-IsIn k e ((j, f) ∷ m) (new, d) (inr i) = rw (get-IsIn_ne k j e m new i) (get-IsIn k e m d i)

  pub get-remove : (k : ks.Key) (m : Map ks E) → get k (remove k m) ≡ none
  get-remove k [] = refl
  get-remove k ((j, e) ∷ m) = ground (arith, get-remove k m)

  pub get-remove_other :
      (k j : ks.Key) (m : Map ks E) → ks.same j k ≡ false → get j (remove k m) ≡ get j m
  get-remove_other k j [] h = refl
  get-remove_other k j ((i, e) ∷ m) h =
      if_cases (λ x. get j x ≡ get j ((i, e) ∷ m)) (ks.same k i) (remove k m) _
        (λ same.
          let k_i : k ≡ i = (ks.same_iff k i).0 same in
          let off : ks.same j i ≡ false = ap (ks.same j) (sym k_i) ∙ h in
          rw off (get-remove_other k j m h))
        (λ _. rw (get-remove_other k j m h) refl)

  pub get-remove-none : (k j : ks.Key) (m : Map ks E) → get j m ≡ none → get j (remove k m) ≡ none
  get-remove-none k j m h = either (Bool-cases (ks.same j k))
    where
      either : (ks.same j k ≡ true) ⊎ (ks.same j k ≡ false) → get j (remove k m) ≡ none
      either (inl e) = rw ((ks.same_iff j k).0 e) (get-remove k m)
      either (inr e) = get-remove_other k j m e ∙ h

  pub remove-Distinct : (k : ks.Key) (m : Map ks E) → Distinct m → Distinct (remove k m)
  remove-Distinct k [] h = tt
  remove-Distinct k ((j, e) ∷ m) (new, h) =
      if_cases Distinct (ks.same k j) (remove k m) _ (λ _. remove-Distinct k m h)
        (λ _. (get-remove-none k j m new, remove-Distinct k m h))

  pub put-Distinct : (k : ks.Key) (e : E) (m : Map ks E) → Distinct m → Distinct (put k e m)
  put-Distinct k e m h = (get-remove k m, remove-Distinct k m h)

  pub get-overwrite-none :
      (k j : ks.Key) (x : E) (m : Map ks E) → get j m ≡ none → get j (overwrite k x m) ≡ none
  get-overwrite-none k j x [] h = refl
  get-overwrite-none k j x ((i, e) ∷ m) h = ground (arith, get-overwrite-none k j x m)

  pub overwrite-Distinct :
      (k : ks.Key) (x : E) (m : Map ks E) → Distinct m → Distinct (overwrite k x m)
  overwrite-Distinct k x [] h = tt
  overwrite-Distinct k x ((j, e) ∷ m) (new, h) =
      if_cases Distinct (ks.same k j) ((j, x) ∷ m) _ (λ _. (new, h))
        (λ _. (get-overwrite-none k j x m new, overwrite-Distinct k x m h))

  pub length-overwrite : (k : ks.Key) (x : E) (m : Map ks E) → length (overwrite k x m) ≡ length m
  length-overwrite k x [] = refl
  length-overwrite k x ((j, e) ∷ m) = ground (arith, length-overwrite k x m)

  pub length-remove : (k : ks.Key) (m : Map ks E) → length (remove k m) ≤ length m
  length-remove k [] = omega arith
  length-remove k ((j, e) ∷ m) = ground (arith, length-remove k m)

  pub get-overwrite :
      (k : ks.Key) (x : E) (m : Map ks E) (e : E)
      → get k m ≡ some e
      → get k (overwrite k x m) ≡ some x
  get-overwrite k x [] e h = cc
  get-overwrite k x ((j, f) ∷ m) e h = ground (arith, get-overwrite k x m e)

  pub remove-none : (k : ks.Key) (m : Map ks E) → get k m ≡ none → remove k m ≡ m
  remove-none k [] h = refl
  remove-none k ((j, e) ∷ m) h = ground (arith, remove-none k m)

  pub length-remove-some :
      (k : ks.Key) (m : Map ks E) (e : E)
      → Distinct m
      → get k m ≡ some e
      → length m ≡ suc (length (remove k m))
  length-remove-some k [] e d h = cc
  length-remove-some k ((j, f) ∷ m) e (new, d) h =
      either (Bool-cases (ks.same k j)) (length-remove-some k m e d)
    where
      either :
          (ks.same k j ≡ true) ⊎ (ks.same k j ≡ false)
          → (get k m ≡ some e → length m ≡ suc (length (remove k m)))
          → suc (length m) ≡ suc (length (remove k ((j, f) ∷ m)))
      either (inl y) rest =
          let gone : get k m ≡ none = ap (λ x. get x m) ((ks.same_iff k j).0 y) ∙ new in
          rw (y, remove-none k m gone) refl
      either (inr n) rest = let at : get k m ≡ some e = rw n at h in rw n (ap suc (rest at))

  -- What holds of every entry holds of every entry that stays.
  module _ (P : ks.Key × E → Type 0) where
    pub All-remove : (k : ks.Key) (m : Map ks E) → All P m → All P (remove k m)
    All-remove k [] h = tt
    All-remove k ((j, e) ∷ m) (he, h) =
        if_cases (All P) (ks.same k j) (remove k m) _ (λ _. All-remove k m h)
          (λ _. (he, All-remove k m h))

    pub All-overwrite :
        (k : ks.Key) (x : E) (m : Map ks E)
        → ((j : ks.Key) → P (j, x))
        → All P m
        → All P (overwrite k x m)
    All-overwrite k x [] hx h = tt
    All-overwrite k x ((j, e) ∷ m) hx (he, h) =
        if_cases (All P) (ks.same k j) ((j, x) ∷ m) _ (λ _. (hx j, h))
          (λ _. (he, All-overwrite k x m hx h))

    pub All-get : (k : ks.Key) (m : Map ks E) (e : E) → get k m ≡ some e → All P m → P (k, e)
    All-get k [] e h a = cc
    All-get k ((j, f) ∷ m) e h (p, a) =
        if_cases (λ x. x ≡ some e → P (k, e)) (ks.same k j) (some f) (get k m)
          (λ same same_e.
            subst P (ap₂ (λ a b. (a, b)) (sym ((ks.same_iff k j).0 same)) (some_eq same_e)) p)
          (λ _ k_e. All-get k m e k_e a) h

  -- `min_by_key(|(_, e)| e.last_used)`: the first of the least.
  module _ (used : E → ℕ) where
    abbrev older : ks.Key × E → ks.Key × E → ks.Key × E
    older x y = if ltb (used y.1) (used x.1) then y else x

    abbrev pub oldest_of : ks.Key × E → Map ks E → ks.Key × E
    oldest_of x [] = x
    oldest_of x (y ∷ m) = oldest_of (older x y) m

    abbrev pub oldest : Map ks E → Option (ks.Key × E)
    oldest [] = none
    oldest (x ∷ m) = some (oldest_of x m)

    older-le :
        (x y : ks.Key × E) → (used (older x y).1 ≤ used x.1) × (used (older x y).1 ≤ used y.1)
    older-le x y = ground arith

    -- The least recently used entry is one of the map, and none was used before it.
    pub oldest_of-le :
        (x : ks.Key × E) (m : Map ks E)
        → (used (oldest_of x m).1 ≤ used x.1) × All (λ y. used (oldest_of x m).1 ≤ used y.1) m
    oldest_of-le x [] = (omega arith, tt)
    oldest_of-le x (y ∷ m) =
        let (a, b) = oldest_of-le (older x y) m in
        let (c, d) = older-le x y in (omega (arith, a, c), (omega (arith, a, d), b))

    pub oldest_of-IsIn : (x : ks.Key × E) (m : Map ks E) → IsIn (oldest_of x m) (x ∷ m)
    oldest_of-IsIn x [] = inl refl
    oldest_of-IsIn x (y ∷ m) =
        if_cases (λ z. IsIn (oldest_of z m) (z ∷ m) → IsIn (oldest_of z m) (x ∷ y ∷ m))
          (ltb (used y.1) (used x.1)) y x (λ _ h. inr h) (λ _. skip) (oldest_of-IsIn (older x y) m)
      where
        skip : {z : ks.Key × E} → IsIn z (x ∷ m) → IsIn z (x ∷ y ∷ m)
        skip (inl e) = inl e
        skip (inr h) = inr (inr h)
