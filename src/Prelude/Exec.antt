-- ===== src/Prelude/Exec.antt =====
-- Methods that mutate an object and may fail: what was written before a failure stays written, so
-- the object comes back beside the error too.
use mathlib.Core.Path.{◌≡◌, refl}
use mathlib.Core.Logic.{◌⊎◌, inl, inr}
use mathlib.Core.Bool.{Bool, true, false}
use icegres.Prelude.Tests.{if◌then◌else◌}
use icegres.Prelude.Results.{Result, ok, err, err-ne-ok}

abbrev pub Exec {ℓ} : Type ℓ → Type ℓ → Type ℓ → Type ℓ
Exec E S A = S → Result E A × S

module _ {ℓ} {E S A : Type ℓ} where
  abbrev pub pure : A → Exec E S A
  pure a s = (ok a, s)

  abbrev pub raise : E → Exec E S A
  raise e s = (err e, s)

  abbrev pub gets : (S → A) → Exec E S A
  gets f s = (ok (f s), s)

  abbrev pub lift : Result E A → Exec E S A
  lift r s = (r, s)

module _ {ℓ} {E S : Type ℓ} where
  abbrev pub modify : (S → S) → Exec E S (Unit {ℓ})
  modify f s = (ok tt, f s)

module _ {ℓ} {E S A B : Type ℓ} where
  abbrev pub continue : Result E A → (A → Exec E S B) → Exec E S B
  continue (ok a) f s = f a s
  continue (err e) f s = (err e, s)

  infixl 10 ◌>>=◌
  abbrev pub ◌>>=◌ : Exec E S A → (A → Exec E S B) → Exec E S B
  ◌>>=◌ first next s = let (r, s') = first s in continue r next s'

module _ {ℓ} {E S B : Type ℓ} where
  infixl 10 ◌>>◌
  abbrev pub ◌>>◌ : Exec E S (Unit {ℓ}) → Exec E S B → Exec E S B
  first >> rest = first >>= λ _. rest

module _ {ℓ} {E S A B : Type ℓ} where
  continue-ok :
      (r : Result E A) (next : A → Exec E S B) (s : S) {b : B}
      → (continue r next s).0 ≡ ok b
      → (a : A) × (r ≡ ok a) × ((next a s).0 ≡ ok b)
  continue-ok (ok a) next s h = (a, refl, h)
  continue-ok (err e) next s h = cc

  -- A method that succeeds has succeeded in each of its steps.
  pub >>=-ok :
      (first : Exec E S A) (next : A → Exec E S B) (s : S) {b : B}
      → (◌>>=◌ first next s).0 ≡ ok b
      → (a : A) × ((first s).0 ≡ ok a) × ((next a (first s).1).0 ≡ ok b)
  >>=-ok first next s h = continue-ok (first s).0 next (first s).1 h

module _ {ℓ} {E S A : Type ℓ} where
  pub if-ok :
      (t : Bool) (x y : Exec E S A) (s : S) {a : A}
      → ((if t then x else y) s).0 ≡ ok a
      → ((x s).0 ≡ ok a) ⊎ ((y s).0 ≡ ok a)
  if-ok true x y s h = inl h
  if-ok false x y s h = inr h

module _ {ℓ κ} {E S A B : Type ℓ} where
  continue-cases :
      {P : Type κ} {b : B} (r : Result E A) (next : A → Exec E S B) (s : S)
      → (continue r next s).0 ≡ ok b
      → ((a : A) → r ≡ ok a → (next a s).0 ≡ ok b → P)
      → P
  continue-cases (ok a) next s h k = k a refl h
  continue-cases (err e) next s h k = absurd (err-ne-ok h)

  -- The same with the value and the state behind it as variables.
  pub >>=-cases :
      {P : Type κ} (first : Exec E S A) (next : A → Exec E S B) (s : S) {b : B}
      → (◌>>=◌ first next s).0 ≡ ok b
      → ((a : A) (s' : S) → (first s).0 ≡ ok a → (next a s').0 ≡ ok b → P)
      → P
  >>=-cases first next s h k = continue-cases (first s).0 next (first s).1 h (λ a. k a (first s).1)
