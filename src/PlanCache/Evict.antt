-- ===== src/PlanCache/Evict.antt =====
-- Eviction in the order of last use: what goes was used no later than what stays.
use icegres.Prelude.{
  ℕ, suc, ◌≤◌, ◌≡◌, sym, ap, ◌∙◌, ◌⊎◌, inl, inr, some, ◌∷◌, true, false, length, All, Bool-cases,
  subst,
}
use icegres.Prelude.Maps.{
  Keys, Map, get, remove, oldest_of, oldest_of-le, oldest_of-IsIn, get-IsIn, Distinct,
  remove-Distinct, All-remove, get-remove_other, length-remove-some, some_eq,
}

module _ (ks : Keys) {E : Type 0} (used : E → ℕ) where
  -- `m'` is what stays of `m` after so many removals of its least recently used entry.
  pub data Evicts : Map ks E → Map ks E → Type 0 where
    kept : {m : Map ks E} → Evicts m m
    evicted :
        {x : ks.Key × E} {m m' : Map ks E}
        → Evicts (remove ks (oldest_of ks used x m).0 (x ∷ m)) m'
        → Evicts (x ∷ m) m'

  -- An entry that is gone was used no later than any that stayed.
  abbrev pub IsLru : Map ks E → Map ks E → Type 0
  IsLru m m' =
      (k : ks.Key) (e : E)
      → get ks k m ≡ some e
      → (get ks k m' ≡ some e) ⊎ All (λ x. used e ≤ used x.1) m'

  pub Evicts-All : (P : ks.Key × E → Type 0) {m m' : Map ks E} → Evicts m m' → All P m → All P m'
  Evicts-All P kept h = h
  Evicts-All P (evicted {x} {m} s) h =
      Evicts-All P s (All-remove ks P (oldest_of ks used x m).0 (x ∷ m) h)

  pub Evicts-Distinct : {m m' : Map ks E} → Evicts m m' → Distinct ks m → Distinct ks m'
  Evicts-Distinct kept h = h
  Evicts-Distinct (evicted {x} {m} s) h =
      Evicts-Distinct s (remove-Distinct ks (oldest_of ks used x m).0 (x ∷ m) h)

  pub Evicts-IsLru : {m m' : Map ks E} → Evicts m m' → Distinct ks m → IsLru m m'
  Evicts-IsLru kept h k e at = inl at
  Evicts-IsLru (evicted {x} {m} {m'} s) h k e at =
      either (Evicts-IsLru s (remove-Distinct ks (oldest_of ks used x m).0 (x ∷ m) h) k e)
        (Bool-cases (ks.same k (oldest_of ks used x m).0))
    where
      lru : ks.Key × E
      lru = oldest_of ks used x m

      found : get ks lru.0 (x ∷ m) ≡ some lru.1
      found = get-IsIn ks lru.0 lru.1 (x ∷ m) h (oldest_of-IsIn ks used x m)

      least : All (λ y. used lru.1 ≤ used y.1) (x ∷ m)
      least = oldest_of-le ks used x m

      either :
          (get ks k (remove ks lru.0 (x ∷ m)) ≡ some e
            → (get ks k m' ≡ some e) ⊎ All (λ x. used e ≤ used x.1) m')
          → (ks.same k lru.0 ≡ true) ⊎ (ks.same k lru.0 ≡ false)
          → (get ks k m' ≡ some e) ⊎ All (λ x. used e ≤ used x.1) m'
      either rest (inl y) =
          let same : e ≡ lru.1 =
            some_eq (sym at ∙ ap (λ j. get ks j (x ∷ m)) ((ks.same_iff k lru.0).0 y) ∙ found) in
          inr (
            Evicts-All (λ z. used e ≤ used z.1) s
              (All-remove ks (λ z. used e ≤ used z.1) lru.0 (x ∷ m)
                (subst (λ f. All (λ z. used f ≤ used z.1) (x ∷ m)) (sym same) least)))
      either rest (inr n) = rest (get-remove_other ks lru.0 k (x ∷ m) n ∙ at)

  -- A round removes one entry.
  pub length-oldest :
      (x : ks.Key × E) (m : Map ks E)
      → Distinct ks (x ∷ m)
      → length (x ∷ m) ≡ suc (length (remove ks (oldest_of ks used x m).0 (x ∷ m)))
  length-oldest x m h =
      let lru = oldest_of ks used x m in
      length-remove-some ks lru.0 (x ∷ m) lru.1 h
        (get-IsIn ks lru.0 lru.1 (x ∷ m) h (oldest_of-IsIn ks used x m))
