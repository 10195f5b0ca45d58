-- ===== src/PlanCache/Lookup.antt =====
-- A lookup in the plan cache: what a hit has been checked against, and what a miss leaves.
use icegres.Prelude.{
  ◌⊎◌, inl, inr, ◌+◌, ◌≤◌, ◌<◌, ◌^◌, ◌≡◌, ◌↔◌, refl, ap, ◌∙◌, Option, none, some, [], ◌∷◌, Bool,
  true, false, ◌&&◌, All, arith,
}
use icegres.Prelude.Bytes.{add_u64}
use icegres.Prelude.Maps.{
  Keys, get, remove-Distinct, All-remove, overwrite-Distinct, length-overwrite, All-overwrite,
  get-remove, some_eq, length-remove, get-overwrite,
}
use icegres.PlanCache.{
  Entry, PlanCache, Tables, Resolver, CachedPlan, is_current, versions_current_with, insert,
  lookup_with, lookup_entry, lookup_found,
}
use icegres.PlanCache.Insert.{IsCache, ticked, insert-IsCache, new_entry}

module _ (vs : Keys) (resolve : Resolver vs) where
  -- Every table is at the version that the resolver knows.
  abbrev pub AreCurrent : Tables vs → Type 0
  AreCurrent ts = All (λ tv. resolve tv.0 ≡ some tv.1) ts

  is_current_iff : (o : Option vs.Key) (v : vs.Key) → (is_current vs o v ≡ true) ↔ (o ≡ some v)
  is_current_iff none v = ((λ h. cc), (λ h. cc))
  is_current_iff (some w) v =
      ((λ h. ap some ((vs.same_iff w v).0 h)), (λ h. (vs.same_iff w v).1 (some_eq h)))

  both : (a b : Bool) → (a && b) ≡ true → (a ≡ true) × (b ≡ true)
  both true true h = (refl, refl)
  both true false h = cc
  both false b h = cc

  pub versions_current_iff :
      (ts : Tables vs) → (versions_current_with vs ts resolve ≡ true) ↔ AreCurrent ts
  unfolding versions_current_with
  versions_current_iff [] = ((λ _. tt), (λ _. refl))
  versions_current_iff ((t, v) ∷ ts) = (
    (λ h.
        let (a, b) = both (is_current vs (resolve t) v) (versions_current_with vs ts resolve) h in
        ((is_current_iff (resolve t) v).0 a, (versions_current_iff ts).0 b)),
    (λ (a, b). rw ((is_current_iff (resolve t) v).1 a) ((versions_current_iff ts).1 b)),
  )

module _ (ks vs : Keys) {Plan Schema : Type 0} where
  -- What a lookup returns of the cache `c`, and the cache after it.
  abbrev pub IsAnswer :
      PlanCache ks vs Plan Schema
      → ks.Key
      → Resolver vs
      → Option (CachedPlan vs Plan Schema)
      → PlanCache ks vs Plan Schema
      → Type 0
  IsAnswer c k resolve none c' = (get ks k c'.entries ≡ none) × (c'.clock ≡ c.clock)
  IsAnswer c k resolve (some (plan, schema, tables)) c' =
      (e : Entry vs Plan Schema) × (get ks k c.entries ≡ some e)
      × ((e.plan ≡ plan) × (e.schema ≡ schema) × (e.tables ≡ tables))
      × AreCurrent vs resolve tables
      × (get ks k c'.entries ≡ some (record e { last_used = add_u64 c.clock 1 }))

  module _ (c : PlanCache ks vs Plan Schema) (k : ks.Key) (resolve : Resolver vs) where
    -- A lookup before the clock's last tick keeps a cache a cache. A hit returns the entry of the
    -- key, all of whose tables are at the versions that the resolver knows, and marks it as used
    -- now. A miss leaves no entry of the key and the clock as it was.
    pub lookup_with-IsAnswer :
        IsCache ks vs c
        → c.clock + 1 < 2 ^ 64
        → let (found, c') = lookup_with ks vs c k resolve in
          IsCache ks vs c' × IsAnswer c k resolve found c'
    unfolding lookup_with
    lookup_with-IsAnswer h ticks = found (get ks k c.entries) refl
      where
        checked :
            (e : Entry vs Plan Schema)
            → get ks k c.entries ≡ some e
            → (b : Bool) → versions_current_with vs e.tables resolve ≡ b
            → let (found, c') = lookup_entry ks vs c k e b in
              IsCache ks vs c' × IsAnswer c k resolve found c'
        checked e at false stale = (
          (
            remove-Distinct ks k c.entries h.0,
            omega (arith, length-remove ks k c.entries, h.1),
            All-remove ks (λ x. x.1.last_used ≤ c.clock) k c.entries h.2,
          ),
          (get-remove ks k c.entries, refl),
        )
        checked e at true fresh = (
          (
            overwrite-Distinct ks k _ c.entries h.0,
            omega (
              arith,
              length-overwrite ks k (record e { last_used = add_u64 c.clock 1 }) c.entries,
              h.1,
            ),
            All-overwrite ks (λ x. x.1.last_used ≤ add_u64 c.clock 1) k _ c.entries
                (λ _. omega arith)
                (ticked ks vs c.clock (add_u64 c.clock 1) (omega arith) c.entries h.2),
          ),
          (
            e,
            at,
            (refl, refl, refl),
            (versions_current_iff vs resolve e.tables).0 fresh,
            get-overwrite ks k _ c.entries e at,
          ),
        )

        found :
            (o : Option (Entry vs Plan Schema))
            → get ks k c.entries ≡ o
            → let (found, c') = lookup_found ks vs c k resolve o in
              IsCache ks vs c' × IsAnswer c k resolve found c'
        found none at = (h, (at, refl))
        found (some e) at = checked e at (versions_current_with vs e.tables resolve) refl

  hit :
      (c : PlanCache ks vs Plan Schema) (k : ks.Key) (resolve : Resolver vs)
      (e : Entry vs Plan Schema)
      → get ks k c.entries ≡ some e
      → versions_current_with vs e.tables resolve ≡ true
      → (lookup_with ks vs c k resolve).0 ≡ some (e.plan, e.schema, e.tables)
  unfolding lookup_with
  hit c k resolve e at current =
      ap (λ o. (lookup_found ks vs c k resolve o).0) at
      ∙ ap (λ b. (lookup_entry ks vs c k e b).0) current

  -- In a cache of a capacity above 0, before the clock's last tick: the plan that was just inserted
  -- is found, where the resolver knows its tables at the versions that it was inserted with.
  lookup_with-insert :
      (c : PlanCache ks vs Plan Schema) (k : ks.Key) (p : Plan) (s : Schema) (ts : Tables vs)
      (resolve : Resolver vs)
      → IsCache ks vs c
      → c.clock + 1 < 2 ^ 64
      → 0 < c.capacity
      → AreCurrent vs resolve ts
      → (lookup_with ks vs (insert ks vs c k p s ts) k resolve).0 ≡ some (p, s, ts)
  lookup_with-insert c k p s ts resolve h ticks room current =
      let (_, _, _, there) = insert-IsCache ks vs c k p s ts h ticks in found there
    where
      found :
          (c.capacity ≡ 0)
            ⊎ (get ks k (insert ks vs c k p s ts).entries ≡ some (new_entry ks vs c k p s ts))
          → (lookup_with ks vs (insert ks vs c k p s ts) k resolve).0 ≡ some (p, s, ts)
      found (inl none_fits) = absurd (omega arith)
      found (inr there) =
          hit (insert ks vs c k p s ts) k resolve _ there
            ((versions_current_iff vs resolve ts).1 current)
