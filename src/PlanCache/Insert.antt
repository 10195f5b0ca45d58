-- ===== src/PlanCache/Insert.antt =====
-- An insertion into the plan cache: the bound on the entries, the order of eviction, the new entry.
use icegres.Prelude.{
  ℕ, zero, suc, ◌+◌, ◌≤◌, ◌<◌, ◌^◌, ◌≡◌, refl, sym, ap, ◌∙◌, ◌⊎◌, inl, inr, some, [], ◌∷◌, length,
  ltb, if_cases, All, arith, min, subst, ltb→lt,
}
use icegres.Prelude.Bytes.{add_u64}
use icegres.Prelude.Maps.{
  Keys, Map, get, remove, put, oldest_of, Distinct, put-Distinct, remove-Distinct, All-remove,
}
use icegres.PlanCache.{Entry, PlanCache, Tables, used, evict, insert}
use icegres.PlanCache.Evict.{
  Evicts, kept, evicted, IsLru, Evicts-IsLru, Evicts-Distinct, Evicts-All, length-oldest,
}

module _ (ks vs : Keys) {Plan Schema : Type 0} where
  -- One entry for each key, no more of them than the capacity, none used behind the clock.
  abbrev pub IsCache : PlanCache ks vs Plan Schema → Type 0
  IsCache c =
      Distinct ks c.entries
      × (length c.entries ≤ c.capacity)
      × All (λ x. x.1.last_used ≤ c.clock) c.entries

  evict-Evicts :
      (fuel capacity : ℕ) (m : Map ks (Entry vs Plan Schema))
      → Evicts ks (used ks vs) m (evict ks vs fuel capacity m)
  unfolding evict
  evict-Evicts zero capacity m = kept
  evict-Evicts (suc fuel) capacity [] = kept
  evict-Evicts (suc fuel) capacity (x ∷ m) =
      let lru = oldest_of ks (used ks vs) x m in
      if_cases (Evicts ks (used ks vs) (x ∷ m)) (ltb capacity (length (x ∷ m))) _ _
        (λ _. evicted (evict-Evicts fuel capacity (remove ks lru.0 (x ∷ m)))) (λ _. kept)

  -- The loop goes on until the capacity is met, and no further.
  length-evict :
      (fuel capacity : ℕ) (m : Map ks (Entry vs Plan Schema))
      → Distinct ks m
      → length m ≤ fuel
      → length (evict ks vs fuel capacity m) ≡ min capacity (length m)
  unfolding evict
  length-evict zero capacity m d h = omega arith
  length-evict (suc fuel) capacity [] d h = omega arith
  length-evict (suc fuel) capacity (x ∷ m) d h =
      let lru = oldest_of ks (used ks vs) x m in
      let one = length-oldest ks (used ks vs) x m d in
      let rest =
        length-evict fuel capacity (remove ks lru.0 (x ∷ m)) (remove-Distinct ks lru.0 (x ∷ m) d)
          (omega arith) in
      if_cases (λ m'. length m' ≡ min capacity (length (x ∷ m))) (ltb capacity (length (x ∷ m)))
        (evict ks vs fuel capacity (remove ks lru.0 (x ∷ m))) (x ∷ m)
        (λ over. omega (arith, ltb→lt capacity (length (x ∷ m)) over)) (λ fits. ground arith)

  -- A map in which nothing was used but at `clock`, and that holds something, holds the new entry.
  only_new :
      (k : ks.Key) (e : Entry vs Plan Schema) (m : Map ks (Entry vs Plan Schema))
      → 0 < length m
      → All (λ x. x ≡ (k, e)) m
      → get ks k m ≡ some e
  only_new k e [] h a = absurd (omega arith)
  only_new k e ((j, f) ∷ m) h (at, a) =
      rw ((ks.same_iff k j).1 (sym (ap (λ x. x.0) at))) (ap some (ap (λ x. x.1) at))

  -- An entry is the new one, or was used before.
  abbrev OldOrNew : ks.Key → Entry vs Plan Schema → ℕ → ks.Key × Entry vs Plan Schema → Type 0
  OldOrNew k e clock x = (x ≡ (k, e)) ⊎ (x.1.last_used ≤ clock)

  later_is_new :
      (k : ks.Key) (e : Entry vs Plan Schema) (clock : ℕ) (m : Map ks (Entry vs Plan Schema))
      → All (OldOrNew k e clock) m
      → All (λ x. suc clock ≤ x.1.last_used) m
      → All (λ x. x ≡ (k, e)) m
  later_is_new k e clock [] a b = tt
  later_is_new k e clock (x ∷ m) (inl n, a) (_, b) = (n, later_is_new k e clock m a b)
  later_is_new k e clock (x ∷ m) (inr o, a) (l, b) = absurd (omega arith)

  old :
      (k : ks.Key) (e : Entry vs Plan Schema) (clock : ℕ) (m : Map ks (Entry vs Plan Schema))
      → All (λ x. x.1.last_used ≤ clock) m
      → All (OldOrNew k e clock) m
  old k e clock [] h = tt
  old k e clock (x ∷ m) (hx, h) = (inr hx, old k e clock m h)

  pub ticked :
      (a b : ℕ)
      → a ≤ b
      → (m : Map ks (Entry vs Plan Schema)) → All (λ x. x.1.last_used ≤ a) m
      → All (λ x. x.1.last_used ≤ b) m
  ticked a b l [] h = tt
  ticked a b l (x ∷ m) (hx, h) = (omega arith, ticked a b l m h)

  module _ (c : PlanCache ks vs Plan Schema) (k : ks.Key) (p : Plan) (s : Schema)
      (ts : Tables vs) where
    abbrev pub new_entry : Entry vs Plan Schema
    new_entry = record { plan = p; schema = s; tables = ts; last_used = add_u64 c.clock 1 }

    abbrev full : Map ks (Entry vs Plan Schema)
    full = put ks k new_entry c.entries

    -- Before the clock's last tick, an insertion into a cache keeps it a cache: one entry for each
    -- key, as many as the capacity at most. An entry that it evicts was used no later than any that
    -- stays, and it evicts no more than it must. A cache of a capacity above 0 holds the new entry.
    pub insert-IsCache :
        IsCache c
        → c.clock + 1 < 2 ^ 64
        → let c' = insert ks vs c k p s ts in
          IsCache c'
          × IsLru ks (used ks vs) (put ks k new_entry c.entries) c'.entries
          × (length c'.entries ≡ min c.capacity (length (put ks k new_entry c.entries)))
          × ((c.capacity ≡ 0) ⊎ (get ks k c'.entries ≡ some new_entry))
    unfolding insert
    insert-IsCache (d, l, u) ticks =
        let d' = put-Distinct ks k new_entry c.entries d in
        let gone = evict-Evicts (length full) c.capacity full in
        let size = length-evict (length full) c.capacity full d' (omega arith) in
        let lru = Evicts-IsLru ks (used ks vs) gone d' in
        let clock : add_u64 c.clock 1 ≡ c.clock + 1 = omega arith in
        let olds = All-remove ks (λ x. x.1.last_used ≤ c.clock) k c.entries u in
        let used_before =
          Evicts-All ks (used ks vs) (λ x. x.1.last_used ≤ add_u64 c.clock 1) gone
            (
              omega arith,
              ticked c.clock (add_u64 c.clock 1) (omega arith) (remove ks k c.entries) olds,
            ) in
        let bound : length (evict ks vs (length full) c.capacity full) ≤ c.capacity =
          omega (arith, size) in
        (
          (Evicts-Distinct ks (used ks vs) gone d', bound, used_before),
          lru,
          size,
          room c.capacity (λ some_room.
              stays gone olds clock (omega (arith, size, some_room))
                (lru k new_entry (rw ((ks.same_iff k k).1 refl) refl))),
        )
      where
        room : (n : ℕ) {P : Type 0} → (0 < n → P) → (n ≡ 0) ⊎ P
        room zero h = inl refl
        room (suc n) h = inr (h (omega arith))

        stays :
            {m : Map ks (Entry vs Plan Schema)}
            → Evicts ks (used ks vs) full m
            → All (λ x. x.1.last_used ≤ c.clock) (remove ks k c.entries)
            → add_u64 c.clock 1 ≡ c.clock + 1
            → 0 < length m
            → (get ks k m ≡ some new_entry) ⊎ All (λ x. add_u64 c.clock 1 ≤ x.1.last_used) m
            → get ks k m ≡ some new_entry
        stays gone olds clock some_left (inl at) = at
        stays {m} gone olds clock some_left (inr late) =
            let sorts =
              Evicts-All ks (used ks vs) (OldOrNew k new_entry c.clock) gone
                (inl refl, old k new_entry c.clock (remove ks k c.entries) olds) in
            only_new k new_entry m some_left (
              later_is_new k new_entry c.clock m sorts
                (subst (λ t. All (λ x. t ≤ x.1.last_used) m) (clock ∙ omega arith) late))
