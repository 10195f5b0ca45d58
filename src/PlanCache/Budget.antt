-- ===== src/PlanCache/Budget.antt =====
-- The byte budget of the result cache, over any history of its calls.
use icegres.Prelude.{
  ℕ, zero, suc, ◌+◌, ◌-◌, ◌≤◌, ◌<◌, ◌^◌, ◌≡◌, refl, sym, ap, ◌∙◌, Option, none, some, List, [], ◌∷◌,
  Bool, true, false, ◌||◌, length, All, arith, ltb, ◌==◌, if_cases, if◌then◌else◌,
}
use icegres.Prelude.Bytes.{add_u64}
use icegres.Prelude.Maps.{
  Keys, Map, get, remove, overwrite, put, Distinct, put-Distinct, remove-Distinct, All-remove,
  overwrite-Distinct, All-overwrite, All-get, oldest_of, remove-none, get-remove, some_eq,
}
use icegres.PlanCache.{
  ResultEntry, ResultCache, Tables, Resolver, is_empty, per_result_cap, result_used, bytes_of,
  remove_counted, evict_bytes, insert_result, lookup_result, lookup_result_entry,
  lookup_result_found, versions_current_with,
}
use icegres.PlanCache.Evict.{Evicts, kept, evicted, Evicts-Distinct, Evicts-All, length-oldest}

-- A call of the result cache.
pub data Call (ks vs : Keys) (Batch Schema : Type 0) : Type 0 where
  inserted : ks.Key → List Batch → Schema → Tables vs → ℕ → Call ks vs Batch Schema
  looked_up : ks.Key → Resolver vs → Call ks vs Batch Schema

module _ (ks vs : Keys) {Batch Schema : Type 0} where
  abbrev pub total_of : Map ks (ResultEntry vs Batch Schema) → ℕ
  total_of [] = 0
  total_of ((k, e) ∷ m) = e.bytes + total_of m

  total_of-remove :
      (k : ks.Key) (m : Map ks (ResultEntry vs Batch Schema))
      → Distinct ks m
      → total_of (remove ks k m) + bytes_of ks vs (get ks k m) ≡ total_of m
  total_of-remove k [] d = omega arith
  total_of-remove k ((j, e) ∷ m) (new, d) =
      if_cases
        (λ r.
          total_of r + bytes_of ks vs (if ks.same k j then some e else get ks k m)
          ≡ e.bytes + total_of m)
        (ks.same k j) (remove ks k m) ((j, e) ∷ remove ks k m)
        (λ y.
          let gone : get ks k m ≡ none = ap (λ x. get ks x m) ((ks.same_iff k j).0 y) ∙ new in
          rw (y, remove-none ks k m gone) (omega arith))
        (λ n. rw n (omega (arith, total_of-remove k m d)))

  total_of-overwrite :
      (k : ks.Key) (e : ResultEntry vs Batch Schema) (clock : ℕ)
      (m : Map ks (ResultEntry vs Batch Schema))
      → get ks k m ≡ some e
      → total_of (overwrite ks k (record e { last_used = clock }) m) ≡ total_of m
  total_of-overwrite k e clock [] h = refl
  total_of-overwrite k e clock ((j, f) ∷ m) h =
      if_cases
        (λ o.
          o ≡ some e
          → total_of (
              if ks.same k j
              then (j, record e { last_used = clock }) ∷ m
              else (j, f) ∷ overwrite ks k (record e { last_used = clock }) m)
            ≡ f.bytes + total_of m)
        (ks.same k j) (some f) (get ks k m)
        (λ y g.
          rw y (ap (λ (x : ResultEntry vs Batch Schema). x.bytes + total_of m) (sym (some_eq g))))
        (λ n g. rw n (omega (arith, total_of-overwrite k e clock m g))) h

  -- The map and the count after the eviction loop.
  record Evicted (budget : ℕ) (m : Map ks (ResultEntry vs Batch Schema))
      (r : Map ks (ResultEntry vs Batch Schema) × ℕ) : Type 0 where
    gone : Evicts ks (result_used ks vs) m r.0
    counted : r.1 ≡ total_of r.0
    within : r.1 ≤ budget

  evict_bytes-Evicted :
      (fuel budget : ℕ) (m : Map ks (ResultEntry vs Batch Schema)) (total : ℕ)
      → Distinct ks m
      → total ≡ total_of m
      → length m ≤ fuel
      → Evicted budget m (evict_bytes ks vs fuel budget (m, total))
  unfolding evict_bytes
  evict_bytes-Evicted zero budget [] total d t l = record {
    gone = kept;
    counted = t;
    within = omega arith;
  }
  evict_bytes-Evicted zero budget (x ∷ m) total d t l = absurd (omega arith)
  evict_bytes-Evicted (suc fuel) budget [] total d t l = record {
    gone = kept;
    counted = t;
    within = omega arith;
  }
  evict_bytes-Evicted (suc fuel) budget (x ∷ m) total d t l =
      let lru = oldest_of ks (result_used ks vs) x m in
      let one = length-oldest ks (result_used ks vs) x m d in
      let less = total_of-remove lru.0 (x ∷ m) d in
      let rest =
        evict_bytes-Evicted fuel budget (remove ks lru.0 (x ∷ m))
          (total - bytes_of ks vs (get ks lru.0 (x ∷ m))) (remove-Distinct ks lru.0 (x ∷ m) d)
          (omega arith) (omega arith) in
      if_cases (Evicted budget (x ∷ m)) (ltb budget total)
        (evict_bytes ks vs fuel budget (remove_counted ks vs lru.0 (x ∷ m, total))) (x ∷ m, total)
        (λ _. record { gone = evicted rest.gone; counted = rest.counted; within = rest.within })
        (λ fits. record { gone = kept; counted = t; within = ground arith })

  -- One entry for each statement; what the cache counts is what its entries hold, within the budget;
  -- and none of them holds nothing or more than a quarter of it.
  abbrev pub IsBudgeted : ResultCache ks vs Batch Schema → Type 0
  IsBudgeted c =
      Distinct ks c.map
      × (c.total_bytes ≡ total_of c.map)
      × (c.total_bytes ≤ c.budget)
      × All (λ x. (0 < x.1.bytes) × (x.1.bytes ≤ per_result_cap c.budget)) c.map

  insert_result-IsBudgeted :
      (c : ResultCache ks vs Batch Schema) (k : ks.Key) (bs : List Batch) (s : Schema)
      (ts : Tables vs) (bytes : ℕ)
      → c.budget < 2 ^ 63
      → IsBudgeted c
      → IsBudgeted (insert_result ks vs c k bs s ts bytes)
  unfolding insert_result
  insert_result-IsBudgeted c k bs s ts bytes small (d, t, w, a) =
      let e : ResultEntry vs Batch Schema = record {
        batches = bs;
        schema = s;
        tables = ts;
        bytes = bytes;
        last_used = add_u64 c.clock 1;
      } in
      let m = put ks k e (remove ks k c.map) in
      let total = c.total_bytes - bytes_of ks vs (get ks k c.map) in
      let d' = put-Distinct ks k e (remove ks k c.map) (remove-Distinct ks k c.map d) in
      let again = remove-none ks k (remove ks k c.map) (get-remove ks k c.map) in
      let counted : bytes ≤ per_result_cap c.budget → add_u64 total bytes ≡ total_of m =
        λ l. omega (arith, total_of-remove k c.map d, ap total_of again) in
      let P = λ (x : ks.Key × ResultEntry vs Batch Schema).
        (0 < x.1.bytes) × (x.1.bytes ≤ per_result_cap c.budget) in
      let kept_all = All-remove ks P k (remove ks k c.map) (All-remove ks P k c.map a) in
      if_cases IsBudgeted
        ((c.budget == 0) || (bytes == 0) || ltb (per_result_cap c.budget) bytes || is_empty ts) _ _
        (λ _. (d, t, w, a))
        (λ fits.
          let l : (0 < bytes) × (bytes ≤ per_result_cap c.budget) = ground arith in
          let v =
            evict_bytes-Evicted (length m) c.budget m (add_u64 total bytes) d' (counted l.1)
              (omega arith) in
          (
            Evicts-Distinct ks (result_used ks vs) v.gone d',
            v.counted,
            v.within,
            Evicts-All ks (result_used ks vs) P v.gone (l, kept_all),
          ))

  lookup_result-IsBudgeted :
      (c : ResultCache ks vs Batch Schema) (k : ks.Key) (resolve : Resolver vs)
      → IsBudgeted c
      → IsBudgeted (lookup_result ks vs c k resolve).1
  unfolding lookup_result
  lookup_result-IsBudgeted c k resolve h =
      if_cases
        (λ (x : Option (List Batch × Schema) × ResultCache ks vs Batch Schema). IsBudgeted x.1)
        (c.budget == 0) _ _ (λ _. h) (λ _. found (get ks k c.map) refl)
    where
      checked :
          (e : ResultEntry vs Batch Schema)
          → get ks k c.map ≡ some e
          → (b : Bool) → IsBudgeted (lookup_result_entry ks vs c k e b).1
      checked e at false =
          let (d, t, w, a) = h in
          let left : bytes_of ks vs (get ks k c.map) ≡ e.bytes = ap (bytes_of ks vs) at in
          (
            remove-Distinct ks k c.map d,
            omega (arith, total_of-remove k c.map d, left),
            omega arith,
            All-remove ks _ k c.map a,
          )
      checked e at true =
          let (d, t, w, a) = h in
          (
            overwrite-Distinct ks k _ c.map d,
            t ∙ sym (total_of-overwrite k e (add_u64 c.clock 1) c.map at),
            w,
            All-overwrite ks (λ x. (0 < x.1.bytes) × (x.1.bytes ≤ per_result_cap c.budget)) k
                (record e { last_used = add_u64 c.clock 1 }) c.map
                (λ _.
                  All-get ks (λ x. (0 < x.1.bytes) × (x.1.bytes ≤ per_result_cap c.budget)) k c.map
                    e at a)
                a,
          )

      found :
          (o : Option (ResultEntry vs Batch Schema))
          → get ks k c.map ≡ o
          → IsBudgeted (lookup_result_found ks vs c k resolve o).1
      found none at = h
      found (some e) at = checked e at (versions_current_with vs e.tables resolve)

  unfoldable pub after_calls :
      ResultCache ks vs Batch Schema
      → List (Call ks vs Batch Schema)
      → ResultCache ks vs Batch Schema
  after_calls c [] = c
  after_calls c (inserted k bs s ts bytes ∷ calls) =
      after_calls (insert_result ks vs c k bs s ts bytes) calls
  after_calls c (looked_up k resolve ∷ calls) =
      after_calls (lookup_result ks vs c k resolve).1 calls

  insert_result-budget :
      (c : ResultCache ks vs Batch Schema) (k : ks.Key) (bs : List Batch) (s : Schema)
      (ts : Tables vs) (bytes : ℕ)
      → (insert_result ks vs c k bs s ts bytes).budget ≡ c.budget
  unfolding insert_result
  insert_result-budget c k bs s ts bytes =
      if_cases (λ (x : ResultCache ks vs Batch Schema). x.budget ≡ c.budget)
        ((c.budget == 0) || (bytes == 0) || ltb (per_result_cap c.budget) bytes || is_empty ts) _ _
        (λ _. refl) (λ _. refl)

  lookup_result-budget :
      (c : ResultCache ks vs Batch Schema) (k : ks.Key) (resolve : Resolver vs)
      → (lookup_result ks vs c k resolve).1.budget ≡ c.budget
  unfolding lookup_result
  lookup_result-budget c k resolve =
      if_cases
        (λ (x : Option (List Batch × Schema) × ResultCache ks vs Batch Schema).
          x.1.budget ≡ c.budget)
        (c.budget == 0) _ _ (λ _. refl) (λ _. found (get ks k c.map))
    where
      checked :
          (e : ResultEntry vs Batch Schema) (b : Bool)
          → (lookup_result_entry ks vs c k e b).1.budget ≡ c.budget
      checked e false = refl
      checked e true = refl

      found :
          (o : Option (ResultEntry vs Batch Schema))
          → (lookup_result_found ks vs c k resolve o).1.budget ≡ c.budget
      found none = refl
      found (some e) = checked e (versions_current_with vs e.tables resolve)

  -- Whatever the calls, insertions and lookups in any order, on a result cache that was within its
  -- budget, the budget below the half of `usize`: there is one entry for each statement, the total
  -- that the cache counts is the sum of what its entries hold and within the budget, and no entry
  -- holds nothing or more than a quarter of the budget.
  pub after_calls-IsBudgeted :
      (c : ResultCache ks vs Batch Schema) (calls : List (Call ks vs Batch Schema))
      → c.budget < 2 ^ 63
      → IsBudgeted c
      → IsBudgeted (after_calls c calls)
  unfolding after_calls
  after_calls-IsBudgeted c [] small h = h
  after_calls-IsBudgeted c (inserted k bs s ts bytes ∷ calls) small h =
      after_calls-IsBudgeted (insert_result ks vs c k bs s ts bytes) calls
        (rw (insert_result-budget c k bs s ts bytes) small)
        (insert_result-IsBudgeted c k bs s ts bytes small h)
  after_calls-IsBudgeted c (looked_up k resolve ∷ calls) small h =
      after_calls-IsBudgeted (lookup_result ks vs c k resolve).1 calls
        (rw (lookup_result-budget c k resolve) small) (lookup_result-IsBudgeted c k resolve h)
