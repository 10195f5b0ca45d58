-- ===== src/PlanCache.antt =====
-- icegres/src/plancache.rs: the cache of plans and the cache of results. Both are maps by statement
-- whose entries hold the tables of the statement at the versions that they were built against. A
-- plan, a schema and a batch of rows are values of types that are parameters; `PlanKey` and
-- `MetadataVersion` are types with equality. A clock is a `u64` and a size a `usize` of 64 bits.
pub mod Evict
pub mod Lookup
pub mod Insert
pub mod Budget
use icegres.Prelude.{
  ℕ, zero, suc, ◌-◌, ◌/◌, ◌≤◌, ◌≡◌, Option, none, some, List, [], ◌∷◌, Bool, true, false, not, ◌&&◌,
  ◌||◌, length, ltb, ◌==◌, if◌then◌else◌,
}
use icegres.Prelude.Bytes.{Bytes, add_u64}
use icegres.Prelude.Maps.{Keys, Map, get, remove, overwrite, put, oldest}

-- The tables of a statement, by their keys in the freshness registry, and their versions.
abbrev pub Tables : Keys → Type 0
Tables vs = List (Bytes × vs.Key)

abbrev pub Resolver : Keys → Type 0
Resolver vs = Bytes → Option vs.Key

module _ (vs : Keys) where
  -- `resolve(table).as_ref() == Some(version)`.
  abbrev pub is_current : Option vs.Key → vs.Key → Bool
  is_current none v = false
  is_current (some w) v = vs.same w v

  unfoldable pub versions_current_with : Tables vs → Resolver vs → Bool
  versions_current_with [] resolve = true
  versions_current_with ((t, v) ∷ ts) resolve =
      is_current (resolve t) v && versions_current_with ts resolve

pub record Entry (vs : Keys) (Plan Schema : Type 0) : Type 0 where
  pub plan : Plan
  pub schema : Schema
  pub tables : Tables vs
  pub last_used : ℕ

pub record PlanCache (ks vs : Keys) (Plan Schema : Type 0) : Type 0 where
  pub entries : Map ks (Entry vs Plan Schema)
  pub clock : ℕ
  pub capacity : ℕ

abbrev pub CachedPlan : Keys → Type 0 → Type 0 → Type 0
CachedPlan vs Plan Schema = Plan × Schema × Tables vs

module _ (ks vs : Keys) {Plan Schema : Type 0} where
  abbrev pub used : Entry vs Plan Schema → ℕ
  used e = e.last_used

  -- `while map.len() > self.capacity`; each round removes an entry.
  unfoldable pub evict : ℕ → ℕ → Map ks (Entry vs Plan Schema) → Map ks (Entry vs Plan Schema)
  evict zero capacity m = m
  evict (suc fuel) capacity m = elim (oldest ks used m) [
    | none ↦ m
    | some lru ↦
        let rest = evict fuel capacity (remove ks lru.0 m) in
        if ltb capacity (length m) then rest else m
  ]

  unfoldable pub insert :
      PlanCache ks vs Plan Schema → ks.Key → Plan → Schema → Tables vs → PlanCache ks vs Plan Schema
  unfolding evict
  insert c key plan schema tables =
      let clock = add_u64 c.clock 1 in
      let e : Entry vs Plan Schema = record {
        plan = plan;
        schema = schema;
        tables = tables;
        last_used = clock;
      } in
      let m = put ks key e c.entries in
      record c { entries = evict (length m) c.capacity m; clock = clock }

  -- A hit on the entry `e` of the key, where its versions are `current`.
  abbrev pub lookup_entry :
      PlanCache ks vs Plan Schema
      → ks.Key
      → Entry vs Plan Schema
      → Bool
      → Option (CachedPlan vs Plan Schema) × PlanCache ks vs Plan Schema
  lookup_entry c key e false = (none, record c { entries = remove ks key c.entries })
  lookup_entry c key e true =
      let clock = add_u64 c.clock 1 in
      (
        some (e.plan, e.schema, e.tables),
        record c {
          entries = overwrite ks key (record e { last_used = clock }) c.entries;
          clock = clock;
        },
      )

  abbrev pub lookup_found :
      PlanCache ks vs Plan Schema
      → ks.Key
      → Resolver vs
      → Option (Entry vs Plan Schema)
      → Option (CachedPlan vs Plan Schema) × PlanCache ks vs Plan Schema
  lookup_found c key resolve none = (none, c)
  lookup_found c key resolve (some e) =
      lookup_entry c key e (versions_current_with vs e.tables resolve)

  unfoldable pub lookup_with :
      PlanCache ks vs Plan Schema
      → ks.Key
      → Resolver vs
      → Option (CachedPlan vs Plan Schema) × PlanCache ks vs Plan Schema
  lookup_with c key resolve = lookup_found c key resolve (get ks key c.entries)

pub record ResultEntry (vs : Keys) (Batch Schema : Type 0) : Type 0 where
  pub batches : List Batch
  pub schema : Schema
  pub tables : Tables vs
  pub bytes : ℕ
  pub last_used : ℕ

pub record ResultCache (ks vs : Keys) (Batch Schema : Type 0) : Type 0 where
  pub map : Map ks (ResultEntry vs Batch Schema)
  pub clock : ℕ
  pub total_bytes : ℕ
  pub budget : ℕ

-- `per_result_cap`, which `from_env` sets.
abbrev pub per_result_cap : ℕ → ℕ
per_result_cap budget = budget / 4

abbrev pub is_empty : {A : Type 0} → List A → Bool
is_empty [] = true
is_empty (_ ∷ _) = false

module _ (ks vs : Keys) {Batch Schema : Type 0} where
  abbrev pub result_used : ResultEntry vs Batch Schema → ℕ
  result_used e = e.last_used

  abbrev pub bytes_of : Option (ResultEntry vs Batch Schema) → ℕ
  bytes_of none = 0
  bytes_of (some e) = e.bytes

  -- The removal of a key, with what its entry counted for taken off the total.
  abbrev pub remove_counted :
      ks.Key → Map ks (ResultEntry vs Batch Schema) × ℕ → Map ks (ResultEntry vs Batch Schema) × ℕ
  remove_counted key (m, total) = (remove ks key m, total - bytes_of (get ks key m))

  -- `while inner.total_bytes > self.budget`; each round removes an entry.
  unfoldable pub evict_bytes :
      ℕ → ℕ → Map ks (ResultEntry vs Batch Schema) × ℕ → Map ks (ResultEntry vs Batch Schema) × ℕ
  evict_bytes zero budget (m, total) = (m, total)
  evict_bytes (suc fuel) budget (m, total) = elim (oldest ks result_used m) [
    | none ↦ (m, total)
    | some lru ↦
        let rest = evict_bytes fuel budget (remove_counted lru.0 (m, total)) in
        if ltb budget total then rest else (m, total)
  ]

  unfoldable pub insert_result :
      ResultCache ks vs Batch Schema
      → ks.Key
      → List Batch
      → Schema
      → Tables vs
      → ℕ
      → ResultCache ks vs Batch Schema
  unfolding evict_bytes
  insert_result c key batches schema tables bytes =
      let (m, total) = remove_counted key (c.map, c.total_bytes) in
      let clock = add_u64 c.clock 1 in
      let e : ResultEntry vs Batch Schema = record {
        batches = batches;
        schema = schema;
        tables = tables;
        bytes = bytes;
        last_used = clock;
      } in
      let m' = put ks key e m in
      let (m'', total'') = evict_bytes (length m') c.budget (m', add_u64 total bytes) in
      if (c.budget == 0) || (bytes == 0) || ltb (per_result_cap c.budget) bytes || is_empty tables
      then c
      else record c { map = m''; clock = clock; total_bytes = total'' }

  abbrev pub lookup_result_entry :
      ResultCache ks vs Batch Schema
      → ks.Key
      → ResultEntry vs Batch Schema
      → Bool
      → Option (List Batch × Schema) × ResultCache ks vs Batch Schema
  lookup_result_entry c key e false =
      (none, record c { map = remove ks key c.map; total_bytes = c.total_bytes - e.bytes })
  lookup_result_entry c key e true =
      let clock = add_u64 c.clock 1 in
      (
        some (e.batches, e.schema),
        record c { map = overwrite ks key (record e { last_used = clock }) c.map; clock = clock },
      )

  abbrev pub lookup_result_found :
      ResultCache ks vs Batch Schema
      → ks.Key
      → Resolver vs
      → Option (ResultEntry vs Batch Schema)
      → Option (List Batch × Schema) × ResultCache ks vs Batch Schema
  lookup_result_found c key resolve none = (none, c)
  lookup_result_found c key resolve (some e) =
      lookup_result_entry c key e (versions_current_with vs e.tables resolve)

  unfoldable pub lookup_result :
      ResultCache ks vs Batch Schema
      → ks.Key
      → Resolver vs
      → Option (List Batch × Schema) × ResultCache ks vs Batch Schema
  lookup_result c key resolve =
      if c.budget == 0 then (none, c) else lookup_result_found c key resolve (get ks key c.map)
